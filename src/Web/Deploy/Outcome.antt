-- ===== src/Web/Deploy/Outcome.antt =====
-- How a deployment ends: where it can stop, what the user is shown then, and what the vault keeps.
use flare_studio.Base.{
  ℕ, true, false, refl, some, List, Result, ok, err, ◌≡◌, ◌≢◌, ◌⊎◌, inl, inr, ◌∙◌, ap, arith,
}
use flare_studio.Web.Steps.{
  StepId, deploy, configure, approve, deposit, StepStatus, pending, done, skipped, error, board,
  statuses, set_status,
}
use flare_studio.Web.StorePolicy.{Call}
use flare_studio.Web.TriggerSetup.{
  DeployError, DeployFailure, deploy_failure, other_failure, trigger_address,
}
use flare_studio.Web.Vault.{VaultEntry, get_entry, save_entry}
use flare_studio.Web.Thrown.{Thrown}
use flare_studio.Web.Transactions.{
  wallet_client, no_wallet, Env, DeployOptions, Run, thrown_as, throwing,
}
use flare_studio.Web.Deploy.Progress.{Shows, Settled, Ends}

-- The deposit and its approval were both made, or both skipped for want of an amount.
abbrev pub Funded : ℕ → StepStatus → Type 0
Funded amount s = ((amount ≡ 0) × (s ≡ skipped)) ⊎ ((amount ≢ 0) × (s ≡ done))

-- The vault holds the entry under the policy, or, if the hand-off was skipped, the entry up to the
-- record of its hand-off.
abbrev pub Stored : VaultEntry → StepStatus → List VaultEntry → Type 0
Stored entry handing vault =
    (stored : VaultEntry) × (get_entry entry.policy vault ≡ some stored)
    × ((stored ≡ entry)
        ⊎ ((handing ≡ skipped) × (record stored { handoff = entry.handoff } ≡ entry)))

module _ {W : Type 0} where
  -- The vault holds the salt and the private configuration under the policy.
  abbrev pub Keeps : DeployOptions → VaultEntry → StepStatus → Run W → Type 0
  Keeps options entry handing run =
      (entry.salt ≡ options.salt)
      × (entry.private_config ≡ options.compiled.private_config)
      × Stored entry handing run.vault

  -- The deployment returned: its entry, and the steps at the end.
  abbrev pub Finished : DeployOptions → VaultEntry → Run W → Type 0
  Finished options entry run =
      (sealing : StepStatus) × (handing : StepStatus) × (funding : StepStatus) × Settled sealing
      × Settled handing
      × Funded options.amount funding
      × (statuses run.steps ≡ board sealing done done handing funding funding)
      × Keeps options entry handing run

  -- It stopped before the policy was there to be kept: the vault is as it was.
  abbrev pub StoppedEarly : List VaultEntry → DeployError → Run W → Type 0
  StoppedEarly vault e run =
      (run.vault ≡ vault)
      × (sealing : StepStatus) × Settled sealing
      × (((e.step ≡ deploy)
            × (statuses run.steps ≡ board sealing error pending pending pending pending))
          ⊎ ((e.step ≡ configure)
              × (statuses run.steps ≡ board sealing done error pending pending pending)))

  -- It stopped while it was funded: the entry is in the vault.
  abbrev pub StoppedLate : DeployOptions → DeployError → Run W → Type 0
  StoppedLate options e run =
      (entry : VaultEntry) × (sealing : StepStatus) × (handing : StepStatus) × Settled sealing
      × Settled handing
      × Keeps options entry handing run
      × (((e.step ≡ approve) × (statuses run.steps ≡ board sealing done done handing error pending))
          ⊎ ((e.step ≡ deposit)
              × (statuses run.steps ≡ board sealing done done handing done error)))

  pub wallet_client-ok :
      (env : Env W) (world : W) → env.injected world ≡ true → wallet_client env world ≡ ok tt
  unfolding wallet_client
  wallet_client-ok env world there = rw there refl

  pub wallet_client-err :
      (env : Env W) (world : W)
      → env.injected world ≡ false
      → wallet_client env world ≡ err no_wallet
  unfolding wallet_client
  wallet_client-err env world missing = rw missing refl

  -- Nothing was done: there is no wallet, or the trigger has no contract.
  abbrev pub NotStarted : Env W → DeployOptions → W → DeployFailure → Type 0
  NotStarted env options world failure =
      ((env.injected world ≡ false) × (failure ≡ other_failure no_wallet))
      ⊎ ((e : DeployError) × (trigger_address env.addresses options.compiled.ir.trigger ≡ err e)
          × (failure ≡ deploy_failure e))

  -- The end of a deployment that no call outside a `try` stopped.
  abbrev pub Ended :
      DeployOptions → List VaultEntry → Result DeployError VaultEntry × Run W → Type 0
  Ended options vault (ok entry, run) = Finished options entry run
  Ended options vault (err e, run) = StoppedEarly vault e run ⊎ StoppedLate options e run

  -- The storage did not take the entry, by the exception `t`: the trigger is set up, no later step has
  -- started, and the vault is as it was.
  abbrev pub Unsaved : Env W → DeployOptions → List VaultEntry → Thrown → Run W → Type 0
  Unsaved env options vault t run =
      (run.vault ≡ vault)
      × (sealing : StepStatus) × Settled sealing
      × (statuses run.steps ≡ board sealing done done pending pending pending)
      × (entry : VaultEntry) × (entry.salt ≡ options.salt)
      × (env.store (save_entry entry vault) run.world ≡ err t)

  abbrev pub Outcome :
      Env W → DeployOptions → List VaultEntry → Result DeployFailure VaultEntry × Run W → Type 0
  Outcome env options vault (ok entry, run) = Finished options entry run
  Outcome env options vault (err (deploy_failure e), run) =
      StoppedEarly vault e run ⊎ StoppedLate options e run
  Outcome env options vault (err (other_failure t), run) = Unsaved env options vault t run

  pub Outcome-throwing :
      (env : Env W) (options : DeployOptions) (vault : List VaultEntry)
      (r : Result DeployError VaultEntry × Run W)
      → Ended options vault r
      → Outcome env options vault (throwing deploy_failure r)
  unfolding thrown_as
  Outcome-throwing env options vault (ok entry, run) h = h
  Outcome-throwing env options vault (err e, run) h = h

  -- The two ends of a stage, told apart by its result.
  pub Ends-err :
      {A : Type 0} (id : StepId) (b : List (StepId × StepStatus)) (calls : List Call) (run : Run W)
      (r : Result DeployError A × Run W) (e : DeployError)
      → Ends id b calls run r
      → r.0 ≡ err e
      → (e.step ≡ id) × Shows (set_status id (some error) b) calls run r.1
  Ends-err id b calls run r e (inl ((a, returned), shown)) threw = cc
  Ends-err id b calls run r e (inr ((e', threw', at), shown)) threw =
      let same : e ≡ e' = ground arith in (rw same at, shown)

  pub Ends-ok :
      {A : Type 0} (id : StepId) (b : List (StepId × StepStatus)) (calls : List Call) (run : Run W)
      (r : Result DeployError A × Run W) (a : A)
      → Ends id b calls run r
      → r.0 ≡ ok a
      → Shows (set_status id (some done) b) calls run r.1
  Ends-ok id b calls run r a (inl (found, shown)) returned = shown
  Ends-ok id b calls run r a (inr ((e, threw, at), shown)) returned = cc

  -- The vault keeps what it kept if it is the same.
  pub Keeps-same :
      (options : DeployOptions) (entry : VaultEntry) (handing : StepStatus) (run run' : Run W)
      → run'.vault ≡ run.vault
      → Keeps options entry handing run
      → Keeps options entry handing run'
  Keeps-same options entry d run run' e (salt, config, (stored, there, same)) =
      (salt, config, (stored, ap (get_entry entry.policy) e ∙ there, same))
