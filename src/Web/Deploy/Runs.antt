-- ===== src/Web/Deploy/Runs.antt =====
-- The whole deployment.
use flare_studio.Base.Text.{Text}
use flare_studio.Base.{
  ◌▷◌, Option, List, [], err, ◌≡◌, ◌⊎◌, inl, inr, refl, sym, ◌∙◌, ap, Result-cases, Bool-cases,
}
use flare_studio.Web.Steps.{
  StepId, deploy, configure, StepStatus, pending, done, board, statuses, initial_steps, same_step,
  patched,
}
use flare_studio.Web.TriggerSetup.{DeployFailure, deploy_failure, other_failure, trigger_address}
use flare_studio.Web.Vault.{VaultEntry, save_entry}
use flare_studio.Web.Vault.Entries.{get_entry-save_entry}
use flare_studio.Web.Transactions.{
  no_wallet, Env, DeployOptions, Run, thrown_as, throwing, throwing-cases,
}
use flare_studio.Web.Deploy.{
  deploy_stage, configure_stage, entry_of, handoff_stage, finish_stage, plaintext_of, deploy_with,
  deploy_policy,
}
use flare_studio.Web.Deploy.Progress.{Settled}
use flare_studio.Web.Deploy.Stages.{deploy_stage-Ends, configure_stage-Ends, seal_stage-Settles}
use flare_studio.Web.Deploy.Handoff.{
  save_stage_takes, save_stage_throws, HandsOff, handoff_stage-HandsOff,
}
use flare_studio.Web.Deploy.Outcome.{
  wallet_client-ok, wallet_client-err, NotStarted, Keeps, Outcome, Outcome-throwing, Ends-err,
  Ends-ok,
}
use flare_studio.Web.Deploy.Funding.{fund_stage-Ended}

module _ {W : Type 0} (env : Env W) (options : DeployOptions) where
  Keeps-handed :
      (entry : VaultEntry) (b : List (StepId × StepStatus)) (r : VaultEntry × Run W)
      → entry.salt ≡ options.salt
      → entry.private_config ≡ options.compiled.private_config
      → (h : HandsOff b entry r) → Keeps options r.0 h.status r.1
  Keeps-handed entry b r salt config h =
      (h.same.salt_is ∙ salt, h.same.config_is ∙ config, h.in_vault)

  finish_stage-Outcome :
      (vault : List VaultEntry) (entry : VaultEntry) (a : StepStatus) (run : Run W)
      → Settled a
      → statuses run.steps ≡ board a done done pending pending pending
      → entry.salt ≡ options.salt
      → entry.private_config ≡ options.compiled.private_config
      → run.vault ≡ vault
      → Outcome env options vault (finish_stage env options entry run)
  unfolding finish_stage same_step patched thrown_as
  finish_stage-Outcome vault entry a run sa h salt config hv =
      let b = board a done done pending pending pending in
      let saved : Run W = record run { vault = save_entry entry run.vault } in
      let kept = get_entry-save_entry entry entry.policy run.vault refl in
      let handed = handoff_stage-HandsOff env b entry entry.ciphertext saved h kept in
      elim (Result-cases (env.store saved.vault run.world)) [
        | inr (t, e) ↦
            rw (save_stage_throws env entry run t e, finish_stage)
              (
                hv,
                a,
                sa,
                h,
                entry,
                salt,
                ap (λ v. env.store (save_entry entry v) run.world) (sym hv) ∙ e,
              )
        | inl (u, e) ↦
            rw (save_stage_takes env entry run u e, finish_stage)
              (Outcome-throwing env options vault _ (
                fund_stage-Ended env options vault _ a handed.status _ sa handed.settled
                  handed.statuses_are
                  (Keeps-handed entry b (handoff_stage env entry entry.ciphertext saved) salt config
                    handed)))
      ]

  configured-Outcome :
      (trigger policy deploy_tx : Text) (ciphertext : Option Text) (a : StepStatus)
      (vault : List VaultEntry) (run : Run W)
      → Settled a
      → statuses run.steps ≡ board a done pending pending pending pending
      → run.vault ≡ vault
      → Outcome env options vault (
          throwing deploy_failure (configure_stage env options trigger policy run) ▷ λ _ configured.
          finish_stage env options
            (entry_of options trigger policy deploy_tx ciphertext (env.date_now configured.world))
            configured)
  unfolding same_step patched entry_of
  configured-Outcome trigger policy deploy_tx ciphertext a vault run sa h hv =
      let b = board a done pending pending pending pending in
      let (calls, ends) = configure_stage-Ends env options trigger policy b run h in
      throwing-cases (Outcome env options vault) deploy_failure
        (configure_stage env options trigger policy run) _
        (λ e threw.
          let (at, shown) = Ends-err configure b calls run _ e ends threw in
          inl (shown.vault_is ∙ hv, a, sa, inr (at, shown.statuses_are)))
        λ u returned.
          let shown = Ends-ok configure b calls run _ u ends returned in
          finish_stage-Outcome vault _ a _ sa shown.statuses_are refl refl (shown.vault_is ∙ hv)

  deployed-Outcome :
      (trigger : Text) (ciphertext : Option Text) (a : StepStatus) (vault : List VaultEntry)
      (run : Run W)
      → Settled a
      → statuses run.steps ≡ board a pending pending pending pending pending
      → run.vault ≡ vault
      → Outcome env options vault (
          throwing deploy_failure
            (deploy_stage env options.compiled.public_args.commitment trigger run)
          ▷ λ made deployed.
              throwing deploy_failure (configure_stage env options trigger made.0 deployed)
              ▷ λ _ configured.
                  finish_stage env options
                    (entry_of options trigger made.0 made.1 ciphertext
                      (env.date_now configured.world))
                    configured)
  unfolding same_step patched
  deployed-Outcome trigger ciphertext a vault run sa h hv =
      let b = board a pending pending pending pending pending in
      let commitment = options.compiled.public_args.commitment in
      let ends = deploy_stage-Ends env commitment trigger b run h in
      throwing-cases (Outcome env options vault) deploy_failure
        (deploy_stage env commitment trigger run) _
        (λ e threw.
          let (at, shown) = Ends-err deploy b _ run _ e ends threw in
          inl (shown.vault_is ∙ hv, a, sa, inl (at, shown.statuses_are)))
        λ made returned.
          let shown = Ends-ok deploy b _ run _ made ends returned in
          configured-Outcome trigger made.0 made.1 ciphertext a vault _ sa shown.statuses_are
            (shown.vault_is ∙ hv)

  deploy_with-Outcome :
      (trigger : Text) (run : Run W)
      → statuses run.steps ≡ board pending pending pending pending pending pending
      → Outcome env options run.vault (deploy_with env options trigger run)
  unfolding deploy_with same_step patched
  deploy_with-Outcome trigger run h =
      let (a, sa, shown) =
        seal_stage-Settles env (plaintext_of options.compiled)
          (board pending pending pending pending pending pending) run h in
      deployed-Outcome trigger _ a run.vault _ sa shown.statuses_are shown.vault_is

  -- Every deployment ends in one of these ways. There is no wallet, or the trigger's contract is not
  -- deployed, and then nothing was done at all; or every step is done or skipped, the funding exactly
  -- if there is no amount, and the vault holds the salt and the private configuration; or the contract
  -- or its trigger failed, the step shows the error, no later step has started, and the vault is as it
  -- was; or the storage did not take the entry, its exception is thrown, the steps of the contract and
  -- its trigger are done, no later step has started, and the vault is as it was; or the funding failed,
  -- and the vault holds the salt and the private configuration.
  pub deploy_policy-Outcome :
      (world : W) (vault : List VaultEntry)
      → ((failure : DeployFailure) × NotStarted env options world failure
          × (deploy_policy env options world vault ≡ (
            err failure,
            record {
              world = world;
              steps = initial_steps options.compiled.ir.asset;
              calls = [];
              vault = vault;
            },
          )))
        ⊎ Outcome env options vault (deploy_policy env options world vault)
  unfolding deploy_policy initial_steps
  deploy_policy-Outcome world vault = elim (Bool-cases (env.injected world)) [
    | inr missing ↦
        let stopped = wallet_client-err env world missing in
        inl (other_failure no_wallet, inl (missing, refl), rw (stopped, deploy_policy))
    | inl here ↦
        let there = wallet_client-ok env world here in
        elim (Result-cases (trigger_address env.addresses options.compiled.ir.trigger)) [
          | inr (e, unset) ↦
              inl (deploy_failure e, inr (e, unset, refl), rw (there, deploy_policy) (rw unset))
          | inl (trigger, set) ↦
              inr (rw (there, deploy_policy) (rw set (deploy_with-Outcome trigger _ refl)))
        ]
  ]
