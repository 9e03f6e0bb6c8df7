-- ===== src/Web/Transactions.antt =====
-- apps/web/lib/deploy.ts, `deployPolicy`: the state of a run of it, and how it makes a call and waits
-- for the receipt. The state is the world behind the calls, the steps shown, the calls that were
-- handed to the wallet, and the vault.
use flare_studio.Base.Text.{Text, codes, text_eq, to_lower_case}
use flare_studio.Base.{
  ℕ, Bool, Option, none, some, List, [], ◌∷◌, ◌++◌, Result, ok, err, ◌▷◌, ◌≡◌, refl, if◌then◌else◌,
}
use flare_studio.Policy.Compile.{CompiledPolicy}
use flare_studio.Policy.Payments.{PackedHash}
use flare_studio.Web.Chain.{Addresses}
use flare_studio.Web.Thrown.{Thrown, error_of, message}
use flare_studio.Web.Enclave.{Network}
use flare_studio.Web.Vault.{VaultEntry}
use flare_studio.Web.Steps.{StepId, error, DeployStep, Patch, sent, ends_as, update}
use flare_studio.Web.TriggerSetup.{DeployError}
use flare_studio.Web.StorePolicy.{Call, Log, Receipt, Clients}

-- What the code calls: viem, `fetch`, the encryption to the enclave's key, the clock, and the browser:
-- `injected` says whether there is a `window.ethereum`, and `store` is `localStorage.setItem` with the
-- entries, which throws if the storage does not take them.
pub record Env (W : Type 0) : Type 0 where
  pub network : Network W
  pub clients : Clients W
  pub addresses : Addresses
  pub viem : PackedHash Thrown
  pub ecies_encrypt : Text → Text → W → Result Thrown Text × W
  pub date_now : W → ℕ
  pub injected : W → Bool
  pub store : List VaultEntry → W → Result Thrown (Unit {0})

-- What `walletClient` throws without an injected wallet.
abbrev pub no_wallet : Thrown
no_wallet = error_of (codes "no injected wallet")

-- apps/web/lib/wallet.ts, `walletClient`, less the client, which is one of `clients`.
unfoldable pub wallet_client : {W : Type 0} → Env W → W → Result Thrown (Unit {0})
wallet_client env world = if env.injected world then ok tt else err no_wallet

pub record DeployOptions : Type 0 where
  pub compiled : CompiledPolicy
  pub salt : Text
  pub template_id : Text
  pub account : Text
  pub amount : ℕ

pub record Run (W : Type 0) : Type 0 where
  pub world : W
  pub steps : List DeployStep
  pub calls : List Call
  pub vault : List VaultEntry

abbrev pub progress : {W : Type 0} → StepId → Patch → Run W → Run W
progress id patch run = record run { steps = update id patch run.steps }

-- The catch of a step that the deployment cannot go on without.
abbrev pub fail : {W A : Type 0} → StepId → Thrown → Run W → Result DeployError A × Run W
fail id e run = (
  err (record { reason = message e; step = id }),
  progress id (ends_as error (some (message e))) run,
)

-- An exception, as the caller throws it.
unfoldable pub thrown_as : {E F A : Type 0} → (E → F) → Result E A → Result F A
thrown_as f (ok a) = ok a
thrown_as f (err e) = err (f e)

abbrev pub throwing : {E F S A : Type 0} → (E → F) → Result E A × S → Result F A × S
throwing f r = (thrown_as f r.0, r.1)

pub throwing-cases :
    {E F S A B : Type 0} (P : Result F B × S → Type 0) (f : E → F) (r : Result E A × S)
    (rest : A → S → Result F B × S)
    → ((e : E) → r.0 ≡ err e → P (err (f e), r.1))
    → ((a : A) → r.0 ≡ ok a → P (rest a r.1))
    → P (throwing f r ▷ rest)
unfolding thrown_as
throwing-cases P f (ok a, s) rest thrown returned = returned a refl
throwing-cases P f (err e, s) rest thrown returned = thrown e refl

-- `if (receipt.status !== 'success') throw …`
unfoldable pub confirmed : Receipt → Result Thrown Receipt
confirmed receipt =
    if receipt.succeeded then ok receipt else err (error_of (codes "the transaction reverted"))

-- The policy address of the first PolicyDeployed event of the factory.
unfoldable pub policy_address_from_receipt :
    (Log → Result Thrown (Option Text)) → (factory : Text) → List Log → Result Thrown Text
policy_address_from_receipt decode factory [] =
    err
      (error_of (codes "the policy was created but its address could not be read from the receipt"))
policy_address_from_receipt decode factory (log ∷ logs) =
    let rest = policy_address_from_receipt decode factory logs in
    if text_eq (to_lower_case log.address) (to_lower_case factory)
    then elim (decode log) [ ok (some policy) ↦ ok policy | ok none ↦ rest | err e ↦ rest ]
    else rest

module _ {W : Type 0} (env : Env W) where
  -- The wait for the receipt of a call that was sent as `hash`.
  unfoldable pub await_receipt : StepId → Text → Run W → Result Thrown (Text × Receipt) × Run W
  await_receipt id hash run =
      let shown = progress id (sent hash) run in
      let (receipt, w) = env.clients.wait_for_receipt hash shown.world in
      elim receipt [
        | err e ↦ (err e, record shown { world = w })
        | ok r ↦ (ok (hash, r), record shown { world = w })
      ]

  -- `writeContract`, the hash shown under the step, and the wait for the receipt.
  unfoldable pub send_and_wait : StepId → Call → Run W → Result Thrown (Text × Receipt) × Run W
  unfolding await_receipt
  send_and_wait id call run =
      let (hash, w) = env.clients.write_contract call run.world in
      let asked = record run { world = w; calls = run.calls ++ call ∷ [] } in
      elim hash [ err e ↦ (err e, asked) | ok h ↦ await_receipt id h asked ]
