-- ===== src/Web/Deploy.antt =====
-- apps/web/lib/deploy.ts, `deployPolicy`: a compiled policy becomes a contract, in six steps. An
-- exception that leaves the function is a value.
pub mod Progress
pub mod Stages
pub mod Handoff
pub mod Outcome
pub mod Funding
pub mod Runs
pub mod Calls
pub mod Order
use flare_studio.Base.Text.{Text, codes, text_eq, to_lower_case}
use flare_studio.Base.Decimal.{decimal}
use flare_studio.Base.{
  ℕ, ◌/◌, Bool, true, false, Option, none, some, List, [], ◌∷◌, ◌++◌, Result, ok, err, ◌▷◌, length,
  ◌==◌, if◌then◌else◌,
}
use flare_studio.Policy.Compile.{CompiledPolicy}
use flare_studio.Policy.Payments.{PackedHash}
use flare_studio.Web.Chain.{Addresses, enclave_handoff_configured, chain_id}
use flare_studio.Web.Thrown.{Thrown, error_of, message}
use flare_studio.Web.Enclave.{Network, fetch_tee_public_key}
use flare_studio.Web.Vault.{VaultEntry, save_entry}
use flare_studio.Web.Steps.{
  StepId, seal, deploy, configure, handoff, approve, deposit, StepStatus, running, done, skipped,
  error, DeployStep, Patch, starts, sent, ends_as, update, initial_steps,
}
use flare_studio.Web.TriggerSetup.{
  DeployError, DeployFailure, deploy_failure, other_failure, trigger_address, configure_request,
  kind_of,
}
use flare_studio.Web.StorePolicy.{
  Call, factory_deploy, trigger_configure, token_approve, policy_deposit, Log, Receipt, Clients,
  HandoffResult, store_policy_on_chain,
}
use flare_studio.Web.Transactions.{
  wallet_client, Env, DeployOptions, Run, progress, fail, throwing, confirmed,
  policy_address_from_receipt, await_receipt, send_and_wait,
}

-- `...(ciphertext ? { ciphertext } : {})`
unfoldable pub kept_ciphertext : Option Text → Option Text
kept_ciphertext (some (c ∷ cs)) = some (c ∷ cs)
kept_ciphertext _ = none

unfoldable pub entry_of :
    DeployOptions → (trigger policy deploy_tx : Text) → Option Text → ℕ → VaultEntry
unfolding kind_of kept_ciphertext
entry_of options trigger policy deploy_tx ciphertext now = record {
  policy = policy;
  chain_id = chain_id;
  name = options.compiled.ir.name;
  template_id = options.template_id;
  asset_symbol = options.compiled.ir.asset;
  salt = options.salt;
  private_config = options.compiled.private_config;
  ciphertext = kept_ciphertext ciphertext;
  handoff = none;
  trigger_kind = kind_of options.compiled.ir.trigger;
  trigger_address = trigger;
  deploy_tx = deploy_tx;
  deployed_at = now;
}

-- `canonicalize` gave the compiler a text.
unfoldable pub plaintext_of : CompiledPolicy → Text
plaintext_of compiled = elim compiled.plaintext [ none ↦ [] | some text ↦ text ]

module _ {W : Type 0} (env : Env W) where
  -- `saveEntry`: if the storage does not take the entries, it keeps what it had.
  unfoldable pub save_stage : VaultEntry → Run W → Result Thrown (Unit {0}) × Run W
  save_stage entry run =
      let saved = save_entry entry run.vault in
      elim (env.store saved run.world) [
        | ok u ↦ (ok u, record run { vault = saved })
        | err e ↦ (err e, run)
      ]

  -- What sealing makes of the key that was fetched.
  unfoldable pub seal_with : Text → Result Thrown (Option Text) → Run W → Option Text × Run W
  seal_with plaintext key run = elim key [
    | err e ↦ (
      none,
      progress seal
          (ends_as skipped (some (codes "Kept in this browser only (" ++ (message e ++ codes ")"))))
          run,
    )
    | ok none ↦ (
      none,
      progress seal
          (ends_as skipped (some (codes "No enclave key available. Kept in this browser only.")))
          run,
    )
    | ok (some k) ↦
        let (ciphertext, w) = env.ecies_encrypt k plaintext run.world in
        let after = record run { world = w } in
        elim ciphertext [
          | ok text ↦ (
            some text,
            progress seal
                (ends_as done (some (decimal (length plaintext) ++ codes " bytes sealed"))) after,
          )
          | err e ↦ (
            none,
            progress seal
                (ends_as skipped
                  (some (codes "Kept in this browser only (" ++ (message e ++ codes ")"))))
                after,
          )
        ]
  ]

  unfoldable pub seal_stage : Text → Run W → Option Text × Run W
  unfolding seal_with
  seal_stage plaintext run =
      let shown = progress seal starts run in
      let (key, w) = fetch_tee_public_key env.network shown.world in
      seal_with plaintext key (record shown { world = w })

  -- The receipt of the factory's call, read.
  unfoldable pub read_deployed : Receipt → Result Thrown Text
  unfolding policy_address_from_receipt confirmed
  read_deployed receipt = elim (confirmed receipt) [
    | err e ↦ err e
    | ok r ↦
        policy_address_from_receipt env.clients.decode_policy_deployed env.addresses.policy_factory
          r.logs
  ]

  -- The policy's address and the hash of the transaction.
  unfoldable pub deploy_stage : Text → Text → Run W → Result DeployError (Text × Text) × Run W
  unfolding send_and_wait read_deployed
  deploy_stage commitment trigger run =
      let call =
        factory_deploy env.addresses.policy_factory env.addresses.fxrp commitment
          env.addresses.tee_attestor_gate trigger in
      let (result, after) = send_and_wait env deploy call (progress deploy starts run) in
      elim result [
        | err e ↦ fail deploy e after
        | ok (hash, receipt) ↦ elim (read_deployed receipt) [
          | err e ↦ fail deploy e after
          | ok policy ↦ (ok (policy, hash), progress deploy (ends_as done (some policy)) after)
        ]
      ]

  -- A call that must be confirmed, to the end of its step.
  unfoldable pub confirmed_stage : StepId → Call → Run W → Result DeployError (Unit {0}) × Run W
  unfolding send_and_wait confirmed
  confirmed_stage id call run =
      let (result, after) = send_and_wait env id call run in
      elim result [
        | err e ↦ fail id e after
        | ok (hash, receipt) ↦ elim (confirmed receipt) [
          | err e ↦ fail id e after
          | ok r ↦ (ok tt, progress id (ends_as done none) after)
        ]
      ]

  unfoldable pub configure_stage :
      DeployOptions → Text → Text → Run W → Result DeployError (Unit {0}) × Run W
  unfolding confirmed_stage
  configure_stage options trigger policy run =
      let shown = progress configure starts run in
      elim (configure_request env.viem (env.date_now shown.world / 1000) options.compiled.ir.trigger
        options.account policy) [
          | err e ↦ fail configure e shown
          | ok config ↦ confirmed_stage configure (trigger_configure trigger config) shown
        ]

  unfoldable pub skip_send : VaultEntry → Thrown → Run W → VaultEntry × Run W
  skip_send entry e run = (
    entry,
    progress handoff
        (ends_as skipped (some (message e ++ codes " You can retry from the policy screen."))) run,
  )

  -- The entry with its hand-off was saved, or not; it has the hand-off either way.
  unfoldable pub after_save :
      VaultEntry → (tx_hash : Text) → Result Thrown (Unit {0}) × Run W → VaultEntry × Run W
  unfolding skip_send
  after_save kept tx_hash (err e, run) = skip_send kept e run
  after_save kept tx_hash (ok u, run) = (
    kept,
    progress handoff (record { to_status = some done; to_tx_hash = some tx_hash; to_note = none })
        run,
  )

  unfoldable pub keep_sent : VaultEntry → (tx_hash : Text) → Run W → VaultEntry × Run W
  unfolding after_save
  keep_sent kept tx_hash run = after_save kept tx_hash (save_stage kept run)

  -- The hand-off of a payload that was sealed.
  unfoldable pub send_stage : VaultEntry → Text → Run W → VaultEntry × Run W
  unfolding skip_send
  send_stage entry ciphertext run =
      let (result, w, made) =
        store_policy_on_chain env.clients env.addresses entry.policy ciphertext run.world in
      let after = record run { world = w; calls = run.calls ++ made } in
      elim result [
        | err e ↦ skip_send entry e after
        | ok r ↦
            keep_sent
              (record entry {
                handoff = some (record {
                  instruction_id = r.instruction_id;
                  tx_hash = r.tx_hash;
                  at = env.date_now w;
                });
              })
              r.tx_hash after
      ]

  unfoldable pub handoff_stage : VaultEntry → Option Text → Run W → VaultEntry × Run W
  unfolding send_stage
  handoff_stage entry ciphertext run =
      let shown = progress handoff starts run in
      elim ciphertext [
        | none ↦ (
          entry,
          progress handoff
              (ends_as skipped (
                some (
                  codes "Nothing sealed to send. Configure an enclave key, then retry from the "
                  ++ codes "policy screen.")))
              shown,
        )
        | some text ↦
            if enclave_handoff_configured env.addresses then send_stage entry text shown else (
              entry,
              progress handoff
                  (ends_as skipped (some (codes "No instruction sender configured in this build.")))
                  shown,
            )
      ]

  -- The receipt's status is not read.
  unfoldable pub approve_stage : Text → ℕ → Run W → Result DeployError (Unit {0}) × Run W
  unfolding send_and_wait
  approve_stage policy amount run =
      let (result, after) =
        send_and_wait env approve (token_approve env.addresses.fxrp policy amount)
          (progress approve starts run) in
      elim result [
        | err e ↦ fail approve e after
        | ok _ ↦ (ok tt, progress approve (ends_as done none) after)
      ]

  unfoldable pub deposit_stage : Text → ℕ → Run W → Result DeployError (Unit {0}) × Run W
  unfolding confirmed_stage
  deposit_stage policy amount run =
      confirmed_stage deposit (policy_deposit policy amount) (progress deposit starts run)

  unfoldable pub fund_stage : VaultEntry → ℕ → Run W → Result DeployError VaultEntry × Run W
  unfolding approve_stage deposit_stage
  fund_stage entry amount run =
      if amount == 0
      then (
        ok entry,
        progress deposit (ends_as skipped none) (
            progress approve
              (ends_as skipped (some (codes "You can deposit any time from the policy screen.")))
              run),
      )
      else approve_stage entry.policy amount run ▷ λ _ approved.
          deposit_stage entry.policy amount approved ▷ λ _ deposited. (ok entry, deposited)

  -- From the confirmation of the trigger's setup on. The entry has a ciphertext if one was sealed.
  unfoldable pub finish_stage :
      DeployOptions → VaultEntry → Run W → Result DeployFailure VaultEntry × Run W
  unfolding handoff_stage fund_stage
  finish_stage options entry run = throwing other_failure (save_stage entry run) ▷ λ _ saved.
      let (kept, handed) = handoff_stage entry entry.ciphertext saved in
      throwing deploy_failure (fund_stage kept options.amount handed)

  -- From the trigger's address on.
  unfoldable pub deploy_with :
      DeployOptions → Text → Run W → Result DeployFailure VaultEntry × Run W
  unfolding seal_stage deploy_stage configure_stage entry_of finish_stage plaintext_of
  deploy_with options trigger run =
      let (ciphertext, sealed) = seal_stage (plaintext_of options.compiled) run in
      throwing deploy_failure (deploy_stage options.compiled.public_args.commitment trigger sealed)
      ▷ λ made deployed.
          throwing deploy_failure (configure_stage options trigger made.0 deployed)
          ▷ λ _ configured.
              finish_stage options
                (entry_of options trigger made.0 made.1 ciphertext (env.date_now configured.world))
                configured

  unfoldable pub deploy_policy :
      DeployOptions → W → List VaultEntry → Result DeployFailure VaultEntry × Run W
  unfolding deploy_with
  deploy_policy options world vault =
      let run : Run W = record {
        world = world;
        steps = initial_steps options.compiled.ir.asset;
        calls = [];
        vault = vault;
      } in
      elim (wallet_client env world) [
        | err e ↦ (err (other_failure e), run)
        | ok u ↦ elim (trigger_address env.addresses options.compiled.ir.trigger) [
          | err e ↦ (err (deploy_failure e), run)
          | ok trigger ↦ deploy_with options trigger run
        ]
      ]
