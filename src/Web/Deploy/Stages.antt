-- ===== src/Web/Deploy/Stages.antt =====
-- What each stage of a deployment does to the steps shown, the calls made and the vault.
use flare_studio.Base.Text.{Text}
use flare_studio.Base.{
  ℕ, Option, none, some, List, [], ◌∷◌, Result, ok, err, ◌≡◌, inl, inr, refl, sym, Result-cases,
}
use flare_studio.Web.Thrown.{Thrown}
use flare_studio.Web.Enclave.{fetch_tee_public_key}
use flare_studio.Web.Steps.{
  StepId, seal, deploy, configure, approve, deposit, StepStatus, running, done, skipped, starts,
  statuses, set_status,
}
use flare_studio.Web.TriggerSetup.{configure_request}
use flare_studio.Web.StorePolicy.{Call, factory_deploy, trigger_configure}
use flare_studio.Web.Transactions.{Env, DeployOptions, Run, progress, send_and_wait, confirmed}
use flare_studio.Web.Deploy.{
  seal_with, seal_stage, read_deployed, deploy_stage, confirmed_stage, configure_stage,
  approve_stage, deposit_stage,
}
use flare_studio.Web.Deploy.Progress.{
  Shows, statuses-progress, Settled, append_nil, Ends, Shows-ended, Ends-fail, Ends-done,
  started-Shows,
}
use flare_studio.Base.{◌/◌}
use flare_studio.Web.StorePolicy.{token_approve, policy_deposit}

module _ {W : Type 0} (env : Env W) where
  pub deploy_stage-Ends :
      (commitment trigger : Text) (b : List (StepId × StepStatus)) (run : Run W)
      → statuses run.steps ≡ b
      → Ends deploy b
          (factory_deploy env.addresses.policy_factory env.addresses.fxrp commitment
              env.addresses.tee_attestor_gate trigger
            ∷ [])
          run
          (deploy_stage env commitment trigger run)
  unfolding deploy_stage
  deploy_stage-Ends commitment trigger b run h =
      let call =
        factory_deploy env.addresses.policy_factory env.addresses.fxrp commitment
          env.addresses.tee_attestor_gate trigger in
      let shown = started-Shows env deploy call b run h in
      elim (Result-cases (send_and_wait env deploy call (progress deploy starts run)).0) [
        | inr (t, e) ↦ Ends-fail deploy t b _ run _ _ (rw (e, deploy_stage)) shown
        | inl ((hash, receipt), e) ↦ elim (Result-cases (read_deployed env receipt)) [
          | inr (t, e') ↦ Ends-fail deploy t b _ run _ _ (rw (e, deploy_stage) (rw e')) shown
          | inl (policy, e') ↦
              Ends-done deploy (policy, hash) (some policy) b _ run _ _
                (rw (e, deploy_stage) (rw e')) shown
        ]
      ]

  -- A step that started before its call.
  pub confirmed_stage-Ends :
      (id : StepId) (call : Call) (b : List (StepId × StepStatus)) (run : Run W)
      → statuses run.steps ≡ b
      → Ends id b (call ∷ []) run (confirmed_stage env id call (progress id starts run))
  unfolding confirmed_stage
  confirmed_stage-Ends id call b run h =
      let shown = started-Shows env id call b run h in
      elim (Result-cases (send_and_wait env id call (progress id starts run)).0) [
        | inr (t, e) ↦ Ends-fail id t b _ run _ _ (rw (e, confirmed_stage)) shown
        | inl ((hash, receipt), e) ↦ elim (Result-cases (confirmed receipt)) [
          | inr (t, e') ↦ Ends-fail id t b _ run _ _ (rw (e, confirmed_stage) (rw e')) shown
          | inl (r, e') ↦ Ends-done id tt none b _ run _ _ (rw (e, confirmed_stage) (rw e')) shown
        ]
      ]

  -- The setup of the trigger cannot be written down, or it is called.
  pub configure_stage-Ends :
      (options : DeployOptions) (trigger policy : Text) (b : List (StepId × StepStatus))
      (run : Run W)
      → statuses run.steps ≡ b
      → (calls : List Call) × Ends configure b calls run
          (configure_stage env options trigger policy run)
  unfolding configure_stage
  configure_stage-Ends options trigger policy b run h =
      elim (Result-cases (
        configure_request env.viem (env.date_now run.world / 1000) options.compiled.ir.trigger
          options.account policy)) [
            | inr (t, e) ↦ (
              [],
              Ends-fail configure t b [] run (progress configure starts run) _
                  (rw (e, configure_stage))
                  (record {
                    statuses_are = statuses-progress configure starts b run h;
                    calls_are = sym (append_nil run.calls);
                    vault_is = refl;
                  }),
            )
            | inl (config, e) ↦ (
              trigger_configure trigger config ∷ [],
              rw (e, configure_stage)
                  (confirmed_stage-Ends configure (trigger_configure trigger config) b run h),
            )
          ]

  pub approve_stage-Ends :
      (policy : Text) (amount : ℕ) (b : List (StepId × StepStatus)) (run : Run W)
      → statuses run.steps ≡ b
      → Ends approve b
          (token_approve env.addresses.fxrp policy amount ∷ [])
          run
          (approve_stage env policy amount run)
  unfolding approve_stage
  approve_stage-Ends policy amount b run h =
      let call = token_approve env.addresses.fxrp policy amount in
      let shown = started-Shows env approve call b run h in
      elim (Result-cases (send_and_wait env approve call (progress approve starts run)).0) [
        | inr (t, e) ↦ Ends-fail approve t b _ run _ _ (rw (e, approve_stage)) shown
        | inl (r, e) ↦ Ends-done approve tt none b _ run _ _ (rw (e, approve_stage)) shown
      ]

  pub deposit_stage-Ends :
      (policy : Text) (amount : ℕ) (b : List (StepId × StepStatus)) (run : Run W)
      → statuses run.steps ≡ b
      → Ends deposit b (policy_deposit policy amount ∷ []) run (deposit_stage env policy amount run)
  unfolding deposit_stage
  deposit_stage-Ends policy amount b run h =
      confirmed_stage-Ends deposit (policy_deposit policy amount) b run h

  -- A step that the deployment goes on after, whichever way it ended.
  abbrev pub Settles : StepId → List (StepId × StepStatus) → Run W → Run W → Type 0
  Settles id b run run' =
      (s : StepStatus) × Settled s × Shows (set_status id (some s) b) [] run run'

  seal_with-Settles :
      (plaintext : Text) (key : Result Thrown (Option Text)) (b : List (StepId × StepStatus))
      (run run' : Run W)
      → Shows (set_status seal (some running) b) [] run run'
      → Settles seal b run (seal_with env plaintext key run').1
  unfolding seal_with
  seal_with-Settles plaintext (err e) b run run' h =
      (skipped, inr refl, Shows-ended seal skipped _ b [] run run' h)
  seal_with-Settles plaintext (ok none) b run run' h =
      (skipped, inr refl, Shows-ended seal skipped _ b [] run run' h)
  seal_with-Settles plaintext (ok (some k)) b run run' h =
      let after : Run W = record run' { world = (env.ecies_encrypt k plaintext run'.world).1 } in
      let kept : Shows (set_status seal (some running) b) [] run after = record {
        statuses_are = h.statuses_are;
        calls_are = h.calls_are;
        vault_is = h.vault_is;
      } in
      elim (Result-cases (env.ecies_encrypt k plaintext run'.world).0) [
        | inl (text, e) ↦
            (done, inl refl, rw (e, seal_with) (Shows-ended seal done _ b [] run after kept))
        | inr (t, e) ↦
            (skipped, inr refl, rw (e, seal_with) (Shows-ended seal skipped _ b [] run after kept))
      ]

  pub seal_stage-Settles :
      (plaintext : Text) (b : List (StepId × StepStatus)) (run : Run W)
      → statuses run.steps ≡ b
      → Settles seal b run (seal_stage env plaintext run).1
  unfolding seal_stage
  seal_stage-Settles plaintext b run h =
      seal_with-Settles plaintext (fetch_tee_public_key env.network run.world).0 b run
        (record (progress seal starts run) {
          world = (fetch_tee_public_key env.network run.world).1;
        })
        (record {
          statuses_are = statuses-progress seal starts b run h;
          calls_are = sym (append_nil run.calls);
          vault_is = refl;
        })
