-- ===== src/Web/Deploy/Progress.antt =====
-- The steps shown, the calls made and the vault, from the start of a step to its end.
use flare_studio.Base.Text.{Text}
use flare_studio.Base.{
  Option, some, List, [], ◌∷◌, ◌++◌, Result, ok, err, ◌≡◌, ◌⊎◌, inl, inr, refl, sym, ◌∙◌, ap,
  Result-cases,
}
use flare_studio.Web.Thrown.{Thrown, message}
use flare_studio.Web.Steps.{
  StepId, StepStatus, running, done, skipped, error, Patch, starts, sent, ends_as, statuses,
  set_status, statuses-update, set_status-none, set_status-twice,
}
use flare_studio.Web.TriggerSetup.{DeployError}
use flare_studio.Web.StorePolicy.{Call}
use flare_studio.Web.Transactions.{Env, Run, progress, fail, await_receipt, send_and_wait}

module _ {W : Type 0} where
  -- The calls made and the vault are as before; the statuses are those of `b`.
  pub record Shows (b : List (StepId × StepStatus)) (calls : List Call) (run run' : Run W)
      : Type 0 where
    pub statuses_are : statuses run'.steps ≡ b
    pub calls_are : run'.calls ≡ run.calls ++ calls
    pub vault_is : run'.vault ≡ run.vault

  pub statuses-progress :
      (id : StepId) (p : Patch) (b : List (StepId × StepStatus)) (run : Run W)
      → statuses run.steps ≡ b
      → statuses (progress id p run).steps ≡ set_status id p.to_status b
  statuses-progress id p b run h =
      statuses-update id p run.steps ∙ ap (λ s. set_status id p.to_status s) h

abbrev pub Settled : StepStatus → Type 0
Settled s = (s ≡ done) ⊎ (s ≡ skipped)

pub append_nil : {A : Type 0} (xs : List A) → xs ++ [] ≡ xs
append_nil [] = refl
append_nil (x ∷ xs) = ap (λ t. x ∷ t) (append_nil xs)

module _ {W : Type 0} (env : Env W) where
  await_receipt-Shows :
      (id : StepId) (hash : Text) (run : Run W)
      → Shows (statuses run.steps) [] run (await_receipt env id hash run).1
  unfolding await_receipt
  await_receipt-Shows id hash run =
      let same =
        statuses-progress id (sent hash) (statuses run.steps) run refl
        ∙ set_status-none id (statuses run.steps) in
      elim (Result-cases (env.clients.wait_for_receipt hash run.world).0) [
        | inl (r, e) ↦
            rw (e, await_receipt)
              (record {
                statuses_are = same;
                calls_are = sym (append_nil run.calls);
                vault_is = refl;
              })
        | inr (t, e) ↦
            rw (e, await_receipt)
              (record {
                statuses_are = same;
                calls_are = sym (append_nil run.calls);
                vault_is = refl;
              })
      ]

  send_and_wait-Shows :
      (id : StepId) (call : Call) (run : Run W)
      → Shows (statuses run.steps) (call ∷ []) run (send_and_wait env id call run).1
  unfolding send_and_wait
  send_and_wait-Shows id call run =
      elim (Result-cases (env.clients.write_contract call run.world).0) [
        | inr (t, e) ↦
            rw (e, send_and_wait)
              (record { statuses_are = refl; calls_are = refl; vault_is = refl })
        | inl (hash, e) ↦
            let asked : Run W = record run {
              world = (env.clients.write_contract call run.world).1;
              calls = run.calls ++ call ∷ [];
            } in
            let waited = await_receipt-Shows id hash asked in
            rw (e, send_and_wait)
              (record {
                statuses_are = waited.statuses_are;
                calls_are = waited.calls_are ∙ append_nil asked.calls;
                vault_is = waited.vault_is;
              })
      ]

module _ {W : Type 0} where
  -- A step that came to an end: done, with a result, or with the error that is thrown.
  abbrev pub Ends :
      {A : Type 0}
      → StepId
      → List (StepId × StepStatus)
      → List Call
      → Run W
      → Result DeployError A × Run W
      → Type 0
  Ends {A} id b calls run (r, run') =
      (((a : A) × (r ≡ ok a)) × Shows (set_status id (some done) b) calls run run')
      ⊎ (((e : DeployError) × (r ≡ err e) × (e.step ≡ id))
          × Shows (set_status id (some error) b) calls run run')

  pub Shows-progress :
      (id : StepId) (p : Patch) (b : List (StepId × StepStatus)) (calls : List Call)
      (run run' : Run W)
      → Shows b calls run run'
      → Shows (set_status id p.to_status b) calls run (progress id p run')
  Shows-progress id p b calls run run' h = record {
    statuses_are = statuses-progress id p b run' h.statuses_are;
    calls_are = h.calls_are;
    vault_is = h.vault_is;
  }

  -- The end of a step that was running.
  pub Shows-ended :
      (id : StepId) (s : StepStatus) (note : Option Text) (b : List (StepId × StepStatus))
      (calls : List Call) (run run' : Run W)
      → Shows (set_status id (some running) b) calls run run'
      → Shows (set_status id (some s) b) calls run (progress id (ends_as s note) run')
  Shows-ended id s note b calls run run' h =
      let shown =
        Shows-progress id (ends_as s note) (set_status id (some running) b) calls run run' h in
      record {
        statuses_are = shown.statuses_are ∙ set_status-twice id running s b;
        calls_are = shown.calls_are;
        vault_is = shown.vault_is;
      }

  pub Ends-fail :
      {A : Type 0} (id : StepId) (e : Thrown) (b : List (StepId × StepStatus)) (calls : List Call)
      (run run' : Run W) (r : Result DeployError A × Run W)
      → r ≡ fail id e run'
      → Shows (set_status id (some running) b) calls run run'
      → Ends id b calls run r
  Ends-fail id e b calls run run' r same h = rw same (
      inr (
        (record { reason = message e; step = id }, refl, refl),
        Shows-ended id error (some (message e)) b calls run run' h,
      ))

  pub Ends-done :
      {A : Type 0} (id : StepId) (a : A) (note : Option Text) (b : List (StepId × StepStatus))
      (calls : List Call) (run run' : Run W) (r : Result DeployError A × Run W)
      → r ≡ (ok a, progress id (ends_as done note) run')
      → Shows (set_status id (some running) b) calls run run'
      → Ends id b calls run r
  Ends-done id a note b calls run run' r same h =
      rw same (inl ((a, refl), Shows-ended id done note b calls run run' h))

module _ {W : Type 0} (env : Env W) where
  -- The start of a step and a call.
  pub started-Shows :
      (id : StepId) (call : Call) (b : List (StepId × StepStatus)) (run : Run W)
      → statuses run.steps ≡ b
      → Shows
          (set_status id (some running) b)
          (call ∷ [])
          run
          (send_and_wait env id call (progress id starts run)).1
  started-Shows id call b run h =
      let called = send_and_wait-Shows env id call (progress id starts run) in
      record {
        statuses_are = called.statuses_are ∙ statuses-progress id starts b run h;
        calls_are = called.calls_are;
        vault_is = called.vault_is;
      }
