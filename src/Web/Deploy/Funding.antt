-- ===== src/Web/Deploy/Funding.antt =====
-- The approval and the deposit, which end a deployment whose entry is kept.
use flare_studio.Base.Text.{Text}
use flare_studio.Base.{
  ◌▷◌, ▷-cases, ◌==◌, ==_iff, none, some, List, ok, ◌≡◌, ◌≢◌, inl, inr, refl, arith, Bool-cases,
}
use flare_studio.Web.Steps.{
  approve, deposit, StepStatus, pending, done, skipped, board, statuses, ends_as, same_step,
  patched,
}
use flare_studio.Web.Vault.{VaultEntry}
use flare_studio.Web.Transactions.{Env, DeployOptions, Run, progress}
use flare_studio.Web.Deploy.{approve_stage, deposit_stage, fund_stage}
use flare_studio.Web.Deploy.Progress.{Settled, statuses-progress}
use flare_studio.Web.Deploy.Stages.{approve_stage-Ends, deposit_stage-Ends}
use flare_studio.Web.Deploy.Outcome.{Keeps, Ended, Ends-err, Ends-ok, Keeps-same}

module _ {W : Type 0} (env : Env W) (options : DeployOptions) (vault : List VaultEntry) where
  statuses-skipped :
      (note : Text) (a d : StepStatus) (run : Run W)
      → statuses run.steps ≡ board a done done d pending pending
      → statuses
          (progress deposit
            (ends_as skipped none)
            (progress approve (ends_as skipped (some note)) run)).steps
        ≡ board a done done d skipped skipped
  unfolding same_step patched
  statuses-skipped note a d run h =
      let p = ends_as skipped (some note) in
      statuses-progress deposit (ends_as skipped none) (board a done done d skipped pending)
        (progress approve p run)
        (statuses-progress approve p (board a done done d pending pending) run h)

  deposit_cases :
      (entry : VaultEntry) (a d : StepStatus) (run : Run W)
      → Settled a
      → Settled d
      → options.amount ≢ 0
      → statuses run.steps ≡ board a done done d done pending
      → Keeps options entry d run
      → Ended options vault
          (deposit_stage env entry.policy options.amount run ▷ λ _ deposited. (ok entry, deposited))
  unfolding same_step patched
  deposit_cases entry a d run sa sd due h kept =
      let ends =
        deposit_stage-Ends env entry.policy options.amount (board a done done d done pending) run
          h in
      let after = (deposit_stage env entry.policy options.amount run).1 in
      ▷-cases (Ended options vault) (deposit_stage env entry.policy options.amount run) _
        (λ e threw.
          let (at, shown) =
            Ends-err deposit (board a done done d done pending) _ run _ e ends threw in
          inr (
            entry,
            a,
            d,
            sa,
            sd,
            Keeps-same options entry d run after shown.vault_is kept,
            inr (at, shown.statuses_are),
          ))
        λ u returned.
          let shown = Ends-ok deposit (board a done done d done pending) _ run _ u ends returned in
          (
            a,
            d,
            done,
            sa,
            sd,
            inr (due, refl),
            shown.statuses_are,
            Keeps-same options entry d run after shown.vault_is kept,
          )

  -- The end of a deployment whose entry is kept.
  pub fund_stage-Ended :
      (entry : VaultEntry) (a d : StepStatus) (run : Run W)
      → Settled a
      → Settled d
      → statuses run.steps ≡ board a done done d pending pending
      → Keeps options entry d run
      → Ended options vault (fund_stage env entry options.amount run)
  unfolding fund_stage same_step patched
  fund_stage-Ended entry a d run sa sd h kept = elim (Bool-cases (options.amount == 0)) [
    | inl none_due ↦
        rw (none_due, fund_stage)
          (
            a,
            d,
            skipped,
            sa,
            sd,
            inl ((==_iff options.amount 0).0 none_due, refl),
            statuses-skipped _ a d run h,
            kept,
          )
    | inr due ↦
        let some_due : options.amount ≢ 0 = ground arith in
        let ends =
          approve_stage-Ends env entry.policy options.amount (board a done done d pending pending)
            run h in
        let after = (approve_stage env entry.policy options.amount run).1 in
        rw (due, fund_stage)
          (▷-cases (Ended options vault) (approve_stage env entry.policy options.amount run) _
            (λ e threw.
              let (at, shown) =
                Ends-err approve (board a done done d pending pending) _ run _ e ends threw in
              inr (
                entry,
                a,
                d,
                sa,
                sd,
                Keeps-same options entry d run after shown.vault_is kept,
                inl (at, shown.statuses_are),
              ))
            λ u returned.
              let shown =
                Ends-ok approve (board a done done d pending pending) _ run _ u ends returned in
              deposit_cases entry a d after sa sd some_due shown.statuses_are
                (Keeps-same options entry d run after shown.vault_is kept))
  ]
