-- ===== src/Web/Deploy/Calls.antt =====
-- Which calls a deployment hands to the wallet, in which order, and with which arguments.
use flare_studio.Base.Text.{Text}
use flare_studio.Base.{
  ◌▷◌, ▷-cases, ℕ, ◌==◌, Option, none, some, List, [], ◌∷◌, ◌++◌, Result, ok, ◌≡◌, ◌≢◌, ◌⊎◌, inl,
  inr, refl, sym, ◌∙◌, ap, arith, Result-cases, Bool-cases,
}
use flare_studio.Web.Chain.{enclave_handoff_configured}
use flare_studio.Web.Steps.{StepId, handoff, approve, deposit, StepStatus, statuses, starts}
use flare_studio.Web.TriggerSetup.{DeployError}
use flare_studio.Web.Vault.{VaultEntry}
use flare_studio.Web.StorePolicy.{
  Call, send_store_policy, token_approve, policy_deposit, instruction_fee, store_policy_on_chain,
}
use flare_studio.Web.Transactions.{Env, Run, progress}
use flare_studio.Web.Deploy.{
  approve_stage, deposit_stage, fund_stage, skip_send, send_stage, handoff_stage,
}
use flare_studio.Web.Deploy.Progress.{Ends, append_nil}
use flare_studio.Web.Deploy.Handoff.{keep_sent_calls}
use flare_studio.Web.Deploy.Stages.{approve_stage-Ends, deposit_stage-Ends}

pub append_assoc : (xs ys zs : List Call) → (xs ++ ys) ++ zs ≡ xs ++ (ys ++ zs)
append_assoc [] ys zs = refl
append_assoc (x ∷ xs) ys zs = ap (λ t. x ∷ t) (append_assoc xs ys zs)

module _ {W : Type 0} where
  -- The calls that were added have the property `P`.
  abbrev pub Adds : (List Call → Type 0) → Run W → Run W → Type 0
  Adds P run run' = (made : List Call) × P made × (run'.calls ≡ run.calls ++ made)

  pub Ends-calls :
      {A : Type 0} (id : StepId) (b : List (StepId × StepStatus)) (calls : List Call) (run : Run W)
      (r : Result DeployError A × Run W)
      → Ends id b calls run r
      → r.1.calls ≡ run.calls ++ calls
  Ends-calls id b calls run r (inl (found, shown)) = shown.calls_are
  Ends-calls id b calls run r (inr (thrown, shown)) = shown.calls_are

module _ {W : Type 0} (env : Env W) where
  -- The funding: nothing; or, of an amount, its approval for the policy, and then its deposit there.
  abbrev pub Funds : Text → ℕ → List Call → Type 0
  Funds policy amount calls =
      (calls ≡ [])
      ⊎ ((amount ≢ 0)
          × ((calls ≡ token_approve env.addresses.fxrp policy amount ∷ [])
              ⊎ (calls
                  ≡ token_approve env.addresses.fxrp policy amount
                    ∷ policy_deposit policy amount
                    ∷ [])))

  -- The hand-off: nothing, or one instruction for the policy.
  abbrev pub Hands : Text → List Call → Type 0
  Hands policy calls =
      (calls ≡ [])
      ⊎ ((ciphertext : Text) × (calls
            ≡ send_store_policy env.addresses.policy_instruction_sender policy ciphertext
                instruction_fee
              ∷ []))

  pub fund_stage-Funds :
      (entry : VaultEntry) (amount : ℕ) (run : Run W)
      → Adds (Funds entry.policy amount) run (fund_stage env entry amount run).1
  unfolding fund_stage
  fund_stage-Funds entry amount run = elim (Bool-cases (amount == 0)) [
    | inl none_due ↦ rw (none_due, fund_stage) ([], inl refl, sym (append_nil run.calls))
    | inr due ↦
        let some_due : amount ≢ 0 = ground arith in
        let after = (approve_stage env entry.policy amount run).1 in
        let approved =
          Ends-calls approve (statuses run.steps) _ run _
            (approve_stage-Ends env entry.policy amount (statuses run.steps) run refl) in
        let deposited =
          Ends-calls deposit (statuses after.steps) _ after _
            (deposit_stage-Ends env entry.policy amount (statuses after.steps) after refl) in
        let both =
          deposited
          ∙ ap (λ t. t ++ policy_deposit entry.policy amount ∷ []) approved
          ∙ append_assoc run.calls _ _ in
        rw (due, fund_stage)
          (▷-cases (λ r. Adds (Funds entry.policy amount) run r.1)
            (approve_stage env entry.policy amount run)
            (λ _ shown. deposit_stage env entry.policy amount shown ▷ λ _ end. (ok entry, end))
            (λ e threw. (_, inr (some_due, inl refl), approved))
            λ u returned.
              ▷-cases (λ r. Adds (Funds entry.policy amount) run r.1)
                (deposit_stage env entry.policy amount after) (λ _ end. (ok entry, end))
                (λ e threw. (_, inr (some_due, inr refl), both))
                λ v returned'. (_, inr (some_due, inr refl), both))
  ]

  store_policy-Hands :
      (policy ciphertext : Text) (w : W)
      → Hands policy (store_policy_on_chain env.clients env.addresses policy ciphertext w).2
  unfolding store_policy_on_chain
  store_policy-Hands policy ciphertext w =
      let request =
        send_store_policy env.addresses.policy_instruction_sender policy ciphertext
          instruction_fee in
      let simulated = env.clients.simulate_contract request w in
      elim (Bool-cases (enclave_handoff_configured env.addresses)) [
        | inr unset ↦ rw (unset, store_policy_on_chain) (inl refl)
        | inl set ↦ elim (Result-cases simulated.0) [
          | inr (e, threw) ↦ rw (set, store_policy_on_chain) (rw threw (inl refl))
          | inl (u, returned) ↦
              elim (Result-cases (env.clients.write_contract request simulated.1).0) [
                | inr (e, threw) ↦
                    rw (set, store_policy_on_chain)
                      (rw returned (rw threw (inr (ciphertext, refl))))
                | inl (hash, sent) ↦
                    rw (set, store_policy_on_chain) (rw returned (rw sent (inr (ciphertext, refl))))
              ]
        ]
      ]

  send_stage-Hands :
      (entry : VaultEntry) (ciphertext : Text) (run : Run W)
      → Adds (Hands entry.policy) run (send_stage env entry ciphertext run).1
  unfolding send_stage skip_send
  send_stage-Hands entry ciphertext run =
      let out = store_policy_on_chain env.clients env.addresses entry.policy ciphertext run.world in
      let hands = store_policy-Hands entry.policy ciphertext run.world in
      elim (Result-cases out.0) [
        | inr (t, e) ↦ rw (e, send_stage) (out.2, hands, refl)
        | inl (result, e) ↦
            rw (e, send_stage)
              (
                out.2,
                hands,
                keep_sent_calls env _ _ (record run { world = out.1; calls = run.calls ++ out.2 }),
              )
      ]

  pub handoff_stage-Hands :
      (entry : VaultEntry) (ciphertext : Option Text) (run : Run W)
      → Adds (Hands entry.policy) run (handoff_stage env entry ciphertext run).1
  unfolding handoff_stage
  handoff_stage-Hands entry none run = ([], inl refl, sym (append_nil run.calls))
  handoff_stage-Hands entry (some text) run =
      elim (Bool-cases (enclave_handoff_configured env.addresses)) [
        | inl set ↦
            rw (set, handoff_stage) (send_stage-Hands entry text (progress handoff starts run))
        | inr unset ↦ rw (unset, handoff_stage) ([], inl refl, sym (append_nil run.calls))
      ]
