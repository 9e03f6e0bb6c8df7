-- ===== src/Orchestrator/Policies.antt =====
-- apps/orchestrator/src/policy.ts: an armed policy is evaluated by the enclave, and executed.
pub mod Evaluation
use flare_studio.Base.Text.{Text, codes}
use flare_studio.Base.Decimal.{decimal}
use flare_studio.Base.{
  ℕ, Bool, true, false, Option, none, some, List, [], ◌∷◌, ◌++◌, Result, ok, err, ◌▷◌, ◌==◌,
  if◌then◌else◌,
}
use flare_studio.Orchestrator.Instructions.{
  Clients, Receipt, ShareOut, execute, transact, send_evaluate_policy, InstructionReceipt,
}
use flare_studio.Orchestrator.Polling.{
  Timer, Polled, answered, json_threw, timed_out, exhausted, poll_action_result,
}
use flare_studio.Orchestrator.Results.{Node, ActionResponse, decode_action_data, as_hex_bytes}

pub record EvaluationResult : Type 0 where
  pub policy : Text
  pub shares : List ShareOut
  pub salt : Text
  pub signature : Text

pub record PollOptions : Type 0 where
  pub timeout_ms : ℕ
  pub interval_ms : ℕ

-- The promise of a poll. The fuel lasts, so that its end stands for no error of the source.
unfoldable pub polled_result :
    {A : Type 0} → (instruction_id : Text) → (timeout_ms : ℕ) → Polled A → Result Text A
polled_result instruction_id timeout_ms (answered v) = ok v
polled_result instruction_id timeout_ms (json_threw e) = err e
polled_result instruction_id timeout_ms exhausted = err []
polled_result instruction_id timeout_ms (timed_out last_status) = err (
    codes "no result for instruction "
    ++ (instruction_id
        ++ (codes " after "
            ++ (decimal timeout_ms
                ++ (codes "ms (last HTTP "
                    ++ (decimal last_status
                        ++ (codes
                              "). A persistent 404 means the instruction never reached the TEE: "
                            ++ (codes
                                  "check that the URL registered on-chain matches the one being served, "
                                ++ codes
                                    "and that tee-node and tee-proxy versions have not drifted apart."))))))))

-- The enclave's answer, with its signature as hexadecimal bytes.
unfoldable pub read_evaluation :
    Node EvaluationResult → ActionResponse → Result Text EvaluationResult
read_evaluation node response = elim (decode_action_data node response) [
  | err e ↦ err e
  | ok evaluation ↦ elim (as_hex_bytes node evaluation.signature) [
    | err e ↦ err e
    | ok signature ↦ ok (record evaluation { signature = signature })
  ]
]

module _ {W Log : Type 0} (clients : Clients W Log) (timer : Timer W ActionResponse)
    (node : Node EvaluationResult) where
  -- The wait for the answer to an instruction.
  unfoldable pub await_evaluation :
      (ext_proxy_url instruction_id : Text) → PollOptions → W → Result Text EvaluationResult × W
  unfolding polled_result read_evaluation
  await_evaluation ext_proxy_url instruction_id options w =
      let (polled, w') =
        poll_action_result timer ext_proxy_url instruction_id options.timeout_ms options.interval_ms
          w in
      elim (polled_result instruction_id options.timeout_ms polled) [
        | err e ↦ (err e, w')
        | ok response ↦ (read_evaluation node response, w')
      ]

  unfoldable pub evaluate_policy :
      (instruction_sender policy ext_proxy_url : Text)
      → PollOptions
      → W
      → Result Text EvaluationResult × W
  unfolding await_evaluation
  evaluate_policy instruction_sender policy ext_proxy_url options w =
      clients.read_triggered_at policy w ▷ λ triggered_at w1.
      if triggered_at == 0
      then (
        err (codes "policy " ++ (policy ++ codes " is not armed; call arm() before evaluating")),
        w1,
      )
      else (send_evaluate_policy clients instruction_sender policy triggered_at w1 ▷ λ receipt w2.
          await_evaluation ext_proxy_url receipt.instruction_id options w2)

module _ {W Log : Type 0} (clients : Clients W Log) where
  unfoldable pub execute_policy : (policy : Text) → EvaluationResult → W → Result Text Text × W
  execute_policy policy evaluation w =
      transact clients (codes "execute")
        (execute policy evaluation.shares evaluation.salt evaluation.signature) w
      ▷ λ sent w'. (ok sent.0, w')
