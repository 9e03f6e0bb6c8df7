-- ===== src/Orchestrator/Policies/Evaluation.antt =====
-- What stands behind an evaluation that is returned.
use flare_studio.Base.Text.{Text}
use flare_studio.Base.{
  ℕ, ◌≤◌, ◌+◌, true, some, Result, ok, err, ◌≡◌, ◌≢◌, inl, inr, refl, sym, ◌∙◌, ap, arith, ◌==◌,
  ==_iff, Bool-cases, Result-cases, ◌▷◌,
}
use flare_studio.Extension.Encoding.RoundTrip.{AreBytes}
use flare_studio.Orchestrator.Instructions.{Clients, InstructionReceipt, send_evaluate_policy}
use flare_studio.Orchestrator.Polling.{
  Timer, Response, Polled, answered, json_threw, timed_out, exhausted, poll_action_result,
  result_url,
}
use flare_studio.Orchestrator.Polling.Deadline.{Ended, poll_action_result-Ended}
use flare_studio.Orchestrator.Results.{
  Node, ActionResponse, decode_action_data, as_hex_bytes, is_hex_text,
}
use flare_studio.Orchestrator.Results.Payloads.{as_hex_bytes-is_hex_text}
use flare_studio.Orchestrator.Policies.{
  EvaluationResult, PollOptions, polled_result, read_evaluation, await_evaluation, evaluate_policy,
}

-- A chain that returned did so from what its first part returned.
▷-eq-ok :
    {E S A B : Type 0} (r : Result E A × S) (rest : A → S → Result E B × S) (b : B)
    → (r ▷ rest).0 ≡ ok b
    → (a : A) × (r.0 ≡ ok a) × ((rest a r.1).0 ≡ ok b)
▷-eq-ok (ok a, s) rest b h = (a, refl, h)
▷-eq-ok (err e, s) rest b h = cc

decode_action_data-status :
    {T : Type 0} (node : Node T) (response : ActionResponse) (v : T)
    → decode_action_data node response ≡ ok v
    → response.status ≡ 1
unfolding decode_action_data
decode_action_data-status node response v h = elim (Bool-cases (response.status == 1)) [
  | inl one ↦ (==_iff response.status 1).0 one
  | inr other ↦ absurd (ground (arith, other, h))
]

read_evaluation-status :
    (node : Node EvaluationResult) (response : ActionResponse) (evaluation : EvaluationResult)
    → ((t : Text) → AreBytes (node.decode_base64 t))
    → read_evaluation node response ≡ ok evaluation
    → (response.status ≡ 1) × (is_hex_text evaluation.signature ≡ true)
unfolding read_evaluation
read_evaluation-status node response evaluation bytes h =
    elim (Result-cases (decode_action_data node response)) [
      | inr (e, threw) ↦ absurd (ground (arith, threw, h))
      | inl (v, decoded) ↦ elim (Result-cases (as_hex_bytes node v.signature)) [
        | inr (e, threw) ↦ absurd (ground (arith, decoded, threw, h))
        | inl (signature, written) ↦
            let same : signature ≡ evaluation.signature = ground (arith, decoded, written, h) in
            (
              decode_action_data-status node response v decoded,
              ap is_hex_text (sym same)
                  ∙ as_hex_bytes-is_hex_text node v.signature signature bytes written,
            )
      ]
    ]

module _ {W Log : Type 0} (clients : Clients W Log) (timer : Timer W ActionResponse)
    (node : Node EvaluationResult) where
  -- The response that an evaluation was read from.
  abbrev pub Answer : (url : Text) → EvaluationResult → Type 0
  Answer url evaluation =
      (before : W) × (response : Response ActionResponse) × (answer : ActionResponse)
      × ((timer.fetch url before).0 ≡ some response)
      × (response.is_ok ≡ true)
      × (response.json ≡ ok answer)
      × (read_evaluation node answer ≡ ok evaluation)

  await_evaluation-Answer :
      (ext_proxy_url instruction_id : Text) (options : PollOptions) (w : W)
      (evaluation : EvaluationResult)
      → 1 ≤ options.interval_ms
      → (await_evaluation clients timer node ext_proxy_url instruction_id options w).0
        ≡ ok evaluation
      → Answer (result_url ext_proxy_url instruction_id) evaluation
  unfolding await_evaluation polled_result
  await_evaluation-Answer ext_proxy_url instruction_id options w evaluation h e =
      answer_of
        (poll_action_result timer ext_proxy_url instruction_id options.timeout_ms
          options.interval_ms w)
        (poll_action_result-Ended timer ext_proxy_url instruction_id options.timeout_ms
          options.interval_ms w h)
        e
    where
      answer_of :
          (r : Polled ActionResponse × W)
          → Ended timer
              (result_url ext_proxy_url instruction_id)
              options.interval_ms
              (timer.now w + options.timeout_ms)
              r
          → (elim (polled_result instruction_id options.timeout_ms r.0)
              as (λ x. Result Text EvaluationResult × W) [
                | err t ↦ (err t, r.1)
                | ok response ↦ (read_evaluation node response, r.1)
              ]).0
            ≡ ok evaluation
          → Answer (result_url ext_proxy_url instruction_id) evaluation
      answer_of (answered v, w') (before, response, fetched, accepted, json, early) read =
          (before, response, v, fetched, accepted, json, read)
      answer_of (json_threw t, w') ended read = cc
      answer_of (timed_out n, w') ended read = cc
      answer_of (exhausted, w') ended read = cc

  -- What an evaluation rests on: the policy was armed, the instruction for that arming was sent, and
  -- the enclave answered to it with status 1 and a signature in hexadecimal.
  pub record IsEvaluated (instruction_sender policy ext_proxy_url : Text) (w : W)
      (evaluation : EvaluationResult) : Type 0 where
    pub triggered_at : ℕ
    pub armed : triggered_at ≢ 0
    pub read : (clients.read_triggered_at policy w).0 ≡ ok triggered_at
    pub receipt : InstructionReceipt
    pub sent :
        (send_evaluate_policy clients instruction_sender policy triggered_at
          (clients.read_triggered_at policy w).1).0
        ≡ ok receipt
    pub answer : Answer (result_url ext_proxy_url receipt.instruction_id) evaluation
    pub succeeded : answer.2.status ≡ 1
    pub hexadecimal : is_hex_text evaluation.signature ≡ true

  armed_case :
      (instruction_sender policy ext_proxy_url : Text) (options : PollOptions) (w : W)
      (evaluation : EvaluationResult) (t : ℕ)
      → 1 ≤ options.interval_ms
      → ((b : Text) → AreBytes (node.decode_base64 b))
      → (clients.read_triggered_at policy w).0 ≡ ok t
      → t ≢ 0
      → (send_evaluate_policy clients instruction_sender policy t
            (clients.read_triggered_at policy w).1
          ▷ λ receipt w2.
              await_evaluation clients timer node ext_proxy_url receipt.instruction_id options w2).0
        ≡ ok evaluation
      → IsEvaluated instruction_sender policy ext_proxy_url w evaluation
  armed_case instruction_sender policy ext_proxy_url options w evaluation t h bytes read armed e =
      let (receipt, sent, rest) = ▷-eq-ok _ _ evaluation e in
      let answer =
        await_evaluation-Answer ext_proxy_url receipt.instruction_id options _ evaluation h rest in
      let (one, hex) = read_evaluation-status node answer.2 evaluation bytes answer.6 in
      record {
        triggered_at = t;
        armed = armed;
        read = read;
        receipt = receipt;
        sent = sent;
        answer = answer;
        succeeded = one;
        hexadecimal = hex;
      }

  -- An evaluation is returned only if the policy was armed when it was read, the instruction with
  -- that time of arming was sent, and the enclave answered to it with status 1; its signature is then
  -- in hexadecimal. The poll interval is at least a millisecond, and base64 decodes to bytes.
  pub evaluate_policy-IsEvaluated :
      (instruction_sender policy ext_proxy_url : Text) (options : PollOptions) (w : W)
      (evaluation : EvaluationResult)
      → 1 ≤ options.interval_ms
      → ((b : Text) → AreBytes (node.decode_base64 b))
      → (evaluate_policy clients timer node instruction_sender policy ext_proxy_url options w).0
        ≡ ok evaluation
      → IsEvaluated instruction_sender policy ext_proxy_url w evaluation
  unfolding evaluate_policy
  evaluate_policy-IsEvaluated instruction_sender policy ext_proxy_url options w evaluation h bytes
        e =
      let (t, read, rest) = ▷-eq-ok (clients.read_triggered_at policy w) _ evaluation e in
      elim (Bool-cases (t == 0)) [
        | inl zero_time ↦ absurd (ground (arith, zero_time, rest))
        | inr later ↦
            armed_case instruction_sender policy ext_proxy_url options w evaluation t h bytes read
              (ground (arith, later)) (rw later at rest)
      ]
