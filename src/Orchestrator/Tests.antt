-- ===== src/Orchestrator/Tests.antt =====
-- Runs of the orchestrator, and its theorems at those runs.
use flare_studio.Base.Text.{Text, codes, text_eq, is_hex_digit, hex_digit, hex_value}
use flare_studio.Base.{
  ℕ, ◌+◌, true, false, Option, none, some, [], ◌∷◌, Result, ok, err, ◌≡◌, ◌↔◌, refl, arith,
  if◌then◌else◌, leb,
}
use flare_studio.Extension.Encoding.{hex_pairs, hex_digits, bytes_to_hex}
use flare_studio.Extension.Encoding.RoundTrip.{AreBytes}
use flare_studio.Orchestrator.Instructions.{
  Clients, extract_instruction_id, transact, send, send_evaluate_policy, function_name,
}
use flare_studio.Orchestrator.Instructions.Sending.{FirstEvent, extract_instruction_id-eq-ok_iff}
use flare_studio.Orchestrator.Results.{
  Node, ActionResponse, is_hex_text, payload_bytes, decode_payload, decode_action_data,
  as_hex_bytes,
}
use flare_studio.Orchestrator.Polling.{
  Timer, Response, poll, poll_action_result, final, status_of, result_url, without_slash,
}
use flare_studio.Orchestrator.Polling.Deadline.{Ended, poll_action_result-Ended}
use flare_studio.Orchestrator.Policies.{
  EvaluationResult, PollOptions, evaluate_policy, await_evaluation, polled_result, read_evaluation,
  execute_policy,
}
use flare_studio.Orchestrator.Policies.Evaluation.{IsEvaluated, evaluate_policy-IsEvaluated}

-- A log is the text of an event, or none.
abbrev decode_log : Option Text → Result Text (Option Text)
decode_log none = err (codes "no event of this ABI")
decode_log (some id) = ok (some id)

extract_instruction_id-eq-ok_iff_example :
    (extract_instruction_id decode_log (none ∷ some (codes "0x99") ∷ []) ≡ ok (codes "0x99"))
    ↔ FirstEvent decode_log (codes "0x99") (none ∷ some (codes "0x99") ∷ [])
extract_instruction_id-eq-ok_iff_example =
    extract_instruction_id-eq-ok_iff decode_log (codes "0x99") (none ∷ some (codes "0x99") ∷ [])

-- The world is the time in milliseconds, and the enclave answers from the time `5` on.
abbrev evaluation : Text → EvaluationResult
evaluation signature = record {
  policy = codes "0xP0";
  shares = record { recipient = codes "0xaa"; share_bps = 10_000 } ∷ [];
  salt = codes "0x01";
  signature = signature;
}

abbrev node : Node EvaluationResult
node = record {
  parse_json = λ t.
      if text_eq t (codes "{}")
      then ok (evaluation (codes "qw=="))
      else err (codes "Unexpected token");
  decode_utf8 = λ bytes. bytes;
  decode_base64 = λ t. 171 ∷ [];
}

abbrev answer : ActionResponse
answer = record {
  status = 1;
  log = codes "ok";
  payload = some (codes "0x7b7d");
  version = codes "0.1.0";
}

abbrev response : ℕ → Response ActionResponse
response time =
    if leb 5 time
    then record { is_ok = true; status = 200; json = ok answer }
    else record { is_ok = false; status = 404; json = err [] }

abbrev timer : Timer ℕ ActionResponse
timer = record {
  now = λ w. w;
  fetch = λ url w. (some (response w), w);
  wait = λ n w. w + n;
  fetch_later = λ url w. omega arith;
  wait_later = λ n w. omega arith;
}

abbrev clients : Clients ℕ (Option Text)
clients = record {
  has_account = true;
  simulate_contract = λ call w. (ok tt, w);
  write_contract = λ call w. (ok (codes "0xhash"), w + 1);
  wait_for_receipt =
      λ hash w. (ok (record { succeeded = true; logs = none ∷ some (codes "0x99") ∷ [] }), w);
  read_triggered_at = λ policy w. (ok 1_700_000_000, w);
  decode_event = decode_log;
}

abbrev options : PollOptions
options = record { timeout_ms = 20; interval_ms = 2 }

orchestrator_run : Unit {0}
unfolding extract_instruction_id transact send send_evaluate_policy function_name is_hex_text
    payload_bytes decode_payload decode_action_data as_hex_bytes poll poll_action_result final
    status_of result_url without_slash evaluate_policy await_evaluation polled_result
    read_evaluation execute_policy hex_pairs hex_digits bytes_to_hex hex_digit hex_value
    is_hex_digit text_eq
orchestrator_run = tt

evaluated :
    (evaluate_policy clients timer node
      (codes "0x0d")
      (codes "0xP0")
      (codes "https://proxy/")
      options
      0).0
    ≡ ok (evaluation (codes "0xab"))
unfolding orchestrator_run
evaluated = refl

executed :
    (execute_policy clients (codes "0xP0") (evaluation (codes "0xab")) 0).0 ≡ ok (codes "0xhash")
unfolding orchestrator_run
executed = refl

node_bytes : (b : Text) → AreBytes (node.decode_base64 b)
node_bytes b = (omega arith, tt)

evaluate_policy-IsEvaluated_example :
    IsEvaluated clients timer node
      (codes "0x0d")
      (codes "0xP0")
      (codes "https://proxy/")
      0
      (evaluation (codes "0xab"))
evaluate_policy-IsEvaluated_example =
    evaluate_policy-IsEvaluated clients timer node (codes "0x0d") (codes "0xP0")
      (codes "https://proxy/") options 0 (evaluation (codes "0xab")) (omega arith) node_bytes
      evaluated

poll_action_result-Ended_example :
    Ended timer
      (result_url (codes "https://proxy/") (codes "0x99"))
      2
      20
      (poll_action_result timer (codes "https://proxy/") (codes "0x99") 20 2 0)
poll_action_result-Ended_example =
    poll_action_result-Ended timer (codes "https://proxy/") (codes "0x99") 20 2 0 (omega arith)
