-- ===== src/Orchestrator/Instructions.antt =====
-- apps/orchestrator/src/instructions.ts: instructions are sent on the chain. viem's clients are
-- parameters: each call may change the state of the world, and returns or throws an error of which
-- the message is kept.
pub mod Sending
use flare_studio.Base.Text.{Text, codes}
use flare_studio.Base.{
  ℕ, Bool, true, false, Option, none, some, List, [], ◌∷◌, ◌++◌, Result, ok, err, ◌▷◌,
  if◌then◌else◌,
}

-- The wei that is sent with an instruction.
abbrev pub instruction_fee : ℕ
instruction_fee = 1_000_000

pub record InstructionReceipt : Type 0 where
  pub instruction_id : Text
  pub tx_hash : Text

-- The arguments of the two functions of the sender contract.
pub data Instruction : Type 0 where
  store_policy : (policy ciphertext : Text) → Instruction
  evaluate_policy : (policy : Text) (triggered_at : ℕ) → Instruction

unfoldable pub function_name : Instruction → Text
function_name (store_policy policy ciphertext) = codes "sendStorePolicy"
function_name (evaluate_policy policy triggered_at) = codes "sendEvaluatePolicy"

pub record ShareOut : Type 0 where
  pub recipient : Text
  pub share_bps : ℕ

-- The contract calls that the orchestrator makes, each with the address of the contract first.
pub data Call : Type 0 where
  instruct : (sender : Text) → Instruction → (value : ℕ) → Call
  execute : (policy : Text) → List ShareOut → (salt signature : Text) → Call

pub record Receipt (Log : Type 0) : Type 0 where
  pub succeeded : Bool
  pub logs : List Log

-- `decode_event` throws on a log that is no event of the registry's ABI, and gives nothing on an event
-- other than TeeInstructionsSent.
pub record Clients (W Log : Type 0) : Type 0 where
  pub has_account : Bool
  pub simulate_contract : Call → W → Result Text (Unit {0}) × W
  pub write_contract : Call → W → Result Text Text × W
  pub wait_for_receipt : Text → W → Result Text (Receipt Log) × W
  pub read_triggered_at : Text → W → Result Text ℕ × W
  pub decode_event : Log → Result Text (Option Text)

unfoldable pub extract_instruction_id :
    {Log : Type 0} → (Log → Result Text (Option Text)) → List Log → Result Text Text
extract_instruction_id decode [] = err (
    codes "no TeeInstructionsSent event in the receipt -- the extension id is probably unset, "
    ++ codes "or the op type/command pair was rejected before dispatch")
extract_instruction_id decode (log ∷ logs) =
    let rest = extract_instruction_id decode logs in
    elim (decode log) [
      | ok (some instruction_id) ↦ ok instruction_id
      | ok none ↦ rest
      | err e ↦ rest
    ]

module _ {W Log : Type 0} (clients : Clients W Log) where
  -- A call that is simulated, sent, and must succeed: `name` is what a revert is reported under.
  unfoldable pub transact : Text → Call → W → Result Text (Text × Receipt Log) × W
  transact name call w =
      if clients.has_account
      then (clients.simulate_contract call w ▷ λ _ w1.
          clients.write_contract call w1 ▷ λ tx_hash w2.
          clients.wait_for_receipt tx_hash w2 ▷ λ receipt w3.
          if receipt.succeeded
          then (ok (tx_hash, receipt), w3)
          else (err (name ++ (codes " reverted (tx " ++ (tx_hash ++ codes ")"))), w3))
      else (err (codes "wallet client has no account"), w)

  unfoldable pub send : Text → Instruction → W → Result Text InstructionReceipt × W
  unfolding transact extract_instruction_id
  send sender instruction w =
      transact (function_name instruction) (instruct sender instruction instruction_fee) w
      ▷ λ sent w'. elim (extract_instruction_id clients.decode_event sent.1.logs) [
        | ok instruction_id ↦
            (ok (record { instruction_id = instruction_id; tx_hash = sent.0 }), w')
        | err e ↦ (err e, w')
      ]

  unfoldable pub send_store_policy :
      (sender policy ciphertext : Text) → W → Result Text InstructionReceipt × W
  unfolding send
  send_store_policy sender policy ciphertext w = send sender (store_policy policy ciphertext) w

  unfoldable pub send_evaluate_policy :
      (sender policy : Text) (triggered_at : ℕ) → W → Result Text InstructionReceipt × W
  unfolding send
  send_evaluate_policy sender policy triggered_at w =
      send sender (evaluate_policy policy triggered_at) w
