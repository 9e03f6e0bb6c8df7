-- ===== src/Web/StorePolicy.antt =====
-- apps/web/lib/store-policy.ts: the sealed payload is handed to the enclave on the chain. viem's
-- clients are parameters: each call may change the state of the world, and return or throw.
use flare_studio.Base.Text.{Text, codes}
use flare_studio.Base.{
  ℕ, Bool, Option, none, some, List, [], ◌∷◌, ◌++◌, Result, ok, err, if◌then◌else◌,
}
use flare_studio.Web.Chain.{Addresses, enclave_handoff_configured}
use flare_studio.Web.Thrown.{Thrown, error_of}

-- The setup calls of the triggers.
pub data TriggerConfig : Type 0 where
  manual_heartbeat_config :
      (policy owner : Text) (interval_seconds : ℕ) (demo_mode : Bool) → TriggerConfig
  timestamp_config : (policy : Text) (execute_after : ℕ) → TriggerConfig
  nonexistence_config :
      (policy owner source_id destination_address_hash payment_reference : Text)
      (minimum_amount interval start : ℕ)
      → TriggerConfig

-- The contract calls that the application makes, each with the address of the contract first.
pub data Call : Type 0 where
  factory_deploy : (factory token commitment attestor trigger : Text) → Call
  trigger_configure : (trigger : Text) → TriggerConfig → Call
  send_store_policy : (sender policy ciphertext : Text) (value : ℕ) → Call
  token_approve : (token spender : Text) (amount : ℕ) → Call
  policy_deposit : (policy : Text) (amount : ℕ) → Call

pub record Log : Type 0 where
  pub address : Text
  pub log_data : Text
  pub topics : List Text

pub record Receipt : Type 0 where
  pub succeeded : Bool
  pub logs : List Log

-- viem's wallet, public client and decoders. A decoder throws on a log that is no event of its ABI,
-- and gives nothing on an event of another name.
pub record Clients (W : Type 0) : Type 0 where
  pub simulate_contract : Call → W → Result Thrown (Unit {0}) × W
  pub write_contract : Call → W → Result Thrown Text × W
  pub wait_for_receipt : Text → W → Result Thrown Receipt × W
  pub decode_policy_deployed : Log → Result Thrown (Option Text)
  pub decode_instructions_sent : Log → Result Thrown (Option Text)

pub record HandoffResult : Type 0 where
  pub instruction_id : Text
  pub tx_hash : Text

-- The wei that is sent with an instruction.
abbrev pub instruction_fee : ℕ
instruction_fee = 1_000_000

-- The loop over the logs: `decode` gives the wanted argument of the wanted event.
unfoldable pub extract_instruction_id :
    (Log → Result Thrown (Option Text)) → List Log → Result Thrown Text
extract_instruction_id decode [] = err (
    error_of (
      codes
        "the transaction succeeded but emitted no TeeInstructionsSent event -- the extension id "
      ++ codes "is probably unset, or the op type and command pair was rejected before dispatch"))
extract_instruction_id decode (log ∷ logs) =
    let rest = extract_instruction_id decode logs in
    elim (decode log) [
      | ok (some instruction_id) ↦ ok instruction_id
      | ok none ↦ rest
      | err e ↦ rest
    ]

module _ {W : Type 0} (clients : Clients W) (addresses : Addresses) where
  -- The result of the hand-off from its receipt.
  unfoldable pub handoff_result : Text → Receipt → Result Thrown HandoffResult
  unfolding extract_instruction_id
  handoff_result tx_hash receipt =
      if receipt.succeeded
      then elim (extract_instruction_id clients.decode_instructions_sent receipt.logs) [
        | ok instruction_id ↦ ok (record { instruction_id = instruction_id; tx_hash = tx_hash })
        | err e ↦ err e
      ]
      else err (error_of (codes "the hand-off transaction reverted (" ++ (tx_hash ++ codes ")")))

  -- After the call was sent.
  unfoldable pub await_handoff : Text → W → Result Thrown HandoffResult × W
  unfolding handoff_result
  await_handoff tx_hash w =
      let (receipt, w') = clients.wait_for_receipt tx_hash w in
      elim receipt [ err e ↦ (err e, w') | ok r ↦ (handoff_result tx_hash r, w') ]

  -- The calls that were sent to the wallet are the last component.
  unfoldable pub store_policy_on_chain :
      (policy ciphertext : Text) → W → Result Thrown HandoffResult × W × List Call
  unfolding await_handoff
  store_policy_on_chain policy ciphertext w =
      if enclave_handoff_configured addresses
      then (let request =
            send_store_policy addresses.policy_instruction_sender policy ciphertext
              instruction_fee in
          let (simulated, w1) = clients.simulate_contract request w in
          elim simulated [
            | err e ↦ (err e, w1, [])
            | ok _ ↦
                let (sent, w2) = clients.write_contract request w1 in
                elim sent [
                  | err e ↦ (err e, w2, request ∷ [])
                  | ok tx_hash ↦
                      let (result, w3) = await_handoff tx_hash w2 in (result, w3, request ∷ [])
                ]
          ])
      else (
        err (
            error_of (
              codes
                "No instruction sender is configured, so the enclave cannot be reached from this "
              ++ codes "build.")),
        w,
        [],
      )
