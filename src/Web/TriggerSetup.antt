-- ===== src/Web/TriggerSetup.antt =====
-- apps/web/lib/deploy.ts, `triggerAddress` and `configureRequest`: the contract of a trigger and the
-- call that sets it up.
use flare_studio.Base.Text.{Text, codes}
use flare_studio.Base.Decimal.{value_from}
use flare_studio.Base.Utf8.{utf8_encode}
use flare_studio.Base.{ℕ, ◌-◌, ◌++◌, Result, ok, err, length, replicate, ltb, if◌then◌else◌}
use flare_studio.Extension.Encoding.{hex_digits}
use flare_studio.Policy.Schema.{Trigger, manual_heartbeat, chain_proof_of_life, timestamp}
use flare_studio.Policy.Payments.{PackedHash, policy_reference}
use flare_studio.Web.Chain.{Addresses, is_unset, chain_name}
use flare_studio.Web.Thrown.{Thrown, exception}
use flare_studio.Base.{none, some}
use flare_studio.Web.Steps.{StepId, configure}
use flare_studio.Web.StorePolicy.{
  TriggerConfig, manual_heartbeat_config, timestamp_config, nonexistence_config,
}

pub record DeployError : Type 0 where
  pub reason : Text
  pub step : StepId

-- What leaves `deployPolicy`: a DeployError, or what a call outside every `try` threw.
pub data DeployFailure : Type 0 where
  deploy_failure : DeployError → DeployFailure
  other_failure : Thrown → DeployFailure

unfoldable pub require_deployed : Text → Text → Result DeployError Text
unfolding is_unset
require_deployed address what =
    if is_unset address
    then err (record {
      reason =
          codes "The " ++ (what ++ (codes " is not deployed on " ++ (chain_name ++ codes " yet.")));
      step = configure;
    })
    else ok address

unfoldable pub trigger_address : Addresses → Trigger → Result DeployError Text
unfolding require_deployed
trigger_address a (manual_heartbeat interval demo) =
    require_deployed a.manual_heartbeat_trigger (codes "check-in trigger")
trigger_address a (timestamp execute_after) =
    require_deployed a.timestamp_trigger (codes "scheduled-date trigger")
trigger_address a (chain_proof_of_life interval source destination minimum) =
    require_deployed a.fdc_nonexistence_trigger (codes "payment proof-of-life trigger")

unfoldable pub kind_of : Trigger → Text
kind_of (manual_heartbeat interval demo) = codes "manualHeartbeat"
kind_of (chain_proof_of_life interval source destination minimum) = codes "chainProofOfLife"
kind_of (timestamp execute_after) = codes "timestamp"

-- A DeployError, as the catch of the step sees it.
unfoldable pub source_id_too_long : Text → Thrown
source_id_too_long v =
    let text = codes "source id \"" ++ (v ++ codes "\" exceeds 32 bytes") in
    exception none none (some text) (codes "DeployError: " ++ text)

unfoldable pub string_to_bytes32 : Text → Result Thrown Text
unfolding hex_digits source_id_too_long
string_to_bytes32 v =
    let hex = hex_digits (utf8_encode v) in
    if ltb 64 (length hex)
    then err (source_id_too_long v)
    else ok (codes "0x" ++ (hex ++ replicate (64 - length hex) b'0'))

-- `now` is the time in seconds. A minimum amount that the schema accepts is a decimal numeral.
unfoldable pub configure_request :
    PackedHash Thrown → (now : ℕ) → Trigger → (owner policy : Text) → Result Thrown TriggerConfig
unfolding string_to_bytes32 policy_reference
configure_request viem now (manual_heartbeat interval demo) owner policy =
    ok (manual_heartbeat_config policy owner interval demo)
configure_request viem now (timestamp execute_after) owner policy =
    ok (timestamp_config policy execute_after)
configure_request viem now (chain_proof_of_life interval source destination minimum) owner policy =
    elim (policy_reference viem policy) [
      | err e ↦ err e
      | ok reference ↦ elim (string_to_bytes32 source) [
        | err e ↦ err e
        | ok source_id ↦ ok (
            nonexistence_config policy owner source_id (viem.keccak256 (utf8_encode destination))
              reference (value_from 0 minimum) interval now)
      ]
    ]
