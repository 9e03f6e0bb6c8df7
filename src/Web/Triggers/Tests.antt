-- ===== src/Web/Triggers/Tests.antt =====
-- Runs of the switch between triggers and of durations, and their theorems at those runs.
use flare_studio.Base.Text.{codes, text_eq}
use flare_studio.Base.Decimal.{decimal}
use flare_studio.Base.Value.{Value, obj, str, field, end, get}
use flare_studio.Base.{false, ◌≡◌, refl}
use flare_studio.Base.{◌*◌}
use flare_studio.Base.Value.{bool, number, keys}
use flare_studio.Policy.Assets.{get_asset}
use flare_studio.Web.Triggers.{
  TriggerKindSpec, heartbeat_fields, heartbeat_defaults, switch_trigger_kind, trigger_spec,
  carry_fields, carries, current_value, is_filled, set_field,
}
use flare_studio.Web.Durations.{format_interval, rounded_days, counted}

-- A draft of a payment trigger, every thirty days.
abbrev draft : Value
draft = obj (
    field (codes "kind") (str (codes "chainProofOfLife")) (
      field (codes "intervalSeconds") (number (codes "2592000"))
        (field (codes "destinationAddress") (str (codes "rA")) end)))

abbrev switched : Value
switched = obj (
    field (codes "kind") (str (codes "manualHeartbeat")) (
      field (codes "intervalSeconds") (number (codes "2592000"))
        (field (codes "demoMode") (bool false) end)))

abbrev heartbeat_spec : TriggerKindSpec
heartbeat_spec = record {
  kind = codes "manualHeartbeat";
  label = codes "If you stop checking in";
  fields = heartbeat_fields;
  defaults = heartbeat_defaults;
}

switch_run : Unit {0}
unfolding switch_trigger_kind trigger_spec carry_fields carries current_value is_filled set_field
    heartbeat_defaults get_asset text_eq decimal get keys
switch_run = tt

half_year : format_interval (180 * 86_400) ≡ codes "6 months"
unfolding format_interval rounded_days counted decimal
half_year = refl
