-- ===== src/Web/Triggers.antt =====
-- apps/web/lib/triggers.ts: the triggers that a user can choose, and the switch from one to another.
-- A draft is an object of the type `Value`; `now` is the time in seconds.
pub mod Switch
pub mod Tests
use flare_studio.Base.Text.{Text, codes, text_eq}
use flare_studio.Base.Decimal.{decimal}
use flare_studio.Base.Value.{Value, undefined, bool, number, str, obj, Fields, field, end, get}
use flare_studio.Base.{
  ℕ, ◌+◌, ◌*◌, Bool, true, false, ◌&&◌, not, Option, none, some, List, [], ◌∷◌, ◌++◌, Result, ok,
  err, find?, if◌then◌else◌,
}
use flare_studio.Policy.Assets.{AssetValue, own, inherited, UnknownAsset, get_asset}

pub data Input : Type 0 where
  duration date text amount toggle : Input

pub record TriggerField : Type 0 where
  pub key : Text
  pub label : Text
  pub input : Input

-- What switching can throw: the asset is unknown, or what was found under its name has no minimum.
pub data SwitchError : Type 0 where
  asset_unknown : UnknownAsset → SwitchError
  minimum_undefined : SwitchError

pub record TriggerKindSpec : Type 0 where
  pub kind : Text
  pub label : Text
  pub fields : List TriggerField
  pub defaults : (now : ℕ) → AssetValue → Result SwitchError Fields

abbrev pub year : ℕ
year = 365 * 86_400

abbrev pub heartbeat_fields : List TriggerField
heartbeat_fields =
    record { key = codes "intervalSeconds"; label = codes "Check in every"; input = duration }
    ∷ record { key = codes "demoMode"; label = codes "Demo control"; input = toggle }
    ∷ []

unfoldable pub heartbeat_defaults : ℕ → AssetValue → Result SwitchError Fields
heartbeat_defaults now asset = ok (
    field (codes "kind") (str (codes "manualHeartbeat")) (
      field (codes "intervalSeconds") (number (decimal year))
        (field (codes "demoMode") (bool false) end)))

abbrev pub proof_of_life_fields : List TriggerField
proof_of_life_fields =
    record { key = codes "intervalSeconds"; label = codes "Pay every"; input = duration }
    ∷ record { key = codes "destinationAddress"; label = codes "Pay to"; input = text }
    ∷ record { key = codes "minimumAmount"; label = codes "At least"; input = amount }
    ∷ []

unfoldable pub proof_of_life_defaults : ℕ → AssetValue → Result SwitchError Fields
proof_of_life_defaults now (inherited name) = err minimum_undefined
proof_of_life_defaults now (own asset) = ok (
    field (codes "kind") (str (codes "chainProofOfLife")) (
      field (codes "intervalSeconds") (number (decimal year)) (
        field (codes "sourceId") (str asset.fdc_source_id) (
          field (codes "destinationAddress") (str [])
            (field (codes "minimumAmount") (str (decimal asset.minimum_heartbeat)) end)))))

abbrev pub timestamp_fields : List TriggerField
timestamp_fields = record { key = codes "executeAfter"; label = codes "Runs on"; input = date } ∷ []

unfoldable pub timestamp_defaults : ℕ → AssetValue → Result SwitchError Fields
timestamp_defaults now asset = ok (
    field (codes "kind") (str (codes "timestamp"))
      (field (codes "executeAfter") (number (decimal (now + year))) end))

-- The texts of help are not kept.
unfoldable pub trigger_kinds : List TriggerKindSpec
trigger_kinds =
    record {
      kind = codes "manualHeartbeat";
      label = codes "If you stop checking in";
      fields = heartbeat_fields;
      defaults = heartbeat_defaults;
    }
    ∷ record {
      kind = codes "chainProofOfLife";
      label = codes "If you stop sending a payment";
      fields = proof_of_life_fields;
      defaults = proof_of_life_defaults;
    }
    ∷ record {
      kind = codes "timestamp";
      label = codes "On a specific date";
      fields = timestamp_fields;
      defaults = timestamp_defaults;
    }
    ∷ []

unfoldable pub trigger_spec : Text → Option TriggerKindSpec
unfolding trigger_kinds
trigger_spec kind = find? (λ t. text_eq t.kind kind) trigger_kinds

-- `current?.[key]`
unfoldable pub current_value : Value → Text → Value
current_value (obj fs) key = get key fs
current_value v key = undefined

unfoldable pub is_filled : Value → Bool
is_filled undefined = false
is_filled (str []) = false
is_filled v = true

unfoldable pub carries : Value → Text → Bool
unfolding current_value is_filled
carries current key = is_filled (current_value current key) && not (text_eq key (codes "kind"))

-- `next[key] = v`: in its place, or at the end.
unfoldable pub set_field : Text → Value → Fields → Fields
set_field key v end = field key v end
set_field key v (field k w fs) =
    let rest = set_field key v fs in if text_eq k key then field k v fs else field k w rest

-- The loop over the fields of the new kind.
unfoldable pub carry_fields : Value → List TriggerField → Fields → Fields
unfolding carries set_field
carry_fields current [] next = next
carry_fields current (f ∷ fs) next =
    carry_fields current fs
      (if carries current f.key then set_field f.key (current_value current f.key) next else next)

unfoldable pub switch_trigger_kind :
    (now : ℕ) (current : Value) (kind asset_symbol : Text) → Result SwitchError Value
unfolding trigger_spec carry_fields
switch_trigger_kind now current kind asset_symbol = elim (trigger_spec kind) [
  | none ↦ ok current
  | some spec ↦ elim (get_asset asset_symbol) [
    | err e ↦ err (asset_unknown e)
    | ok asset ↦ elim (spec.defaults now asset) [
      | err e ↦ err e
      | ok next ↦ ok (obj (carry_fields current spec.fields next))
    ]
  ]
]
