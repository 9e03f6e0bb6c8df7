-- ===== src/Web/Triggers/Switch.antt =====
-- What a draft holds after its trigger was switched.
use flare_studio.Base.Text.{Text, text_eq}
use flare_studio.Base.Value.{Value, Fields, field, end, get}
use flare_studio.Base.{ℕ, Bool, true, false, ◌&&◌, ◌||◌, List, ok, any, All, ◌≡◌, if◌then◌else◌}
use flare_studio.Policy.Assets.{AssetValue}
use flare_studio.Web.Triggers.{TriggerField, TriggerKindSpec, current_value, carries}

-- A field of the new kind that the draft has filled.
abbrev pub is_carried : Value → List TriggerField → Text → Bool
is_carried current fields k = any (λ f. text_eq f.key k) fields && carries current k

carried_value : Value → Fields → Bool → Text → Value
carried_value current next b k = if b then current_value current k else get k next

abbrev has_key : Text → Fields → Bool
has_key k end = false
has_key k (field j v fs) = text_eq j k || has_key k fs

-- The fields of a kind all stand in its defaults.
abbrev Covered : List TriggerField → Fields → Type 0
Covered fields next = All (λ f. has_key f.key next ≡ true) fields

abbrev IsCovered : TriggerKindSpec → Type 0
IsCovered spec =
    (now : ℕ) (asset : AssetValue) (next : Fields)
    → spec.defaults now asset ≡ ok next
    → Covered spec.fields next
