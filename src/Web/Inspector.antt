-- ===== src/Web/Inspector.antt =====
-- apps/web/lib/inspector.ts: the panel of a node, found from the node's id. A value that the source
-- reads and that is not there is `undefined`, here `none`. The texts of help are not kept.
pub mod Panels
pub mod Nodes
use flare_studio.Base.Text.{Text, codes, text_eq, starts_with}
use flare_studio.Base.Decimal.{decimal}
use flare_studio.Base.Number.{number_index}
use flare_studio.Base.{
  ℕ, Bool, true, false, Option, none, some, List, [], ◌∷◌, ◌++◌, Result, ok, err, ◌>>=◌, any,
  length, get_elem?, drop, ltb, if◌then◌else◌,
}
use flare_studio.Policy.Assets.{AssetValue, own, inherited, get_asset}
use flare_studio.Policy.Schema.{manual_heartbeat, chain_proof_of_life, timestamp}
use flare_studio.Policy.Templates.{default_to}
use flare_studio.Web.Durations.{format_interval}
use flare_studio.Web.Canvas.{
  DraftTrigger, known_trigger, other_trigger, DraftCondition, DraftAction, transfer, other_action,
  DraftIr, CanvasError, unknown_asset_symbol, Description, DateFormat, list_or_empty,
  confidential_count, format_date, describe_trigger, describe_condition, describe_action,
  asset_symbol, asset_name, asset_id, trigger_id, confidential_id, asset_of,
}

pub data Editor : Type 0 where
  recipients_editor trigger_editor : Editor

pub record InspectorRow : Type 0 where
  pub label : Text
  pub value : Option Text

pub record InspectorPanel : Type 0 where
  pub label : Text
  pub title : Text
  pub rows : List InspectorRow
  pub editor : Option Editor

abbrev row : Text → Option Text → InspectorRow
row label value = record { label = label; value = value }

-- The number after the prefix, if there is the prefix and such a number.
unfoldable pub index_of : Option Text → Text → Option ℕ
unfolding starts_with
index_of none prefix = none
index_of (some node_id) prefix =
    if starts_with prefix node_id then number_index (drop (length prefix) node_id) else none

unfoldable pub condition_count_row : List DraftCondition → List InspectorRow
condition_count_row [] = []
condition_count_row (c ∷ cs) = row (codes "Conditions") (some (decimal (length (c ∷ cs)))) ∷ []

unfoldable pub policy_panel : DateFormat → DraftIr → Result CanvasError InspectorPanel
unfolding list_or_empty describe_trigger condition_count_row default_to
policy_panel format ir = do
  described ← describe_trigger format ir.trigger
  ok (record {
    label = codes "Policy";
    title = codes "Policy";
    rows =
        row (codes "Name") (some (default_to [] ir.name))
          ∷ row (codes "Asset") (some ir.asset)
          ∷ row (codes "Trigger") (some described.title)
          ∷ condition_count_row (list_or_empty ir.conditions)
        ++ row (codes "Actions") (some (decimal (length (list_or_empty ir.actions)))) ∷ [];
    editor = none;
  })

-- `String(asset.decimals)`
unfoldable pub asset_decimals : AssetValue → Text
asset_decimals (own a) = decimal a.decimals
asset_decimals (inherited key) = codes "undefined"

unfoldable pub described_asset : AssetValue → InspectorPanel
unfolding asset_decimals
described_asset a = record {
  label = codes "Asset";
  title = codes "What it governs";
  rows =
      row (codes "Symbol") (asset_symbol a)
      ∷ row (codes "Underlying") (asset_name a)
      ∷ row (codes "Decimals") (some (asset_decimals a))
      ∷ [];
  editor = none;
}

unfoldable pub asset_panel : DraftIr → Result CanvasError InspectorPanel
unfolding described_asset
asset_panel ir = do a ← asset_of ir.asset; ok (described_asset a)

-- The rows that belong to the kind of the trigger.
unfoldable pub trigger_rows :
    DateFormat → Option DraftTrigger → Result CanvasError (List InspectorRow)
unfolding format_interval format_date
trigger_rows format (some (known_trigger (manual_heartbeat interval demo_mode))) = ok (
    row (codes "Check in every") (some (format_interval interval))
    ∷ (if demo_mode then row (codes "Demo mode") (some (codes "On")) ∷ [] else []))
trigger_rows format (some (known_trigger (chain_proof_of_life interval source to least))) = ok (
    row (codes "Check in every") (some (format_interval interval))
    ∷ row (codes "Chain") (some source)
    ∷ [])
trigger_rows format (some (known_trigger (timestamp execute_after))) = do
  date ← format_date format execute_after
  ok (row (codes "Runs on") (some date) ∷ [])
trigger_rows format (some other_trigger) = ok []
trigger_rows format none = ok []

unfoldable pub trigger_panel : DateFormat → DraftIr → Result CanvasError InspectorPanel
unfolding describe_trigger trigger_rows
trigger_panel format ir = do
  described ← describe_trigger format ir.trigger
  rows ← trigger_rows format ir.trigger
  ok (record {
    label = codes "Trigger";
    title = codes "What starts it";
    rows = row (codes "Condition") (some described.title) ∷ rows;
    editor = some trigger_editor;
  })

abbrev pub described_condition : DraftCondition → InspectorPanel
described_condition c = record {
  label = codes "Condition";
  title = codes "What must also hold";
  rows =
      row (codes "Type") (some (describe_condition c).title)
      ∷ row (codes "Detail") (some (describe_condition c).summary)
      ∷ [];
  editor = none;
}

unfoldable pub condition_panel : DateFormat → DraftIr → ℕ → Result CanvasError InspectorPanel
unfolding list_or_empty policy_panel
condition_panel format ir index = elim (get_elem? (list_or_empty ir.conditions) index) [
  | none ↦ policy_panel format ir
  | some c ↦ ok (described_condition c)
]

unfoldable pub recipient_rows : DraftAction → List InspectorRow
unfolding list_or_empty
recipient_rows (transfer recipients) =
    row (codes "Recipients") (some (decimal (length (list_or_empty recipients)))) ∷ []
recipient_rows other_action = []

unfoldable pub described_action : DraftAction → InspectorPanel
unfolding recipient_rows
described_action a = record {
  label = codes "Action";
  title = codes "What happens";
  rows = row (codes "Type") (some (describe_action a).title) ∷ recipient_rows a;
  editor = none;
}

unfoldable pub action_panel : DateFormat → DraftIr → ℕ → Result CanvasError InspectorPanel
unfolding list_or_empty policy_panel described_action
action_panel format ir index = elim (get_elem? (list_or_empty ir.actions) index) [
  | none ↦ policy_panel format ir
  | some a ↦ ok (described_action a)
]

unfoldable pub is_transfer : DraftAction → Bool
is_transfer (transfer recipients) = true
is_transfer other_action = false

unfoldable pub confidential_panel : DraftIr → InspectorPanel
unfolding list_or_empty confidential_count is_transfer
confidential_panel ir =
    let actions = list_or_empty ir.actions in
    let editable = any is_transfer actions in
    record {
      label = codes "Confidential inputs";
      title = if editable then codes "Who receives what" else codes "Confidential inputs";
      rows =
          if editable
          then []
          else row (codes "Private values") (some (decimal (confidential_count actions))) ∷ [];
      editor = if editable then some recipients_editor else none;
    }

unfoldable pub is_node : Option Text → Text → Bool
is_node none id = false
is_node (some node_id) id = text_eq node_id id

-- The id of no node, or `null`, gives the panel of the policy.
unfoldable pub indexed_panel :
    Option Text → DateFormat → DraftIr → Result CanvasError InspectorPanel
unfolding condition_panel action_panel policy_panel
indexed_panel node_id format ir = elim (index_of node_id (codes "condition-")) [
  | some i ↦ condition_panel format ir i
  | none ↦ elim (index_of node_id (codes "action-")) [
    | some i ↦ action_panel format ir i
    | none ↦ policy_panel format ir
  ]
]

unfoldable pub inspector_for :
    Option Text → DateFormat → DraftIr → Result CanvasError InspectorPanel
unfolding is_node asset_panel trigger_panel confidential_panel indexed_panel
inspector_for node_id format ir =
    if is_node node_id asset_id
    then asset_panel ir
    else if is_node node_id trigger_id
    then trigger_panel format ir
    else if is_node node_id confidential_id
    then ok (confidential_panel ir)
    else indexed_panel node_id format ir
