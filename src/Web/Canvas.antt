-- ===== src/Web/Canvas.antt =====
-- apps/web/lib/canvas.ts: the diagram of a draft. A draft is a policy that was built and not parsed:
-- a part may be missing, or of a kind that the schema does not have. `Intl.DateTimeFormat` is a
-- parameter, on milliseconds; it throws on a time out of range.
pub mod Walk
pub mod Ids
use flare_studio.Base.Text.{Text, codes, text_eq}
use flare_studio.Base.Decimal.{decimal}
use flare_studio.Base.{
  ℕ, ◌+◌, ◌*◌, Option, none, some, List, [], ◌∷◌, ◌++◌, Result, ok, err, ◌>>=◌, any, length, ltb,
  ◌==◌, if◌then◌else◌,
}
use flare_studio.Policy.Assets.{AssetValue, own, inherited, UnknownAsset, get_asset}
use flare_studio.Policy.Schema.{
  Trigger, manual_heartbeat, chain_proof_of_life, timestamp, Condition, price_above, Recipient,
  Price,
}
use flare_studio.Web.Durations.{format_interval}

pub data DraftTrigger : Type 0 where
  known_trigger : Trigger → DraftTrigger
  other_trigger : DraftTrigger

pub data DraftCondition : Type 0 where
  known_condition : Condition → DraftCondition
  other_condition : DraftCondition

pub data DraftAction : Type 0 where
  transfer : (recipients : Option (List Recipient)) → DraftAction
  other_action : DraftAction

pub record DraftIr : Type 0 where
  pub name : Option Text
  pub asset : Text
  pub trigger : Option DraftTrigger
  pub conditions : Option (List DraftCondition)
  pub actions : Option (List DraftAction)

pub data CanvasError : Type 0 where
  unknown_asset_symbol : UnknownAsset → CanvasError
  invalid_time : CanvasError

pub record Description : Type 0 where
  pub title : Text
  pub summary : Text

-- `value?.length ?? 0`, and a list that may be missing.
unfoldable pub list_or_empty : {A : Type 0} → Option (List A) → List A
list_or_empty none = []
list_or_empty (some xs) = xs

unfoldable pub confidential_input_count : DraftAction → ℕ
unfolding list_or_empty
confidential_input_count (transfer recipients) = length (list_or_empty recipients)
confidential_input_count other_action = 0

unfoldable pub confidential_count : List DraftAction → ℕ
unfolding confidential_input_count
confidential_count [] = 0
confidential_count (a ∷ as') = confidential_input_count a + confidential_count as'

-- The formatter of dates.
abbrev pub DateFormat : Type 0
DateFormat = (milliseconds : ℕ) → Result CanvasError Text

unfoldable pub format_date : DateFormat → ℕ → Result CanvasError Text
format_date format unix_seconds = format (unix_seconds * 1000)

unfoldable pub describe_interval : ℕ → Description
unfolding format_interval
describe_interval interval = record {
  title = codes "If you stop checking in";
  summary = codes "After " ++ (format_interval interval ++ codes " without a check-in");
}

unfoldable pub describe_trigger : DateFormat → Option DraftTrigger → Result CanvasError Description
unfolding format_date describe_interval
describe_trigger format (some (known_trigger (manual_heartbeat interval demo_mode))) =
    ok (describe_interval interval)
describe_trigger format (some (known_trigger (chain_proof_of_life interval source to least))) =
    ok (describe_interval interval)
describe_trigger format (some (known_trigger (timestamp execute_after))) = do
  date ← format_date format execute_after
  ok (record { title = codes "On a specific date"; summary = date })
describe_trigger format (some other_trigger) = ok (record { title = codes "Trigger"; summary = [] })
describe_trigger format none = ok (record { title = codes "Trigger"; summary = [] })

unfoldable pub describe_condition : DraftCondition → Description
describe_condition (known_condition (price_above feed_id minimum)) = record {
  title = codes "Only above a price";
  summary = codes "Runs only while the price is over $" ++ minimum.numeral;
}
describe_condition other_condition = record { title = codes "Condition"; summary = [] }

unfoldable pub describe_action : DraftAction → Description
unfolding list_or_empty
describe_action (transfer recipients) =
    let n = length (list_or_empty recipients) in
    record {
      title = codes "Split transfer";
      summary =
          codes "Distribute the full balance across "
          ++ (decimal n ++ (codes " recipient" ++ (if n == 1 then [] else codes "s")));
    }
describe_action other_action = record { title = codes "Action"; summary = [] }

pub data DiagramNodeType : Type 0 where
  asset trigger condition confidential action : DiagramNodeType

-- A symbol or name that the asset's value does not have is `undefined`.
pub data NodeData : Type 0 where
  asset_data : (symbol name : Option Text) → NodeData
  description : Description → NodeData
  count : ℕ → NodeData

pub record DiagramNode : Type 0 where
  pub id : Text
  pub node_type : DiagramNodeType
  pub shown : NodeData

pub record DiagramEdge : Type 0 where
  pub id : Text
  pub source : Text
  pub target : Text

pub record CanvasGraph : Type 0 where
  pub nodes : List DiagramNode
  pub edges : List DiagramEdge

-- `asset.symbol` and `asset.name` of what `ASSETS[symbol]` is. The functions of the prototype have
-- their own name, and `__proto__` is an object without one.
unfoldable pub asset_symbol : AssetValue → Option Text
asset_symbol (own a) = some a.symbol
asset_symbol (inherited key) = none

unfoldable pub asset_name : AssetValue → Option Text
asset_name (own a) = some a.name
asset_name (inherited key) =
    if text_eq key (codes "constructor")
    then some (codes "Object")
    else if text_eq key (codes "__proto__")
    then none
    else some key

abbrev pub asset_id : Text
asset_id = codes "asset"

abbrev pub trigger_id : Text
trigger_id = codes "trigger"

abbrev pub confidential_id : Text
confidential_id = codes "confidential"

unfoldable pub condition_id : ℕ → Text
condition_id i = codes "condition-" ++ decimal i

unfoldable pub action_id : ℕ → Text
action_id i = codes "action-" ++ decimal i

unfoldable pub edge_between : Text → Text → DiagramEdge
edge_between source target = record {
  id = source ++ (codes "-" ++ target);
  source = source;
  target = target;
}

-- What the function pushes to, and the end of the chain of gates.
pub record Drawing : Type 0 where
  pub graph : CanvasGraph
  pub upstream : Text

-- `nodes.push`, with an edge from the end of the chain.
unfoldable pub attach : DiagramNode → Drawing → CanvasGraph
unfolding edge_between
attach n d = record {
  nodes = d.graph.nodes ++ n ∷ [];
  edges = d.graph.edges ++ edge_between d.upstream n.id ∷ [];
}

unfoldable pub condition_node : ℕ → DraftCondition → DiagramNode
unfolding condition_id describe_condition
condition_node i c = record {
  id = condition_id i;
  node_type = condition;
  shown = description (describe_condition c);
}

unfoldable pub action_node : ℕ → DraftAction → DiagramNode
unfolding action_id describe_action
action_node i a = record {
  id = action_id i;
  node_type = action;
  shown = description (describe_action a);
}

unfoldable pub confidential_node : ℕ → DiagramNode
confidential_node n = record { id = confidential_id; node_type = confidential; shown = count n }

-- The loop over the conditions from index `i`: each becomes the end of the chain.
unfoldable pub draw_conditions : ℕ → List DraftCondition → Drawing → Drawing
unfolding attach condition_node condition_id
draw_conditions i [] d = d
draw_conditions i (c ∷ cs) d =
    draw_conditions (i + 1) cs
      (record { graph = attach (condition_node i c) d; upstream = condition_id i })

unfoldable pub draw_confidential : List DraftAction → Drawing → Drawing
unfolding confidential_count attach confidential_node
draw_confidential actions d =
    if ltb 0 (confidential_count actions)
    then record {
      graph = attach (confidential_node (confidential_count actions)) d;
      upstream = d.upstream;
    }
    else d

-- The loop over the actions from index `i`: all of them hang on the end of the chain.
unfoldable pub draw_actions : ℕ → List DraftAction → Drawing → Drawing
unfolding attach action_node
draw_actions i [] d = d
draw_actions i (a ∷ as') d =
    draw_actions (i + 1) as' (record { graph = attach (action_node i a) d; upstream = d.upstream })

unfoldable pub first_nodes : AssetValue → Description → Drawing
unfolding asset_symbol asset_name edge_between
first_nodes a described = record {
  graph = record {
    nodes =
        record {
          id = asset_id;
          node_type = asset;
          shown = asset_data (asset_symbol a) (asset_name a);
        }
        ∷ record { id = trigger_id; node_type = trigger; shown = description described }
        ∷ [];
    edges = edge_between asset_id trigger_id ∷ [];
  };
  upstream = trigger_id;
}

-- `getAsset`, with its error as one of these.
unfoldable pub asset_of : Text → Result CanvasError AssetValue
asset_of symbol = elim (get_asset symbol) [ err e ↦ err (unknown_asset_symbol e) | ok a ↦ ok a ]

-- The conditions, the confidential inputs and the actions of a draft, onto its first nodes.
unfoldable pub draw_draft : DraftIr → Drawing → CanvasGraph
unfolding draw_conditions draw_confidential draw_actions list_or_empty
draw_draft ir first =
    let gated = draw_conditions 0 (list_or_empty ir.conditions) first in
    let locked = draw_confidential (list_or_empty ir.actions) gated in
    (draw_actions 0 (list_or_empty ir.actions) locked).graph

unfoldable pub graph_from_ir : DateFormat → DraftIr → Result CanvasError CanvasGraph
graph_from_ir format ir = do
  a ← asset_of ir.asset
  described ← describe_trigger format ir.trigger
  ok (draw_draft ir (first_nodes a described))
