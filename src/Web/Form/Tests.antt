-- ===== src/Web/Form/Tests.antt =====
-- Runs of the builder: its canvas, its inspector, its form, its recipients and its review; and the
-- theorems at those runs.
use flare_studio.Base.Int.{negsuc}
use flare_studio.Base.Text.{codes, starts_with, text_eq}
use flare_studio.Base.Decimal.{decimal, value_from}
use flare_studio.Base.{
  ◌+◌, ◌-◌, true, none, some, [], ◌∷◌, ok, err, ◌≡◌, refl, sym, All, arith, length,
}
use flare_studio.Policy.Tests.{zod, viem, alice, bob, sixty_forty, alice-ne-bob}
use flare_studio.Policy.Assets.{get_asset}
use flare_studio.Policy.Schema.{
  timestamp, price_above, is_address, label_ok, Recipient, split_transfer, action_ok, PolicyIr,
}
use flare_studio.Policy.Schema.Refine.{IsSplit, DistinctFrom}
use flare_studio.Policy.Canonical.{canonicalize, insert_field}
use flare_studio.Policy.Commitment.{compute_commitment}
use flare_studio.Base.Order.{text_lt}
use flare_studio.Web.Tests.{compiled}
use flare_studio.Policy.Compile.{CompiledPolicy, assemble, enclave_value}
use flare_studio.Policy.Templates.{
  xrp_inheritance_definition, templates, default_to, xrp_inheritance,
}
use flare_studio.Web.Canvas.{
  DateFormat, DraftIr, known_trigger, known_condition, transfer, CanvasGraph, graph_from_ir,
  asset_of, describe_trigger, format_date, draw_draft, draw_conditions, draw_confidential,
  draw_actions, first_nodes, attach, condition_node, action_node, confidential_node,
  confidential_count, confidential_input_count, list_or_empty, condition_id, action_id,
  edge_between, describe_condition, describe_action, asset_symbol, asset_name,
}
use flare_studio.Web.Canvas.Walk.{IsTree, graph_from_ir-IsTree}
use flare_studio.Web.Inspector.Nodes.{IsInspected, inspector_for-node}
use flare_studio.Web.Form.{step_index, find_step, is_last_step, press_next, press_back, id_at}
use flare_studio.Web.Form.Steps.{pressed, press_next-reaches}
use flare_studio.Web.Recipients.{rebalance, rebalance_from, is_balanced}
use flare_studio.Web.Recipients.Balance.{IsNamed, rebalance-IsSplit}
use flare_studio.Web.Studio.{builder_template, builder_ir, reviewed}
use flare_studio.Web.Studio.Review.{reviewed-rebalance}
use flare_studio.Web.Display.{exact_text, abs_value}
use flare_studio.Web.Display.Digits.{digits_of}
use flare_studio.Web.Display.Exact.{is_negative, IsPointed, exact_text-exact}

abbrev format : DateFormat
format milliseconds = ok (codes "14 August 2027")

-- A draft with a price and two recipients.
abbrev draft : DraftIr
draft = record {
  name = some (codes "savings");
  asset = codes "FXRP";
  trigger = some (known_trigger (timestamp 1_818_201_600));
  conditions = some (
      known_condition
        (price_above (codes "feed") (record { numeral = codes "2.5"; is_positive = true }))
      ∷ []);
  actions = some (transfer (some (sixty_forty none)) ∷ []);
}

form_run : Unit {0}
unfolding graph_from_ir asset_of get_asset describe_trigger format_date draw_draft draw_conditions
    draw_confidential draw_actions first_nodes attach condition_node action_node confidential_node
    confidential_count confidential_input_count list_or_empty condition_id action_id edge_between
    describe_condition describe_action asset_symbol asset_name decimal text_eq step_index find_step
    is_last_step press_next press_back id_at default_to
form_run = tt

abbrev graph : CanvasGraph
graph = elim (graph_from_ir format draft) [ ok g ↦ g | err e ↦ record { nodes = []; edges = [] } ]

graph_drawn : graph_from_ir format draft ≡ ok graph
unfolding form_run
graph_drawn = refl

-- The asset, the trigger, the condition, what is confidential, and the action.
five_nodes : length graph.nodes ≡ 5
unfolding form_run
five_nodes = refl

graph_from_ir-IsTree_example : IsTree graph.nodes graph.edges
graph_from_ir-IsTree_example = graph_from_ir-IsTree format draft graph graph_drawn

inspector_for-node_example : All (IsInspected format draft) graph.nodes
inspector_for-node_example = inspector_for-node format draft graph graph_drawn

press_next-reaches_example :
    (step_index (pressed 2 graph.nodes (codes "trigger")) graph.nodes
      ≡ step_index (codes "trigger") graph.nodes + 2)
    × (is_last_step
          (pressed
            (length graph.nodes - 1 - step_index (codes "trigger") graph.nodes)
            graph.nodes
            (codes "trigger"))
          graph.nodes
        ≡ true)
    × (step_index (press_back graph.nodes (codes "trigger")) graph.nodes
        ≡ step_index (codes "trigger") graph.nodes - 1)
unfolding form_run
press_next-reaches_example =
    press_next-reaches format draft graph (codes "trigger") 2 refl (omega arith)

abbrev first : Recipient
first = record { address = alice; share_bps = 0; label = none }

abbrev second : Recipient
second = record { address = bob; share_bps = 0; label = some (codes "Child") }

both-IsNamed : All IsNamed (first ∷ second ∷ [])
unfolding is_address label_ok
both-IsNamed = ((refl, refl), ((refl, refl), tt))

not_twice : DistinctFrom [] (first ∷ second ∷ [])
not_twice = (tt, (((λ e. alice-ne-bob (sym e)), tt), tt))

rebalance-IsSplit_example :
    (is_balanced (rebalance (first ∷ second ∷ [])) ≡ true)
    × (action_ok (split_transfer (rebalance (first ∷ second ∷ []))) ≡ true)
    × IsSplit (split_transfer (rebalance (first ∷ second ∷ [])))
rebalance-IsSplit_example =
    rebalance-IsSplit first (second ∷ []) (omega arith) both-IsNamed not_twice

exact_text-exact_example :
    (negsuc 1_234_566 ≡ negsuc 1_234_566)
    × (value_from 0 (digits_of (exact_text 6 (negsuc 1_234_566))) ≡ abs_value (negsuc 1_234_566))
    × (starts_with (codes "-") (exact_text 6 (negsuc 1_234_566)) ≡ is_negative (negsuc 1_234_566))
    × IsPointed 6 (negsuc 1_234_566) (exact_text 6 (negsuc 1_234_566))
exact_text-exact_example = exact_text-exact 6 (negsuc 1_234_566) (negsuc 1_234_566) refl

abbrev even : PolicyIr
even = builder_ir xrp_inheritance_definition 1_800_000_000 (rebalance (first ∷ second ∷ [])) none

abbrev reviewed_policy : CompiledPolicy
reviewed_policy = elim (assemble viem even (codes "0x01") (rebalance (first ∷ second ∷ []))) [
  | ok c ↦ c
  | err e ↦ compiled
]

review_run : Unit {0}
unfolding assemble builder_ir builder_template templates xrp_inheritance default_to rebalance
    rebalance_from canonicalize enclave_value text_lt insert_field decimal text_eq
    compute_commitment get_asset
review_run = tt

reviewed-rebalance_example : reviewed zod viem even (codes "0x01") ≡ (some reviewed_policy, none)
unfolding review_run
reviewed-rebalance_example =
    reviewed-rebalance zod viem (codes "0x01") (codes "xrp-inheritance") xrp_inheritance_definition
      1_800_000_000 first (second ∷ []) none reviewed_policy (λ ir fits. rw fits refl) refl tt
      (omega arith) both-IsNamed not_twice refl
