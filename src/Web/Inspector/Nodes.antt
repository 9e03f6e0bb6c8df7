-- ===== src/Web/Inspector/Nodes.antt =====
-- Every node of the canvas has the panel of what it shows.
use mathlib.Core.Path.{subst}
use flare_studio.Base.Text.{Text, codes}
use flare_studio.Base.Decimal.{decimal}
use flare_studio.Base.{
  ℕ, suc, Bool, true, false, ◌+◌, Option, none, some, List, [], ◌∷◌, ◌++◌, ◌≡◌, ◌⊎◌, inl, inr, refl,
  sym, ap, ◌∙◌, All, any, get_elem?, length, ltb, arith, ok, >>=-eq-ok, Bool-cases,
}
use flare_studio.Policy.Assets.{AssetValue}
use flare_studio.Web.Canvas.{
  DraftCondition, DraftAction, DraftIr, Description, DateFormat, DiagramNodeType, asset, trigger,
  condition, confidential, action, NodeData, asset_data, description, count, DiagramNode,
  CanvasGraph, Drawing, list_or_empty, confidential_count, condition_id, action_id, confidential_id,
  transfer, other_action, describe_condition, describe_action, asset_symbol, asset_name, attach,
  condition_node, action_node, confidential_node, draw_conditions, draw_confidential, draw_actions,
  first_nodes, describe_trigger, asset_of, draw_draft, graph_from_ir,
}
use flare_studio.Web.Inspector.{
  recipients_editor, trigger_editor, InspectorRow, InspectorPanel, asset_decimals, recipient_rows,
  described_asset, asset_panel, trigger_rows, trigger_panel, described_condition, described_action,
  is_transfer, confidential_panel, inspector_for,
}
use flare_studio.Web.Inspector.Panels.{
  inspector_for-asset, inspector_for-trigger, inspector_for-confidential, inspector_for-condition,
  inspector_for-action, condition_found, action_found, trigger_rows-of, row_value, trigger_time,
}

-- The label of a panel for each type of node.
abbrev pub label_of : DiagramNodeType → Text
label_of asset = codes "Asset"
label_of trigger = codes "Trigger"
label_of condition = codes "Condition"
label_of confidential = codes "Confidential inputs"
label_of action = codes "Action"

abbrev pub value_at : ℕ → InspectorPanel → Option (Option Text)
value_at i panel = row_value i panel.rows

-- The number of recipients, for a transfer.
abbrev pub recipient_count : DraftAction → Option (Option Text)
recipient_count (transfer recipients) = some (some (decimal (length (list_or_empty recipients))))
recipient_count other_action = none

module _ (format : DateFormat) (ir : DraftIr) where
  -- The node and the panel are of one part of the draft: the asset, the trigger, the condition or the
  -- action whose index is in the node's id, or the confidential inputs of all actions. The node shows
  -- the part's description, and the panel has its values.
  abbrev pub Tells : DiagramNodeType → Text → NodeData → InspectorPanel → Type 0
  Tells asset id shown panel =
      (a : AssetValue) × (asset_of ir.asset ≡ ok a)
      × (shown ≡ asset_data (asset_symbol a) (asset_name a))
      × (value_at 0 panel ≡ some (asset_symbol a))
      × (value_at 1 panel ≡ some (asset_name a))
      × (value_at 2 panel ≡ some (some (asset_decimals a)))
  Tells trigger id shown panel =
      (d : Description) × (describe_trigger format ir.trigger ≡ ok d)
      × (shown ≡ description d)
      × (value_at 0 panel ≡ some (some d.title))
      × (value_at 1 panel ≡ trigger_time ir.trigger d)
  Tells condition id shown panel =
      (i : ℕ) × (c : DraftCondition) × (id ≡ condition_id i)
      × (get_elem? (list_or_empty ir.conditions) i ≡ some c)
      × (shown ≡ description (describe_condition c))
      × (value_at 0 panel ≡ some (some (describe_condition c).title))
      × (value_at 1 panel ≡ some (some (describe_condition c).summary))
  Tells action id shown panel =
      (i : ℕ) × (a : DraftAction) × (id ≡ action_id i)
      × (get_elem? (list_or_empty ir.actions) i ≡ some a)
      × (shown ≡ description (describe_action a))
      × (value_at 0 panel ≡ some (some (describe_action a).title))
      × (value_at 1 panel ≡ recipient_count a)
  Tells confidential id shown panel =
      (n : ℕ) × (confidential_count (list_or_empty ir.actions) ≡ n)
      × (shown ≡ count n)
      × ((panel.editor ≡ some recipients_editor) ⊎ (value_at 0 panel ≡ some (some (decimal n))))

  -- The id of the node leads to a panel of the node's type, of the part that the node shows.
  abbrev pub IsInspected : DiagramNode → Type 0
  IsInspected n =
      (panel : InspectorPanel) × (inspector_for (some n.id) format ir ≡ ok panel)
      × (panel.label ≡ label_of n.node_type)
      × Tells n.node_type n.id n.shown panel

  condition_node-IsInspected :
      (i : ℕ) (c : DraftCondition)
      → get_elem? (list_or_empty ir.conditions) i ≡ some c
      → IsInspected (condition_node i c)
  unfolding condition_node
  condition_node-IsInspected i c h = (
    described_condition c,
    inspector_for-condition format ir i ∙ condition_found format ir i c h,
    refl,
    (i, c, refl, h, refl, refl, refl),
  )

  action_node-IsInspected :
      (i : ℕ) (a : DraftAction)
      → get_elem? (list_or_empty ir.actions) i ≡ some a
      → IsInspected (action_node i a)
  unfolding action_node described_action recipient_rows
  action_node-IsInspected i (transfer recipients) h = (
    described_action (transfer recipients),
    inspector_for-action format ir i ∙ action_found format ir i (transfer recipients) h,
    refl,
    (i, transfer recipients, refl, h, refl, refl, refl),
  )
  action_node-IsInspected i other_action h = (
    described_action other_action,
    inspector_for-action format ir i ∙ action_found format ir i other_action h,
    refl,
    (i, other_action, refl, h, refl, refl, refl),
  )

  confidential-Tells :
      (editable : Bool) (n : ℕ)
      → ◌≡◌ (any is_transfer (list_or_empty ir.actions)) editable
      → confidential_count (list_or_empty ir.actions) ≡ n
      → Tells confidential confidential_id (count n) (confidential_panel ir)
  unfolding confidential_panel
  confidential-Tells true n e h = (n, h, refl, inl (rw e))
  confidential-Tells false n e h = (n, h, refl, inr (rw (e, h)))

  confidential_node-IsInspected :
      IsInspected (confidential_node (confidential_count (list_or_empty ir.actions)))
  unfolding confidential_node
  confidential_node-IsInspected = (
    confidential_panel ir,
    inspector_for-confidential format ir,
    (unfold confidential_panel in refl),
    confidential-Tells _ _ refl refl,
  )

  All-append :
      (nodes : List DiagramNode) (n : DiagramNode)
      → All IsInspected nodes
      → IsInspected n
      → All IsInspected (nodes ++ n ∷ [])
  All-append [] n h k = (k, tt)
  All-append (x ∷ nodes) n h k = (h.0, All-append nodes n h.1 k)

  conditions-IsInspected :
      (i : ℕ) (cs : List DraftCondition) (d : Drawing)
      → ((j : ℕ) → get_elem? cs j ≡ get_elem? (list_or_empty ir.conditions) (i + j))
      → All IsInspected d.graph.nodes
      → All IsInspected (draw_conditions i cs d).graph.nodes
  unfolding draw_conditions attach
  conditions-IsInspected i [] d rest h = h
  conditions-IsInspected i (c ∷ cs) d rest h =
      conditions-IsInspected (i + 1) cs
        (record { graph = attach (condition_node i c) d; upstream = condition_id i })
        (λ j. rest (suc j) ∙ ap (get_elem? (list_or_empty ir.conditions)) (omega arith))
        (All-append d.graph.nodes (condition_node i c) h (
          condition_node-IsInspected i c
            (ap (get_elem? (list_or_empty ir.conditions)) (omega arith) ∙ sym (rest 0))))

  actions-IsInspected :
      (i : ℕ) (actions : List DraftAction) (d : Drawing)
      → ((j : ℕ) → get_elem? actions j ≡ get_elem? (list_or_empty ir.actions) (i + j))
      → All IsInspected d.graph.nodes
      → All IsInspected (draw_actions i actions d).graph.nodes
  unfolding draw_actions attach
  actions-IsInspected i [] d rest h = h
  actions-IsInspected i (a ∷ as') d rest h =
      actions-IsInspected (i + 1) as'
        (record { graph = attach (action_node i a) d; upstream = d.upstream })
        (λ j. rest (suc j) ∙ ap (get_elem? (list_or_empty ir.actions)) (omega arith))
        (All-append d.graph.nodes (action_node i a) h (
          action_node-IsInspected i a
            (ap (get_elem? (list_or_empty ir.actions)) (omega arith) ∙ sym (rest 0))))

  confidential-IsInspected :
      (d : Drawing)
      → All IsInspected d.graph.nodes
      → All IsInspected (draw_confidential (list_or_empty ir.actions) d).graph.nodes
  unfolding draw_confidential attach
  confidential-IsInspected d h =
      elim (Bool-cases (ltb 0 (confidential_count (list_or_empty ir.actions)))) [
        | inl some_private ↦
            rw some_private (All-append d.graph.nodes _ h confidential_node-IsInspected)
        | inr none_private ↦ rw none_private h
      ]

  asset_found :
      (a : AssetValue) → asset_of ir.asset ≡ ok a → asset_panel ir ≡ ok (described_asset a)
  unfolding asset_panel
  asset_found a known = rw known

  trigger_found :
      (described : Description) (rows : List InspectorRow)
      → describe_trigger format ir.trigger ≡ ok described
      → trigger_rows format ir.trigger ≡ ok rows
      → trigger_panel format ir
        ≡ ok (record {
          label = codes "Trigger";
          title = codes "What starts it";
          rows = record { label = codes "Condition"; value = some described.title } ∷ rows;
          editor = some trigger_editor;
        })
  unfolding trigger_panel
  trigger_found described rows valid found = rw (valid, found)

  first_nodes-IsInspected :
      (a : AssetValue) (described : Description)
      → asset_of ir.asset ≡ ok a
      → describe_trigger format ir.trigger ≡ ok described
      → All IsInspected (first_nodes a described).graph.nodes
  unfolding first_nodes described_asset
  first_nodes-IsInspected a described known valid =
      let (rows, found, timed) = trigger_rows-of format ir.trigger described valid in
      (
        (
          described_asset a,
          inspector_for-asset format ir ∙ asset_found a known,
          refl,
          (a, known, refl, refl, refl, refl),
        ),
        (
          (
            _,
            inspector_for-trigger format ir ∙ trigger_found described rows valid found,
            refl,
            (described, valid, refl, refl, timed),
          ),
          tt,
        ),
      )

  draw_draft-IsInspected :
      (d : Drawing) → All IsInspected d.graph.nodes → All IsInspected (draw_draft ir d).nodes
  unfolding draw_draft
  draw_draft-IsInspected d h =
      actions-IsInspected 0 (list_or_empty ir.actions) _
        (λ j. ap (get_elem? (list_or_empty ir.actions)) (omega arith))
        (confidential-IsInspected _ (
          conditions-IsInspected 0 (list_or_empty ir.conditions) d
            (λ j. ap (get_elem? (list_or_empty ir.conditions)) (omega arith)) h))

  -- Each node of a draft's graph leads, by its id, to a panel of the node's own type, and both are of
  -- one part of the draft: the inspector resolves every id of the canvas to the asset, the trigger, the
  -- condition or the action whose description the node shows, and gives its values, the whole of a
  -- condition's description, the time of a trigger and the number of an action's recipients among them;
  -- for the confidential inputs it gives their count, or their editor.
  pub inspector_for-node :
      (g : CanvasGraph) → graph_from_ir format ir ≡ ok g → All IsInspected g.nodes
  unfolding graph_from_ir
  inspector_for-node g h =
      let (a, known, h1) = >>=-eq-ok (asset_of ir.asset) _ h in
      let (described, valid, h2) = >>=-eq-ok (describe_trigger format ir.trigger) _ h1 in
      let same : draw_draft ir (first_nodes a described) ≡ g = cc h2 in
      subst (λ (graph : CanvasGraph). All IsInspected graph.nodes) same
        (draw_draft-IsInspected (first_nodes a described)
          (first_nodes-IsInspected a described known valid))
