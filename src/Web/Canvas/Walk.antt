-- ===== src/Web/Canvas/Walk.antt =====
-- The graph of a draft is a tree, grown from the asset node.
use mathlib.Core.Path.{subst}
use flare_studio.Base.Text.{Text}
use flare_studio.Base.{
  ℕ, zero, suc, ◌+◌, ◌≤◌, some, List, [], ◌∷◌, ◌++◌, ◌≡◌, ◌≢◌, refl, All, In, get_elem?, length,
  ltb, arith, ok, >>=-eq-ok, Bool-cases, inl, inr,
}
use flare_studio.Policy.Assets.{AssetValue}
use flare_studio.Web.Canvas.{
  DraftCondition, DraftAction, DraftIr, Description, DateFormat, DiagramNode, DiagramEdge,
  CanvasGraph, Drawing, list_or_empty, confidential_count, asset, asset_id, confidential_id,
  condition_id, action_id, edge_between, attach, condition_node, action_node, confidential_node,
  draw_conditions, draw_confidential, draw_actions, first_nodes, describe_trigger, asset_of,
  draw_draft, graph_from_ir,
}
use flare_studio.Web.Canvas.Ids.{
  condition_id_inj, action_id_inj, asset-ne-condition, asset-ne-action, trigger-ne-condition,
  trigger-ne-action, asset-ne-confidential, trigger-ne-confidential, condition-ne-confidential,
  condition-ne-action, confidential-ne-action,
}

-- No node has the id.
abbrev pub Avoids : Text → List DiagramNode → Type 0
Avoids id nodes = All (λ n. n.id ≢ id) nodes

-- Some node has the id.
abbrev pub HasId : Text → List DiagramNode → Type 0
HasId id nodes = (n : DiagramNode) × In n nodes × (n.id ≡ id)

-- Nodes and edges that were grown from the asset's node, each further node with a new id and with one edge to
-- it, from a node that was there.
pub data IsTree : List DiagramNode → List DiagramEdge → Type 0 where
  root : (n : DiagramNode) → n.id ≡ asset_id → n.node_type ≡ asset → IsTree (n ∷ []) []
  grown :
      (nodes : List DiagramNode) (edges : List DiagramEdge) (parent : Text) (child : DiagramNode)
      → IsTree nodes edges
      → HasId parent nodes
      → Avoids child.id nodes
      → IsTree (nodes ++ child ∷ []) (edges ++ edge_between parent child.id ∷ [])

Avoids-append :
    (id : Text) (nodes : List DiagramNode) (n : DiagramNode)
    → Avoids id nodes
    → n.id ≢ id
    → Avoids id (nodes ++ n ∷ [])
Avoids-append id [] n h k = (k, tt)
Avoids-append id (x ∷ nodes) n h k = (h.0, Avoids-append id nodes n h.1 k)

get_elem?-append :
    (nodes : List DiagramNode) (n m : DiagramNode) (i : ℕ)
    → get_elem? nodes i ≡ some n
    → get_elem? (nodes ++ m ∷ []) i ≡ some n
get_elem?-append [] n m i h = cc
get_elem?-append (x ∷ nodes) n m zero h = h
get_elem?-append (x ∷ nodes) n m (suc i) h = get_elem?-append nodes n m i h

get_elem?-last :
    (nodes : List DiagramNode) (m : DiagramNode)
    → get_elem? (nodes ++ m ∷ []) (length nodes) ≡ some m
get_elem?-last [] m = refl
get_elem?-last (x ∷ nodes) m = get_elem?-last nodes m

HasId-append :
    (id : Text) (nodes : List DiagramNode) (m : DiagramNode)
    → HasId id nodes
    → HasId id (nodes ++ m ∷ [])
HasId-append id nodes m (n, (i, found), same) = (n, (i, get_elem?-append nodes n m i found), same)

pub record IsDrawn (d : Drawing) : Type 0 where
  pub tree : IsTree d.graph.nodes d.graph.edges
  pub gate : HasId d.upstream d.graph.nodes

attach-IsTree :
    (n : DiagramNode) (d : Drawing)
    → IsDrawn d
    → Avoids n.id d.graph.nodes
    → IsTree (attach n d).nodes (attach n d).edges
unfolding attach
attach-IsTree n d drawn new =
    grown d.graph.nodes d.graph.edges d.upstream n drawn.tree drawn.gate new

-- A node that becomes the end of the chain, and one that hangs on it.
attach-next :
    (n : DiagramNode) (d : Drawing)
    → IsDrawn d
    → Avoids n.id d.graph.nodes
    → IsDrawn (record { graph = attach n d; upstream = n.id })
unfolding attach
attach-next n d drawn new = record {
  tree = attach-IsTree n d drawn new;
  gate = (n, (length d.graph.nodes, get_elem?-last d.graph.nodes n), refl);
}

attach-leaf :
    (n : DiagramNode) (d : Drawing)
    → IsDrawn d
    → Avoids n.id d.graph.nodes
    → IsDrawn (record { graph = attach n d; upstream = d.upstream })
unfolding attach
attach-leaf n d drawn new = record {
  tree = attach-IsTree n d drawn new;
  gate = HasId-append d.upstream d.graph.nodes n drawn.gate;
}

-- The ids that are still free before condition `i`.
pub record IsFree (i : ℕ) (nodes : List DiagramNode) : Type 0 where
  pub conditions : (k : ℕ) → i ≤ k → Avoids (condition_id k) nodes
  pub confidential : Avoids confidential_id nodes
  pub actions : (k : ℕ) → Avoids (action_id k) nodes

next :
    (i : ℕ) (c : DraftCondition) (d : Drawing)
    → IsDrawn d
    → IsFree i d.graph.nodes
    → IsDrawn (record { graph = attach (condition_node i c) d; upstream = condition_id i })
unfolding condition_node
next i c d drawn free = attach-next (condition_node i c) d drawn (free.conditions i (omega arith))

condition_node-IsFree :
    (i : ℕ) (c : DraftCondition) (d : Drawing)
    → IsFree i d.graph.nodes
    → IsFree (i + 1) (attach (condition_node i c) d).nodes
unfolding attach condition_node
condition_node-IsFree i c d free = record {
  conditions = λ k h.
      Avoids-append (condition_id k) d.graph.nodes _ (free.conditions k (omega (arith, h)))
        (λ same. let e = condition_id_inj i k same in absurd (omega (arith, h, e)));
  confidential =
      Avoids-append confidential_id d.graph.nodes _ free.confidential (condition-ne-confidential i);
  actions =
      λ k. Avoids-append (action_id k) d.graph.nodes _ (free.actions k) (condition-ne-action i k);
}

-- Drawn, and with the ids of the actions from `i` on still free.
record IsReady (i : ℕ) (d : Drawing) : Type 0 where
  pub drawn : IsDrawn d
  pub actions : (k : ℕ) → i ≤ k → Avoids (action_id k) d.graph.nodes

draw_conditions-IsReady :
    (i : ℕ) (cs : List DraftCondition) (d : Drawing)
    → IsDrawn d
    → IsFree i d.graph.nodes
    → IsReady 0 (draw_conditions i cs d)
      × Avoids confidential_id (draw_conditions i cs d).graph.nodes
unfolding draw_conditions
draw_conditions-IsReady i [] d drawn free =
    (record { drawn = drawn; actions = λ k h. free.actions k }, free.confidential)
draw_conditions-IsReady i (c ∷ cs) d drawn free =
    draw_conditions-IsReady (i + 1) cs
      (record { graph = attach (condition_node i c) d; upstream = condition_id i })
      (next i c d drawn free) (condition_node-IsFree i c d free)

draw_confidential-IsReady :
    (actions : List DraftAction) (d : Drawing)
    → IsReady 0 d
    → Avoids confidential_id d.graph.nodes
    → IsReady 0 (draw_confidential actions d)
unfolding draw_confidential attach confidential_node
draw_confidential-IsReady actions d ready free =
    elim (Bool-cases (ltb 0 (confidential_count actions))) [
      | inl some_private ↦ rw some_private (record {
        drawn = attach-leaf (confidential_node (confidential_count actions)) d ready.drawn free;
        actions = λ k h.
            Avoids-append (action_id k) d.graph.nodes _ (ready.actions k h)
              (confidential-ne-action k);
      })
      | inr none_private ↦ rw none_private ready
    ]

attach_action :
    (i : ℕ) (a : DraftAction) (d : Drawing)
    → IsReady i d
    → IsReady (i + 1) (record { graph = attach (action_node i a) d; upstream = d.upstream })
unfolding attach action_node
attach_action i a d ready = record {
  drawn = attach-leaf (action_node i a) d ready.drawn (ready.actions i (omega arith));
  actions = λ k h.
      Avoids-append (action_id k) d.graph.nodes _ (ready.actions k (omega (arith, h)))
        (λ same. let e = action_id_inj i k same in absurd (omega (arith, h, e)));
}

draw_actions-IsDrawn :
    (i : ℕ) (actions : List DraftAction) (d : Drawing)
    → IsReady i d
    → IsDrawn (draw_actions i actions d)
unfolding draw_actions
draw_actions-IsDrawn i [] d ready = ready.drawn
draw_actions-IsDrawn i (a ∷ as') d ready =
    draw_actions-IsDrawn (i + 1) as'
      (record { graph = attach (action_node i a) d; upstream = d.upstream })
      (attach_action i a d ready)

first_nodes-IsDrawn : (a : AssetValue) (described : Description) → IsDrawn (first_nodes a described)
unfolding first_nodes
first_nodes-IsDrawn a described = record {
  tree = grown (_ ∷ []) [] _ _ (root _ refl refl) (_, (0, refl), refl) ((λ h. cc), tt);
  gate = (_, (1, refl), refl);
}

first_nodes-IsFree :
    (a : AssetValue) (described : Description) → IsFree 0 (first_nodes a described).graph.nodes
unfolding first_nodes
first_nodes-IsFree a described = record {
  conditions = λ k h. (asset-ne-condition k, (trigger-ne-condition k, tt));
  confidential = (asset-ne-confidential, (trigger-ne-confidential, tt));
  actions = λ k. (asset-ne-action k, (trigger-ne-action k, tt));
}

draw_draft-IsTree :
    (ir : DraftIr) (a : AssetValue) (described : Description)
    → IsTree
        (draw_draft ir (first_nodes a described)).nodes
        (draw_draft ir (first_nodes a described)).edges
unfolding draw_draft
draw_draft-IsTree ir a described =
    let (gated, no_lock) =
      draw_conditions-IsReady 0 (list_or_empty ir.conditions) (first_nodes a described)
        (first_nodes-IsDrawn a described) (first_nodes-IsFree a described) in
    let locked = draw_confidential-IsReady (list_or_empty ir.actions) _ gated no_lock in
    (draw_actions-IsDrawn 0 (list_or_empty ir.actions) _ locked).tree

-- The graph of a draft, when there is one, is a tree: it grows from the asset's node, the one with the
-- id and the kind `asset`, and each further node, whose id no node before it has, comes with its one edge from a node that is already there.
pub graph_from_ir-IsTree :
    (format : DateFormat) (ir : DraftIr) (g : CanvasGraph)
    → graph_from_ir format ir ≡ ok g
    → IsTree g.nodes g.edges
unfolding graph_from_ir
graph_from_ir-IsTree format ir g h =
    let (a, known, h1) = >>=-eq-ok (asset_of ir.asset) _ h in
    let (described, valid, h2) = >>=-eq-ok (describe_trigger format ir.trigger) _ h1 in
    let same : draw_draft ir (first_nodes a described) ≡ g = cc h2 in
    subst (λ (graph : CanvasGraph). IsTree graph.nodes graph.edges) same
      (draw_draft-IsTree ir a described)
