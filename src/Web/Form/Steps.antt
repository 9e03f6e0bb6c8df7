-- ===== src/Web/Form/Steps.antt =====
-- Every step of a draft's form can be reached, and the last one is.
use flare_studio.Base.Text.{Text, text_eq, text_eq_iff, text_eq_refl}
use flare_studio.Base.{
  ℕ, zero, suc, ◌+◌, ◌-◌, ◌<◌, true, false, some, List, [], ◌∷◌, ◌++◌, ◌≡◌, ◌⊎◌, inl, inr, refl,
  sym, ap, ◌∙◌, ok, length, get_elem?, ◌==◌, arith, length-append, Option-cases, Bool-cases,
}
use flare_studio.Policy.Templates.{default_to}
use flare_studio.Web.Canvas.{
  DiagramNode, DiagramEdge, CanvasGraph, DraftIr, DateFormat, graph_from_ir,
}
use flare_studio.Web.Canvas.Walk.{IsTree, root, grown, Avoids, graph_from_ir-IsTree}
use flare_studio.Web.Form.{find_step, step_index, is_last_step, id_at, press_next, press_back}

find_step-avoided :
    (id : Text) (nodes : List DiagramNode) (n : DiagramNode)
    → Avoids id nodes
    → n.id ≡ id
    → find_step id (nodes ++ n ∷ []) ≡ some (length nodes)
unfolding find_step
find_step-avoided id [] n h same = ground (arith, text_eq_iff n.id id)
find_step-avoided id (x ∷ nodes) n h same =
    ground (arith, find_step-avoided id nodes n h.1 same, text_eq_iff x.id id)

find_step-append :
    (id : Text) (nodes : List DiagramNode) (n : DiagramNode) (i : ℕ)
    → find_step id nodes ≡ some i
    → find_step id (nodes ++ n ∷ []) ≡ some i
unfolding find_step
find_step-append id [] n i h = cc
find_step-append id (x ∷ nodes) n i h = elim (Bool-cases (text_eq x.id id)) [
  | inl here ↦ rw here (rw here at h)
  | inr later ↦ elim (Option-cases (find_step id nodes)) [
    | inl nowhere ↦ let bad = rw (later, nowhere) at h in cc
    | inr (j, found) ↦ rw (later, find_step-append id nodes n j found) (rw (later, found) at h)
  ]
]

get_elem?-append-cases :
    (nodes : List DiagramNode) (m n : DiagramNode) (i : ℕ)
    → get_elem? (nodes ++ m ∷ []) i ≡ some n
    → (get_elem? nodes i ≡ some n) ⊎ ((i ≡ length nodes) × (m ≡ n))
get_elem?-append-cases [] m n zero h = inr (refl, cc h)
get_elem?-append-cases [] m n (suc i) h = cc
get_elem?-append-cases (x ∷ nodes) m n zero h = inl h
get_elem?-append-cases (x ∷ nodes) m n (suc i) h = elim (get_elem?-append-cases nodes m n i h) [
  | inl before ↦ inl before
  | inr (at_end, same) ↦ inr (ap suc at_end, same)
]

-- The ids of a tree tell its nodes apart.
find_step-IsTree :
    {nodes : List DiagramNode} {edges : List DiagramEdge} (i : ℕ) (n : DiagramNode)
    → IsTree nodes edges
    → get_elem? nodes i ≡ some n
    → find_step n.id nodes ≡ some i
unfolding find_step
find_step-IsTree zero n (root m named kind) h =
    let same : m ≡ n = cc h in rw (same, text_eq_refl n.id) refl
find_step-IsTree (suc i) n (root m named kind) h = cc
find_step-IsTree i n (grown nodes edges parent child tree gate new) h =
    elim (get_elem?-append-cases nodes child n i h) [
      | inl before ↦ find_step-append n.id nodes child i (find_step-IsTree i n tree before)
      | inr (at_end, same) ↦
          find_step-avoided n.id nodes child (rw (← same) new) (ap (λ (m : DiagramNode). m.id) same)
          ∙ ap some (sym at_end)
    ]

elem_at :
    (nodes : List DiagramNode) (i : ℕ)
    → i < length nodes
    → (n : DiagramNode) × (get_elem? nodes i ≡ some n)
elem_at [] i h = absurd (omega (arith, h))
elem_at (x ∷ nodes) zero h = (x, refl)
elem_at (x ∷ nodes) (suc i) h = elem_at nodes i (omega (arith, h))

find_step-bound :
    (step : Text) (nodes : List DiagramNode) (i : ℕ)
    → find_step step nodes ≡ some i
    → i < length nodes
unfolding find_step
find_step-bound step [] i h = cc
find_step-bound step (x ∷ nodes) i h = elim (Bool-cases (text_eq x.id step)) [
  | inl here ↦ let same = rw here at h in ground (arith, same)
  | inr later ↦ elim (Option-cases (find_step step nodes)) [
    | inl nowhere ↦ let bad = rw (later, nowhere) at h in cc
    | inr (j, found) ↦
        let same = rw (later, found) at h in
        let bound = find_step-bound step nodes j found in ground (arith, same, bound)
  ]
]

IsTree-nonempty :
    {nodes : List DiagramNode} {edges : List DiagramEdge} → IsTree nodes edges → 0 < length nodes
IsTree-nonempty (root n named kind) = omega arith
IsTree-nonempty (grown nodes edges parent child tree gate new) =
    omega (arith, length-append nodes (child ∷ []))

module _ (nodes : List DiagramNode) (edges : List DiagramEdge) (tree : IsTree nodes edges) where
  step_index-bound : (step : Text) → step_index step nodes < length nodes
  unfolding step_index default_to
  step_index-bound step = elim (Option-cases (find_step step nodes)) [
    | inl nowhere ↦ rw nowhere (IsTree-nonempty tree)
    | inr (i, found) ↦ rw found (find_step-bound step nodes i found)
  ]

  step_index-id_at :
      (otherwise : Text) (i : ℕ) → i < length nodes → step_index (id_at otherwise i nodes) nodes ≡ i
  unfolding step_index id_at default_to
  step_index-id_at otherwise i h =
      let (n, found) = elem_at nodes i h in
      rw (id_at, found, step_index, find_step-IsTree i n tree found)

  step_index-press_next :
      (step : Text)
      → step_index step nodes + 1 < length nodes
      → step_index (press_next nodes step) nodes ≡ step_index step nodes + 1
  unfolding press_next is_last_step
  step_index-press_next step h =
      let more : (suc (step_index step nodes) == length nodes) ≡ false = ground (arith, h) in
      rw more (step_index-id_at step (step_index step nodes + 1) h)

  step_index-press_back :
      (step : Text) → step_index (press_back nodes step) nodes ≡ step_index step nodes - 1
  unfolding press_back
  step_index-press_back step = elim (Bool-cases (step_index step nodes == 0)) [
    | inl first ↦ rw first (ground (arith, first))
    | inr later ↦
        rw later
          (step_index-id_at step (step_index step nodes - 1) (omega (arith, step_index-bound step)))
  ]

-- "Next" pressed a number of times.
abbrev pub pressed : ℕ → List DiagramNode → Text → Text
pressed zero nodes step = step
pressed (suc k) nodes step = press_next nodes (pressed k nodes step)

module _ (nodes : List DiagramNode) (edges : List DiagramEdge) (tree : IsTree nodes edges) where
  step_index-pressed :
      (step : Text) (k : ℕ)
      → step_index step nodes + k < length nodes
      → step_index (pressed k nodes step) nodes ≡ step_index step nodes + k
  step_index-pressed step zero h = omega arith
  step_index-pressed step (suc k) h =
      let before = step_index-pressed step k (omega (arith, h)) in
      omega (
        arith,
        before,
        step_index-press_next nodes edges tree (pressed k nodes step) (omega (arith, before, h)),
      )

  last_pressed :
      (step : Text)
      → is_last_step (pressed (length nodes - 1 - step_index step nodes) nodes step) nodes ≡ true
  unfolding is_last_step
  last_pressed step =
      let bound = step_index-bound nodes edges tree step in
      let at_end =
        step_index-pressed step (length nodes - 1 - step_index step nodes) (omega (arith, bound)) in
      ground (arith, at_end, bound)

-- In the form of any draft that has a graph, and from any step, pressing "Next" shows every later step
-- in the graph's order and reaches the last one, which offers the review, after as many presses as
-- there are later steps; and "Back" goes from any step to the one before, if there is one.
pub press_next-reaches :
    (format : DateFormat) (ir : DraftIr) (g : CanvasGraph) (step : Text) (k : ℕ)
    → graph_from_ir format ir ≡ ok g
    → step_index step g.nodes + k < length g.nodes
    → (step_index (pressed k g.nodes step) g.nodes ≡ step_index step g.nodes + k)
      × (is_last_step (pressed (length g.nodes - 1 - step_index step g.nodes) g.nodes step) g.nodes
          ≡ true)
      × (step_index (press_back g.nodes step) g.nodes ≡ step_index step g.nodes - 1)
press_next-reaches format ir g step k h more =
    let tree = graph_from_ir-IsTree format ir g h in
    (
      step_index-pressed g.nodes g.edges tree step k more,
      last_pressed g.nodes g.edges tree step,
      step_index-press_back g.nodes g.edges tree step,
    )
