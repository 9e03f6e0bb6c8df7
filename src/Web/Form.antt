-- ===== src/Web/Form.antt =====
-- apps/web/components/policy-form.tsx: the form goes through the nodes of the canvas as steps. Which
-- step is shown, and where its buttons lead.
pub mod Steps
pub mod Tests
use flare_studio.Base.Text.{Text, text_eq}
use flare_studio.Base.{
  ℕ, suc, ◌+◌, ◌-◌, Bool, Option, none, some, List, [], ◌∷◌, Result, length, get_elem?, ◌==◌,
  if◌then◌else◌,
}
use flare_studio.Policy.Templates.{default_to}
use flare_studio.Web.Canvas.{DiagramNode, DraftIr, CanvasError, DateFormat}
use flare_studio.Web.Inspector.{InspectorPanel, inspector_for}

-- `steps.findIndex((n) => n.id === step)`
unfoldable pub find_step : Text → List DiagramNode → Option ℕ
find_step step [] = none
find_step step (n ∷ ns) =
    let later : Option ℕ = elim (find_step step ns) [ none ↦ none | some i ↦ some (suc i) ] in
    if text_eq n.id step then some 0 else later

-- A step that is none of the nodes counts as the first.
unfoldable pub step_index : Text → List DiagramNode → ℕ
unfolding find_step default_to
step_index step steps = default_to 0 (find_step step steps)

unfoldable pub current_step : Text → List DiagramNode → Option DiagramNode
unfolding step_index
current_step step steps = get_elem? steps (step_index step steps)

-- The panel of the current step; without steps the form shows nothing.
unfoldable pub form_panel :
    DateFormat → DraftIr → Text → List DiagramNode → Option (Result CanvasError InspectorPanel)
unfolding current_step inspector_for
form_panel format ir step steps = elim (current_step step steps) [
  | none ↦ none
  | some current ↦ some (inspector_for (some current.id) format ir)
]

unfoldable pub is_last_step : Text → List DiagramNode → Bool
unfolding step_index
is_last_step step steps = suc (step_index step steps) == length steps

-- The id at an index, where the source asserts that there is one.
unfoldable pub id_at : Text → ℕ → List DiagramNode → Text
id_at otherwise i steps = elim (get_elem? steps i) [ none ↦ otherwise | some n ↦ n.id ]

-- "Next" is there on every step but the last, which has "Review and deploy" in its place.
unfoldable pub press_next : List DiagramNode → Text → Text
unfolding is_last_step id_at step_index
press_next steps step =
    if is_last_step step steps then step else id_at step (step_index step steps + 1) steps

-- "Back" is disabled on the first step.
unfoldable pub press_back : List DiagramNode → Text → Text
unfolding id_at step_index
press_back steps step =
    if step_index step steps == 0 then step else id_at step (step_index step steps - 1) steps
