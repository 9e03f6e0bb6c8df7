-- ===== src/Web/Inspector/Panels.antt =====
-- The panel that an id leads to.
use flare_studio.Base.Text.{Text, codes, text_eq}
use flare_studio.Base.Number.{number_index-decimal}
use flare_studio.Base.{
  ℕ, Option, none, some, List, [], ◌∷◌, ◌≡◌, refl, ap, ◌∙◌, get_elem?, arith, ok, >>=-eq-ok,
}
use flare_studio.Policy.Schema.{manual_heartbeat, chain_proof_of_life, timestamp}
use flare_studio.Web.Canvas.{
  DraftTrigger, known_trigger, other_trigger, format_date, DraftCondition, DraftAction, DraftIr,
  Description, DateFormat, list_or_empty, asset_id, trigger_id, confidential_id, condition_id,
  action_id, describe_trigger,
}
use flare_studio.Web.Durations.{format_interval}
use flare_studio.Web.Inspector.{
  InspectorRow, index_of, asset_panel, trigger_rows, trigger_panel, described_condition,
  condition_panel, described_action, action_panel, confidential_panel, indexed_panel, inspector_for,
}

index_of-condition : (i : ℕ) → index_of (some (condition_id i)) (codes "condition-") ≡ some i
unfolding index_of condition_id
index_of-condition i = number_index-decimal i

no_condition-action : (i : ℕ) → index_of (some (action_id i)) (codes "condition-") ≡ none
unfolding index_of action_id
no_condition-action i = refl

index_of-action : (i : ℕ) → index_of (some (action_id i)) (codes "action-") ≡ some i
unfolding index_of action_id
index_of-action i = number_index-decimal i

module _ (format : DateFormat) (ir : DraftIr) where
  pub inspector_for-asset : inspector_for (some asset_id) format ir ≡ asset_panel ir
  unfolding inspector_for text_eq
  inspector_for-asset = refl

  pub inspector_for-trigger : inspector_for (some trigger_id) format ir ≡ trigger_panel format ir
  unfolding inspector_for text_eq
  inspector_for-trigger = refl

  pub inspector_for-confidential :
      inspector_for (some confidential_id) format ir ≡ ok (confidential_panel ir)
  unfolding inspector_for text_eq
  inspector_for-confidential = refl

  indexed_panel-first :
      (id : Option Text) (i : ℕ)
      → index_of id (codes "condition-") ≡ some i
      → indexed_panel id format ir ≡ condition_panel format ir i
  unfolding indexed_panel
  indexed_panel-first id i h = rw (indexed_panel, h)

  indexed_panel-second :
      (id : Option Text) (i : ℕ)
      → index_of id (codes "condition-") ≡ none
      → index_of id (codes "action-") ≡ some i
      → indexed_panel id format ir ≡ action_panel format ir i
  unfolding indexed_panel
  indexed_panel-second id i h k = rw (indexed_panel, h, k)

  condition_indexed :
      (i : ℕ)
      → inspector_for (some (condition_id i)) format ir
        ≡ indexed_panel (some (condition_id i)) format ir
  unfolding inspector_for text_eq condition_id
  condition_indexed i = refl

  action_indexed :
      (i : ℕ)
      → inspector_for (some (action_id i)) format ir ≡ indexed_panel (some (action_id i)) format ir
  unfolding inspector_for text_eq action_id
  action_indexed i = refl

  pub inspector_for-condition :
      (i : ℕ) → inspector_for (some (condition_id i)) format ir ≡ condition_panel format ir i
  inspector_for-condition i = condition_indexed i ∙ indexed_panel-first _ i (index_of-condition i)

  pub inspector_for-action :
      (i : ℕ) → inspector_for (some (action_id i)) format ir ≡ action_panel format ir i
  inspector_for-action i =
      action_indexed i ∙ indexed_panel-second _ i (no_condition-action i) (index_of-action i)

module _ (format : DateFormat) (ir : DraftIr) where
  pub condition_found :
      (i : ℕ) (c : DraftCondition)
      → get_elem? (list_or_empty ir.conditions) i ≡ some c
      → condition_panel format ir i ≡ ok (described_condition c)
  unfolding condition_panel
  condition_found i c h = rw (condition_panel, h)

  pub action_found :
      (i : ℕ) (a : DraftAction)
      → get_elem? (list_or_empty ir.actions) i ≡ some a
      → action_panel format ir i ≡ ok (described_action a)
  unfolding action_panel
  action_found i a h = rw (action_panel, h)

-- The time of a trigger: how long until it fires without a check-in, or the date that its description
-- names; there is none for other kinds.
abbrev pub trigger_time : Option DraftTrigger → Description → Option (Option Text)
trigger_time (some (known_trigger (manual_heartbeat interval demo_mode))) d =
    some (some (format_interval interval))
trigger_time (some (known_trigger (chain_proof_of_life interval source to least))) d =
    some (some (format_interval interval))
trigger_time (some (known_trigger (timestamp execute_after))) d = some (some d.summary)
trigger_time (some other_trigger) d = none
trigger_time none d = none

abbrev pub row_value : ℕ → List InspectorRow → Option (Option Text)
row_value i rows = elim (get_elem? rows i) [ none ↦ none | some r ↦ some r.value ]

-- A trigger that can be described has its rows, the first of them with its time.
pub trigger_rows-of :
    (format : DateFormat) (t : Option DraftTrigger) (described : Description)
    → describe_trigger format t ≡ ok described
    → (rows : List InspectorRow) × (trigger_rows format t ≡ ok rows)
      × (row_value 0 rows ≡ trigger_time t described)
unfolding describe_trigger trigger_rows
trigger_rows-of format (some (known_trigger (manual_heartbeat interval demo_mode))) d h =
    (_, refl, refl)
trigger_rows-of format (some (known_trigger (chain_proof_of_life interval source to least))) d h =
    (_, refl, refl)
trigger_rows-of format (some (known_trigger (timestamp execute_after))) d h =
    let (date, found, h1) = >>=-eq-ok (format_date format execute_after) _ h in
    let same : date ≡ d.summary = ground (arith, h1) in
    (
      record { label = codes "Runs on"; value = some date } ∷ [],
      ground (arith, found),
      ap (λ s. some (some s)) same,
    )
trigger_rows-of format (some other_trigger) d h = (_, refl, refl)
trigger_rows-of format none d h = (_, refl, refl)
