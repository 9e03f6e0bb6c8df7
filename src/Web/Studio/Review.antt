-- ===== src/Web/Studio/Review.antt =====
-- What the builder makes of a template and an even split compiles.
use flare_studio.Base.Text.{Text, text_eq}
use flare_studio.Base.{
  ℕ, ◌≤◌, true, Option, none, some, List, [], ◌∷◌, ◌≡◌, refl, ◌∙◌, ok, All, arith, length,
}
use flare_studio.Policy.Schema.{
  Trigger, Recipient, split_transfer, PolicyIr, ShapeParser, shape_ok, trigger_ok, action_ok,
}
use flare_studio.Policy.Schema.Refine.{DistinctFrom, IsSplit, safe_parse-eq-ok_iff}
use flare_studio.Policy.Commitment.{Viem}
use flare_studio.Policy.Compile.{CompiledPolicy, compile, assemble}
use flare_studio.Policy.Templates.{
  TemplateDefinition, templates, xrp_inheritance, scheduled_distribution, default_to,
}
use flare_studio.Policy.Templates.Building.{IsDistribution, find-All, compile_distribution}
use flare_studio.Web.Recipients.{rebalance}
use flare_studio.Web.Recipients.Balance.{IsNamed, rebalance-IsSplit}
use flare_studio.Web.Studio.{builder_template, builder_args, builder_ir, reviewed}

-- What a template of the registry contributes: the recipients' distribution, and a name and a trigger
-- that the schema accepts.
abbrev IsSeed : TemplateDefinition → Type 0
IsSeed t =
    (now : ℕ) (recipients : List Recipient)
    → IsDistribution recipients (t.build now (builder_args recipients))
      × (1 ≤ length (t.build now (builder_args recipients)).name)
      × (length (t.build now (builder_args recipients)).name ≤ 120)
      × (trigger_ok (t.build now (builder_args recipients)).trigger ≡ true)

templates-IsSeed : All IsSeed templates
unfolding templates xrp_inheritance scheduled_distribution default_to trigger_ok
templates-IsSeed = (
  (λ now recipients. ((refl, refl, refl, refl), omega arith, omega arith, ground arith)),
  ((λ now recipients. ((refl, refl, refl, refl), omega arith, omega arith, ground arith)), tt),
)

builder_template-IsSeed :
    (id : Text) (t : TemplateDefinition) → builder_template id ≡ some t → IsSeed t
unfolding builder_template
builder_template-IsSeed id t found =
    find-All IsSeed (λ u. text_eq u.id id) templates t templates-IsSeed found

-- The trigger that is edited, if one is, is one that the schema accepts.
abbrev pub IsEdited : Option Trigger → Type 0
IsEdited none = Unit {0}
IsEdited (some trigger) = trigger_ok trigger ≡ true

shape_ok_of :
    (ir : PolicyIr) (recipients : List Recipient)
    → IsDistribution recipients ir
    → 1 ≤ length ir.name
    → length ir.name ≤ 120
    → trigger_ok ir.trigger ≡ true
    → action_ok (split_transfer recipients) ≡ true
    → shape_ok ir ≡ true
unfolding shape_ok
shape_ok_of ir recipients (version, asset, conditions, actions) named short fires fits =
    rw (version, conditions, actions, fires, fits) (ground arith)

actions-IsSplit :
    (ir : PolicyIr) (recipients : List Recipient)
    → IsDistribution recipients ir
    → IsSplit (split_transfer recipients)
    → All IsSplit ir.actions
actions-IsSplit ir recipients (version, asset, conditions, actions) split = rw actions (split, tt)

module _ (t : TemplateDefinition) (now : ℕ) (recipients : List Recipient) where
  builder-IsDistribution :
      (edited : Option Trigger)
      → IsDistribution recipients (t.build now (builder_args recipients))
      → IsDistribution recipients (builder_ir t now recipients edited)
  unfolding builder_ir
  builder-IsDistribution edited h = h

  builder-trigger_ok :
      (edited : Option Trigger)
      → IsEdited edited
      → trigger_ok (t.build now (builder_args recipients)).trigger ≡ true
      → trigger_ok (builder_ir t now recipients edited).trigger ≡ true
  unfolding builder_ir default_to
  builder-trigger_ok none h k = k
  builder-trigger_ok (some trigger) h k = h

  builder-shape_ok :
      (edited : Option Trigger)
      → IsEdited edited
      → IsSeed t
      → action_ok (split_transfer recipients) ≡ true
      → shape_ok (builder_ir t now recipients edited) ≡ true
  unfolding builder_ir
  builder-shape_ok edited h seed fits =
      let (distribution, named, short, triggered) = seed now recipients in
      shape_ok_of (builder_ir t now recipients edited) recipients distribution named short
        (builder-trigger_ok edited h triggered) fits

module _ (zod : ShapeParser PolicyIr) (viem : Viem) (salt : Text) where
  reviewed-ok :
      (ir : PolicyIr) (c : CompiledPolicy)
      → compile zod viem ir salt ≡ ok c
      → reviewed zod viem ir salt ≡ (some c, none)
  unfolding reviewed
  reviewed-ok ir c h = rw (reviewed, h) refl

  -- From any template of the registry, at any time and with any trigger that the schema accepts, or the
  -- template's own, an even split among at least one and at most 10000 recipients with valid addresses,
  -- of which no two are the same, letter case aside, and short labels is a policy that the review
  -- compiles, with a validator that accepts what has the schema's shape: the drawer offers to deploy
  -- whatever the compiler assembles from the recipients, and shows an error only if that throws.
  pub reviewed-rebalance :
      (id : Text) (t : TemplateDefinition) (now : ℕ) (r : Recipient) (rs : List Recipient)
      (edited : Option Trigger) (c : CompiledPolicy)
      → ((ir : PolicyIr) → shape_ok ir ≡ true → zod.parse ir ≡ ok ir)
      → builder_template id ≡ some t
      → IsEdited edited
      → length (r ∷ rs) ≤ 10_000
      → All IsNamed (r ∷ rs)
      → DistinctFrom [] (r ∷ rs)
      → assemble viem (builder_ir t now (rebalance (r ∷ rs)) edited) salt (rebalance (r ∷ rs))
        ≡ ok c
      → reviewed zod viem (builder_ir t now (rebalance (r ∷ rs)) edited) salt ≡ (some c, none)
  reviewed-rebalance id t now r rs edited c complete found valid few named distinct assembled =
      let seed = builder_template-IsSeed id t found in
      let (balanced, fits, split) = rebalance-IsSplit r rs few named distinct in
      let shares = rebalance (r ∷ rs) in
      let ir = builder_ir t now shares edited in
      let built = builder-IsDistribution t now shares edited (seed now shares).0 in
      let parsed = (safe_parse-eq-ok_iff zod ir ir).1 (
        complete ir (builder-shape_ok t now shares edited valid seed fits),
        actions-IsSplit ir shares built split,
      ) in
      reviewed-ok ir c (compile_distribution zod viem ir salt ir shares parsed built ∙ assembled)
