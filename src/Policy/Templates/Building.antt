-- ===== src/Policy/Templates/Building.antt =====
-- What the templates build: policies that differ in name and trigger only.
use mathlib.Core.Path.{subst}
use flare_studio.Base.Text.{Text, codes, text_eq}
use flare_studio.Base.{
  ℕ, Bool, List, [], ◌∷◌, ◌≡◌, refl, ok, some, find?, All, arith, Bool-cases, inl, inr,
}
use flare_studio.Policy.Assets.{get_asset, own, fxrp}
use flare_studio.Policy.Schema.{Recipient, split_transfer, PolicyIr, ShapeParser, safe_parse}
use flare_studio.Policy.Schema.Refine.{IsSplit, safe_parse-eq-ok_iff}
use flare_studio.Policy.Commitment.{Viem}
use flare_studio.Policy.Compile.{compile, assemble, find_transfer, throws}
use flare_studio.Policy.Templates.{
  TemplateArgs, TemplateDefinition, xrp_inheritance, scheduled_distribution, get_template,
  templates,
}

-- A policy of the one asset that distributes to the recipients, without conditions.
abbrev pub IsDistribution : List Recipient → PolicyIr → Type 0
IsDistribution recipients ir =
    (ir.version ≡ 1)
    × (ir.asset ≡ codes "FXRP")
    × (ir.conditions ≡ [])
    × (ir.actions ≡ split_transfer recipients ∷ [])

abbrev Builds : TemplateDefinition → Type 0
Builds t = (now : ℕ) (args : TemplateArgs) → IsDistribution args.recipients (t.build now args)

templates-Builds : All Builds templates
unfolding templates xrp_inheritance scheduled_distribution
templates-Builds =
    ((λ now args. (refl, refl, refl, refl)), ((λ now args. (refl, refl, refl, refl)), tt))

pub find-All :
    (P : TemplateDefinition → Type 0) (p : TemplateDefinition → Bool) (ts : List TemplateDefinition)
    (t : TemplateDefinition)
    → All P ts
    → find? p ts ≡ some t
    → P t
find-All P p [] t h e = cc
find-All P p (x ∷ ts) t h e = elim (Bool-cases (p x)) [
  | inl here ↦ let same : x ≡ t = ground (arith, e, here) in subst P same h.0
  | inr later ↦ find-All P p ts t h.1 (rw later at e)
]

find_template :
    (id : Text) (t : TemplateDefinition)
    → get_template id ≡ ok t
    → (find? (λ (u : TemplateDefinition). text_eq u.id id) templates ≡ some t)
unfolding get_template
find_template id t h = ground arith

-- Every template of the registry builds a policy that distributes to the recipients given.
pub build-IsDistribution :
    (id : Text) (t : TemplateDefinition) (now : ℕ) (args : TemplateArgs)
    → get_template id ≡ ok t
    → IsDistribution args.recipients (t.build now args)
build-IsDistribution id t now args found =
    find-All Builds (λ u. text_eq u.id id) templates t templates-Builds (find_template id t found)
      now args

known_asset : get_asset (codes "FXRP") ≡ ok (own fxrp)
unfolding get_asset text_eq
known_asset = refl

module _ {Input : Type 0} (zod : ShapeParser Input) (viem : Viem) (input : Input)
    (salt : Text) where
  pub compile_distribution :
      (ir : PolicyIr) (recipients : List Recipient)
      → safe_parse zod input ≡ ok ir
      → IsDistribution recipients ir
      → compile zod viem input salt ≡ assemble viem ir salt recipients
  unfolding compile throws find_transfer
  compile_distribution ir recipients parsed (version, asset, conditions, actions) =
      rw (parsed, asset, known_asset, actions)

  -- What a template of the registry built, parsed as it is, compiles whenever the shares of its
  -- recipients total 10000 basis points and no address comes twice, letter case aside: the result is
  -- what the compiler assembles from those recipients, whichever template it was.
  pub compile-build :
      (id : Text) (t : TemplateDefinition) (now : ℕ) (args : TemplateArgs)
      → get_template id ≡ ok t
      → zod.parse input ≡ ok (t.build now args)
      → IsSplit (split_transfer args.recipients)
      → compile zod viem input salt ≡ assemble viem (t.build now args) salt args.recipients
  compile-build id t now args found parsed split =
      let built = build-IsDistribution id t now args found in
      let (version, asset, conditions, actions) = built in
      compile_distribution (t.build now args) args.recipients
        ((safe_parse-eq-ok_iff zod input (t.build now args)).1 (parsed, rw actions (split, tt)))
        built
