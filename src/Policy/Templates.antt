-- ===== src/Policy/Templates.antt =====
-- packages/policy/src/templates: the templates that a policy starts from, their registry, and the
-- gallery's grouping of them. `now` is the time in seconds; the order of names by `localeCompare` is
-- the platform's, and a parameter.
pub mod Building
pub mod Gallery
use flare_studio.Base.Int.{ℤ, pos, negsuc}
use flare_studio.Base.Text.{Text, codes, text_eq}
use flare_studio.Base.{
  ℕ, zero, suc, ◌+◌, ◌*◌, Bool, true, false, Option, none, some, List, [], ◌∷◌, ◌++◌, map, Result,
  ok, err, find?, keep, ltb, if◌then◌else◌,
}
use flare_studio.Policy.Schema.{Recipient, manual_heartbeat, timestamp, split_transfer, PolicyIr}

pub record TemplateArgs : Type 0 where
  pub name : Option Text
  pub recipients : List Recipient
  pub interval_seconds : Option ℕ
  pub execute_after : Option ℕ
  pub demo_mode : Option Bool

pub record TemplateDefinition : Type 0 where
  pub id : Text
  pub title : Text
  pub section : Text
  pub summary : Text
  pub explainer : Text
  pub live : Bool
  pub build : (now : ℕ) → TemplateArgs → PolicyIr

-- `value ?? otherwise`
unfoldable pub default_to {ℓ} : {A : Type ℓ} → A → Option A → A
default_to otherwise none = otherwise
default_to otherwise (some value) = value

unfoldable pub xrp_inheritance : (now : ℕ) → TemplateArgs → PolicyIr
unfolding default_to
xrp_inheritance now args = record {
  version = 1;
  name = default_to (codes "XRP Inheritance") args.name;
  asset = codes "FXRP";
  trigger =
      manual_heartbeat (default_to (365 * 24 * 60 * 60) args.interval_seconds)
        (default_to false args.demo_mode);
  conditions = [];
  actions = split_transfer args.recipients ∷ [];
}

unfoldable pub scheduled_distribution : (now : ℕ) → TemplateArgs → PolicyIr
unfolding default_to
scheduled_distribution now args = record {
  version = 1;
  name = default_to (codes "Scheduled Distribution") args.name;
  asset = codes "FXRP";
  trigger = timestamp (default_to (now + 365 * 24 * 60 * 60) args.execute_after);
  conditions = [];
  actions = split_transfer args.recipients ∷ [];
}

abbrev pub xrp_inheritance_definition : TemplateDefinition
xrp_inheritance_definition = record {
  id = codes "xrp-inheritance";
  title = codes "XRP Inheritance";
  section = codes "Succession";
  summary =
      codes "If you stop checking in, your XRP is distributed privately to the people you choose.";
  explainer =
      codes "You check in periodically to show you are still here. If you stop for longer "
      ++ codes "than your chosen interval, the policy releases your funds according to a "
      ++ codes "split that only you and the secure enclave can read.";
  live = true;
  build = xrp_inheritance;
}

abbrev pub scheduled_distribution_definition : TemplateDefinition
scheduled_distribution_definition = record {
  id = codes "scheduled-distribution";
  title = codes "Scheduled Distribution";
  section = codes "Treasury";
  summary = codes "Release funds to chosen recipients on a specific date, privately.";
  explainer =
      codes "Set a date. When it arrives, the policy distributes your funds according to "
      ++ codes "a split that stays private until the moment it executes.";
  live = true;
  build = scheduled_distribution;
}

unfoldable pub templates : List TemplateDefinition
templates = xrp_inheritance_definition ∷ scheduled_distribution_definition ∷ []

-- The error carries the id and the known ones.
pub data UnknownTemplate : Type 0 where
  unknown_template : Text → List Text → UnknownTemplate

unfoldable pub get_template : Text → Result UnknownTemplate TemplateDefinition
unfolding templates
get_template id = elim (find? (λ t. text_eq t.id id) templates) [
  | none ↦ err (unknown_template id (map (λ (t : TemplateDefinition). t.id) templates))
  | some template ↦ ok template
]

unfoldable pub live_templates : List TemplateDefinition
unfolding templates
live_templates = keep (λ t. t.live) templates

unfoldable pub section_order : List Text
section_order = codes "Succession" ∷ codes "Treasury" ∷ codes "Escrow" ∷ []

pub record TemplateSection : Type 0 where
  pub name : Text
  pub templates : List TemplateDefinition

-- A round of the loop over the templates: into the group of its section, or a new one at the end.
unfoldable pub add_template : TemplateDefinition → List TemplateSection → List TemplateSection
add_template t [] = record { name = t.section; templates = t ∷ [] } ∷ []
add_template t (g ∷ gs) =
    let rest = add_template t gs in
    if text_eq g.name t.section
    then record { name = g.name; templates = g.templates ++ t ∷ [] } ∷ gs
    else g ∷ rest

-- The groups of a `Map`, in the order of insertion, after the templates of `ts` were added to `gs`.
unfoldable pub group_templates :
    List TemplateSection → List TemplateDefinition → List TemplateSection
unfolding add_template
group_templates gs [] = gs
group_templates gs (t ∷ ts) = group_templates (add_template t gs) ts

-- The index in a list of texts, or the list's length.
unfoldable pub rank_in : List Text → Text → ℕ
rank_in [] name = 0
rank_in (t ∷ ts) name = let later = rank_in ts name in if text_eq t name then 0 else suc later

unfoldable pub rank : Text → ℕ
unfolding rank_in section_order
rank name = rank_in section_order name

unfoldable pub is_at_most_zero : ℤ → Bool
is_at_most_zero (pos zero) = true
is_at_most_zero (pos (suc n)) = false
is_at_most_zero (negsuc n) = true

-- Whether the comparison of the sort does not put `a` after `b`.
unfoldable pub sorts_before : (Text → Text → ℤ) → TemplateSection → TemplateSection → Bool
unfolding rank is_at_most_zero
sorts_before locale_compare a b =
    if ltb (rank a.name) (rank b.name)
    then true
    else if ltb (rank b.name) (rank a.name)
    then false
    else is_at_most_zero (locale_compare a.name b.name)

-- The sort is stable.
unfoldable pub insert_section :
    (Text → Text → ℤ) → TemplateSection → List TemplateSection → List TemplateSection
unfolding sorts_before
insert_section locale_compare g [] = g ∷ []
insert_section locale_compare g (h ∷ hs) =
    let later = insert_section locale_compare g hs in
    if sorts_before locale_compare g h then g ∷ h ∷ hs else h ∷ later

unfoldable pub sort_sections : (Text → Text → ℤ) → List TemplateSection → List TemplateSection
unfolding insert_section
sort_sections locale_compare [] = []
sort_sections locale_compare (g ∷ gs) =
    insert_section locale_compare g (sort_sections locale_compare gs)

-- The gallery of a registry.
unfoldable pub gallery_of : (Text → Text → ℤ) → List TemplateDefinition → List TemplateSection
unfolding group_templates sort_sections
gallery_of locale_compare ts = sort_sections locale_compare (group_templates [] ts)

unfoldable pub templates_by_section : (Text → Text → ℤ) → List TemplateSection
unfolding gallery_of templates
templates_by_section locale_compare = gallery_of locale_compare templates
