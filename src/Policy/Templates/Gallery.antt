-- ===== src/Policy/Templates/Gallery.antt =====
-- The gallery shows every template of a registry, in the section that it names.
use mathlib.Core.Path.{subst}
use flare_studio.Base.Int.{ℤ}
use flare_studio.Base.Text.{Text, text_eq, text_eq_iff, text_eq_refl}
use flare_studio.Base.{
  ℕ, ◌+◌, ◌≤◌, Bool, ◌&&◌, true, false, List, [], ◌∷◌, ◌++◌, ◌≡◌, refl, ◌∙◌, ap, sym, All, keep,
  append_nil, append_assoc, arith, Bool-cases, inl, inr, if◌then◌else◌,
}
use flare_studio.Policy.Templates.{
  TemplateDefinition, TemplateSection, add_template, group_templates, rank, sorts_before,
  insert_section, sort_sections, gallery_of,
}

-- The templates shown under a name: those of its sections.
abbrev pub shown_in : Text → List TemplateSection → List TemplateDefinition
shown_in name [] = []
shown_in name (g ∷ gs) = (if text_eq g.name name then g.templates else []) ++ shown_in name gs

abbrev pub is_in : Text → TemplateDefinition → Bool
is_in name t = text_eq t.section name

-- How many of the sections have the name.
abbrev pub named : Text → List TemplateSection → ℕ
named name [] = 0
named name (g ∷ gs) = (if text_eq g.name name then 1 else 0) + named name gs

-- The ranks never fall.
abbrev pub IsRanked : List TemplateSection → Type 0
IsRanked [] = Unit {0}
IsRanked (g ∷ gs) = All (λ h. rank g.name ≤ rank h.name) gs × IsRanked gs

shown_in_none :
    (name : Text) (gs : List TemplateSection) → named name gs ≡ 0 → shown_in name gs ≡ []
shown_in_none name [] h = refl
shown_in_none name (g ∷ gs) h = ground (arith, shown_in_none name gs)

named-add_other :
    (name : Text) (t : TemplateDefinition) (gs : List TemplateSection)
    → text_eq t.section name ≡ false
    → named name (add_template t gs) ≡ named name gs
unfolding add_template
named-add_other name t [] h = rw h
named-add_other name t (g ∷ gs) h = ground (arith, named-add_other name t gs h)

named-add_own :
    (t : TemplateDefinition) (gs : List TemplateSection)
    → named t.section gs ≤ 1
    → named t.section (add_template t gs) ≡ 1
unfolding add_template
named-add_own t [] h = rw (text_eq_refl t.section)
named-add_own t (g ∷ gs) h = ground (arith, named-add_own t gs)

named-add_template :
    (name : Text) (t : TemplateDefinition) (gs : List TemplateSection)
    → named name gs ≤ 1
    → named name (add_template t gs) ≤ 1
named-add_template name t gs h = elim (Bool-cases (text_eq t.section name)) [
  | inl own ↦
      let same = (text_eq_iff t.section name).0 own in
      rw (← same) (omega (arith, named-add_own t gs (rw same h)))
  | inr other ↦ rw (named-add_other name t gs other) h
]

shown_in-add_other :
    (name : Text) (t : TemplateDefinition) (gs : List TemplateSection)
    → text_eq t.section name ≡ false
    → shown_in name (add_template t gs) ≡ shown_in name gs
unfolding add_template
shown_in-add_other name t [] h = rw h
shown_in-add_other name t (g ∷ gs) h = ground (
  arith,
  shown_in-add_other name t gs h,
  text_eq_iff g.name t.section,
  text_eq_iff g.name name,
  text_eq_iff t.section name,
)

shown_in-add_own :
    (t : TemplateDefinition) (gs : List TemplateSection)
    → named t.section gs ≤ 1
    → shown_in t.section (add_template t gs) ≡ shown_in t.section gs ++ t ∷ []
unfolding add_template
shown_in-add_own t [] h = rw (text_eq_refl t.section)
shown_in-add_own t (g ∷ gs) h = elim (Bool-cases (text_eq g.name t.section)) [
  | inl own ↦
      let none_later = shown_in_none t.section gs (ground arith) in
      rw (own, own, none_later, append_nil g.templates) (append_nil (g.templates ++ t ∷ []))
  | inr other ↦ rw (other, other) (shown_in-add_own t gs (ground arith))
]

keep-step :
    (name : Text) (t : TemplateDefinition) (ts : List TemplateDefinition)
    → keep (is_in name) (t ∷ ts) ≡ (if is_in name t then t ∷ [] else []) ++ keep (is_in name) ts
keep-step name t ts = ground arith

group_templates-shown :
    (name : Text) (ts : List TemplateDefinition) (gs : List TemplateSection)
    → ((n : Text) → named n gs ≤ 1)
    → (named name (group_templates gs ts) ≤ 1)
      × (shown_in name (group_templates gs ts) ≡ shown_in name gs ++ keep (is_in name) ts)
unfolding group_templates
group_templates-shown name [] gs h = (h name, sym (append_nil (shown_in name gs)))
group_templates-shown name (t ∷ ts) gs h =
    let later =
      group_templates-shown name ts (add_template t gs) (λ n. named-add_template n t gs (h n)) in
    elim (Bool-cases (text_eq t.section name)) [
      | inl own ↦
          let same = (text_eq_iff t.section name).0 own in
          let added =
            subst (λ n. shown_in n (add_template t gs) ≡ shown_in n gs ++ t ∷ []) same
              (shown_in-add_own t gs (h t.section)) in
          (
            later.0,
            later.1
                ∙ rw (added, own) (append_assoc (shown_in name gs) (t ∷ []) (keep (is_in name) ts)),
          )
      | inr other ↦ (later.0, later.1 ∙ rw (shown_in-add_other name t gs other, other))
    ]

is_ranked-before :
    (locale_compare : Text → Text → ℤ) (a b : TemplateSection)
    → (sorts_before locale_compare a b ≡ true → rank a.name ≤ rank b.name)
      × (sorts_before locale_compare a b ≡ false → rank b.name ≤ rank a.name)
unfolding sorts_before
is_ranked-before locale_compare a b = ground arith

swap_parts :
    (a b : Bool) (xs ys zs : List TemplateDefinition)
    → (a && b) ≡ false
    → (if b then ys else []) ++ ((if a then xs else []) ++ zs)
      ≡ (if a then xs else []) ++ ((if b then ys else []) ++ zs)
swap_parts true true xs ys zs h = cc
swap_parts true false xs ys zs h = refl
swap_parts false b xs ys zs h = refl

module _ (locale_compare : Text → Text → ℤ) where
  All-trans :
      (a b : ℕ) (gs : List TemplateSection)
      → a ≤ b
      → All (λ x. b ≤ rank x.name) gs
      → All (λ x. a ≤ rank x.name) gs
  All-trans a b [] h hs = tt
  All-trans a b (e ∷ es) h hs = (omega (arith, hs.0), All-trans a b es h hs.1)

  insert_section-All :
      (b : ℕ) (g : TemplateSection) (gs : List TemplateSection)
      → b ≤ rank g.name
      → All (λ x. b ≤ rank x.name) gs
      → All (λ x. b ≤ rank x.name) (insert_section locale_compare g gs)
  unfolding insert_section
  insert_section-All b g [] h hs = (h, tt)
  insert_section-All b g (x ∷ xs) h hs = ground (arith, insert_section-All b g xs h hs.1)

  insert_section-IsRanked :
      (g : TemplateSection) (gs : List TemplateSection)
      → IsRanked gs
      → IsRanked (insert_section locale_compare g gs)
  unfolding insert_section
  insert_section-IsRanked g [] h = (tt, tt)
  insert_section-IsRanked g (x ∷ xs) h = elim (Bool-cases (sorts_before locale_compare g x)) [
    | inl before ↦
        let le = (is_ranked-before locale_compare g x).0 before in
        rw before ((le, All-trans (rank g.name) (rank x.name) xs le h.0), h)
    | inr after ↦ rw after (
      insert_section-All (rank x.name) g xs ((is_ranked-before locale_compare g x).1 after) h.0,
      insert_section-IsRanked g xs h.1,
    )
  ]

  named-insert_section :
      (name : Text) (g : TemplateSection) (gs : List TemplateSection)
      → named name (insert_section locale_compare g gs) ≡ named name (g ∷ gs)
  unfolding insert_section
  named-insert_section name g [] = refl
  named-insert_section name g (x ∷ xs) = ground (arith, named-insert_section name g xs)

  shown_in-insert_section :
      (name : Text) (g : TemplateSection) (gs : List TemplateSection)
      → named name (g ∷ gs) ≤ 1
      → shown_in name (insert_section locale_compare g gs) ≡ shown_in name (g ∷ gs)
  unfolding insert_section
  shown_in-insert_section name g [] h = refl
  shown_in-insert_section name g (x ∷ xs) h = elim (Bool-cases (sorts_before locale_compare g x)) [
    | inl before ↦ rw before refl
    | inr after ↦
        rw (after, shown_in-insert_section name g xs (ground arith))
          (swap_parts (text_eq g.name name) (text_eq x.name name) g.templates x.templates
            (shown_in name xs) (ground arith))
  ]

  sort_sections-IsRanked : (gs : List TemplateSection) → IsRanked (sort_sections locale_compare gs)
  unfolding sort_sections
  sort_sections-IsRanked [] = tt
  sort_sections-IsRanked (g ∷ gs) =
      insert_section-IsRanked g (sort_sections locale_compare gs) (sort_sections-IsRanked gs)

  named-sort_sections :
      (name : Text) (gs : List TemplateSection)
      → named name (sort_sections locale_compare gs) ≡ named name gs
  unfolding sort_sections
  named-sort_sections name [] = refl
  named-sort_sections name (g ∷ gs) = omega (
    arith,
    named-insert_section name g (sort_sections locale_compare gs),
    named-sort_sections name gs,
  )

  shown_in-sort_sections :
      (name : Text) (gs : List TemplateSection)
      → named name gs ≤ 1
      → shown_in name (sort_sections locale_compare gs) ≡ shown_in name gs
  unfolding sort_sections
  shown_in-sort_sections name [] h = refl
  shown_in-sort_sections name (g ∷ gs) h =
      shown_in-insert_section name g (sort_sections locale_compare gs)
        (omega (arith, named-sort_sections name gs, h))
      ∙ ap (λ l. (if text_eq g.name name then g.templates else []) ++ l)
          (shown_in-sort_sections name gs (ground arith))

  -- The gallery of any registry: no name heads two sections, the ranks of the sections never fall, and
  -- under a name stand just the registry's templates of that section, in the registry's order.
  pub gallery_of-shown :
      (ts : List TemplateDefinition) (name : Text)
      → IsRanked (gallery_of locale_compare ts)
        × (named name (gallery_of locale_compare ts) ≤ 1)
        × (shown_in name (gallery_of locale_compare ts) ≡ keep (is_in name) ts)
  unfolding gallery_of
  gallery_of-shown ts name =
      let grouped = group_templates-shown name ts [] (λ n. omega arith) in
      (
        sort_sections-IsRanked (group_templates [] ts),
        omega (arith, named-sort_sections name (group_templates [] ts), grouped.0),
        shown_in-sort_sections name (group_templates [] ts) grouped.0 ∙ grouped.1,
      )
