-- ===== src/Web/Policies/Listed.antt =====
-- What the list of policies holds.
use mathlib.Core.Path.{subst}
use flare_studio.Base.Text.{Text, text_eq, text_eq_iff}
use flare_studio.Base.{
  ℕ, ◌+◌, ◌≤◌, Bool, true, false, ◌||◌, List, [], ◌∷◌, ◌++◌, ◌≡◌, refl, sym, ap, ◌∙◌, Result, ok,
  err, Result-cases, Bool-cases, inl, inr, All, any, map, leb, leb→le, arith, if◌then◌else◌,
  >>=-eq-ok,
}
use flare_studio.Web.Chain.{chain_id}
use flare_studio.Web.Vault.{VaultEntry, all_entries}
use flare_studio.Web.Policies.{
  Reader, PolicySummary, read_policy, set_add, set_add_all, logged, policy_addresses, deployed_at,
  read_all, insert_summary, sort_summaries, list_policies,
}

abbrev pub one_if : Bool → ℕ
one_if b = if b then 1 else 0

-- How many summaries are of the address, and how often a set holds it.
abbrev pub listed : Text → List PolicySummary → ℕ
listed a [] = 0
listed a (s ∷ ss) = one_if (text_eq a s.address) + listed a ss

abbrev occurs : Text → List Text → ℕ
occurs a [] = 0
occurs a (x ∷ xs) = one_if (text_eq a x) + occurs a xs

abbrev pub has : Text → List Text → Bool
has a xs = any (text_eq a) xs

abbrev pub is_ok : Result Text PolicySummary → Bool
is_ok (ok s) = true
is_ok (err e) = false

has-append : (a : Text) (xs ys : List Text) → has a (xs ++ ys) ≡ (has a xs || has a ys)
has-append a [] ys = refl
has-append a (x ∷ xs) ys = ground (arith, has-append a xs ys)

occurs-append : (a : Text) (xs ys : List Text) → occurs a (xs ++ ys) ≡ occurs a xs + occurs a ys
occurs-append a [] ys = omega arith
occurs-append a (x ∷ xs) ys = omega (arith, occurs-append a xs ys)

or_false : (b : Bool) → b ≡ (b || false)
or_false true = refl
or_false false = refl

or_assoc : (a b c : Bool) → ((a || b) || c) ≡ (a || (b || c))
or_assoc true b c = refl
or_assoc false b c = refl

has-known :
    (a b : Text) (set : List Text)
    → any (text_eq b) set ≡ true
    → has a set ≡ (has a set || text_eq a b)
has-known a b set there = elim (Bool-cases (text_eq a b)) [
  | inl same ↦
      let known : any (text_eq a) set ≡ true =
        subst (λ t. any (text_eq t) set ≡ true) (sym ((text_eq_iff a b).0 same)) there in
      rw known refl
  | inr other ↦ rw other (or_false (has a set))
]

set_add-has : (a b : Text) (set : List Text) → has a (set_add b set) ≡ (has a set || text_eq a b)
unfolding set_add
set_add-has a b set = elim (Bool-cases (any (text_eq b) set)) [
  | inl there ↦
      let kept : has a set ≡ (has a set || text_eq a b) = has-known a b set there in rw there kept
  | inr new ↦ rw (new, has-append a set (b ∷ [])) (ground arith)
]

set_add-once :
    (a b : Text) (set : List Text)
    → occurs a set ≡ one_if (has a set)
    → occurs a (set_add b set) ≡ one_if (has a (set_add b set))
unfolding set_add
set_add-once a b set h = elim (Bool-cases (any (text_eq b) set)) [
  | inl there ↦ rw there h
  | inr new ↦ elim (Bool-cases (text_eq a b)) [
    | inl same ↦
        let absent : any (text_eq a) set ≡ false =
          subst (λ t. any (text_eq t) set ≡ false) (sym ((text_eq_iff a b).0 same)) new in
        let none_yet : occurs a set ≡ 0 = h ∙ rw absent in
        rw (new, occurs-append a set (b ∷ []), has-append a set (b ∷ []), none_yet, absent, same)
          refl
    | inr other ↦
        rw (new, occurs-append a set (b ∷ []), has-append a set (b ∷ []), h, other) (ground arith)
  ]
]

set_add_all-lem :
    (a : Text) (set xs : List Text)
    → occurs a set ≡ one_if (has a set)
    → (occurs a (set_add_all set xs) ≡ one_if (has a (set_add_all set xs)))
      × (has a (set_add_all set xs) ≡ (has a set || has a xs))
unfolding set_add_all
set_add_all-lem a set [] h = (h, or_false (has a set))
set_add_all-lem a set (x ∷ xs) h =
    let (once, held) = set_add_all-lem a (set_add x set) xs (set_add-once a x set h) in
    (once, held ∙ rw (set_add-has a x set) (or_assoc (has a set) (text_eq a x) (has a xs)))

read_policy-address :
    (reader : Reader) (vault : List VaultEntry) (a : Text) (s : PolicySummary)
    → read_policy reader vault a ≡ ok s
    → s.address ≡ a
unfolding read_policy
read_policy-address reader vault a s h =
    let (status, found, h1) = >>=-eq-ok (reader.status a) _ h in
    let (balance, found1, h2) = >>=-eq-ok (reader.balance a) _ h1 in
    let (commitment, found2, h3) = >>=-eq-ok (reader.commitment a) _ h2 in
    let (trigger, found3, h4) = >>=-eq-ok (reader.trigger a) _ h3 in cc h4

module _ (reader : Reader) (vault : List VaultEntry) where
  either_zero : (b : Bool) → ◌≡◌ {A = ℕ} 0 (if b then 0 else 0)
  either_zero true = refl
  either_zero false = refl

  skip_other : (b : Bool) (n : ℕ) → ◌≡◌ {A = ℕ} (0 + (if b then n else 0)) (if b then 0 + n else 0)
  skip_other true n = refl
  skip_other false n = refl

  skip_failed : (b : Bool) (n : ℕ) → ◌≡◌ {A = ℕ} (if b then n else 0) (if b then 0 + n else 0)
  skip_failed true n = omega arith
  skip_failed false n = refl

  listed-read_all :
      (a : Text) (xs : List Text)
      → listed a (read_all reader vault xs)
        ≡ (if is_ok (read_policy reader vault a) then occurs a xs else 0)
  unfolding read_all
  listed-read_all a [] = either_zero (is_ok (read_policy reader vault a))
  listed-read_all a (x ∷ xs) = elim (Result-cases (read_policy reader vault x)) [
    | inl (s, read) ↦
        let named = read_policy-address reader vault x s read in
        elim (Bool-cases (text_eq a x)) [
          | inl same ↦
              let there : read_policy reader vault a ≡ ok s =
                subst (λ t. read_policy reader vault t ≡ ok s) (sym ((text_eq_iff a x).0 same))
                  read in
              let rest = rw there at (listed-read_all a xs) in
              rw (read, named, same, there, rest) refl
          | inr other ↦
              rw (read, named, other, listed-read_all a xs)
                (skip_other (is_ok (read_policy reader vault a)) (occurs a xs))
        ]
    | inr (e, failed) ↦ elim (Bool-cases (text_eq a x)) [
      | inl same ↦
          let there : read_policy reader vault a ≡ err e =
            subst (λ t. read_policy reader vault t ≡ err e) (sym ((text_eq_iff a x).0 same))
              failed in
          let rest = rw there at (listed-read_all a xs) in rw (failed, rest, there) refl
      | inr other ↦
          rw (failed, other, listed-read_all a xs)
            (skip_failed (is_ok (read_policy reader vault a)) (occurs a xs))
    ]
  ]

  listed-insert_summary :
      (a : Text) (s : PolicySummary) (xs : List PolicySummary)
      → listed a (insert_summary vault s xs) ≡ one_if (text_eq a s.address) + listed a xs
  unfolding insert_summary
  listed-insert_summary a s [] = refl
  listed-insert_summary a s (x ∷ xs) = ground (arith, listed-insert_summary a s xs)

  listed-sort_summaries :
      (a : Text) (xs : List PolicySummary) → listed a (sort_summaries vault xs) ≡ listed a xs
  unfolding sort_summaries
  listed-sort_summaries a [] = refl
  listed-sort_summaries a (s ∷ ss) =
      omega (arith, listed-insert_summary a s (sort_summaries vault ss), listed-sort_summaries a ss)

  -- By the time at which this browser deployed them, the latest first.
  abbrev pub IsLatestFirst : List PolicySummary → Type 0
  IsLatestFirst [] = Unit {0}
  IsLatestFirst (s ∷ ss) =
      All (λ x. deployed_at vault x.address ≤ deployed_at vault s.address) ss × IsLatestFirst ss

  All-trans :
      (a b : ℕ) (xs : List PolicySummary)
      → a ≤ b
      → All (λ x. deployed_at vault x.address ≤ a) xs
      → All (λ x. deployed_at vault x.address ≤ b) xs
  All-trans a b [] h hs = tt
  All-trans a b (x ∷ xs) h hs = (omega (arith, hs.0), All-trans a b xs h hs.1)

  insert_summary-All :
      (b : ℕ) (s : PolicySummary) (xs : List PolicySummary)
      → deployed_at vault s.address ≤ b
      → All (λ x. deployed_at vault x.address ≤ b) xs
      → All (λ x. deployed_at vault x.address ≤ b) (insert_summary vault s xs)
  unfolding insert_summary
  insert_summary-All b s [] h hs = (h, tt)
  insert_summary-All b s (x ∷ xs) h hs = ground (arith, insert_summary-All b s xs h hs.1)

  insert_summary-IsLatestFirst :
      (s : PolicySummary) (xs : List PolicySummary)
      → IsLatestFirst xs
      → IsLatestFirst (insert_summary vault s xs)
  unfolding insert_summary
  insert_summary-IsLatestFirst s [] h = (tt, tt)
  insert_summary-IsLatestFirst s (x ∷ xs) h =
      elim (Bool-cases (leb (deployed_at vault x.address) (deployed_at vault s.address))) [
        | inl before ↦ let le = leb→le _ _ before in rw before ((le, All-trans _ _ xs le h.0), h)
        | inr after ↦
            rw after
              (insert_summary-All _ s xs (ground arith) h.0, insert_summary-IsLatestFirst s xs h.1)
      ]

  sort_summaries-IsLatestFirst : (xs : List PolicySummary) → IsLatestFirst (sort_summaries vault xs)
  unfolding sort_summaries
  sort_summaries-IsLatestFirst [] = tt
  sort_summaries-IsLatestFirst (s ∷ ss) =
      insert_summary-IsLatestFirst s (sort_summaries vault ss) (sort_summaries-IsLatestFirst ss)

  -- The addresses that the vault and, if they can be read, the logs know.
  abbrev pub known_to : (owner : Text) → Text → Bool
  known_to owner a =
      has a (map (λ (e : VaultEntry). e.policy) (all_entries chain_id vault))
      || has a (logged (reader.get_logs owner))

  policy_addresses-once :
      (owner a : Text) → occurs a (policy_addresses reader vault owner) ≡ one_if (known_to owner a)
  unfolding policy_addresses
  policy_addresses-once owner a =
      let (once, held) =
        set_add_all-lem a [] (map (λ (e : VaultEntry). e.policy) (all_entries chain_id vault))
          refl in
      let (once_more, held_all) =
        set_add_all-lem a
          (set_add_all [] (map (λ (e : VaultEntry). e.policy) (all_entries chain_id vault)))
          (logged (reader.get_logs owner)) once in
      once_more ∙ ap one_if (held_all ∙ rw held)

  -- The list of an owner's policies is sorted by the time of deployment, the latest first, and holds
  -- each address that can be read and that the vault or the logs know just once, and no other: what
  -- one source or one read fails to give takes nothing else from the list.
  pub list_policies-listed :
      (owner a : Text)
      → IsLatestFirst (list_policies reader vault owner)
        × (listed a (list_policies reader vault owner)
            ≡ (if is_ok (read_policy reader vault a) then one_if (known_to owner a) else 0))
  unfolding list_policies
  list_policies-listed owner a = (
    sort_summaries-IsLatestFirst (read_all reader vault (policy_addresses reader vault owner)),
    listed-sort_summaries a (read_all reader vault (policy_addresses reader vault owner))
        ∙ listed-read_all a (policy_addresses reader vault owner)
        ∙ ap (λ (n : ℕ). if is_ok (read_policy reader vault a) then n else 0)
            (policy_addresses-once owner a),
  )
