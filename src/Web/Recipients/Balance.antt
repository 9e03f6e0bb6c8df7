-- ===== src/Web/Recipients/Balance.antt =====
-- An even split is one that the policy's schema accepts.
use native.Mathlib.Nat.{div-mul-le_self, le-div_iff_mul-le}
use flare_studio.Base.Text.{Text, to_lower_case}
use flare_studio.Base.{
  ℕ, suc, ◌+◌, ◌-◌, ◌*◌, ◌/◌, ◌≤◌, true, false, List, [], ◌∷◌, ◌≡◌, refl, ap, All, all, length,
  ◌==◌, arith, Bool-cases, inl, inr,
}
use flare_studio.Policy.Schema.{
  Recipient, split_transfer, is_address, label_ok, recipient_ok, action_ok,
}
use flare_studio.Policy.Schema.Refine.{sum_shares, share_total-eq-sum, DistinctFrom, IsSplit}
use flare_studio.Web.Recipients.{rebalance_from, rebalance, is_balanced}

sum_shares-rebalance_from :
    (each last i : ℕ) (r : Recipient) (rs : List Recipient)
    → i + length rs ≡ last
    → sum_shares (rebalance_from (suc last) each i (r ∷ rs))
      ≡ length rs * each + (10_000 - each * last)
unfolding rebalance_from
sum_shares-rebalance_from each last i r [] h = ground (arith, h)
sum_shares-rebalance_from each last i r (s ∷ rs) h =
    let rest = sum_shares-rebalance_from each last (i + 1) s rs (omega (arith, h)) in
    let between : (i == suc last - 1) ≡ false = ground (arith, h) in
    rw between (omega (arith, rest))

DistinctFrom-rebalance_from :
    (count each i : ℕ) (seen : List Text) (rs : List Recipient)
    → DistinctFrom seen rs
    → DistinctFrom seen (rebalance_from count each i rs)
unfolding rebalance_from
DistinctFrom-rebalance_from count each i seen [] h = tt
DistinctFrom-rebalance_from count each i seen (r ∷ rs) h =
    (h.0, DistinctFrom-rebalance_from count each (i + 1) (to_lower_case r.address ∷ seen) rs h.1)

-- What an editor's recipient still needs besides its share.
abbrev pub IsNamed : Recipient → Type 0
IsNamed r = (is_address r.address ≡ true) × (label_ok r.label ≡ true)

length-rebalance_from :
    (count each i : ℕ) (rs : List Recipient) → length (rebalance_from count each i rs) ≡ length rs
unfolding rebalance_from
length-rebalance_from count each i [] = refl
length-rebalance_from count each i (r ∷ rs) = ap suc (length-rebalance_from count each (i + 1) rs)

recipient_ok-rebalance_from :
    (each last i : ℕ) (rs : List Recipient)
    → 1 ≤ each
    → each * last + each ≤ 10_000
    → All IsNamed rs
    → all recipient_ok (rebalance_from (suc last) each i rs) ≡ true
unfolding rebalance_from recipient_ok
recipient_ok-rebalance_from each last i [] h k named = refl
recipient_ok-rebalance_from each last i (r ∷ rs) h k named =
    let rest = recipient_ok-rebalance_from each last (i + 1) rs h k named.1 in
    elim (Bool-cases (i == suc last - 1)) [
      | inl at_end ↦ rw (at_end, named.0.0, named.0.1, rest) (ground arith)
      | inr before ↦ rw (before, named.0.0, named.0.1, rest) (ground arith)
    ]

action_ok_of :
    (r : Recipient) (rs : List Recipient)
    → all recipient_ok (r ∷ rs) ≡ true
    → action_ok (split_transfer (r ∷ rs)) ≡ true
unfolding action_ok
action_ok_of r rs h = ground (arith, h)

module _ (r : Recipient) (rs : List Recipient) where
  abbrev each : ℕ
  each = 10_000 / suc (length rs)

  fits : each * length rs + each ≤ 10_000
  fits = omega (arith, div-mul-le_self 10_000 (suc (length rs)))

  -- "Split evenly", for at least one recipient and at most 10000, with valid addresses of which no two
  -- are the same, letter case aside, and labels that are short enough: the shares then total exactly
  -- 10000 basis points, and the action is one that the schema and its refinement accept.
  pub rebalance-IsSplit :
      length (r ∷ rs) ≤ 10_000
      → All IsNamed (r ∷ rs)
      → DistinctFrom [] (r ∷ rs)
      → (is_balanced (rebalance (r ∷ rs)) ≡ true)
        × (action_ok (split_transfer (rebalance (r ∷ rs))) ≡ true)
        × IsSplit (split_transfer (rebalance (r ∷ rs)))
  unfolding rebalance rebalance_from is_balanced
  rebalance-IsSplit few named distinct =
      let positive : 1 ≤ each =
        (le-div_iff_mul-le {k = suc (length rs)} {x = 1} {y = 10_000} (omega arith)).1
          (omega (arith, few)) in
      let summed = sum_shares-rebalance_from each (length rs) 0 r rs (omega arith) in
      let total : sum_shares (rebalance (r ∷ rs)) ≡ 10_000 = omega (arith, summed, fits) in
      (
        ground (arith, total, share_total-eq-sum 0 (rebalance (r ∷ rs))),
        action_ok_of _ _
            (recipient_ok-rebalance_from each (length rs) 0 (r ∷ rs) positive fits named),
        (total, DistinctFrom-rebalance_from (suc (length rs)) each 0 [] (r ∷ rs) distinct),
      )
