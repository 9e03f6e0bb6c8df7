-- ===== src/Policy/Schema/Refine.antt =====
-- What the refinement of a parsed policy accepts.
use flare_studio.Base.Text.{Text, text_eq, text_eq_iff, to_lower_case}
use flare_studio.Base.{ℕ, ◌+◌, false, List, [], ◌∷◌, ◌++◌, ◌≡◌, ◌≢◌, ◌↔◌, ok, err, any, All, arith}
use flare_studio.Policy.Schema.{
  Recipient, Action, split_transfer, PolicyIr, share_total, duplicate_issues, refine_issues,
  ShapeParser, safe_parse,
}

-- The sum of the shares.
abbrev pub sum_shares : List Recipient → ℕ
sum_shares [] = 0
sum_shares (r ∷ rs) = r.share_bps + sum_shares rs

pub share_total-eq-sum : (acc : ℕ) (rs : List Recipient) → share_total acc rs ≡ acc + sum_shares rs
unfolding share_total
share_total-eq-sum acc [] = omega arith
share_total-eq-sum acc (r ∷ rs) = omega (arith, share_total-eq-sum (acc + r.share_bps) rs)

-- The lower-cased addresses, none of them twice and none in `seen`.
abbrev pub Fresh : Text → List Text → Type 0
Fresh k seen = All (λ s. k ≢ s) seen

abbrev pub DistinctFrom : List Text → List Recipient → Type 0
DistinctFrom seen [] = Unit {0}
DistinctFrom seen (r ∷ rs) =
    Fresh (to_lower_case r.address) seen × DistinctFrom (to_lower_case r.address ∷ seen) rs

pub any-Fresh_iff : (k : Text) (seen : List Text) → (any (text_eq k) seen ≡ false) ↔ Fresh k seen
any-Fresh_iff k [] = ground arith
any-Fresh_iff k (s ∷ seen) = ground (arith, any-Fresh_iff k seen, text_eq_iff k s)

duplicate_issues-eq-nil_iff :
    (i j : ℕ) (seen : List Text) (rs : List Recipient)
    → (duplicate_issues i j seen rs ≡ []) ↔ DistinctFrom seen rs
unfolding duplicate_issues
duplicate_issues-eq-nil_iff i j seen [] = ground arith
duplicate_issues-eq-nil_iff i j seen (r ∷ rs) = ground (
  arith,
  any-Fresh_iff (to_lower_case r.address) seen,
  duplicate_issues-eq-nil_iff i (j + 1) (to_lower_case r.address ∷ seen) rs,
)

-- One action's shares total 100% and its addresses differ, whatever their case.
abbrev pub IsSplit : Action → Type 0
IsSplit (split_transfer rs) = (sum_shares rs ≡ 10_000) × DistinctFrom [] rs

pub append-eq-nil_iff {ℓ} :
    {A : Type ℓ} (xs ys : List A) → (xs ++ ys ≡ []) ↔ ((xs ≡ []) × (ys ≡ []))
append-eq-nil_iff [] ys = ground arith
append-eq-nil_iff (x ∷ xs) ys = ground arith

-- The refinement adds no issue exactly if every action's shares total 10000 basis points and no two
-- of its recipients have the same address, letter case aside.
pub refine_issues-eq-nil_iff :
    (i : ℕ) (actions : List Action) → (refine_issues i actions ≡ []) ↔ All IsSplit actions
unfolding refine_issues
refine_issues-eq-nil_iff i [] = ground arith
refine_issues-eq-nil_iff i (split_transfer rs ∷ actions) = ground (
  arith,
  share_total-eq-sum 0 rs,
  duplicate_issues-eq-nil_iff i 0 [] rs,
  append-eq-nil_iff (duplicate_issues i 0 [] rs) (refine_issues (i + 1) actions),
  refine_issues-eq-nil_iff (i + 1) actions,
)

-- A policy is accepted exactly if the validator parsed it, and in each of its actions the shares total
-- 10000 basis points and no two recipients have the same address, letter case aside.
pub safe_parse-eq-ok_iff :
    {Input : Type 0} (zod : ShapeParser Input) (input : Input) (ir : PolicyIr)
    → (safe_parse zod input ≡ ok ir) ↔ ((zod.parse input ≡ ok ir) × All IsSplit ir.actions)
unfolding safe_parse
safe_parse-eq-ok_iff zod input ir = ground (arith, refine_issues-eq-nil_iff 0 ir.actions)

-- A rejected policy comes with at least one issue.
pub safe_parse-ne-no_issue :
    {Input : Type 0} (zod : ShapeParser Input) (input : Input) → safe_parse zod input ≢ err []
unfolding safe_parse
safe_parse-ne-no_issue zod input = ground (arith, zod.parse_fails input [])
