-- ===== src/Web/Amounts.antt =====
-- The amounts that a user types in: `parseAmount` of apps/web/components/deploy-dialog.tsx and of
-- apps/web/app/policies/[address]/page.tsx, `safeParse` and `safeFormat` of
-- apps/web/components/trigger-editor.tsx. viem's conversions may throw, and are the parameter `Units`.
use flare_studio.Base.Int.{ℤ, pos, negsuc}
use flare_studio.Base.Text.{Text, codes, trim, text_eq}
use flare_studio.Base.Number.{split_digits}
use flare_studio.Base.Value.{Value, undefined, null, string_of}
use flare_studio.Base.{
  ℕ, Bool, true, false, not, Option, none, some, [], ◌∷◌, Result, ok, err, ◌≡◌, arith, Bool-cases,
  inl, inr, ◌==◌, ◌||◌, if◌then◌else◌,
}

-- `parseUnits`, `formatUnits`, and `BigInt` of a string with its `toString`.
pub record Units : Type 0 where
  pub parse_units : Text → ℕ → Result Text ℤ
  pub format_units : ℤ → ℕ → Result Text Text
  pub big_int : Text → Result Text ℤ
  pub to_text : ℤ → Text

unfoldable pub digits_to_end : Text → Bool
unfolding split_digits
digits_to_end s = elim (split_digits s).1 [ [] ↦ true | c ∷ cs ↦ false ]

unfoldable pub point_or_end : Text → Bool
unfolding digits_to_end
point_or_end [] = true
point_or_end (c ∷ s) = if c == b'.' then digits_to_end s else false

-- /^\d*\.?\d*$/
unfoldable pub is_decimal : Text → Bool
unfolding split_digits point_or_end
is_decimal s = point_or_end (split_digits s).1

-- Not below zero, and not thrown.
unfoldable pub accepted : Result Text ℤ → Option ℤ
accepted (ok (pos n)) = some (pos n)
accepted (ok (negsuc n)) = none
accepted (err e) = none

-- A text that is not empty once trimmed.
unfoldable pub parse_trimmed : Units → Text → ℕ → Option ℤ
unfolding is_decimal accepted
parse_trimmed units trimmed decimals =
    if not (is_decimal trimmed) || text_eq trimmed (codes ".")
    then none
    else accepted (units.parse_units trimmed decimals)

-- In the dialog of a deployment, no amount is an amount of zero.
unfoldable pub parse_deposit : Units → Text → ℕ → Option ℤ
unfolding parse_trimmed
parse_deposit units input decimals = elim (trim input) [
  | [] ↦ some (pos 0)
  | c ∷ cs ↦ parse_trimmed units (c ∷ cs) decimals
]

-- On the page of a policy, no amount is none.
unfoldable pub parse_funding : Units → Text → ℕ → Option ℤ
unfolding parse_trimmed
parse_funding units input decimals = elim (trim input) [
  | [] ↦ none
  | c ∷ cs ↦ parse_trimmed units (c ∷ cs) decimals
]

-- The numeral of what was parsed, unless parsing threw.
unfoldable pub numeral_of : Units → Result Text ℤ → Option Text
numeral_of units (ok n) = some (units.to_text n)
numeral_of units (err e) = none

unfoldable pub safe_parse_numeral : Units → Text → ℕ → Option Text
unfolding is_decimal numeral_of
safe_parse_numeral units input decimals = elim (trim input) [
  | [] ↦ some (codes "0")
  | c ∷ cs ↦
      if not (is_decimal (c ∷ cs))
      then none
      else numeral_of units (units.parse_units (c ∷ cs) decimals)
]

-- `String(value ?? '0')`
unfoldable pub numeral_text : Value → Text
numeral_text undefined = codes "0"
numeral_text null = codes "0"
numeral_text v = string_of v

unfoldable pub safe_format : Units → Value → ℕ → Text
unfolding numeral_text
safe_format units value decimals = elim (units.big_int (numeral_text value)) [
  | err e ↦ []
  | ok n ↦ elim (units.format_units n decimals) [ err e ↦ [] | ok text ↦ text ]
]

accepted_iff :
    (units : Units) (r : Result Text ℤ) (n : ℤ)
    → accepted r ≡ some n
    → numeral_of units r ≡ some (units.to_text n)
unfolding accepted numeral_of
accepted_iff units (ok (pos m)) n h = ground (arith, h)
accepted_iff units (ok (negsuc m)) n h = cc
accepted_iff units (err e) n h = cc

numeral-parse_trimmed :
    (units : Units) (c : ℕ) (cs : Text) (decimals : ℕ) (n : ℤ)
    → parse_trimmed units (c ∷ cs) decimals ≡ some n
    → (if not (is_decimal (c ∷ cs))
        then none
        else numeral_of units (units.parse_units (c ∷ cs) decimals))
      ≡ some (units.to_text n)
unfolding parse_trimmed
numeral-parse_trimmed units c cs decimals n h = elim (Bool-cases (is_decimal (c ∷ cs))) [
  | inl decimal ↦ elim (Bool-cases (text_eq (c ∷ cs) (codes "."))) [
    | inl point ↦ let bad = rw (decimal, point) at h in cc
    | inr other ↦ rw decimal (accepted_iff units _ n (rw (decimal, other) at h))
  ]
  | inr other ↦ let bad = rw other at h in cc
]

-- The fields for amounts agree on what is not blank: the dialog of a deployment and the page of a
-- policy parse it alike, and what they accept the trigger's editor keeps as the numeral of the same
-- integer.
pub parse_agree :
    (units : Units) (input : Text) (decimals c : ℕ) (cs : Text) (n : ℤ)
    → trim input ≡ c ∷ cs
    → parse_funding units input decimals ≡ some n
    → (parse_deposit units input decimals ≡ some n)
      × (safe_parse_numeral units input decimals ≡ some (units.to_text n))
unfolding parse_funding parse_deposit safe_parse_numeral
parse_agree units input decimals c cs n present h =
    let parsed = rw (parse_funding, present) at h in
    (
      rw (parse_deposit, present) parsed,
      rw (safe_parse_numeral, present) (numeral-parse_trimmed units c cs decimals n parsed),
    )
