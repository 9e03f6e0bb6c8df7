-- ===== src/Base/Number.antt =====
-- `Number(s)` where it is an integer that is not negative. Decimal literals are read exactly, where
-- JavaScript rounds to a double.
use flare_studio.Base.Text.{
  Text, codes, is_digit, is_hex_digit, hex_value, is_space, trim, trim_start, trim_end,
}
use flare_studio.Base.Decimal.{decimal, value_from, value_from-decimal, decimal-IsDigits}
use flare_studio.Base.{
  ℕ, ◌+◌, ◌-◌, ◌*◌, ◌/◌, ◌%◌, ◌^◌, Bool, true, false, ◌||◌, Option, none, some, [], ◌∷◌, ◌++◌, ◌≡◌,
  refl, ◌∙◌, ap, sym, append_nil, all, length, leb, ltb, ◌==◌, if◌then◌else◌, arith, and_parts,
}

-- The digits at the front, and what follows them.
unfoldable pub split_digits : Text → Text × Text
unfolding is_digit
split_digits [] = ([], [])
split_digits (c ∷ s) =
    let rest = split_digits s in if is_digit c then (c ∷ rest.0, rest.1) else ([], c ∷ s)

unfoldable digit_value : ℕ → ℕ
unfolding hex_value is_hex_digit
digit_value c = if is_hex_digit c then hex_value c else 99

-- The value of digits to a base.
unfoldable radix_value : (base acc : ℕ) → Text → Option ℕ
unfolding digit_value
radix_value base acc [] = some acc
radix_value base acc (c ∷ s) =
    let rest = radix_value base (acc * base + digit_value c) s in
    if ltb (digit_value c) base then rest else none

-- The literals `0x`, `0o` and `0b`, in either case.
unfoldable radix_of : ℕ → Option ℕ
radix_of c =
    if c == b'x' || c == b'X'
    then some 16
    else if c == b'o' || c == b'O'
    then some 8
    else if c == b'b' || c == b'B'
    then some 2
    else none

-- The exponent: its sign, and its digits up to the end.
unfoldable exponent_digits : Text → Option ℕ
unfolding is_digit value_from
exponent_digits [] = none
exponent_digits (c ∷ s) = if all is_digit (c ∷ s) then some (value_from 0 (c ∷ s)) else none

unfoldable exponent : Text → Option (Bool × ℕ)
unfolding exponent_digits
exponent [] = some (true, 0)
exponent (e ∷ s) =
    if e == b'e' || e == b'E'
    then elim s [
      | [] ↦ none
      | c ∷ digits ↦
          if c == b'-'
          then elim (exponent_digits digits) [ none ↦ none | some n ↦ some (false, n) ]
          else elim (exponent_digits (if c == b'+' then digits else c ∷ digits)) [
            | none ↦ none
            | some n ↦ some (true, n)
          ]
    ]
    else none

-- The value of `m` with `decimals` digits after its point and an exponent, if that is whole.
unfoldable scaled : (m decimals : ℕ) → Bool × ℕ → Option ℕ
scaled m decimals (true, n) =
    if leb decimals n
    then some (m * 10 ^ (n - decimals))
    else if m % 10 ^ (decimals - n) == 0
    then some (m / 10 ^ (decimals - n))
    else none
scaled m decimals (false, n) =
    if m % 10 ^ (decimals + n) == 0 then some (m / 10 ^ (decimals + n)) else none

unfoldable fraction : Text → Text × Text
unfolding split_digits
fraction [] = ([], [])
fraction (c ∷ s) = if c == b'.' then split_digits s else ([], c ∷ s)

-- A literal by its digits before the point, those after it, and the rest.
unfoldable literal : (whole part rest : Text) → Option ℕ
unfolding exponent scaled value_from
literal whole part rest = if length whole + length part == 0 then none else elim (exponent rest) [
  | none ↦ none
  | some e ↦ scaled (value_from 0 (whole ++ part)) (length part) e
]

unfoldable after_whole : Text × Text → Option ℕ
unfolding fraction literal
after_whole (whole, rest) = literal whole (fraction rest).0 (fraction rest).1

unfoldable unsigned : Text → Option ℕ
unfolding split_digits after_whole
unsigned s = after_whole (split_digits s)

-- A negative numeral is such a number only if it is that of -0.
unfoldable negative : Text → Option ℕ
unfolding unsigned
negative s = elim (unsigned s) [ none ↦ none | some n ↦ if n == 0 then some 0 else none ]

unfoldable trimmed_index : Text → Option ℕ
unfolding radix_of radix_value
trimmed_index [] = some 0
trimmed_index (a ∷ []) = unsigned (a ∷ [])
trimmed_index (a ∷ b ∷ s) =
    if a == b'-'
    then negative (b ∷ s)
    else if a == b'+'
    then unsigned (b ∷ s)
    else if a == b'0'
    then elim (radix_of b) [
      | none ↦ unsigned (a ∷ b ∷ s)
      | some base ↦ elim s [ [] ↦ none | c ∷ digits ↦ radix_value base 0 (c ∷ digits) ]
    ]
    else unsigned (a ∷ b ∷ s)

-- The value of `Number(s)`, if it is an integer and at least 0.
unfoldable pub number_index : Text → Option ℕ
unfolding trim trimmed_index unsigned negative
number_index s = trimmed_index (trim s)

number_tests :
    (number_index (codes "12") ≡ some 12)
    × (number_index [] ≡ some 0)
    × (number_index (codes " 0x1F ") ≡ some 31)
    × (number_index (codes "1.50") ≡ none)
    × (number_index (codes "1.5e1") ≡ some 15)
    × (number_index (codes "-0") ≡ some 0)
    × (number_index (codes "-1") ≡ none)
    × (number_index (codes "1a") ≡ none)
    × (number_index (codes "07") ≡ some 7)
unfolding number_index
number_tests = (refl, refl, refl, refl, refl, refl, refl, refl, refl)

abbrev IsDigits : Text → Type 0
IsDigits s = all is_digit s ≡ true

split_digits-all : (s : Text) → IsDigits s → split_digits s ≡ (s, [])
unfolding split_digits
split_digits-all [] h = refl
split_digits-all (c ∷ s) h = ground (arith, split_digits-all s)

trim_start-digit : (c : ℕ) (s : Text) → is_digit c ≡ true → trim_start (c ∷ s) ≡ c ∷ s
unfolding trim_start is_digit is_space
trim_start-digit c s h = ground arith

trim_end-digits : (s : Text) → IsDigits s → trim_end s ≡ s
unfolding trim_end is_digit is_space
trim_end-digits [] h = refl
trim_end-digits (c ∷ []) h = ground arith
trim_end-digits (c ∷ d ∷ s) h = rw (trim_end-digits (d ∷ s) (ground arith))

literal-digits : (c : ℕ) (s : Text) → after_whole (c ∷ s, []) ≡ some (value_from 0 (c ∷ s))
unfolding after_whole
literal-digits c s = ground (arith, append_nil s)

unsigned-digits :
    (c : ℕ) (s : Text) → IsDigits (c ∷ s) → unsigned (c ∷ s) ≡ some (value_from 0 (c ∷ s))
unfolding unsigned
unsigned-digits c s h = ap after_whole (split_digits-all (c ∷ s) h) ∙ literal-digits c s

trimmed_index-digits :
    (c : ℕ) (s : Text) → IsDigits (c ∷ s) → trimmed_index (c ∷ s) ≡ some (value_from 0 (c ∷ s))
unfolding trimmed_index is_digit
trimmed_index-digits c [] h = unsigned-digits c [] h
trimmed_index-digits c (d ∷ s) h = ground (arith, unsigned-digits c (d ∷ s) h)

number_index-digits :
    (c : ℕ) (s : Text) → IsDigits (c ∷ s) → number_index (c ∷ s) ≡ some (value_from 0 (c ∷ s))
unfolding number_index trim
number_index-digits c s h =
    ap trimmed_index
      (ap trim_end (trim_start-digit c s (and_parts _ _ h).0) ∙ trim_end-digits (c ∷ s) h)
    ∙ trimmed_index-digits c s h

-- A decimal numeral is read as its number.
pub number_index-decimal : (n : ℕ) → number_index (decimal n) ≡ some n
number_index-decimal n =
    let (c, s, same, digits) = decimal-IsDigits n in
    ap number_index same
    ∙ number_index-digits c s digits
    ∙ ap (λ t. some (value_from 0 t)) (sym same)
    ∙ ap some (value_from-decimal n)
