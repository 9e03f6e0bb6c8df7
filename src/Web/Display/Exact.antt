-- ===== src/Web/Display/Exact.antt =====
-- The full text of an amount says exactly what the amount is.
use native.Mathlib.Nat.{one-le-pow, mod-lt}
use flare_studio.Base.Int.{ℤ, pos, negsuc}
use flare_studio.Base.Text.{Text, codes, is_digit, starts_with}
use flare_studio.Base.Decimal.{
  decimal, decimal-IsDigits, length-decimal, value_from, value_from-decimal,
}
use flare_studio.Base.{
  ℕ, zero, suc, ◌+◌, ◌-◌, ◌/◌, ◌%◌, ◌^◌, ◌≡◌, refl, sym, ap, ap₂, append_assoc, length-append,
  length-replicate, ◌∙◌, Bool, true, false, ◌&&◌, not, [], ◌∷◌, ◌++◌, all, length, replicate, ltb,
  ◌==◌, if◌then◌else◌, arith, Bool-cases, inl, inr, and_parts,
}
use flare_studio.Web.Display.{
  group_digits, pad_start, abs_value, sign_text, fraction_text, whole_text, exact_text,
}
use flare_studio.Web.Display.Digits.{
  digits_of, digits_of-append, digits-decimal, fills, digits_of-sign_text, fraction-digits,
  size_text, digits_of-whole_text, value_of-size_text,
}

unfoldable pub is_negative : ℤ → Bool
is_negative (pos n) = false
is_negative (negsuc n) = true

whole_text-first :
    (decimals : ℕ) (value : ℤ)
    → (c : ℕ) × (t : Text) × (whole_text decimals value ≡ c ∷ t) × (is_digit c ≡ true)
unfolding whole_text group_digits
whole_text-first decimals value =
    let (c, t, same, digits) = decimal-IsDigits (abs_value value / 10 ^ decimals) in
    (c, _, ap group_digits same, (and_parts (is_digit c) (all is_digit t) digits).0)

no_minus : (c : ℕ) (t : Text) → is_digit c ≡ true → starts_with (codes "-") (c ∷ t) ≡ false
unfolding starts_with is_digit
no_minus c t h = ground arith

starts-exact_text :
    (decimals : ℕ) (value : ℤ)
    → starts_with (codes "-") (exact_text decimals value) ≡ is_negative value
unfolding exact_text sign_text is_negative
starts-exact_text decimals (pos n) =
    let (c, t, same, digit) = whole_text-first decimals (pos n) in
    ap
      (λ (w : Text).
        starts_with (codes "-")
          (w ++ (if ltb 0 decimals then b'.' ∷ fraction_text decimals (pos n) else [])))
      same
    ∙ no_minus c _ digit
starts-exact_text decimals (negsuc n) = unfold starts_with in refl

value_of-exact_text :
    (decimals : ℕ) (value : ℤ)
    → value_from 0 (digits_of (exact_text decimals value)) ≡ abs_value value
unfolding exact_text
value_of-exact_text decimals value =
    ap (value_from 0) (
      digits_of-append (sign_text value) (size_text decimals value)
      ∙ ap (λ (l : Text). l ++ digits_of (size_text decimals value)) (digits_of-sign_text value))
    ∙ value_of-size_text decimals value

same_value : (v w : ℤ) → is_negative v ≡ is_negative w → abs_value v ≡ abs_value w → v ≡ w
unfolding is_negative abs_value
same_value (pos m) (pos n) s h = ap pos h
same_value (pos m) (negsuc n) s h = cc
same_value (negsuc m) (pos n) s h = cc
same_value (negsuc m) (negsuc n) s h = ap negsuc (omega (arith, h))

unfoldable pub no_point : ℕ → Bool
no_point c = not (c == b'.')

digits-no_point : (s : Text) → all is_digit s ≡ true → all no_point s ≡ true
unfolding is_digit no_point
digits-no_point [] h = refl
digits-no_point (c ∷ s) h = ground (arith, digits-no_point s)

group_digits-no_point : (s : Text) → all no_point s ≡ true → all no_point (group_digits s) ≡ true
unfolding group_digits no_point
group_digits-no_point [] h = refl
group_digits-no_point (c ∷ s) h =
    let parts = and_parts (no_point c) (all no_point s) h in
    let rest = group_digits-no_point s parts.1 in
    elim (Bool-cases (not (length s == 0) && length s % 3 == 0)) [
      | inl comma ↦ rw (comma, parts.0) rest
      | inr plain ↦ rw (plain, parts.0) rest
    ]

minus-no_point : (s : Text) → all no_point s ≡ true → all no_point (codes "-" ++ s) ≡ true
unfolding no_point
minus-no_point s h = h

whole_text-no_point :
    (decimals : ℕ) (value : ℤ) → all no_point (sign_text value ++ whole_text decimals value) ≡ true
unfolding whole_text sign_text
whole_text-no_point decimals (pos n) =
    group_digits-no_point _ (digits-no_point _ (digits-decimal (n / 10 ^ decimals)))
whole_text-no_point decimals (negsuc n) =
    let digits = digits-decimal (suc n / 10 ^ decimals) in
    minus-no_point _
      (group_digits-no_point _ (digits-no_point (decimal (suc n / 10 ^ decimals)) digits))

length-fraction_text : (k : ℕ) (value : ℤ) → length (fraction_text (suc k) value) ≡ suc k
unfolding fraction_text pad_start
length-fraction_text k value =
    let n = abs_value value % 10 ^ suc k in
    let small = length-decimal n k (mod-lt _ (one-le-pow (suc k) 10 (omega arith))) in
    length-append (replicate (suc k - length (decimal n)) b'0') (decimal n)
    ∙ ap (λ (m : ℕ). m + length (decimal n)) (length-replicate (suc k - length (decimal n)) b'0')
    ∙ fills k (length (decimal n)) small

-- What follows the whole part: nothing, or a point and one digit for each of the decimals.
abbrev pub IsFraction : ℕ → Text → Type 0
IsFraction zero t = t ≡ []
IsFraction (suc k) t =
    (ds : Text) × (t ≡ b'.' ∷ ds) × (length ds ≡ suc k) × (all is_digit ds ≡ true)

-- The text has a first part without a point, which says the whole units, and then its fraction.
abbrev pub IsPointed : ℕ → ℤ → Text → Type 0
IsPointed decimals v t =
    (before : Text) × (after : Text) × (t ≡ before ++ after)
    × (all no_point before ≡ true)
    × (value_from 0 (digits_of before) ≡ abs_value v / 10 ^ decimals)
    × IsFraction decimals after

IsFraction-of_text :
    (decimals : ℕ) (value : ℤ)
    → IsFraction decimals (if ltb 0 decimals then b'.' ∷ fraction_text decimals value else [])
IsFraction-of_text zero value = refl
IsFraction-of_text (suc k) value =
    let has_point : ltb 0 (suc k) ≡ true = ground arith in
    (
      fraction_text (suc k) value,
      rw has_point refl,
      length-fraction_text k value,
      fraction-digits k value,
    )

exact_text-IsPointed : (decimals : ℕ) (v : ℤ) → IsPointed decimals v (exact_text decimals v)
unfolding exact_text
exact_text-IsPointed decimals v = (
  sign_text v ++ whole_text decimals v,
  (if ltb 0 decimals then b'.' ∷ fraction_text decimals v else []),
  sym (append_assoc (sign_text v) (whole_text decimals v) _),
  whole_text-no_point decimals v,
  ap (value_from 0) (
        digits_of-append (sign_text v) (whole_text decimals v)
        ∙ ap₂ (λ (a b : Text). a ++ b) (digits_of-sign_text v) (digits_of-whole_text decimals v))
      ∙ value_from-decimal (abs_value v / 10 ^ decimals),
  IsFraction-of_text decimals v,
)

-- The full text of an amount, with any number of decimals, says exactly what the amount is: two amounts
-- with one text are the same; its digits, without the sign, the commas and the point, are those of its
-- size in base units; it begins with a minus sign just for what is negative; and it has a first part,
-- with no point, whose digits are the whole units, and after that nothing if there are no decimals, and
-- else a point and exactly one digit for each of the decimals.
pub exact_text-exact :
    (decimals : ℕ) (v w : ℤ)
    → exact_text decimals v ≡ exact_text decimals w
    → (v ≡ w)
      × (value_from 0 (digits_of (exact_text decimals v)) ≡ abs_value v)
      × (starts_with (codes "-") (exact_text decimals v) ≡ is_negative v)
      × IsPointed decimals v (exact_text decimals v)
exact_text-exact decimals v w h = (
  same_value v w
      (sym (starts-exact_text decimals v)
        ∙ ap (starts_with (codes "-")) h
        ∙ starts-exact_text decimals w)
      (sym (value_of-exact_text decimals v)
        ∙ ap (λ t. value_from 0 (digits_of t)) h
        ∙ value_of-exact_text decimals w),
  value_of-exact_text decimals v,
  starts-exact_text decimals v,
  exact_text-IsPointed decimals v,
)
