-- ===== src/Web/Display/Digits.antt =====
-- The digits of the texts of Display, and the number that they say.
use native.Mathlib.Nat.{div-add-mod, one-le-pow, pow-zero, pow-suc, mul_assoc, mul_comm, mod-lt}
use flare_studio.Base.Int.{ℤ, pos, negsuc}
use flare_studio.Base.Text.{Text, codes, is_digit}
use flare_studio.Base.Decimal.{
  decimal, decimal-IsDigits, length-decimal, value_from, value_from-decimal, value_from-append,
  value_from-split, value_from-zeros,
}
use flare_studio.Base.{
  ℕ, zero, suc, ◌+◌, ◌-◌, ◌*◌, ◌/◌, ◌%◌, ◌^◌, ◌≤◌, ◌<◌, ◌≡◌, refl, sym, ap, ap₂, append_nil, ◌∙◌,
  true, ◌&&◌, not, [], ◌∷◌, ◌++◌, all, keep, length, replicate, ltb, ◌==◌, if◌then◌else◌, arith,
  Bool-cases, inl, inr, and_parts,
}
use flare_studio.Web.Display.{
  group_digits, pad_start, abs_value, sign_text, fraction_text, whole_text,
}

-- The digits of a text.
abbrev pub digits_of : Text → Text
digits_of s = keep is_digit s

pub digits_of-append : (s t : Text) → digits_of (s ++ t) ≡ digits_of s ++ digits_of t
digits_of-append [] t = refl
digits_of-append (c ∷ s) t = ground (arith, digits_of-append s t)

digits_of-digits : (s : Text) → all is_digit s ≡ true → digits_of s ≡ s
digits_of-digits [] h = refl
digits_of-digits (c ∷ s) h = ground (arith, digits_of-digits s)

no_comma : (s : Text) → digits_of (codes "," ++ s) ≡ digits_of s
unfolding is_digit
no_comma s = refl

digits_of-group_digits : (s : Text) → all is_digit s ≡ true → digits_of (group_digits s) ≡ s
unfolding group_digits
digits_of-group_digits [] h = refl
digits_of-group_digits (c ∷ s) h =
    let parts = and_parts (is_digit c) (all is_digit s) h in
    let rest = digits_of-group_digits s parts.1 in
    elim (Bool-cases (not (length s == 0) && length s % 3 == 0)) [
      | inl comma ↦ rw (comma, parts.0) (ap (λ l. c ∷ l) (no_comma (group_digits s) ∙ rest))
      | inr plain ↦ rw (plain, parts.0) (ap (λ l. c ∷ l) rest)
    ]

pub digits-decimal : (n : ℕ) → all is_digit (decimal n) ≡ true
digits-decimal n = let (c, t, same, digits) = decimal-IsDigits n in ap (all is_digit) same ∙ digits

zeros-digits :
    (k : ℕ) (t : Text) → all is_digit t ≡ true → all is_digit (replicate k b'0' ++ t) ≡ true
unfolding is_digit
zeros-digits zero t h = h
zeros-digits (suc k) t h = zeros-digits k t h

pad_start-digits : (k n : ℕ) → all is_digit (pad_start k (decimal n)) ≡ true
unfolding pad_start
pad_start-digits k n = zeros-digits (k - length (decimal n)) (decimal n) (digits-decimal n)

plus_zero : (a : ℕ) → a + 0 ≡ a
plus_zero a = omega arith

plus_suc : (a b : ℕ) → suc (a + b) ≡ a + suc b
plus_suc a b = omega arith

pow_sum : (a b : ℕ) → 10 ^ a * 10 ^ b ≡ 10 ^ (a + b)
pow_sum a zero = omega (
  arith,
  pow-zero 10,
  ap (λ (m : ℕ). 10 ^ m) (plus_zero a),
  ap (λ (p : ℕ). 10 ^ a * p) (pow-zero 10),
)
pow_sum a (suc b) =
    ap (λ (p : ℕ). 10 ^ a * p) (pow-suc 10 b)
    ∙ sym (mul_assoc (10 ^ a) (10 ^ b) 10)
    ∙ ap (λ (p : ℕ). p * 10) (pow_sum a b)
    ∙ sym (pow-suc 10 (a + b))
    ∙ ap (λ (m : ℕ). 10 ^ m) (plus_suc a b)

pub fills : (k size : ℕ) → size ≤ suc k → suc k - size + size ≡ suc k
fills k size h = omega (arith, h)

value_from-pad_start :
    (acc k n : ℕ)
    → n < 10 ^ suc k
    → value_from acc (pad_start (suc k) (decimal n)) ≡ acc * 10 ^ suc k + n
unfolding pad_start
value_from-pad_start acc k n h =
    let size = length (decimal n) in
    let zeros = suc k - size in
    value_from-zeros acc zeros (decimal n)
    ∙ value_from-split (acc * 10 ^ zeros) (decimal n)
    ∙ ap₂ (λ (p q : ℕ). p + q)
        (mul_assoc acc (10 ^ zeros) (10 ^ size)
          ∙ ap (λ (p : ℕ). acc * p)
              (pow_sum zeros size ∙ ap (λ (m : ℕ). 10 ^ m) (fills k size (length-decimal n k h))))
        (value_from-decimal n)

parts_of :
    (decimals : ℕ) (value : ℤ)
    → abs_value value / 10 ^ decimals * 10 ^ decimals + abs_value value % 10 ^ decimals
      ≡ abs_value value
parts_of decimals value = omega (
  arith,
  div-add-mod (abs_value value) (10 ^ decimals),
  mul_comm (10 ^ decimals) (abs_value value / 10 ^ decimals),
)

value_of-fraction_text :
    (acc k : ℕ) (value : ℤ)
    → value_from acc (fraction_text (suc k) value) ≡ acc * 10 ^ suc k + abs_value value % 10 ^ suc k
unfolding fraction_text
value_of-fraction_text acc k value =
    value_from-pad_start acc k (abs_value value % 10 ^ suc k)
      (mod-lt _ (one-le-pow (suc k) 10 (omega arith)))

pub digits_of-sign_text : (value : ℤ) → digits_of (sign_text value) ≡ []
unfolding sign_text is_digit
digits_of-sign_text (pos n) = refl
digits_of-sign_text (negsuc n) = refl

pub fraction-digits : (k : ℕ) (value : ℤ) → all is_digit (fraction_text (suc k) value) ≡ true
unfolding fraction_text
fraction-digits k value = pad_start-digits (suc k) (abs_value value % 10 ^ suc k)

-- The text of the value's size, after its sign.
abbrev pub size_text : ℕ → ℤ → Text
size_text decimals value =
    whole_text decimals value
    ++ (if ltb 0 decimals then b'.' ∷ fraction_text decimals value else [])

pub digits_of-whole_text :
    (decimals : ℕ) (value : ℤ)
    → digits_of (whole_text decimals value) ≡ decimal (abs_value value / 10 ^ decimals)
unfolding whole_text
digits_of-whole_text decimals value =
    digits_of-group_digits _ (digits-decimal (abs_value value / 10 ^ decimals))

digits_of-fraction_text :
    (decimals : ℕ) (value : ℤ)
    → digits_of (b'.' ∷ fraction_text decimals value) ≡ fraction_text decimals value
unfolding fraction_text is_digit
digits_of-fraction_text decimals value =
    digits_of-digits (pad_start decimals (decimal (abs_value value % 10 ^ decimals)))
      (pad_start-digits decimals (abs_value value % 10 ^ decimals))

pub value_of-size_text :
    (decimals : ℕ) (value : ℤ)
    → value_from 0 (digits_of (size_text decimals value)) ≡ abs_value value
value_of-size_text zero value =
    ap (value_from 0) (
      digits_of-append (whole_text 0 value) []
      ∙ append_nil (digits_of (whole_text 0 value))
      ∙ digits_of-whole_text 0 value)
    ∙ value_from-decimal (abs_value value / 10 ^ 0)
    ∙ omega arith
value_of-size_text (suc k) value =
    let whole = abs_value value / 10 ^ suc k in
    let has_point : ltb 0 (suc k) ≡ true = ground arith in
    rw has_point (
      ap (value_from 0) (
        digits_of-append (whole_text (suc k) value) (b'.' ∷ fraction_text (suc k) value)
        ∙ ap₂ (λ (a b : Text). a ++ b) (digits_of-whole_text (suc k) value)
            (digits_of-fraction_text (suc k) value))
      ∙ value_from-append 0 (decimal whole) (fraction_text (suc k) value)
      ∙ ap (λ (a : ℕ). value_from a (fraction_text (suc k) value)) (value_from-decimal whole)
      ∙ value_of-fraction_text whole k value
      ∙ parts_of (suc k) value)
