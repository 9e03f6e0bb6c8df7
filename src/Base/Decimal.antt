-- ===== src/Base/Decimal.antt =====
-- `String(n)` and `BigInt(s)` on natural numbers.
use native.Mathlib.Nat.{pow-zero, pow-suc}
use flare_studio.Base.Text.{Text, is_digit}
use flare_studio.Base.{
  ℕ, zero, suc, ◌+◌, ◌-◌, ◌*◌, ◌/◌, ◌%◌, ◌^◌, ◌<◌, ◌≤◌, length, replicate, ◌++◌, ◌≡◌, refl, ◌∙◌, ap,
  [], ◌∷◌, arith, ◌==◌, if◌then◌else◌, all, true, Bool-cases, inl, inr,
}

-- One digit a round; the fuel `n + 1` is never used up, since n / 10 < n.
decimal_from : ℕ → ℕ → Text → Text
decimal_from zero n acc = acc
decimal_from (suc f) n acc =
    let rest = decimal_from f (n / 10) ((b'0' + n % 10) ∷ acc) in
    if n / 10 == 0 then (b'0' + n % 10) ∷ acc else rest

unfoldable pub decimal : ℕ → Text
unfolding decimal_from
decimal n = decimal_from (suc n) n []

-- The value of a text of digits, after the digits that `acc` holds.
unfoldable pub value_from : ℕ → Text → ℕ
value_from acc [] = acc
value_from acc (c ∷ s) = value_from (acc * 10 + (c - b'0')) s

value_from-decimal_from :
    (f n : ℕ) (s : Text) → n < f → value_from 0 (decimal_from f n s) ≡ value_from n s
unfolding decimal_from value_from
value_from-decimal_from zero n s h = absurd (omega arith)
value_from-decimal_from (suc f) n s h = elim (Bool-cases (n / 10 == 0)) [
  | inl last ↦ rw last (ap (λ k. value_from k s) (ground arith))
  | inr more ↦ rw more (
      value_from-decimal_from f (n / 10) ((b'0' + n % 10) ∷ s) (ground arith)
      ∙ ap (λ k. value_from k s) (omega arith))
]

-- Reading the printed numeral gives the number back.
pub value_from-decimal : (n : ℕ) → value_from 0 (decimal n) ≡ n
unfolding decimal value_from
value_from-decimal n = value_from-decimal_from (suc n) n [] (omega arith)

decimal_from-IsDigits :
    (f n : ℕ) (s : Text)
    → n < f
    → all is_digit s ≡ true
    → (c : ℕ) × (t : Text) × (decimal_from f n s ≡ c ∷ t) × (all is_digit (c ∷ t) ≡ true)
unfolding decimal_from is_digit
decimal_from-IsDigits zero n s h k = absurd (omega arith)
decimal_from-IsDigits (suc f) n s h k = elim (Bool-cases (n / 10 == 0)) [
  | inl last ↦ (b'0' + n % 10, s, rw last refl, ground arith)
  | inr more ↦
      let (c, t, same, digits) =
        decimal_from-IsDigits f (n / 10) ((b'0' + n % 10) ∷ s) (ground arith) (ground arith) in
      (c, t, rw more same, digits)
]

-- A numeral has at least one character, and they are digits.
pub decimal-IsDigits :
    (n : ℕ) → (c : ℕ) × (t : Text) × (decimal n ≡ c ∷ t) × (all is_digit (c ∷ t) ≡ true)
unfolding decimal
decimal-IsDigits n = decimal_from-IsDigits (suc n) n [] (omega arith) refl

length-decimal_from :
    (f n k : ℕ) (s : Text) → n < f → n < 10 ^ suc k → length (decimal_from f n s) ≤ suc k + length s
unfolding decimal_from
length-decimal_from zero n k s h b = absurd (omega arith)
length-decimal_from (suc f) n zero s h b =
    let last : (n / 10 == 0) ≡ true = ground (arith, b) in rw last (omega arith)
length-decimal_from (suc f) n (suc k) s h b = elim (Bool-cases (n / 10 == 0)) [
  | inl last ↦ rw last (omega arith)
  | inr more ↦ rw more (
      omega (
        arith,
        length-decimal_from f (n / 10) k ((b'0' + n % 10) ∷ s) (ground arith)
            (omega (arith, b, pow-suc 10 (suc k))),
      ))
]

-- A number below 10 ^ k has at most k digits, and 0 has one.
pub length-decimal : (n k : ℕ) → n < 10 ^ suc k → length (decimal n) ≤ suc k
unfolding decimal
length-decimal n k h = omega (arith, length-decimal_from (suc n) n k [] (omega arith) h)

shift_digit : (acc d p : ℕ) → (acc * 10 + d) * p ≡ acc * (p * 10) + d * p
shift_digit acc d p = omega arith

pub value_from-zeros :
    (acc k : ℕ) (t : Text) → value_from acc (replicate k b'0' ++ t) ≡ value_from (acc * 10 ^ k) t
unfolding value_from
value_from-zeros acc zero t = ap (λ a. value_from a t) (omega (arith, pow-zero 10))
value_from-zeros acc (suc k) t =
    value_from-zeros (acc * 10 + (b'0' - b'0')) k t
    ∙ ap (λ a. value_from a t)
        (omega
          (arith, shift_digit acc (b'0' - b'0') (10 ^ k), ap (λ (p : ℕ). acc * p) (pow-suc 10 k)))

pub value_from-split :
    (acc : ℕ) (t : Text) → value_from acc t ≡ acc * 10 ^ length t + value_from 0 t
unfolding value_from
value_from-split acc [] = omega (arith, pow-zero 10)
value_from-split acc (c ∷ t) =
    let d = c - b'0' in
    omega (
      arith,
      value_from-split (acc * 10 + d) t,
      value_from-split (0 * 10 + d) t,
      shift_digit acc d (10 ^ length t),
      shift_digit 0 d (10 ^ length t),
      ap (λ (p : ℕ). acc * p) (pow-suc 10 (length t)),
    )

pub value_from-append :
    (acc : ℕ) (s t : Text) → value_from acc (s ++ t) ≡ value_from (value_from acc s) t
unfolding value_from
value_from-append acc [] t = refl
value_from-append acc (c ∷ s) t = value_from-append (acc * 10 + (c - b'0')) s t

decimal_tests : (decimal 0 ≡ b'0' ∷ []) × (decimal 1205 ≡ b'1' ∷ b'2' ∷ b'0' ∷ b'5' ∷ [])
unfolding decimal
decimal_tests = (refl, refl)
