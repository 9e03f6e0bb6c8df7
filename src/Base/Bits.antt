-- ===== src/Base/Bits.antt =====
-- `|` and `^` on natural numbers: when they are zero.
use Prim.Native.Nat.{digits, differ, bit_or, bit_or-bitwise, bit_xor, bit_xor-bitwise, max}
use flare_studio.Base.{ℕ, zero, suc, ◌/◌, ◌%◌, ◌≤◌, ◌≡◌, ◌↔◌, refl, sym, ap, arith}

differ_zero : (x y : ℕ) → differ x y ≡ 0 → x ≡ y
differ_zero zero y h = sym h
differ_zero (suc x) zero h = h
differ_zero (suc x) (suc y) h = ap suc (differ_zero x y h)

differ_same : (x : ℕ) → differ x x ≡ 0
differ_same zero = refl
differ_same (suc x) = differ_same x

max_zero : (x y : ℕ) → max x y ≡ 0 → (x ≡ 0) × (y ≡ 0)
max_zero zero y h = omega arith
max_zero (suc x) y h = omega (arith, h)

or_digits_zero : (n a b : ℕ) → a ≤ n → digits (λ (b : ℕ). b) max n a b ≡ 0 → (a ≡ 0) × (b ≡ 0)
or_digits_zero zero a b h e = (omega (arith, h), e)
or_digits_zero (suc n) zero b h e = (refl, e)
or_digits_zero (suc n) (suc a) b h e =
    let both = or_digits_zero n (suc a / 2) (b / 2) (omega (arith, h)) (omega (arith, e)) in
    absurd (omega (arith, both, max_zero (suc a % 2) (b % 2), e))

xor_digits_zero : (n a b : ℕ) → a ≤ n → digits (λ (b : ℕ). b) differ n a b ≡ 0 → a ≡ b
xor_digits_zero zero a b h e = omega (arith, h, e)
xor_digits_zero (suc n) zero b h e = sym e
xor_digits_zero (suc n) (suc a) b h e =
    let high = xor_digits_zero n (suc a / 2) (b / 2) (omega (arith, h)) (omega (arith, e)) in
    let low = differ_zero (suc a % 2) (b % 2) (omega (arith, e)) in omega (arith, high, low)

xor_digits_same : (n a : ℕ) → a ≤ n → digits (λ (b : ℕ). b) differ n a a ≡ 0
xor_digits_same zero a h = omega (arith, h)
xor_digits_same (suc n) zero h = refl
xor_digits_same (suc n) (suc a) h =
    omega (arith, xor_digits_same n (suc a / 2) (omega (arith, h)), differ_same (suc a % 2))

or_digits : (a b : ℕ) → bit_or a b ≡ digits (λ (b : ℕ). b) max a a b
or_digits a b = bit_or-bitwise a b

xor_digits : (a b : ℕ) → bit_xor a b ≡ digits (λ (b : ℕ). b) differ a a b
xor_digits a b = bit_xor-bitwise a b

pub bit_or-eq-zero_iff : (a b : ℕ) → (bit_or a b ≡ 0) ↔ ((a ≡ 0) × (b ≡ 0))
bit_or-eq-zero_iff a b = (
  λ h. or_digits_zero a a b (omega arith) (rw (or_digits a b) at h),
  λ h. rw (h.0, or_digits 0 b) h.1,
)

pub bit_xor-eq-zero_iff : (a b : ℕ) → (bit_xor a b ≡ 0) ↔ (a ≡ b)
bit_xor-eq-zero_iff a b = (
  λ h. xor_digits_zero a a b (omega arith) (rw (xor_digits a b) at h),
  λ h. rw (h, xor_digits b b) (xor_digits_same b b (omega arith)),
)
