-- ===== src/Policy/Ecies/Derivation.antt =====
-- The parts of the encryption: the derived keys, the comparison of tags, and the hexadecimal text.
use Prim.Native.Nat.{bit_or, bit_xor, min}
use flare_studio.Base.Bits.{bit_or-eq-zero_iff, bit_xor-eq-zero_iff}
use flare_studio.Base.Text.{is_hex_digit-hex_digit, hex_value-hex_digit}
use flare_studio.Base.{
  ℕ, zero, suc, ◌+◌, ◌-◌, ◌*◌, ◌/◌, ◌%◌, ◌≤◌, true, some, [], ◌∷◌, ◌++◌, ◌≡◌, ◌↔◌, refl, ap, length,
  take, arith, length-append, Option-cases, inl, inr, ok,
}
use flare_studio.Extension.Encoding.{hex_digits}
use flare_studio.Extension.Encoding.RoundTrip.{AreBytes}
use flare_studio.Policy.Ecies.{
  Bytes, hex, Noble, Keys, key_len, counter_bytes, kdf_rounds, concat_kdf, derive_keys, parse_byte,
  parse_bytes, to_bytes, to_hex, differences, constant_time_equal,
}

-- What the code relies on of @noble: the sizes, that a key agreement is symmetric, and that the
-- cipher undoes itself.
pub record NobleLaws (noble : Noble) : Type 0 where
  pub sha256_size : (m : Bytes) → length (noble.sha256 m) ≡ 32
  pub hmac_size : (k m : Bytes) → length (noble.hmac_sha256 k m) ≡ 32
  pub hmac_bytes : (k m : Bytes) → AreBytes (noble.hmac_sha256 k m)
  pub cipher_bytes : (k iv m : Bytes) → AreBytes m → AreBytes (noble.ctr_encrypt k iv m)
  pub deciphers : (k iv m : Bytes) → noble.ctr_decrypt k iv (noble.ctr_encrypt k iv m) ≡ m
  pub public_size :
      (k p : Bytes)
      → noble.get_public_key k ≡ ok p
      → (rest : Bytes) × (p ≡ 4 ∷ rest) × (length rest ≡ 64)
  pub public_bytes : (k p : Bytes) → noble.get_public_key k ≡ ok p → AreBytes p
  pub agreement :
      (k l p q : Bytes)
      → noble.get_public_key k ≡ ok p
      → noble.get_public_key l ≡ ok q
      → noble.get_shared_secret k q ≡ noble.get_shared_secret l p

length-take : (n : ℕ) (xs : Bytes) → n ≤ length xs → length (take n xs) ≡ n
length-take zero xs h = refl
length-take (suc n) [] h = absurd (omega (arith, h))
length-take (suc n) (x ∷ xs) h = ap suc (length-take n xs (omega (arith, h)))

kdf_step :
    (sha256 : Bytes → Bytes) (fuel : ℕ) (z : Bytes) (counter left : ℕ) (rest : Bytes)
    → kdf_rounds sha256 fuel z
        (counter + 1)
        (suc left - min (length (sha256 (counter_bytes counter ++ z))) (suc left))
      ≡ some rest
    → kdf_rounds sha256 (suc fuel) z counter (suc left)
      ≡ some (
          take
            (min (length (sha256 (counter_bytes counter ++ z))) (suc left))
            (sha256 (counter_bytes counter ++ z))
          ++ rest)
unfolding kdf_rounds
kdf_step sha256 fuel z counter left rest h = rw (kdf_rounds, h)

derive_keys-found :
    (noble : Noble) (z derived : Bytes)
    → concat_kdf noble z (2 * key_len) ≡ some derived
    → (keys : Keys) × (derive_keys noble z ≡ some keys)
unfolding derive_keys
derive_keys-found noble z derived h = elim (Option-cases (derive_keys noble z)) [
  | inl never ↦ absurd (ground (arith, h, never))
  | inr found ↦ found
]

module _ (noble : Noble) (laws : NobleLaws noble) where
  kdf_rounds-total :
      (fuel : ℕ) (z : Bytes) (counter left : ℕ)
      → left ≤ fuel
      → (bs : Bytes) × (kdf_rounds noble.sha256 fuel z counter left ≡ some bs) × (length bs ≡ left)
  unfolding kdf_rounds
  kdf_rounds-total fuel z counter zero h = ([], refl, refl)
  kdf_rounds-total zero z counter (suc left) h = absurd (omega (arith, h))
  kdf_rounds-total (suc fuel) z counter (suc left) h =
      let block = noble.sha256 (counter_bytes counter ++ z) in
      let size : length block ≡ 32 = laws.sha256_size (counter_bytes counter ++ z) in
      let taken = min (length block) (suc left) in
      let (rest, found, rest_size) =
        kdf_rounds-total fuel z (counter + 1) (suc left - taken) (omega (arith, h, size)) in
      (
        take taken block ++ rest,
        kdf_step noble.sha256 fuel z counter left rest found,
        omega (
          arith,
          length-append (take taken block) rest,
          rest_size,
          length-take taken block (omega (arith, size)),
          size,
        ),
      )

  -- The derivation of a key of any length ends, and gives that many bytes.
  pub concat_kdf-total :
      (z : Bytes) (n : ℕ) → (bs : Bytes) × (concat_kdf noble z n ≡ some bs) × (length bs ≡ n)
  unfolding concat_kdf
  concat_kdf-total z n = kdf_rounds-total n z 1 n (omega arith)

  pub derive_keys-total : (z : Bytes) → (keys : Keys) × (derive_keys noble z ≡ some keys)
  derive_keys-total z =
      let (bs, found, size) = concat_kdf-total z (2 * key_len) in derive_keys-found noble z bs found

differences-eq-zero_iff :
    (diff : ℕ) (a b : Bytes)
    → length a ≡ length b
    → (differences diff a b ≡ 0) ↔ ((diff ≡ 0) × (a ≡ b))
unfolding differences
differences-eq-zero_iff diff [] [] h = ground arith
differences-eq-zero_iff diff [] (b ∷ bs) h = absurd (omega (arith, h))
differences-eq-zero_iff diff (a ∷ as') [] h = absurd (omega (arith, h))
differences-eq-zero_iff diff (a ∷ as') (b ∷ bs) h = ground (
  arith,
  differences-eq-zero_iff (bit_or diff (bit_xor a b)) as' bs,
  bit_or-eq-zero_iff diff (bit_xor a b),
  bit_xor-eq-zero_iff a b,
)

-- Two tags count as equal exactly if they are.
pub constant_time_equal_iff : (a b : Bytes) → (constant_time_equal a b ≡ true) ↔ (a ≡ b)
unfolding constant_time_equal
constant_time_equal_iff a b = ground (arith, differences-eq-zero_iff 0 a b)

pub parse_bytes-hex_digits : (bs : Bytes) → AreBytes bs → parse_bytes (hex_digits bs) ≡ bs
unfolding parse_bytes parse_byte hex_digits
parse_bytes-hex_digits [] h = refl
parse_bytes-hex_digits (b ∷ bs) h = ground (
  arith,
  parse_bytes-hex_digits bs h.1,
  hex_value-hex_digit (b / 16),
  hex_value-hex_digit (b % 16),
  is_hex_digit-hex_digit (b / 16),
  is_hex_digit-hex_digit (b % 16),
)

-- Bytes survive the hexadecimal text.
pub to_bytes-to_hex : (bs : Bytes) → AreBytes bs → to_bytes (hex (to_hex bs)) ≡ bs
unfolding to_bytes to_hex
to_bytes-to_hex bs h = parse_bytes-hex_digits bs h
