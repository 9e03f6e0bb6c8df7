-- ===== src/Extension/Encoding/RoundTrip.antt =====
-- Bytes survive their hexadecimal text, and texts their bytes, up to letter case and prefix.
use flare_studio.Base.Text.{Text, codes, is_hex_digit, hex_value-hex_digit, is_hex_digit-hex_digit}
use flare_studio.Base.Value.{str}
use flare_studio.Base.{
  ℕ, zero, suc, ◌+◌, ◌-◌, ◌*◌, ◌/◌, ◌%◌, ◌<◌, ◌≤◌, true, false, List, [], ◌∷◌, ◌++◌, ◌≡◌, ◌≢◌, refl,
  ◌∙◌, ap, ok, All, all, arith, length, ◌==◌, replicate, length-append, length-replicate,
}
use flare_studio.Base.Utf8.{utf8_encode, AreUnits, utf8_encode-bytes}
use flare_studio.Extension.Encoding.{
  hex_pairs, hex_text_to_bytes, hex_to_bytes, hex_digits, bytes_to_hex, string_to_bytes32_hex,
}

abbrev pub AreBytes : List ℕ → Type 0
AreBytes bs = All (λ b. b < 256) bs

pub hex_pairs-hex_digits : (bs : List ℕ) → AreBytes bs → hex_pairs (hex_digits bs) ≡ bs
unfolding hex_pairs hex_digits
hex_pairs-hex_digits [] h = refl
hex_pairs-hex_digits (b ∷ bs) h =
    ground (
      arith,
      hex_pairs-hex_digits bs h.1,
      hex_value-hex_digit (b / 16),
      hex_value-hex_digit (b % 16),
    )

pub all-hex_digits : (bs : List ℕ) → AreBytes bs → all is_hex_digit (hex_digits bs) ≡ true
unfolding hex_digits
all-hex_digits [] h = refl
all-hex_digits (b ∷ bs) h =
    ground (
      arith,
      all-hex_digits bs h.1,
      is_hex_digit-hex_digit (b / 16),
      is_hex_digit-hex_digit (b % 16),
    )

pub length-hex_digits : (bs : List ℕ) → length (hex_digits bs) ≡ length bs * 2
unfolding hex_digits
length-hex_digits [] = refl
length-hex_digits (b ∷ bs) = omega (arith, length-hex_digits bs)

-- A text of digits of even length is accepted.
pub hex_text_accepts :
    (t : Text)
    → length t ≢ 0
    → length t % 2 ≡ 0
    → all is_hex_digit t ≡ true
    → hex_text_to_bytes t ≡ ok (hex_pairs t)
unfolding hex_text_to_bytes
hex_text_accepts t h k d =
    let some_digit : (length t == 0) ≡ false = ground arith in
    let even : (length t % 2 == 0) ≡ true = ground arith in rw (some_digit, even, d)

hex_text-hex_digits :
    (b : ℕ) (bs : List ℕ)
    → AreBytes (b ∷ bs)
    → hex_text_to_bytes (hex_digits (b ∷ bs)) ≡ ok (b ∷ bs)
hex_text-hex_digits b bs h =
    hex_text_accepts (hex_digits (b ∷ bs)) (omega (arith, length-hex_digits (b ∷ bs)))
      (omega (arith, length-hex_digits (b ∷ bs))) (all-hex_digits (b ∷ bs) h)
    ∙ ap ok (hex_pairs-hex_digits (b ∷ bs) h)

bytes_to_hex_lem : (bs : List ℕ) → bytes_to_hex bs ≡ codes "0x" ++ hex_digits bs
unfolding bytes_to_hex
bytes_to_hex_lem bs = refl

pub hex_to_bytes-prefixed : (t : Text) → hex_to_bytes (str (codes "0x" ++ t)) ≡ hex_text_to_bytes t
unfolding hex_to_bytes
hex_to_bytes-prefixed t = refl

-- Decoding the hexadecimal text of any bytes gives the bytes back.
pub hex_to_bytes-bytes_to_hex :
    (bs : List ℕ) → AreBytes bs → hex_to_bytes (str (bytes_to_hex bs)) ≡ ok bs
hex_to_bytes-bytes_to_hex [] h = unfold hex_to_bytes bytes_to_hex in refl
hex_to_bytes-bytes_to_hex (b ∷ bs) h =
    ap (λ t. hex_to_bytes (str t)) (bytes_to_hex_lem (b ∷ bs))
    ∙ hex_to_bytes-prefixed (hex_digits (b ∷ bs))
    ∙ hex_text-hex_digits b bs h

pub AreBytes-append : (bs cs : List ℕ) → AreBytes bs → AreBytes cs → AreBytes (bs ++ cs)
AreBytes-append [] cs h k = k
AreBytes-append (b ∷ bs) cs h k = (h.0, AreBytes-append bs cs h.1 k)

AreBytes-zeros : (n : ℕ) → AreBytes (replicate n 0)
AreBytes-zeros zero = tt
AreBytes-zeros (suc n) = (omega arith, AreBytes-zeros n)

length-bytes_to_hex : (bs : List ℕ) → length (bytes_to_hex bs) ≡ length bs * 2 + 2
unfolding bytes_to_hex
length-bytes_to_hex bs = omega (arith, length-hex_digits bs)

-- What the identifier's bytes are padded to.
abbrev pub padded : Text → List ℕ
padded s = utf8_encode s ++ replicate (32 - length (utf8_encode s)) 0

pub string_to_bytes32_hex_cases :
    (s h : Text)
    → string_to_bytes32_hex s ≡ ok h
    → (length (utf8_encode s) ≤ 32) × (h ≡ bytes_to_hex (padded s))
unfolding string_to_bytes32_hex
string_to_bytes32_hex_cases s h e = ground arith

-- An identifier that has a bytes32 form has at most 32 bytes; the form has 66 characters, and decodes
-- to the identifier's UTF-8 bytes with zeros up to 32.
pub hex_to_bytes-string_to_bytes32_hex :
    (s h : Text)
    → AreUnits s
    → string_to_bytes32_hex s ≡ ok h
    → (length (utf8_encode s) ≤ 32)
      × (length h ≡ 66)
      × (hex_to_bytes (str h) ≡ ok (utf8_encode s ++ replicate (32 - length (utf8_encode s)) 0))
hex_to_bytes-string_to_bytes32_hex s h u e =
    let (fits, same) = string_to_bytes32_hex_cases s h e in
    let size : length (padded s) ≡ 32 = omega (
      arith,
      length-append (utf8_encode s) (replicate (32 - length (utf8_encode s)) 0),
      length-replicate {A = ℕ} (32 - length (utf8_encode s)) 0,
    ) in
    let bytes =
      AreBytes-append (utf8_encode s) (replicate (32 - length (utf8_encode s)) 0)
        (utf8_encode-bytes s u) (AreBytes-zeros (32 - length (utf8_encode s))) in
    (
      fits,
      rw same (omega (arith, length-bytes_to_hex (padded s), size)),
      ap (λ t. hex_to_bytes (str t)) same ∙ hex_to_bytes-bytes_to_hex (padded s) bytes,
    )
