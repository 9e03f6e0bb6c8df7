-- ===== src/Policy/Payments/Memo.antt =====
-- The memo of a payment carries the bytes of the reference.
use flare_studio.Base.Text.{codes, is_hex_digit, hex_digit, hex_value}
use flare_studio.Base.Value.{str}
use flare_studio.Base.{
  ℕ, ◌*◌, ◌/◌, ◌%◌, ◌<◌, Bool, true, ◌&&◌, ◌||◌, leb, List, [], ◌∷◌, ◌++◌, ok, ◌≡◌, refl, ◌∙◌, ap,
  all, arith, length, map, length-map,
}
use flare_studio.Extension.Encoding.{hex_pairs, hex_to_bytes, hex_digits, bytes_to_hex}
use flare_studio.Extension.Encoding.RoundTrip.{
  AreBytes, hex_text_accepts, hex_to_bytes-prefixed, length-hex_digits,
}
use flare_studio.Policy.Payments.{upper, xrpl_memo_data}

hex_value-upper : (d : ℕ) → d < 16 → hex_value (upper (hex_digit d)) ≡ d
unfolding hex_value upper hex_digit
hex_value-upper d h = ground arith

is_hex_digit-upper : (d : ℕ) → d < 16 → is_hex_digit (upper (hex_digit d)) ≡ true
unfolding is_hex_digit upper hex_digit
is_hex_digit-upper d h = ground arith

-- The classes `[0-9A-F]`.
abbrev pub is_upper_hex_digit : ℕ → Bool
is_upper_hex_digit c = leb b'0' c && leb c b'9' || leb b'A' c && leb c b'F'

is_upper_hex_digit-upper : (d : ℕ) → d < 16 → is_upper_hex_digit (upper (hex_digit d)) ≡ true
unfolding upper hex_digit
is_upper_hex_digit-upper d h = ground arith

uppercase : (bs : List ℕ) → AreBytes bs → all is_upper_hex_digit (map upper (hex_digits bs)) ≡ true
unfolding hex_digits
uppercase [] h = refl
uppercase (b ∷ bs) h =
    ground (
      arith,
      uppercase bs h.1,
      is_upper_hex_digit-upper (b / 16),
      is_upper_hex_digit-upper (b % 16),
    )

hex_pairs-upper : (bs : List ℕ) → AreBytes bs → hex_pairs (map upper (hex_digits bs)) ≡ bs
unfolding hex_pairs hex_digits
hex_pairs-upper [] h = refl
hex_pairs-upper (b ∷ bs) h =
    ground (arith, hex_pairs-upper bs h.1, hex_value-upper (b / 16), hex_value-upper (b % 16))

all-upper : (bs : List ℕ) → AreBytes bs → all is_hex_digit (map upper (hex_digits bs)) ≡ true
unfolding hex_digits
all-upper [] h = refl
all-upper (b ∷ bs) h =
    ground (arith, all-upper bs h.1, is_hex_digit-upper (b / 16), is_hex_digit-upper (b % 16))

xrpl_memo_data_lem : (bs : List ℕ) → xrpl_memo_data (bytes_to_hex bs) ≡ map upper (hex_digits bs)
unfolding xrpl_memo_data bytes_to_hex
xrpl_memo_data_lem bs = refl

length-upper : (bs : List ℕ) → length (map upper (hex_digits bs)) ≡ length bs * 2
length-upper bs = length-map (hex_digits bs) upper ∙ length-hex_digits bs

-- The memo of a reference, which has at least one byte, has two characters for each byte, all
-- of them digits or the capitals A to F, with no prefix, and decodes to the reference's bytes once it has one.
pub hex_to_bytes-xrpl_memo_data :
    (b : ℕ) (bs : List ℕ)
    → AreBytes (b ∷ bs)
    → (length (xrpl_memo_data (bytes_to_hex (b ∷ bs))) ≡ length (b ∷ bs) * 2)
      × (all is_upper_hex_digit (xrpl_memo_data (bytes_to_hex (b ∷ bs))) ≡ true)
      × (hex_to_bytes (str (codes "0x" ++ xrpl_memo_data (bytes_to_hex (b ∷ bs)))) ≡ ok (b ∷ bs))
hex_to_bytes-xrpl_memo_data b bs h =
    let memo = map upper (hex_digits (b ∷ bs)) in
    let size = length-upper (b ∷ bs) in
    (
      ap length (xrpl_memo_data_lem (b ∷ bs)) ∙ size,
      ap (all is_upper_hex_digit) (xrpl_memo_data_lem (b ∷ bs)) ∙ uppercase (b ∷ bs) h,
      ap (λ t. hex_to_bytes (str (codes "0x" ++ t))) (xrpl_memo_data_lem (b ∷ bs))
          ∙ hex_to_bytes-prefixed memo
          ∙ hex_text_accepts memo (omega (arith, size)) (omega (arith, size)) (all-upper (b ∷ bs) h)
          ∙ ap ok (hex_pairs-upper (b ∷ bs) h),
    )
