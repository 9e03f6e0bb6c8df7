-- ===== src/Extension/Encoding.antt =====
-- apps/extension/typescript/src/base/encoding.ts: bytes as hexadecimal texts, identifiers as bytes32.
pub mod RoundTrip
use flare_studio.Base.Text.{Text, codes, starts_with, is_hex_digit, hex_digit, hex_value}
use flare_studio.Base.Utf8.{utf8_encode}
use flare_studio.Base.Value.{Value, undefined, null, bool, number, bigint, str, arr, obj}
use flare_studio.Base.{
  ℕ, zero, suc, ◌+◌, ◌-◌, ◌*◌, ◌/◌, ◌%◌, Bool, true, false, ◌||◌, not, Option, none, some, List, [],
  ◌∷◌, ◌++◌, Result, ok, err, all, length, get_elem?, take, drop, replicate, ltb, ◌==◌,
  if◌then◌else◌,
}

-- `not_a_string` is the TypeError of `startsWith` on a value that is no string.
pub data EncodingError : Type 0 where
  odd_length : ℕ → EncodingError
  non_hex : EncodingError
  not_a_string : EncodingError
  too_long : ℕ → Text → EncodingError

unfoldable pub strip_prefix : Text → Text
unfolding starts_with
strip_prefix h = if starts_with (codes "0x") h || starts_with (codes "0X") h then drop 2 h else h

-- `parseInt` of each two digits.
unfoldable pub hex_pairs : Text → List ℕ
unfolding hex_value
hex_pairs (hi ∷ lo ∷ s) = (hex_value hi * 16 + hex_value lo) ∷ hex_pairs s
hex_pairs _ = []

unfoldable pub hex_text_to_bytes : Text → Result EncodingError (List ℕ)
unfolding hex_pairs is_hex_digit
hex_text_to_bytes s =
    if length s == 0
    then ok []
    else if not (length s % 2 == 0)
    then err (odd_length (length s))
    else if all is_hex_digit s
    then ok (hex_pairs s)
    else err non_hex

unfoldable pub hex_to_bytes : Value → Result EncodingError (List ℕ)
unfolding strip_prefix hex_text_to_bytes
hex_to_bytes undefined = ok []
hex_to_bytes null = ok []
hex_to_bytes (str h) = hex_text_to_bytes (strip_prefix h)
hex_to_bytes _ = err not_a_string

unfoldable pub hex_digits : List ℕ → Text
unfolding hex_digit
hex_digits [] = []
hex_digits (b ∷ bs) = hex_digit (b / 16) ∷ hex_digit (b % 16) ∷ hex_digits bs

unfoldable pub bytes_to_hex : List ℕ → Text
unfolding hex_digits
bytes_to_hex bs = codes "0x" ++ hex_digits bs

unfoldable pub string_to_bytes32_hex : Text → Result EncodingError Text
unfolding utf8_encode
string_to_bytes32_hex s =
    let encoded = utf8_encode s in
    if ltb 32 (length encoded)
    then err (too_long (length encoded) s)
    else ok (bytes_to_hex (encoded ++ replicate (32 - length encoded) 0))

is_zero_at : List ℕ → ℕ → Bool
is_zero_at b i = elim (get_elem? b i) [ none ↦ false | some c ↦ c == 0 ]

-- `while (end > 0 && b[end - 1] === 0) end--`
unfoldable pub trimmed_end : List ℕ → ℕ → ℕ
unfolding is_zero_at
trimmed_end b zero = zero
trimmed_end b (suc e) = let rest = trimmed_end b e in if is_zero_at b e then rest else suc e

-- `decode_utf8` is the platform's TextDecoder.
unfoldable pub bytes32_hex_to_string : (List ℕ → Text) → Value → Text
unfolding hex_to_bytes trimmed_end
bytes32_hex_to_string decode_utf8 h = elim (hex_to_bytes h) [
  | err e ↦ []
  | ok b ↦ decode_utf8 (take (trimmed_end b (length b)) b)
]
