-- ===== src/Policy/Ecies.antt =====
-- packages/policy/src/ecies.ts: the encryption to the enclave's key. The curve, the cipher and the
-- hashes are @noble's (`Noble`), and the random bytes are arguments.
pub mod Derivation
pub mod Layout
pub mod Authentic
pub mod Sealed
pub mod Tests
use Prim.Native.Nat.{bit_or, bit_xor, min}
use flare_studio.Base.Text.{Text, codes, starts_with, is_hex_digit, hex_value, is_space}
use flare_studio.Base.Utf8.{utf8_encode}
use flare_studio.Base.{
  ℕ, zero, suc, ◌+◌, ◌-◌, ◌*◌, ◌/◌, ◌%◌, ◌^◌, Bool, true, false, ◌&&◌, ◌||◌, not, Option, none,
  some, List, [], ◌∷◌, ◌++◌, Result, ok, err, ◌>>=◌, length, get_elem?, take, drop, ltb, ◌==◌,
  if◌then◌else◌,
}
use flare_studio.Extension.Encoding.{hex_digits}

abbrev pub Bytes : Type 0
Bytes = List ℕ

-- `Hex | Uint8Array`
pub data ByteSource : Type 0 where
  hex : Text → ByteSource
  raw : Bytes → ByteSource

-- `Uint8Array | string`
pub data Plaintext : Type 0 where
  data_bytes : Bytes → Plaintext
  string : Text → Plaintext

-- The messages of the errors, with what they tell; `noble_error` is thrown by the curve.
pub data EciesError : Type 0 where
  unrecognised_key : (size : ℕ) (first : Option ℕ) → EciesError
  too_short : (size : ℕ) → EciesError
  no_ephemeral_key : EciesError
  tag_mismatch : EciesError
  noble_error : Text → EciesError

-- The keys of the curve in bytes. A public key is asked for uncompressed, as is the shared point;
-- `decompress` is `ProjectivePoint.fromHex(raw).toRawBytes(false)`.
pub record Noble : Type 0 where
  pub sha256 : Bytes → Bytes
  pub hmac_sha256 : (key message : Bytes) → Bytes
  pub ctr_encrypt : (key iv message : Bytes) → Bytes
  pub ctr_decrypt : (key iv message : Bytes) → Bytes
  pub get_public_key : (private_key : Bytes) → Result EciesError Bytes
  pub get_shared_secret : (private_key public_key : Bytes) → Result EciesError Bytes
  pub decompress : Bytes → Result EciesError Bytes

abbrev pub key_len : ℕ
key_len = 16

abbrev pub iv_len : ℕ
iv_len = 16

abbrev pub tag_len : ℕ
tag_len = 32

abbrev pub pubkey_len : ℕ
pubkey_len = 65

-- The four bytes that `setUint32` writes, the high one first.
unfoldable pub counter_bytes : ℕ → Bytes
counter_bytes n = (n / 2 ^ 24 % 256) ∷ (n / 2 ^ 16 % 256) ∷ (n / 2 ^ 8 % 256) ∷ (n % 256) ∷ []

-- The rounds of `concatKDF` that write the last `left` bytes, the first of them with `counter`.
unfoldable pub kdf_rounds :
    (sha256 : Bytes → Bytes) (fuel : ℕ) (z : Bytes) (counter left : ℕ) → Option Bytes
unfolding counter_bytes
kdf_rounds sha256 fuel z counter zero = some []
kdf_rounds sha256 zero z counter (suc left) = none
kdf_rounds sha256 (suc fuel) z counter (suc left) =
    let block = sha256 (counter_bytes counter ++ z) in
    let taken = min (length block) (suc left) in
    elim (kdf_rounds sha256 fuel z (counter + 1) (suc left - taken)) [
      | none ↦ none
      | some rest ↦ some (take taken block ++ rest)
    ]

-- Nothing, if the loop never ends: a hash that writes no byte.
unfoldable pub concat_kdf : Noble → Bytes → ℕ → Option Bytes
unfolding kdf_rounds
concat_kdf noble z output_len = kdf_rounds noble.sha256 output_len z 1 output_len

pub record Keys : Type 0 where
  pub encryption_key : Bytes
  pub mac_key : Bytes

unfoldable pub derive_keys : Noble → Bytes → Option Keys
unfolding concat_kdf
derive_keys noble z = elim (concat_kdf noble z (2 * key_len)) [
  | none ↦ none
  | some derived ↦ some (record {
    encryption_key = take key_len derived;
    mac_key = noble.sha256 (take key_len (drop key_len derived));
  })
]

unfoldable pub shared_secret_x : Noble → (private_key public_key : Bytes) → Result EciesError Bytes
shared_secret_x noble private_key public_key = do
  point ← noble.get_shared_secret private_key public_key
  ok (take 32 (drop 1 point))

-- `Number.parseInt` of two characters to the base 16, as the byte that a Uint8Array keeps: NaN is 0.
unfoldable pub parse_byte : ℕ → ℕ → ℕ
unfolding is_hex_digit hex_value is_space
parse_byte hi lo =
    if is_hex_digit hi
    then if is_hex_digit lo then hex_value hi * 16 + hex_value lo else hex_value hi
    else if not (is_hex_digit lo)
    then 0
    else if is_space hi || hi == b'+'
    then hex_value lo
    else if hi == b'-'
    then (256 - hex_value lo) % 256
    else 0

-- A half that is left over at the end is not read.
unfoldable pub parse_bytes : Text → Bytes
unfolding parse_byte
parse_bytes (hi ∷ lo ∷ s) = parse_byte hi lo ∷ parse_bytes s
parse_bytes _ = []

unfoldable pub to_bytes : ByteSource → Bytes
unfolding parse_bytes starts_with
to_bytes (raw bs) = bs
to_bytes (hex text) = parse_bytes (if starts_with (codes "0x") text then drop 2 text else text)

unfoldable pub to_hex : Bytes → Text
unfolding hex_digits
to_hex bs = codes "0x" ++ hex_digits bs

unfoldable pub starts_with_byte : ℕ → Bytes → Bool
starts_with_byte n [] = false
starts_with_byte n (b ∷ bs) = b == n

unfoldable pub normalize_tee_public_key : Noble → ByteSource → Result EciesError Bytes
unfolding to_bytes starts_with_byte
normalize_tee_public_key noble public_key =
    let bytes = to_bytes public_key in
    if length bytes == pubkey_len && starts_with_byte 4 bytes
    then ok bytes
    else if length bytes == 64
    then ok (4 ∷ bytes)
    else if length bytes == 33 && (starts_with_byte 2 bytes || starts_with_byte 3 bytes)
    then noble.decompress bytes
    else err (unrecognised_key (length bytes) (get_elem? bytes 0))

unfoldable pub message_bytes : Plaintext → Bytes
unfolding utf8_encode
message_bytes (data_bytes bs) = bs
message_bytes (string text) = utf8_encode text

-- The result is `none` if the derivation of the keys never ends. The ephemeral key and `iv` are the
-- random bytes that the call draws.
unfoldable pub ecies_encrypt :
    Noble
    → (ephemeral_private iv : Bytes) → (tee_public_key : ByteSource) → Plaintext
    → Result EciesError (Option Text)
unfolding normalize_tee_public_key message_bytes shared_secret_x derive_keys to_hex
ecies_encrypt noble ephemeral_private iv tee_public_key plaintext = do
  recipient ← normalize_tee_public_key noble tee_public_key
  ephemeral_public ← noble.get_public_key ephemeral_private
  z ← shared_secret_x noble ephemeral_private recipient
  elim (derive_keys noble z) [
    | none ↦ ok none
    | some keys ↦
        let ciphertext = noble.ctr_encrypt keys.encryption_key iv (message_bytes plaintext) in
        let tag = noble.hmac_sha256 keys.mac_key (iv ++ ciphertext) in
        ok (some (to_hex (ephemeral_public ++ (iv ++ (ciphertext ++ tag)))))
  ]

-- The loop of `constantTimeEqual` over texts of one length, with `diff`.
unfoldable pub differences : ℕ → Bytes → Bytes → ℕ
differences diff [] bs = diff
differences diff (a ∷ as') [] = diff
differences diff (a ∷ as') (b ∷ bs) = differences (bit_or diff (bit_xor a b)) as' bs

unfoldable pub constant_time_equal : Bytes → Bytes → Bool
unfolding differences
constant_time_equal a b = if length a == length b then differences 0 a b == 0 else false

-- The checks on the envelope, before any key is derived.
unfoldable pub check_envelope : Bytes → Result EciesError (Unit {0})
unfolding starts_with_byte
check_envelope bytes =
    if ltb (length bytes) (pubkey_len + iv_len + tag_len)
    then err (too_short (length bytes))
    else if starts_with_byte 4 bytes
    then ok tt
    else err no_ephemeral_key

-- From the derivation of the keys on: the tag is compared before anything is deciphered.
unfoldable pub open_body :
    Noble → (private_key ephemeral_public body tag : Bytes) → Result EciesError (Option Bytes)
unfolding shared_secret_x derive_keys constant_time_equal
open_body noble private_key ephemeral_public body tag = do
  z ← shared_secret_x noble private_key ephemeral_public
  elim (derive_keys noble z) [
    | none ↦ ok none
    | some keys ↦
        if constant_time_equal (noble.hmac_sha256 keys.mac_key body) tag
        then ok (some (noble.ctr_decrypt keys.encryption_key (take iv_len body) (drop iv_len body)))
        else err tag_mismatch
  ]

unfoldable pub ecies_decrypt :
    Noble → (private_key ciphertext : ByteSource) → Result EciesError (Option Bytes)
ecies_decrypt noble private_key ciphertext =
    let bytes = to_bytes ciphertext in
    check_envelope bytes >>= λ _.
    open_body noble (to_bytes private_key) (take pubkey_len bytes)
      (take (length bytes - tag_len - pubkey_len) (drop pubkey_len bytes))
      (drop (length bytes - tag_len) bytes)
