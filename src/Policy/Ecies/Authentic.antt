-- ===== src/Policy/Ecies/Authentic.antt =====
-- What an envelope that decrypts must be.
use flare_studio.Base.{
  ◌-◌, ◌≤◌, Bool, if◌then◌else◌, true, false, Option, none, some, ◌≡◌, refl, length, take, drop,
  arith, ok, err, Result, >>=-eq-ok,
}
use flare_studio.Policy.Ecies.{
  Bytes, raw, ByteSource, Noble, EciesError, Keys, iv_len, tag_len, pubkey_len, derive_keys,
  to_bytes, shared_secret_x, constant_time_equal, check_envelope, open_body, ecies_decrypt,
  tag_mismatch,
}
use flare_studio.Policy.Ecies.Derivation.{constant_time_equal_iff}

-- The parts of the bytes of an envelope.
abbrev pub key_part : Bytes → Bytes
key_part bytes = take pubkey_len bytes

abbrev pub body_part : Bytes → Bytes
body_part bytes = take (length bytes - tag_len - pubkey_len) (drop pubkey_len bytes)

abbrev pub tag_part : Bytes → Bytes
tag_part bytes = drop (length bytes - tag_len) bytes

-- The tag is that of the initialisation vector and the ciphertext under the keys agreed on, and the
-- message is what they decipher to.
pub record IsAuthentic (noble : Noble) (private bytes message : Bytes) : Type 0 where
  pub size : 113 ≤ length bytes
  pub z : Bytes
  pub keys : Keys
  pub agreed : shared_secret_x noble private (key_part bytes) ≡ ok z
  pub derived : derive_keys noble z ≡ some keys
  pub tagged : noble.hmac_sha256 keys.mac_key (body_part bytes) ≡ tag_part bytes
  pub deciphered :
      noble.ctr_decrypt keys.encryption_key
        (take iv_len (body_part bytes))
        (drop iv_len (body_part bytes))
      ≡ message

guarded :
    (b : Bool) (e : EciesError) (x y : Bytes)
    → ◌≡◌ {A = Result EciesError (Option Bytes)} (if b then ok (some x) else err e) (ok (some y))
    → (b ≡ true) × (x ≡ y)
guarded true e x y h = (refl, cc h)
guarded false e x y h = cc

module _ (noble : Noble) where
  check_envelope-size : (bytes : Bytes) → check_envelope bytes ≡ ok tt → 113 ≤ length bytes
  unfolding check_envelope
  check_envelope-size bytes h = ground arith

  opened :
      (private bytes message z : Bytes) (o : Option Keys)
      → 113 ≤ length bytes
      → shared_secret_x noble private (key_part bytes) ≡ ok z
      → derive_keys noble z ≡ o
      → ◌≡◌ {A = Result EciesError (Option Bytes)}
          (elim o [
            | none ↦ ok none
            | some keys ↦
                if constant_time_equal
                  (noble.hmac_sha256 keys.mac_key (body_part bytes))
                  (tag_part bytes)
                then ok (
                    some (
                      noble.ctr_decrypt keys.encryption_key
                        (take iv_len (body_part bytes))
                        (drop iv_len (body_part bytes))))
                else err tag_mismatch
          ])
          (ok (some message))
      → IsAuthentic noble private bytes message
  opened private bytes message z none size agreed derived h = cc
  opened private bytes message z (some keys) size agreed derived h =
      let (same, deciphered) = guarded _ _ _ _ h in
      record {
        size = size;
        z = z;
        keys = keys;
        agreed = agreed;
        derived = derived;
        tagged =
            (constant_time_equal_iff (noble.hmac_sha256 keys.mac_key (body_part bytes))
                (tag_part bytes)).0
              same;
        deciphered = deciphered;
      }

  -- Nothing is deciphered but what carries the tag of the keys that the private key and the envelope's
  -- own public key agree on: when a decryption returns a message, the envelope has at least the 113
  -- bytes of its parts, the tag is that of its body, and the message is what the body deciphers to.
  pub ecies_decrypt-IsAuthentic :
      (private message : Bytes) (source : ByteSource)
      → ecies_decrypt noble (raw private) source ≡ ok (some message)
      → IsAuthentic noble private (to_bytes source) message
  unfolding ecies_decrypt open_body to_bytes
  ecies_decrypt-IsAuthentic private message source h =
      let (checked, accepted, h1) = >>=-eq-ok (check_envelope (to_bytes source)) _ h in
      let (z, agreed, h2) =
        >>=-eq-ok (shared_secret_x noble private (key_part (to_bytes source))) _ h1 in
      opened private (to_bytes source) message z (derive_keys noble z)
        (check_envelope-size (to_bytes source) accepted) agreed refl h2
