-- ===== src/Policy/Ecies/Tests.antt =====
-- Runs of the encryption, and its theorems at those runs. The curve, the hash and the cipher are the
-- simplest that have the sizes of the real ones.
use flare_studio.Base.Text.{Text, starts_with}
use flare_studio.Base.{
  ℕ, zero, suc, some, [], ◌∷◌, ◌++◌, ok, ◌≡◌, refl, true, all, ltb, map, arith, replicate, length,
  ◌<◌,
}
use flare_studio.Extension.Encoding.{hex_digits}
use flare_studio.Extension.Encoding.RoundTrip.{AreBytes}
use flare_studio.Policy.Ecies.{
  Bytes, hex, raw, data_bytes, string, Noble, message_bytes, ecies_encrypt, ecies_decrypt, to_bytes,
  parse_bytes, parse_byte, to_hex, check_envelope, open_body, derive_keys, concat_kdf, kdf_rounds,
  counter_bytes, shared_secret_x, constant_time_equal, differences, normalize_tee_public_key,
  starts_with_byte,
}
use flare_studio.Base.Utf8.{utf8_encode, AreUnits}
use flare_studio.Policy.Canonical.{canonicalize}
use flare_studio.Policy.Commitment.{compute_commitment}
use flare_studio.Policy.Compile.{enclave_value}
use flare_studio.Policy.Compile.Laws.{enclave_distribution}
use flare_studio.Policy.Tests.{
  zod, viem, sample, sample_compiled, sealed_text, salt, compile-sample,
}
use flare_studio.Policy.Ecies.Sealed.{AreKeys, compile-ecies_decrypt}
use flare_studio.Policy.Ecies.Derivation.{NobleLaws}
use flare_studio.Policy.Ecies.Layout.{ecies_decrypt-ecies_encrypt}
use flare_studio.Policy.Ecies.Authentic.{IsAuthentic, ecies_decrypt-IsAuthentic}

-- A private key has one public key, and all pairs agree on one point.
abbrev noble : Noble
noble = record {
  sha256 = λ m. replicate 32 1;
  hmac_sha256 = λ k m. replicate 32 2;
  ctr_encrypt = λ k iv m. m;
  ctr_decrypt = λ k iv m. m;
  get_public_key = λ k. ok (4 ∷ replicate 64 5);
  get_shared_secret = λ k p. ok (4 ∷ replicate 64 6);
  decompress = λ p. ok (4 ∷ replicate 64 5);
}

replicate-AreBytes : (n b : ℕ) → b < 256 → AreBytes (replicate n b)
replicate-AreBytes zero b h = tt
replicate-AreBytes (suc n) b h = (h, replicate-AreBytes n b h)

length-replicate : (n b : ℕ) → length (replicate n b) ≡ n
length-replicate zero b = refl
length-replicate (suc n) b = ground (arith, length-replicate n b)

public_key-AreBytes : AreBytes (4 ∷ replicate 64 5)
public_key-AreBytes = (omega arith, replicate-AreBytes 64 5 (omega arith))

noble_laws : NobleLaws noble
noble_laws = record {
  sha256_size = λ m. length-replicate 32 1;
  hmac_size = λ k m. length-replicate 32 2;
  hmac_bytes = λ k m. replicate-AreBytes 32 2 (omega arith);
  cipher_bytes = λ k iv m h. h;
  deciphers = λ k iv m. refl;
  public_size = λ k p h. (replicate 64 5, cc h, length-replicate 64 5);
  public_bytes =
      λ k p h. let same : 4 ∷ replicate 64 5 ≡ p = cc h in rw (← same) public_key-AreBytes;
  agreement = λ k l p q h h'. refl;
}

ecies_run : Unit {0}
unfolding ecies_encrypt ecies_decrypt message_bytes to_bytes parse_bytes parse_byte to_hex
    hex_digits check_envelope open_body derive_keys concat_kdf kdf_rounds counter_bytes
    shared_secret_x constant_time_equal differences normalize_tee_public_key starts_with_byte
    starts_with
ecies_run = tt

abbrev public_key : Bytes
public_key = 4 ∷ replicate 64 5

abbrev sealed_three : Bytes
sealed_three = public_key ++ (replicate 16 9 ++ (7 ∷ 8 ∷ 9 ∷ replicate 32 2))

sealed_run :
    ecies_encrypt noble (1 ∷ []) (replicate 16 9) (raw public_key) (data_bytes (7 ∷ 8 ∷ 9 ∷ []))
    ≡ ok (some (to_hex sealed_three))
unfolding ecies_run
sealed_run = refl

ecies_decrypt-ecies_encrypt_example :
    (sealed : Text) × (ecies_encrypt noble
        (1 ∷ [])
        (replicate 16 9)
        (raw public_key)
        (data_bytes (7 ∷ 8 ∷ 9 ∷ []))
      ≡ ok (some sealed))
    × (ecies_decrypt noble (raw (2 ∷ [])) (hex sealed) ≡ ok (some (7 ∷ 8 ∷ 9 ∷ [])))
unfolding message_bytes
ecies_decrypt-ecies_encrypt_example =
    ecies_decrypt-ecies_encrypt noble noble_laws (2 ∷ []) public_key (1 ∷ []) public_key
      (replicate 16 9) (4 ∷ replicate 64 6) (data_bytes (7 ∷ 8 ∷ 9 ∷ [])) refl refl refl refl
      (replicate-AreBytes 16 9 (omega arith)) (omega arith, (omega arith, (omega arith, tt)))

ecies_decrypt-IsAuthentic_example : IsAuthentic noble (2 ∷ []) sealed_three (7 ∷ 8 ∷ 9 ∷ [])
unfolding ecies_run
ecies_decrypt-IsAuthentic_example =
    ecies_decrypt-IsAuthentic noble (2 ∷ []) (7 ∷ 8 ∷ 9 ∷ []) (raw sealed_three) refl

all_units : (s : Text) → all (λ c. ltb c 0x10000) s ≡ true → AreUnits s
all_units [] h = tt
all_units (c ∷ s) h = ground (arith, all_units s)

keys_fit : AreKeys noble (2 ∷ []) public_key (1 ∷ []) (replicate 16 9)
keys_fit = record {
  known = refl;
  ephemeral_public = public_key;
  ephemeral_known = refl;
  point = 4 ∷ replicate 64 6;
  agreed = refl;
  iv_size = refl;
  iv_bytes = replicate-AreBytes 16 9 (omega arith);
}

compile-ecies_decrypt_example :
    ((sealed : Text) × (ecies_encrypt noble
          (1 ∷ [])
          (replicate 16 9)
          (raw public_key)
          (string sealed_text)
        ≡ ok (some sealed))
      × (ecies_decrypt noble (raw (2 ∷ [])) (hex sealed) ≡ ok (some (utf8_encode sealed_text))))
    × (canonicalize (enclave_value sample_compiled.enclave_config) ≡ ok (some sealed_text))
    × (compute_commitment viem
          (map enclave_distribution sample_compiled.enclave_config.shares)
          sample_compiled.enclave_config.salt
        ≡ ok sample_compiled.public_args.commitment)
compile-ecies_decrypt_example =
    compile-ecies_decrypt zod viem noble noble_laws sample salt sealed_text sample_compiled (2 ∷ [])
      public_key (1 ∷ []) (replicate 16 9) compile-sample refl (all_units sealed_text refl) keys_fit
