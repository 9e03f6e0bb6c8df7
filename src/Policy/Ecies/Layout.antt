-- ===== src/Policy/Ecies/Layout.antt =====
-- What decrypts: the envelope R ‖ iv ‖ ciphertext ‖ tag of a message.
use mathlib.Core.Path.{subst}
use flare_studio.Base.Text.{Text}
use flare_studio.Base.{
  ◌+◌, ◌-◌, some, ◌∷◌, ◌++◌, ◌≡◌, refl, sym, ap, ap₂, ◌∙◌, length, take, drop, arith, length-append,
  append_assoc, take_whole, drop_whole, ok,
}
use flare_studio.Extension.Encoding.RoundTrip.{AreBytes, AreBytes-append}
use flare_studio.Policy.Ecies.{
  Bytes, hex, raw, ByteSource, Plaintext, Noble, Keys, iv_len, tag_len, pubkey_len, derive_keys,
  to_bytes, to_hex, message_bytes, normalize_tee_public_key, shared_secret_x, starts_with_byte,
  check_envelope, open_body, ecies_encrypt, ecies_decrypt,
}
use flare_studio.Policy.Ecies.Derivation.{
  NobleLaws, derive_keys-total, constant_time_equal_iff, to_bytes-to_hex,
}

abbrev pub envelope : (ephemeral iv ciphertext tag : Bytes) → Bytes
envelope ephemeral iv ciphertext tag = ephemeral ++ (iv ++ (ciphertext ++ tag))

-- The parts of an envelope have their sizes, and its key the prefix of an uncompressed point.
pub record IsEnvelope (rest iv ciphertext tag : Bytes) : Type 0 where
  pub rest_size : length rest ≡ 64
  pub iv_size : length iv ≡ 16
  pub tag_size : length tag ≡ 32

module _ (rest iv ciphertext tag : Bytes) (fits : IsEnvelope rest iv ciphertext tag) where
  abbrev whole : Bytes
  whole = envelope (4 ∷ rest) iv ciphertext tag

  length-whole : length whole ≡ 113 + length ciphertext
  length-whole = omega (
    arith,
    length-append rest (iv ++ (ciphertext ++ tag)),
    length-append iv (ciphertext ++ tag),
    length-append ciphertext tag,
    fits.rest_size,
    fits.iv_size,
    fits.tag_size,
  )

  take_key : take pubkey_len whole ≡ 4 ∷ rest
  take_key = take_whole 65 (4 ∷ rest) (iv ++ (ciphertext ++ tag)) (omega (arith, fits.rest_size))

  drop_key : drop pubkey_len whole ≡ iv ++ (ciphertext ++ tag)
  drop_key = drop_whole 65 (4 ∷ rest) (iv ++ (ciphertext ++ tag)) (omega (arith, fits.rest_size))

  body_of : take (length whole - tag_len - pubkey_len) (drop pubkey_len whole) ≡ iv ++ ciphertext
  body_of =
      ap (λ (l : Bytes). take (length whole - 32 - 65) l)
        (drop_key ∙ sym (append_assoc iv ciphertext tag))
      ∙ take_whole (length whole - 32 - 65) (iv ++ ciphertext) tag
          (omega (arith, length-whole, length-append iv ciphertext, fits.iv_size))

  front_assoc : whole ≡ ((4 ∷ rest) ++ (iv ++ ciphertext)) ++ tag
  front_assoc =
      ap (λ l. (4 ∷ rest) ++ l) (sym (append_assoc iv ciphertext tag))
      ∙ sym (append_assoc (4 ∷ rest) (iv ++ ciphertext) tag)

  tag_of : drop (length whole - tag_len) whole ≡ tag
  tag_of =
      ap (λ (l : Bytes). drop (length whole - 32) l) front_assoc
      ∙ drop_whole (length whole - 32) ((4 ∷ rest) ++ (iv ++ ciphertext)) tag (
          omega (
            arith,
            length-whole,
            length-append rest (iv ++ ciphertext),
            length-append iv ciphertext,
            fits.rest_size,
            fits.iv_size,
          ))

  checked : check_envelope whole ≡ ok tt
  unfolding check_envelope starts_with_byte
  checked = ground (arith, length-whole)

module _ (noble : Noble) where
  open_parts :
      (key bytes ephemeral body tag : Bytes) (source : ByteSource)
      → to_bytes source ≡ bytes
      → check_envelope bytes ≡ ok tt
      → take pubkey_len bytes ≡ ephemeral
      → take (length bytes - tag_len - pubkey_len) (drop pubkey_len bytes) ≡ body
      → drop (length bytes - tag_len) bytes ≡ tag
      → ecies_decrypt noble (raw key) source ≡ open_body noble key ephemeral body tag
  unfolding ecies_decrypt to_bytes
  open_parts key bytes ephemeral body tag source read accepted k b t = rw (read, accepted, k, b, t)

  open_body-authentic :
      (key ephemeral body z : Bytes) (keys : Keys)
      → shared_secret_x noble key ephemeral ≡ ok z
      → derive_keys noble z ≡ some keys
      → open_body noble key ephemeral body (noble.hmac_sha256 keys.mac_key body)
        ≡ ok (some (noble.ctr_decrypt keys.encryption_key (take iv_len body) (drop iv_len body)))
  unfolding open_body
  open_body-authentic key ephemeral body z keys secret derived =
      let same =
        (constant_time_equal_iff (noble.hmac_sha256 keys.mac_key body)
            (noble.hmac_sha256 keys.mac_key body)).1
          refl in
      ground (arith, secret, derived, same)

  encrypt_parts :
      (private iv recipient ephemeral z : Bytes) (message : Plaintext) (keys : Keys)
      → normalize_tee_public_key noble (raw recipient) ≡ ok recipient
      → noble.get_public_key private ≡ ok ephemeral
      → shared_secret_x noble private recipient ≡ ok z
      → derive_keys noble z ≡ some keys
      → ecies_encrypt noble private iv (raw recipient) message
        ≡ ok (
            some (
              to_hex (
                envelope ephemeral iv
                  (noble.ctr_encrypt keys.encryption_key iv (message_bytes message))
                  (noble.hmac_sha256 keys.mac_key
                    (iv ++ noble.ctr_encrypt keys.encryption_key iv (message_bytes message))))))
  unfolding ecies_encrypt
  encrypt_parts private iv recipient ephemeral z message keys named public secret derived =
      ground (arith, named, public, secret, derived)

secret_of :
    (noble : Noble) (private public point : Bytes)
    → noble.get_shared_secret private public ≡ ok point
    → shared_secret_x noble private public ≡ ok (take 32 (drop 1 point))
unfolding shared_secret_x
secret_of noble private public point agreed = rw agreed

normalize-uncompressed :
    (noble : Noble) (rest : Bytes)
    → length rest ≡ 64
    → normalize_tee_public_key noble (raw (4 ∷ rest)) ≡ ok (4 ∷ rest)
unfolding normalize_tee_public_key to_bytes starts_with_byte
normalize-uncompressed noble rest size = rw size

module _ (noble : Noble) (laws : NobleLaws noble) where
  decrypt-envelope :
      (key rest iv ciphertext z : Bytes) (keys : Keys)
      → length rest ≡ 64
      → length iv ≡ 16
      → AreBytes
          (envelope (4 ∷ rest) iv ciphertext (noble.hmac_sha256 keys.mac_key (iv ++ ciphertext)))
      → shared_secret_x noble key (4 ∷ rest) ≡ ok z
      → derive_keys noble z ≡ some keys
      → ecies_decrypt noble (raw key) (
          hex (
            to_hex (
              envelope
                (4 ∷ rest)
                iv
                ciphertext
                (noble.hmac_sha256 keys.mac_key (iv ++ ciphertext)))))
        ≡ ok (some (noble.ctr_decrypt keys.encryption_key iv ciphertext))
  decrypt-envelope key rest iv ciphertext z keys rest_size iv_size bytes secret derived =
      let tag = noble.hmac_sha256 keys.mac_key (iv ++ ciphertext) in
      let fits : IsEnvelope rest iv ciphertext tag = record {
        rest_size = rest_size;
        iv_size = iv_size;
        tag_size = laws.hmac_size keys.mac_key (iv ++ ciphertext);
      } in
      open_parts noble key (envelope (4 ∷ rest) iv ciphertext tag) (4 ∷ rest) (iv ++ ciphertext) tag
        _ (to_bytes-to_hex (envelope (4 ∷ rest) iv ciphertext tag) bytes)
        (checked rest iv ciphertext tag fits) (take_key rest iv ciphertext tag fits)
        (body_of rest iv ciphertext tag fits) (tag_of rest iv ciphertext tag fits)
      ∙ open_body-authentic noble key (4 ∷ rest) (iv ++ ciphertext) z keys secret derived
      ∙ ap₂ (λ i c. ok (some (noble.ctr_decrypt keys.encryption_key i c)))
          (take_whole 16 iv ciphertext (sym iv_size)) (drop_whole 16 iv ciphertext (sym iv_size))

  -- What is encrypted to the public key of a private key, uncompressed, decrypts with that private key
  -- to the bytes of the message, for any ephemeral key with which the agreement succeeds and any
  -- initialisation vector of 16 bytes: both calls return, and neither loops.
  pub ecies_decrypt-ecies_encrypt :
      (private public ephemeral_private ephemeral_public iv point : Bytes) (message : Plaintext)
      → noble.get_public_key private ≡ ok public
      → noble.get_public_key ephemeral_private ≡ ok ephemeral_public
      → noble.get_shared_secret ephemeral_private public ≡ ok point
      → length iv ≡ 16
      → AreBytes iv
      → AreBytes (message_bytes message)
      → (sealed : Text) × (ecies_encrypt noble ephemeral_private iv (raw public) message
          ≡ ok (some sealed))
        × (ecies_decrypt noble (raw private) (hex sealed) ≡ ok (some (message_bytes message)))
  ecies_decrypt-ecies_encrypt private public ephemeral_private ephemeral_public iv point message
        known ephemeral_known agreed iv_size iv_bytes bytes =
      let (rest, shape, size) = laws.public_size private public known in
      let (later, later_shape, later_size) =
        laws.public_size ephemeral_private ephemeral_public ephemeral_known in
      let z = take 32 (drop 1 point) in
      let (keys, derived) = derive_keys-total noble laws z in
      let ciphertext = noble.ctr_encrypt keys.encryption_key iv (message_bytes message) in
      let tag = noble.hmac_sha256 keys.mac_key (iv ++ ciphertext) in
      let all_bytes : AreBytes (envelope ephemeral_public iv ciphertext tag) =
        AreBytes-append _ _ (laws.public_bytes ephemeral_private ephemeral_public ephemeral_known) (
          AreBytes-append _ _ iv_bytes (
            AreBytes-append _ _ (laws.cipher_bytes _ iv _ bytes)
              (laws.hmac_bytes _ (iv ++ ciphertext)))) in
      let same_point =
        sym (laws.agreement ephemeral_private private ephemeral_public public ephemeral_known known)
        ∙ agreed in
      (
        to_hex (envelope ephemeral_public iv ciphertext tag),
        encrypt_parts noble ephemeral_private iv public ephemeral_public z message keys
            (subst (λ p. normalize_tee_public_key noble (raw p) ≡ ok p) (sym shape)
              (normalize-uncompressed noble rest size))
            ephemeral_known (secret_of noble ephemeral_private public point agreed) derived,
        subst
              (λ p.
                ecies_decrypt noble (raw private) (hex (to_hex (envelope p iv ciphertext tag)))
                ≡ ok (some (noble.ctr_decrypt keys.encryption_key iv ciphertext)))
              (sym later_shape)
              (decrypt-envelope private later iv ciphertext z keys later_size iv_size
                (subst (λ p. AreBytes (envelope p iv ciphertext tag)) later_shape all_bytes)
                (secret_of noble private (4 ∷ later) point (
                  subst (λ p. noble.get_shared_secret private p ≡ ok point) later_shape same_point))
                derived)
            ∙ ap (λ m. ok (some m)) (laws.deciphers keys.encryption_key iv (message_bytes message)),
      )
