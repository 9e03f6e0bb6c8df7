-- ===== src/Policy/Ecies/Sealed.antt =====
-- From the compiler to the enclave: what a compiled policy seals, opened.
use flare_studio.Base.Text.{Text}
use flare_studio.Base.Utf8.{utf8_encode, AreUnits, utf8_encode-bytes}
use flare_studio.Base.{some, ◌≡◌, ◌∙◌, ap, length, map, ok}
use flare_studio.Extension.Encoding.RoundTrip.{AreBytes}
use flare_studio.Policy.Schema.{ShapeParser}
use flare_studio.Policy.Canonical.{canonicalize}
use flare_studio.Policy.Commitment.{Viem, compute_commitment}
use flare_studio.Policy.Compile.{CompiledPolicy, compile, enclave_value}
use flare_studio.Policy.Compile.Laws.{enclave_distribution, compile-IsCompiled}
use flare_studio.Policy.Compile.Enclave.{compile-enclave_commitment}
use flare_studio.Policy.Ecies.{
  Bytes, hex, raw, string, Noble, message_bytes, ecies_encrypt, ecies_decrypt,
}
use flare_studio.Policy.Ecies.Derivation.{NobleLaws}
use flare_studio.Policy.Ecies.Layout.{ecies_decrypt-ecies_encrypt}

-- The machine's key pair, and what an encryption draws: an ephemeral key pair with which the agreement
-- succeeds, and an initialisation vector.
pub record AreKeys (noble : Noble) (private public ephemeral iv : Bytes) : Type 0 where
  pub known : noble.get_public_key private ≡ ok public
  pub ephemeral_public : Bytes
  pub ephemeral_known : noble.get_public_key ephemeral ≡ ok ephemeral_public
  pub point : Bytes
  pub agreed : noble.get_shared_secret ephemeral public ≡ ok point
  pub iv_size : length iv ≡ 16
  pub iv_bytes : AreBytes iv

module _ {Input : Type 0} (zod : ShapeParser Input) (viem : Viem) (noble : Noble)
    (laws : NobleLaws noble) where
  -- The sealed text of a compiled policy, which is made of code units, encrypted to a machine's key and
  -- decrypted by the machine: both calls return, the machine gets the UTF-8 bytes of the canonical JSON
  -- of a salt and shares, and the hash of that salt and those shares is the commitment that the policy
  -- publishes.
  pub compile-ecies_decrypt :
      (input : Input) (salt text : Text) (c : CompiledPolicy) (private public ephemeral iv : Bytes)
      → compile zod viem input salt ≡ ok c
      → c.plaintext ≡ some text
      → AreUnits text
      → AreKeys noble private public ephemeral iv
      → ((sealed : Text) × (ecies_encrypt noble ephemeral iv (raw public) (string text)
            ≡ ok (some sealed))
          × (ecies_decrypt noble (raw private) (hex sealed) ≡ ok (some (utf8_encode text))))
        × (canonicalize (enclave_value c.enclave_config) ≡ ok (some text))
        × (compute_commitment viem
              (map enclave_distribution c.enclave_config.shares)
              c.enclave_config.salt
            ≡ ok c.public_args.commitment)
  unfolding message_bytes
  compile-ecies_decrypt input salt text c private public ephemeral iv compiled sealed units keys = (
    ecies_decrypt-ecies_encrypt noble laws private public ephemeral keys.ephemeral_public iv
        keys.point (string text) keys.known keys.ephemeral_known keys.agreed keys.iv_size
        keys.iv_bytes (utf8_encode-bytes text units),
    (compile-IsCompiled zod viem input salt c compiled).assembled.sealed ∙ ap ok sealed,
    compile-enclave_commitment zod viem input salt c compiled,
  )
