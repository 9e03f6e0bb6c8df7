-- ===== src/Orchestrator/Results/Payloads.antt =====
-- What the orchestrator reads is what the enclave wrote.
use mathlib.Core.Path.{subst}
use flare_studio.Base.Text.{Text, text_eq}
use flare_studio.Base.{
  ℕ, true, some, List, [], ◌∷◌, ok, ◌≡◌, ◌⊎◌, inl, inr, refl, ap, ◌∙◌, arith, drop, Bool-cases,
}
use flare_studio.Extension.Encoding.{hex_pairs, hex_digits, bytes_to_hex}
use flare_studio.Extension.Encoding.RoundTrip.{AreBytes, hex_pairs-hex_digits, all-hex_digits}
use flare_studio.Orchestrator.Results.{
  Node, is_hex_text, payload_bytes, decode_payload, decode_action_data, as_hex_bytes,
}

is_hex_text-bytes_to_hex : (bs : List ℕ) → AreBytes bs → is_hex_text (bytes_to_hex bs) ≡ true
unfolding is_hex_text bytes_to_hex
is_hex_text-bytes_to_hex bs h = all-hex_digits bs h

bytes_to_hex-drop : (bs : List ℕ) → drop 2 (bytes_to_hex bs) ≡ hex_digits bs
unfolding bytes_to_hex
bytes_to_hex-drop bs = refl

List-cases : {A : Type 0} (xs : List A) → (xs ≡ []) ⊎ ((x : A) × (ys : List A) × (xs ≡ x ∷ ys))
List-cases [] = inl refl
List-cases (x ∷ xs) = inr (x, xs, refl)

module _ {T : Type 0} (node : Node T) where
  payload_bytes-bytes_to_hex :
      (bs : List ℕ) → AreBytes bs → payload_bytes node (bytes_to_hex bs) ≡ bs
  unfolding payload_bytes
  payload_bytes-bytes_to_hex bs h =
      rw (is_hex_text-bytes_to_hex bs h)
        (ap hex_pairs (bytes_to_hex-drop bs) ∙ hex_pairs-hex_digits bs h)

  decode_action_data-some :
      (log version : Text) (b : ℕ) (bs : List ℕ)
      → decode_action_data node (record {
        status = 1;
        log = log;
        payload = some (bytes_to_hex (b ∷ bs));
        version = version;
      })
        ≡ decode_payload node (bytes_to_hex (b ∷ bs))
  unfolding decode_action_data bytes_to_hex hex_digits text_eq
  decode_action_data-some log version b bs = refl

  decode_payload-ok :
      (text : Text) (v : T)
      → node.parse_json (node.decode_utf8 (payload_bytes node text)) ≡ ok v
      → decode_payload node text ≡ ok v
  unfolding decode_payload
  decode_payload-ok text v e = rw (e, decode_payload)

  -- The bytes that a handler reports as its data, with status 1, are what the orchestrator decodes and
  -- parses, if there are any.
  pub decode_action_data-bytes_to_hex :
      (log version : Text) (b : ℕ) (bs : List ℕ) (v : T)
      → AreBytes (b ∷ bs)
      → node.parse_json (node.decode_utf8 (b ∷ bs)) ≡ ok v
      → decode_action_data node (record {
        status = 1;
        log = log;
        payload = some (bytes_to_hex (b ∷ bs));
        version = version;
      })
        ≡ ok v
  decode_action_data-bytes_to_hex log version b bs v h e =
      decode_action_data-some log version b bs
      ∙ decode_payload-ok (bytes_to_hex (b ∷ bs)) v (
          ap (λ t. node.parse_json (node.decode_utf8 t)) (payload_bytes-bytes_to_hex (b ∷ bs) h)
          ∙ e)

  -- A signature that is accepted is a hexadecimal text, whichever way it was written, as long as
  -- base64 decodes to bytes.
  pub as_hex_bytes-is_hex_text :
      (v h : Text)
      → ((t : Text) → AreBytes (node.decode_base64 t))
      → as_hex_bytes node v ≡ ok h
      → is_hex_text h ≡ true
  unfolding as_hex_bytes
  as_hex_bytes-is_hex_text v h bytes e = elim (Bool-cases (is_hex_text v)) [
    | inl hex ↦ let same : v ≡ h = ground (arith, hex, e) in rw (← same) hex
    | inr other ↦ elim (List-cases (node.decode_base64 v)) [
      | inl nothing ↦ absurd (ground (arith, other, nothing, e))
      | inr (b, bs, decoded) ↦
          let same : bytes_to_hex (b ∷ bs) ≡ h = ground (arith, other, decoded, e) in
          rw (← same) (is_hex_text-bytes_to_hex (b ∷ bs) (subst AreBytes decoded (bytes v)))
    ]
  ]
