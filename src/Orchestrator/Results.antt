-- ===== src/Orchestrator/Results.antt =====
-- apps/orchestrator/src/instructions.ts, `decodeActionData`, and policy.ts, `asHexBytes`: what the
-- enclave answers. `JSON.parse`, the decoders of UTF-8 and of base64 are Node's.
pub mod Payloads
use flare_studio.Base.Text.{Text, codes, text_eq, is_hex_digit}
use flare_studio.Base.Decimal.{decimal}
use flare_studio.Base.{
  ℕ, Bool, true, false, ◌&&◌, not, Option, none, some, List, [], ◌∷◌, ◌++◌, Result, ok, err, all,
  take, drop, ◌==◌, if◌then◌else◌,
}
use flare_studio.Extension.Encoding.{hex_pairs, bytes_to_hex}

pub record Node (T : Type 0) : Type 0 where
  pub parse_json : Text → Result Text T
  pub decode_utf8 : List ℕ → Text
  pub decode_base64 : Text → List ℕ

-- The result in an answer of the proxy, which the code takes to have the declared fields.
pub record ActionResponse : Type 0 where
  pub status : ℕ
  pub log : Text
  pub payload : Option Text
  pub version : Text

-- /^0x[0-9a-fA-F]*$/
unfoldable pub is_hex_text : Text → Bool
unfolding is_hex_digit
is_hex_text (z ∷ x ∷ digits) = z == b'0' && x == b'x' && all is_hex_digit digits
is_hex_text _ = false

-- `Buffer.from(…, 'hex')` on digits takes them in pairs, and leaves an odd one out.
unfoldable pub payload_bytes : {T : Type 0} → Node T → Text → List ℕ
unfolding is_hex_text hex_pairs
payload_bytes node text =
    if is_hex_text text then hex_pairs (drop 2 text) else node.decode_base64 text

unfoldable pub decode_payload : {T : Type 0} → Node T → Text → Result Text T
unfolding payload_bytes
decode_payload node text =
    let json = node.decode_utf8 (payload_bytes node text) in
    elim (node.parse_json json) [
      | ok v ↦ ok v
      | err e ↦ err (
          codes "enclave payload was not JSON after decoding ("
          ++ (take 60 json ++ (8230 ∷ codes ") -- check whether the proxy changed its encoding")))
    ]

unfoldable pub no_data : Text
no_data = codes "enclave returned a successful result with no data"

unfoldable pub decode_action_data : {T : Type 0} → Node T → ActionResponse → Result Text T
unfolding decode_payload no_data
decode_action_data node response =
    if response.status == 1
    then elim response.payload [
      | none ↦ err no_data
      | some [] ↦ err no_data
      | some (c ∷ cs) ↦
          if text_eq (c ∷ cs) (codes "0x") then err no_data else decode_payload node (c ∷ cs)
    ]
    else err (
        codes "enclave returned status "
        ++ (decimal response.status ++ (codes ": " ++ response.log)))

unfoldable pub as_hex_bytes : {T : Type 0} → Node T → Text → Result Text Text
unfolding is_hex_text bytes_to_hex
as_hex_bytes node v = if is_hex_text v then ok v else elim (node.decode_base64 v) [
  | [] ↦ err (codes "could not decode signature: " ++ (take 24 v ++ 8230 ∷ []))
  | b ∷ bs ↦ ok (bytes_to_hex (b ∷ bs))
]
