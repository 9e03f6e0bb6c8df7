-- ===== src/Extension/Framework.antt =====
-- apps/extension/typescript/src/base/types.ts: the handler registry, and the wire types that the
-- server fills.
pub mod Lookup
use flare_studio.Base.Text.{Text, codes, text_eq, to_lower_case, starts_with}
use flare_studio.Base.Value.{Value}
use flare_studio.Base.{
  ℕ, Bool, true, false, ◌&&◌, Option, none, some, List, [], ◌∷◌, ◌++◌, Result, ok, err, ◌>>=◌,
  if◌then◌else◌,
}
use flare_studio.Extension.Encoding.{EncodingError, bytes_to_hex, string_to_bytes32_hex}
use flare_studio.Base.{replicate}

-- [dataHexOrNull, status, errorOrNull]
pub record HandlerResult : Type 0 where
  pub payload : Option Text
  pub status : ℕ
  pub error : Option Text

-- A handler reads and writes the extension's state, and returns or throws.
abbrev pub HandlerFunc : Type 0 → Type 0
HandlerFunc S = Value → S → Result Text HandlerResult × S

-- `stringToBytes32Hex("")`
unfoldable pub empty_bytes32 : Text
unfolding bytes_to_hex
empty_bytes32 = bytes_to_hex (replicate 32 0)

unfoldable pub normalize : Text → Text
unfolding empty_bytes32 to_lower_case starts_with
normalize [] = empty_bytes32
normalize (c ∷ h) =
    let lowered = to_lower_case (c ∷ h) in
    if starts_with (codes "0x") lowered then lowered else codes "0x" ++ lowered

module _ {H : Type 0} where
  -- `handlers`, in the order of registration.
  unfoldable pub handle :
      Text → Text → H → List (Text × Text × H) → Result EncodingError (List (Text × Text × H))
  handle op_type op_command handler handlers = do
    t ← string_to_bytes32_hex op_type
    c ← string_to_bytes32_hex op_command
    ok (handlers ++ (t, c, handler) ∷ [])

  -- One of the two loops of `lookup`.
  unfoldable pub first_match : Text → Text → List (Text × Text × H) → Option H
  first_match t c [] = none
  first_match t c ((reg_type, reg_cmd, handler) ∷ handlers) =
      if text_eq reg_type t && text_eq reg_cmd c then some handler else first_match t c handlers

  unfoldable pub lookup : Text → Text → List (Text × Text × H) → Option H
  unfolding first_match normalize
  lookup op_type op_command handlers =
      elim (first_match (normalize op_type) (normalize op_command) handlers) [
        | some handler ↦ some handler
        | none ↦ first_match (normalize op_type) empty_bytes32 handlers
      ]
