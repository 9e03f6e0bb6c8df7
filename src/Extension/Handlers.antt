-- ===== src/Extension/Handlers.antt =====
-- apps/extension/typescript/src/app/handlers.ts, abi.ts and config.ts: the greeting operations.
pub mod Counts
pub mod Service
use flare_studio.Base.Text.{Text, codes, text_eq}
use flare_studio.Base.Decimal.{decimal}
use flare_studio.Base.Order.{sort_texts}
use flare_studio.Base.Utf8.{utf8_encode}
use flare_studio.Base.Json.{TypeError, stringify}
use flare_studio.Base.Value.{Value, number, str, obj, Fields, field, end, get, keys}
use flare_studio.Base.{
  ℕ, ◌+◌, Bool, true, false, not, Option, none, some, List, [], ◌∷◌, ◌++◌, Result, ok, err, ◌>>=◌,
  keep,
}
use flare_studio.Extension.Encoding.{EncodingError, hex_to_bytes, bytes_to_hex}
use flare_studio.Extension.Framework.{HandlerResult, HandlerFunc, handle}
use flare_studio.Extension.Server.{Platform}

abbrev pub version : Text
version = codes "0.1.0"

abbrev pub op_type_greeting : Text
op_type_greeting = codes "GREETING"

abbrev pub op_command_say_hello : Text
op_command_say_hello = codes "SAY_HELLO"

abbrev pub op_command_say_goodbye : Text
op_command_say_goodbye = codes "SAY_GOODBYE"

pub record State : Type 0 where
  pub greeting_count : ℕ
  pub last_greeting : Text
  pub farewell_count : ℕ
  pub last_farewell : Text

unfoldable pub reset_state : State
reset_state = record {
  greeting_count = 0;
  last_greeting = [];
  farewell_count = 0;
  last_farewell = [];
}

unfoldable pub report_state : State → Value
report_state s = obj (
    field (codes "greetingCount") (number (decimal s.greeting_count)) (
      field (codes "lastGreeting") (str s.last_greeting) (
        field (codes "farewellCount") (number (decimal s.farewell_count))
          (field (codes "lastFarewell") (str s.last_farewell) end))))

-- viem's decoder of the tuple (string name, string reason), which throws on any other layout.
pub record Abi : Type 0 where
  pub decode_abi_parameters : Text → Result Text (Text × Text)

unfoldable pub decode_say_goodbye : Abi → Text → Result Text (Text × Text)
decode_say_goodbye abi hex = elim (abi.decode_abi_parameters hex) [
  | ok message ↦ ok message
  | err e ↦ err (codes "ABI decode failed: " ++ e)
]

abbrev pub failure : Text → HandlerResult
failure message = record { payload = none; status = 0; error = some message }

-- `[bytesToHex(Buffer.from(JSON.stringify(resp))), 1, null]`. The text is there, since the response
-- is an object with no bigint.
unfoldable pub success : Value → Result Text HandlerResult
success response = elim (stringify response) [
  | ok (some text) ↦
      ok (record { payload = some (bytes_to_hex (utf8_encode text)); status = 1; error = none })
  | ok none ↦ err (codes "JSON.stringify returned undefined")
  | err e ↦ err (codes "JSON.stringify threw")
]

-- The reason that a message cannot be read as bytes, with the text of the exception.
unfoldable pub encoding_message : EncodingError → Text
encoding_message (EncodingError.odd_length n) =
    codes "Error: invalid hex: odd length (" ++ decimal n ++ codes ")"
encoding_message EncodingError.non_hex = codes "Error: invalid hex: non-hex characters"
encoding_message EncodingError.not_a_string = codes "TypeError: s.startsWith is not a function"
encoding_message (EncodingError.too_long n s) = codes "Error: string too long for bytes32"

-- The fields of a parsed request, if it is an object and no list.
unfoldable pub request_fields : Value → Option Fields
request_fields (obj fs) = some fs
request_fields _ = none

unfoldable pub unknown_fields : Fields → List Text
unknown_fields fs = sort_texts (keep (λ k. not (text_eq k (codes "name"))) (keys fs))

-- A name that is a string and not empty.
unfoldable pub valid_name : Value → Option Text
valid_name (str []) = none
valid_name (str (c ∷ s)) = some (c ∷ s)
valid_name _ = none

-- Decoding and validating of SAY_HELLO: the name, or the error text.
unfoldable pub hello_name : Platform → Value → Result Text Text
unfolding request_fields unknown_fields valid_name encoding_message
hello_name platform msg = elim (hex_to_bytes msg) [
  | err e ↦ err (codes "decoding request: invalid hex: " ++ encoding_message e)
  | ok raw ↦ elim (platform.parse_json (platform.decode_utf8 raw)) [
    | err e ↦ err (codes "decoding request: " ++ e)
    | ok req ↦ elim (request_fields req) [
      | none ↦ err (codes "decoding request: expected a JSON object")
      | some fs ↦ elim (unknown_fields fs) [
        | k ∷ ks ↦ err (codes "decoding request: unknown field \"" ++ (k ++ codes "\""))
        | [] ↦ elim (valid_name (get (codes "name") fs)) [
          | none ↦ err (codes "name must not be empty")
          | some name ↦ ok name
        ]
      ]
    ]
  ]
]

abbrev pub greeting_for : Text → Text
greeting_for name = codes "Hello, " ++ (name ++ codes "! Welcome to Flare Confidential Compute.")

unfoldable pub handle_say_hello : Platform → HandlerFunc State
handle_say_hello platform msg s = elim (hello_name platform msg) [
  | err message ↦ (ok (failure message), s)
  | ok name ↦ (
    success (
        obj (
          field (codes "greeting") (str (greeting_for name))
            (field (codes "greetingNumber") (number (decimal (s.greeting_count + 1))) end))),
    record s { greeting_count = s.greeting_count + 1; last_greeting = greeting_for name },
  )
]

-- Decoding and validating of SAY_GOODBYE: the name and the reason, or the error text.
unfoldable pub goodbye_message : Abi → Value → Result Text (Text × Text)
unfolding decode_say_goodbye encoding_message
goodbye_message abi msg = elim (hex_to_bytes msg) [
  | err e ↦ err (codes "decoding request: invalid hex: " ++ encoding_message e)
  | ok raw ↦ elim (decode_say_goodbye abi (bytes_to_hex raw)) [
    | err e ↦ err (codes "decoding request: " ++ e)
    | ok (name, reason) ↦ elim name [
      | [] ↦ err (codes "name must not be empty")
      | c ∷ cs ↦ ok (c ∷ cs, reason)
    ]
  ]
]

abbrev pub farewell_for : Text → Text → Text
farewell_for name reason = codes "Goodbye, " ++ (name ++ (codes "! Reason: " ++ reason))

unfoldable pub handle_say_goodbye : Abi → HandlerFunc State
handle_say_goodbye abi msg s = elim (goodbye_message abi msg) [
  | err message ↦ (ok (failure message), s)
  | ok (name, reason) ↦ (
    success (
        obj (
          field (codes "farewell") (str (farewell_for name reason))
            (field (codes "farewellNumber") (number (decimal (s.farewell_count + 1))) end))),
    record s { farewell_count = s.farewell_count + 1; last_farewell = farewell_for name reason },
  )
]

unfoldable pub register :
    Platform
    → Abi
    → List (Text × Text × HandlerFunc State)
    → Result EncodingError (List (Text × Text × HandlerFunc State))
register platform abi framework = do
  with_hello ← handle op_type_greeting op_command_say_hello (handle_say_hello platform) framework
  handle op_type_greeting op_command_say_goodbye (handle_say_goodbye abi) with_hello
