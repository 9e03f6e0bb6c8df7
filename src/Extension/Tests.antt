-- ===== src/Extension/Tests.antt =====
-- Runs of the extension server, and its theorems at those runs.
use flare_studio.Base.Text.{
  Text, codes, text_eq, to_lower_case, starts_with, is_hex_digit, hex_digit, hex_value,
}
use flare_studio.Base.Decimal.{decimal}
use flare_studio.Base.Order.{sort_texts}
use flare_studio.Base.Json.{stringify}
use flare_studio.Base.Utf8.{utf8_encode}
use flare_studio.Base.Value.{Value, number, str, obj, field, end, get, keys}
use flare_studio.Base.{
  ℕ, ◌+◌, ◌-◌, some, List, [], ◌∷◌, ◌++◌, Result, ok, err, ◌≡◌, ◌≢◌, ◌⊎◌, ◌↔◌, refl, arith,
  if◌then◌else◌, length, replicate, ◌≤◌,
}
use flare_studio.Extension.Encoding.{
  hex_to_bytes, hex_text_to_bytes, strip_prefix, hex_pairs, hex_digits, bytes_to_hex,
  string_to_bytes32_hex, trimmed_end, bytes32_hex_to_string,
}
use flare_studio.Extension.Encoding.RoundTrip.{hex_to_bytes-string_to_bytes32_hex}
use flare_studio.Extension.Framework.{normalize, empty_bytes32, first_match, lookup, handle}
use flare_studio.Extension.Framework.Lookup.{Absent, FirstFor, lookup-eq-some_iff}
use flare_studio.Extension.Server.{
  Platform, Server, crash, decode_action, find_handler, process_action, process_state,
  handle_request, Request, serve_all, new_server, before_query, normalized, dispatch, run_handler,
  result_of, log_of, member, or_default, truthy, is_object,
}
use flare_studio.Extension.Server.Crashes.{op_type_crashes}
use flare_studio.Extension.Handlers.{
  State, reset_state, report_state, Abi, register, handle_say_hello, handle_say_goodbye, success,
  version, hello_name, goodbye_message, request_fields, unknown_fields, valid_name,
  decode_say_goodbye,
}
use flare_studio.Extension.Handlers.Service.{total, all_completed, service_counts}

encoding_run : Unit {0}
unfolding hex_to_bytes hex_text_to_bytes strip_prefix hex_pairs hex_value is_hex_digit hex_digits
    hex_digit bytes_to_hex utf8_encode string_to_bytes32_hex trimmed_end bytes32_hex_to_string
    starts_with
encoding_run = tt

hex_to_bytes_upper : hex_to_bytes (str (codes "0XAb01")) ≡ ok (171 ∷ 1 ∷ [])
unfolding encoding_run
hex_to_bytes_upper = refl

bytes32_of_type :
    string_to_bytes32_hex (codes "GREETING")
    ≡ ok (codes "0x4752454554494e47000000000000000000000000000000000000000000000000")
unfolding encoding_run
bytes32_of_type = refl

bytes32_back :
    bytes32_hex_to_string
      (λ bytes. bytes)
      (str (codes "0x4752454554494e47000000000000000000000000000000000000000000000000"))
    ≡ codes "GREETING"
unfolding encoding_run
bytes32_back = refl

abbrev greeting_hex : Text
greeting_hex = codes "0x4752454554494e47000000000000000000000000000000000000000000000000"

abbrev say_hello_hex : Text
say_hello_hex = codes "0x5341595f48454c4c4f0000000000000000000000000000000000000000000000"

bytes32_of_command : string_to_bytes32_hex (codes "SAY_HELLO") ≡ ok say_hello_hex
unfolding encoding_run
bytes32_of_command = refl

hex_to_bytes-string_to_bytes32_hex_example :
    (length (utf8_encode (codes "GREETING")) ≤ 32)
    × (length greeting_hex ≡ 66)
    × (hex_to_bytes (str greeting_hex)
        ≡ ok (
            utf8_encode (codes "GREETING")
            ++ replicate (32 - length (utf8_encode (codes "GREETING"))) 0))
hex_to_bytes-string_to_bytes32_hex_example =
    hex_to_bytes-string_to_bytes32_hex (codes "GREETING") greeting_hex (ground arith)
      bytes32_of_type

-- A registry of numbers in place of handlers.
abbrev registry : List (Text × Text × ℕ)
registry = (greeting_hex, say_hello_hex, 7) ∷ []

lookup_run : Unit {0}
unfolding encoding_run lookup first_match normalize empty_bytes32 text_eq to_lower_case handle
lookup_run = tt

handle_one : handle (codes "GREETING") (codes "SAY_HELLO") 7 [] ≡ ok registry
unfolding lookup_run
handle_one = refl

lookup-eq-some_iff_example : (lookup greeting_hex say_hello_hex registry ≡ some 7) ↔ (
    FirstFor (normalize greeting_hex) (normalize say_hello_hex) 7 registry
    ⊎ (Absent (normalize greeting_hex) (normalize say_hello_hex) registry
        × FirstFor (normalize greeting_hex) empty_bytes32 7 registry))
lookup-eq-some_iff_example = lookup-eq-some_iff greeting_hex say_hello_hex 7 registry

-- A platform that knows three JSON texts, and an ABI decoder that knows one tuple.
abbrev data_fixed : Value
data_fixed = obj (
    field (codes "opType") (str greeting_hex) (
      field (codes "opCommand") (str say_hello_hex)
        (field (codes "originalMessage") (str (codes "0x4e")) end)))

abbrev action_with : Text → Value
action_with message =
    obj (field (codes "data") (obj (field (codes "message") (str message) end)) end)

abbrev parse : Text → Result Text Value
parse t =
    if text_eq t (codes "hello")
    then ok (action_with (codes "0x44"))
    else if text_eq t (codes "number")
    then ok (action_with (codes "0x45"))
    else if text_eq t (codes "D")
    then ok data_fixed
    else if text_eq t (codes "E")
    then ok (obj (field (codes "opType") (number (codes "5")) end))
    else if text_eq t (codes "N")
    then ok (obj (field (codes "name") (str (codes "Ada")) end))
    else err (codes "Unexpected token")

abbrev node : Platform
node = record { parse_json = parse; decode_utf8 = λ bytes. bytes }

abbrev decoder : Abi
decoder = record {
  decode_abi_parameters = λ hex.
      if text_eq hex (codes "0x01") then ok (codes "Ada", codes "done") else err (codes "bad data");
}

server_run : Unit {0}
unfolding lookup_run decode_action find_handler process_action process_state handle_request
    serve_all new_server before_query normalized dispatch run_handler result_of log_of member
    or_default truthy is_object register handle_say_hello handle_say_goodbye success hello_name
    goodbye_message request_fields unknown_fields valid_name decode_say_goodbye decimal sort_texts
    stringify reset_state report_state get keys
server_run = tt

abbrev started : Server State
started = record {
  version = version;
  state_version_hex = codes "0x302e312e30000000000000000000000000000000000000000000000000000000";
  handlers =
      (greeting_hex, say_hello_hex, handle_say_hello node)
      ∷ (
        greeting_hex,
        codes "0x5341595f474f4f44425945000000000000000000000000000000000000000000",
        handle_say_goodbye decoder,
      )
      ∷ [];
  report_state = report_state;
}

new_server_starts : new_server version (register node decoder) report_state ≡ ok started
unfolding server_run
new_server_starts = refl

abbrev post : Text → Request
post body = record { method = codes "POST"; path = codes "/action"; body = body }

hello_counts :
    (serve_all node started
      (post (codes "hello") ∷ post (codes "hello") ∷ [])
      reset_state).1.greeting_count
    ≡ 2
unfolding server_run
hello_counts = refl

service_counts_example :
    total (serve_all node started (post (codes "hello") ∷ post (codes "x") ∷ []) reset_state).1
    ≡ total reset_state
      + all_completed
          (serve_all node started (post (codes "hello") ∷ post (codes "x") ∷ []) reset_state).0
service_counts_example =
    service_counts node decoder version started (post (codes "hello") ∷ post (codes "x") ∷ [])
      reset_state new_server_starts

-- An opType that is the number 5.
abbrev numbered : Value
numbered = obj (field (codes "opType") (number (codes "5")) end)

decode_numbered :
    decode_action node started (codes "number")
    ≡ ok (obj (field (codes "message") (str (codes "0x45")) end), numbered)
unfolding server_run
decode_numbered = refl

numbered_path : before_query node started (codes "/action?x") ≡ codes "/action"
unfolding server_run
numbered_path = refl

number-ne-str : (t : Text) → member (codes "opType") numbered ≢ str t
unfolding server_run
number-ne-str t e = cc

op_type_crashes_example :
    handle_request node started (codes "POST") (codes "/action?x") (codes "number") reset_state
    ≡ (crash (codes "toLowerCase is not a function"), reset_state)
op_type_crashes_example =
    op_type_crashes node started (codes "/action?x") (codes "number")
      (obj (field (codes "message") (str (codes "0x45")) end)) numbered reset_state numbered_path
      decode_numbered number-ne-str
