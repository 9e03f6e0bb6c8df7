-- ===== src/Extension/Server.antt =====
-- apps/extension/typescript/src/base/server.ts: routing, the action handler and the state handler.
-- `JSON.parse` and `TextDecoder` are the platform's. Binding a socket and reading the body are not
-- modelled; an exception that the request handler lets through is a value, `crash`.
pub mod Responses
pub mod Crashes
use flare_studio.Base.Int.{ℤ, pos, negsuc}
use flare_studio.Base.Text.{Text, codes, text_eq}
use flare_studio.Base.Value.{
  Value, undefined, null, bool, number, bigint, str, arr, obj, Items, cons, nil, get, keys,
}
use flare_studio.Base.{
  ℕ, zero, suc, Bool, true, false, ◌&&◌, ◌||◌, any, not, Option, none, some, List, [], ◌∷◌, ◌++◌,
  Result, ok, err, ◌>>=◌, ◌==◌, if◌then◌else◌,
}
use flare_studio.Extension.Encoding.{EncodingError, hex_to_bytes, string_to_bytes32_hex}
use flare_studio.Extension.Framework.{HandlerResult, HandlerFunc, lookup, normalize, empty_bytes32}

pub record Platform : Type 0 where
  pub parse_json : Text → Result Text Value
  pub decode_utf8 : List ℕ → Text

-- The fields that are copied from the request keep the values that the request gave them.
pub record ActionResult : Type 0 where
  pub id : Value
  pub submission_tag : Value
  pub status : ℕ
  pub log : Text
  pub op_type : Value
  pub op_command : Value
  pub additional_result_status : Text
  pub version : Text
  pub payload : Text

pub data BadRequest : Type 0 where
  invalid_action_json : Text → BadRequest
  missing_data : BadRequest
  invalid_hex : EncodingError → BadRequest
  invalid_data_fixed : Text → BadRequest
  missing_op_type : BadRequest

pub data Body : Type 0 where
  plain : Text → Body
  bad_request : BadRequest → Body
  action_result : ActionResult → Body
  state_response : (state_version : Text) (state : Value) → Body

-- The promise of `handleRequest`: a status and a body, or a rejection. The rejection `unlogged` comes
-- from the line that logs a result, which was built and is not sent.
pub data Answer : Type 0 where
  answer : ℕ → Body → Answer
  crash : Text → Answer
  unlogged : ActionResult → Answer

-- Whether `${v}` throws a TypeError: an object of JSON with an own `toString`, which is no function, has
-- no primitive value, nor has an array that holds one.
unfoldable mutual
  pub has_no_text : Value → Bool
  has_no_text (obj fs) = any (text_eq (codes "toString")) (keys fs)
  has_no_text (arr xs) = some_has_no_text xs
  has_no_text _ = false

  pub some_has_no_text : Items → Bool
  some_has_no_text nil = false
  some_has_no_text (cons v vs) = has_no_text v || some_has_no_text vs

pub record Server (S : Type 0) : Type 0 where
  pub version : Text
  pub state_version_hex : Text
  pub handlers : List (Text × Text × HandlerFunc S)
  pub report_state : S → Value

-- `!v` is the negation. A number is falsy if it prints as 0 or NaN.
unfoldable pub truthy : Value → Bool
truthy undefined = false
truthy null = false
truthy (bool b) = b
truthy (number n) = not (text_eq n (codes "0")) && not (text_eq n (codes "NaN"))
truthy (bigint (pos zero)) = false
truthy (bigint (pos (suc n))) = true
truthy (bigint (negsuc n)) = true
truthy (str []) = false
truthy (str (c ∷ s)) = true
truthy (arr xs) = true
truthy (obj fs) = true

-- `v && typeof v === "object"`
unfoldable pub is_object : Value → Bool
is_object (arr xs) = true
is_object (obj fs) = true
is_object _ = false

-- `v.key`, for a key that is no property of a string, a number or an array.
unfoldable pub member : Text → Value → Value
member key (obj fs) = get key fs
member key _ = undefined

-- `v ?? d`
unfoldable pub or_default : Value → Value → Value
or_default undefined d = d
or_default null d = d
or_default v d = v

-- `normalize` on a value that the request supplied: a value other than a string that is truthy has
-- no `toLowerCase`.
unfoldable pub normalized : Value → Result Text Text
unfolding truthy
normalized (str s) = ok s
normalized v = if truthy v then err (codes "toLowerCase is not a function") else ok []

unfoldable pub log_of : HandlerResult → Text
log_of r =
    if r.status == 0
    then elim r.error [
      | none ↦ codes "error: unknown"
      | some e ↦ elim e [ [] ↦ codes "error: unknown" | c ∷ cs ↦ codes "error: " ++ c ∷ cs ]
    ]
    else if r.status == 1
    then codes "ok"
    else codes "pending"

module _ {S : Type 0} (platform : Platform) (server : Server S) where
  -- `action`, once parsed, up to its DataFixed: or the reason for a 400.
  unfoldable pub decode_action : Text → Result BadRequest (Value × Value)
  unfolding truthy is_object member
  decode_action body = elim (platform.parse_json body) [
    | err e ↦ err (invalid_action_json e)
    | ok action ↦
        let fields = member (codes "data") action in
        if not (is_object action && truthy fields)
        then err missing_data
        else elim (hex_to_bytes (member (codes "message") fields)) [
          | err e ↦ err (invalid_hex e)
          | ok bytes ↦ elim (platform.parse_json (platform.decode_utf8 bytes)) [
            | err e ↦ err (invalid_data_fixed e)
            | ok df ↦
                if is_object df && truthy (member (codes "opType") df)
                then ok (fields, df)
                else err missing_op_type
          ]
        ]
  ]

  -- The handler for a DataFixed, or the exception of `normalize`.
  unfoldable pub find_handler : Value → Result Text (Option (HandlerFunc S))
  find_handler df = do
    t ← normalized (member (codes "opType") df)
    c ← normalized (or_default (member (codes "opCommand") df) (str []))
    ok (lookup t c server.handlers)

  unfoldable pub result_of : Value → Value → HandlerResult → ActionResult
  unfolding log_of
  result_of fields df r = record {
    id = member (codes "id") fields;
    submission_tag = member (codes "submissionTag") fields;
    status = r.status;
    log = log_of r;
    op_type = member (codes "opType") df;
    op_command = member (codes "opCommand") df;
    additional_result_status = codes "0x";
    version = server.version;
    payload = elim r.payload [ none ↦ codes "0x" | some d ↦ d ];
  }

  -- The serialised call of the handler, and the answer built from its result, which is logged with the
  -- action's id.
  unfoldable pub run_handler : Value → Value → HandlerFunc S → S → Answer × S
  unfolding has_no_text
  run_handler fields df handler s =
      let (r, s') =
        handler (or_default (member (codes "originalMessage") df) (str (codes "0x"))) s in
      elim r [
        | err e ↦ (crash e, s')
        | ok result ↦
            let built = result_of fields df result in
            (
              if has_no_text (member (codes "id") fields)
                  then unlogged built
                  else answer 200 (action_result built),
              s',
            )
      ]

  unfoldable pub dispatch : Value → Value → S → Answer × S
  dispatch fields df s = elim (find_handler df) [
    | err e ↦ (crash e, s)
    | ok none ↦ (answer 501 (plain (codes "unsupported op type")), s)
    | ok (some handler) ↦ run_handler fields df handler s
  ]

  unfoldable pub process_action : Text → S → Answer × S
  process_action body s = elim (decode_action body) [
    | err reason ↦ (answer 400 (bad_request reason), s)
    | ok (fields, df) ↦ dispatch fields df s
  ]

  unfoldable pub process_state : S → Answer × S
  process_state s =
      (answer 200 (state_response server.state_version_hex (server.report_state s)), s)

  -- `path.split("?")[0]`
  unfoldable pub before_query : Text → Text
  before_query [] = []
  before_query (c ∷ cs) = let rest = before_query cs in if c == b'?' then [] else c ∷ rest

  unfoldable pub handle_request : Text → Text → Text → S → Answer × S
  handle_request method path body s =
      let clean = before_query path in
      if text_eq clean (codes "/action")
      then (if text_eq method (codes "POST")
          then process_action body s
          else (answer 405 (plain (codes "method not allowed")), s))
      else if text_eq clean (codes "/state")
      then (if text_eq method (codes "GET")
          then process_state s
          else (answer 405 (plain (codes "method not allowed")), s))
      else (answer 404 (plain (codes "not found")), s)

pub record Request : Type 0 where
  pub method : Text
  pub path : Text
  pub body : Text

-- Requests in the order of their arrival: `serialize` runs each handler after the one before it,
-- whether that returned or threw.
unfoldable pub serve_all : {S : Type 0} → Platform → Server S → List Request → S → List Answer × S
serve_all platform server [] s = ([], s)
serve_all platform server (r ∷ rs) s =
    let (a, s') = handle_request platform server r.method r.path r.body s in
    let (later, s'') = serve_all platform server rs s' in (a ∷ later, s'')

-- The constructor, with `register` given as a function on the registry.
unfoldable pub new_server :
    {S : Type 0}
    → Text
    → (List (Text × Text × HandlerFunc S)
        → Result EncodingError (List (Text × Text × HandlerFunc S)))
    → (S → Value)
    → Result EncodingError (Server S)
new_server version register report_state = do
  state_version_hex ← string_to_bytes32_hex version
  handlers ← register []
  ok (record {
    version = version;
    state_version_hex = state_version_hex;
    handlers = handlers;
    report_state = report_state;
  })
