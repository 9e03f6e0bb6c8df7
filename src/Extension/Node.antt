-- ===== src/Extension/Node.antt =====
-- apps/extension/typescript/src/base/node.ts: the client of the node that holds the enclave's key.
-- `fetch` with its abort signal, and Node's base64, are parameters.
use flare_studio.Base.Text.{Text, codes}
use flare_studio.Base.Decimal.{decimal}
use flare_studio.Base.Value.{Value, undefined, null, str, obj, field, end, get}
use flare_studio.Base.{ℕ, Bool, List, ◌++◌, Result, ok, err, ◌>>=◌, if◌then◌else◌}

pub record NodeConfig : Type 0 where
  pub sign_port : ℕ
  pub timeout_ms : ℕ

-- `text` and `json` read the body, and may throw.
pub record NodeResponse : Type 0 where
  pub is_ok : Bool
  pub status : ℕ
  pub text : Result Text Text
  pub json : Result Text Value

-- What `fetch` ends in, and so does the reading of the body: the abort is told by its name.
pub data FetchOutcome : Type 0 where
  answered : NodeResponse → FetchOutcome
  aborted : FetchOutcome
  failed : (message : Text) → FetchOutcome

pub data NodeError : Type 0 where
  timed_out : (path : Text) (timeout_ms : ℕ) → NodeError
  rejected : (status : ℕ) (path body : Text) → NodeError
  missing_message : NodeError
  thrown : (message : Text) → NodeError
  not_readable : NodeError

-- The base64 of Node's Buffer: decoding reads any string, other values throw or are read as they can be.
pub record Base64 : Type 0 where
  pub encode : List ℕ → Text
  pub decode : Value → Result NodeError (List ℕ)

unfoldable pub base_url : NodeConfig → Text
base_url config = codes "http://localhost:" ++ decimal config.sign_port

unfoldable pub body_or_thrown {ℓ} : {A : Type ℓ} → Result Text A → Result NodeError A
body_or_thrown (ok body) = ok body
body_or_thrown (err e) = err (thrown e)

unfoldable pub read_response : Text → NodeResponse → Result NodeError Value
unfolding body_or_thrown
read_response path response =
    if response.is_ok then body_or_thrown response.json else elim response.text [
      | ok body ↦ err (rejected response.status path body)
      | err e ↦ err (thrown e)
    ]

unfoldable pub outcome_value : NodeConfig → Text → FetchOutcome → Result NodeError Value
unfolding read_response
outcome_value config path (answered response) = read_response path response
outcome_value config path aborted = err (timed_out path config.timeout_ms)
outcome_value config path (failed message) = err (thrown message)

-- The request is the URL and the payload.
unfoldable pub post :
    (fetch : Text → Value → FetchOutcome)
    → NodeConfig
    → (path : Text) → (payload : Value) → Result NodeError Value
unfolding base_url outcome_value
post fetch config path payload = outcome_value config path (fetch (base_url config ++ path) payload)

-- `resp.decryptedMessage`: reading it from undefined or null throws.
unfoldable pub decrypted_message : Value → Result NodeError Value
decrypted_message (obj fs) = ok (get (codes "decryptedMessage") fs)
decrypted_message undefined = err not_readable
decrypted_message null = err not_readable
decrypted_message v = ok undefined

unfoldable pub message_bytes : Base64 → Value → Result NodeError (List ℕ)
message_bytes base64 undefined = err missing_message
message_bytes base64 encoded = base64.decode encoded

unfoldable pub decrypt :
    (fetch : Text → Value → FetchOutcome)
    → Base64
    → NodeConfig
    → (ciphertext : List ℕ) → Result NodeError (List ℕ)
unfolding post decrypted_message message_bytes
decrypt fetch base64 config ciphertext = do
  answer ←
      post fetch config (codes "/decrypt")
        (obj (field (codes "encryptedMessage") (str (base64.encode ciphertext)) end))
  encoded ← decrypted_message answer
  message_bytes base64 encoded
