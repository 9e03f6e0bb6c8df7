-- ===== src/Web/InfoRoute.antt =====
-- apps/web/app/api/enclave/info/route.ts: the enclave's public document, forwarded to the browser. The
-- proxy's address is the build's, and what `fetch` gives for a URL is a parameter.
pub mod Forwarded
use flare_studio.Base.Text.{Text, codes, includes}
use flare_studio.Base.Decimal.{decimal}
use flare_studio.Base.Value.{Value, str, obj, field, end}
use flare_studio.Base.{
  ℕ, Bool, Option, none, some, List, [], ◌∷◌, ◌++◌, Result, ok, err, ◌==◌, leb, ltb, ◌&&◌,
  if◌then◌else◌,
}
use flare_studio.Web.Thrown.{Thrown, first_line}
use flare_studio.Web.Enclave.{Response}

-- What `fetch` throws: an Error with its message, or another value with its `String`.
pub data FetchFailure : Type 0 where
  error_object : (message : Text) → FetchFailure
  other_failure : (printed : Text) → FetchFailure

pub record ProxyResponse : Type 0 where
  pub is_ok : Bool
  pub status : ℕ
  pub content_type : Option Text
  pub json : Result Thrown Value

-- The answer of the route.
pub record RouteAnswer : Type 0 where
  pub status : ℕ
  pub body : Value

unfoldable pub failure_text : FetchFailure → Text
unfolding first_line
failure_text (error_object message) = first_line message
failure_text (other_failure printed) = printed

-- `base.replace(/\/$/, '')`
unfoldable pub without_slash : Text → Text
without_slash [] = []
without_slash (c ∷ []) = if c == b'/' then [] else c ∷ []
without_slash (c ∷ d ∷ s) = c ∷ without_slash (d ∷ s)

unfoldable pub info_url : Text → Text
unfolding without_slash
info_url base = without_slash base ++ codes "/info"

unfoldable pub error_answer : ℕ → Text → RouteAnswer
error_answer status text = record {
  status = status;
  body = obj (field (codes "error") (str text) end);
}

-- The content type, or nothing.
unfoldable pub type_text : Option Text → Text
type_text none = []
type_text (some t) = t

unfoldable pub known_type : Text → Text
known_type [] = codes "an unknown content type"
known_type (c ∷ cs) = c ∷ cs

-- A document that is not JSON is thrown on.
unfoldable pub forward : Result Thrown Value → Result Thrown RouteAnswer
forward (ok info) = ok (record { status = 200; body = info })
forward (err e) = err e

unfoldable pub answer_of : ProxyResponse → Result Thrown RouteAnswer
unfolding error_answer type_text known_type forward
answer_of response =
    if response.is_ok
    then if includes (codes "json") (type_text response.content_type)
      then forward response.json
      else ok (
          error_answer 502 (
            codes "the extension proxy returned "
            ++ (known_type (type_text response.content_type)
                ++ (codes
                      " instead of JSON -- the tunnel is probably serving a warning or error page "
                    ++ codes "rather than the enclave"))))
    else ok (error_answer 502 (codes "the extension proxy returned " ++ decimal response.status))

unfoldable pub answer_of_fetch :
    Text → Result FetchFailure ProxyResponse → Result Thrown RouteAnswer
unfolding error_answer failure_text answer_of
answer_of_fetch base (err e) = ok (
    error_answer 502 (
      codes "the extension proxy at "
      ++ (base ++ (codes " could not be reached (" ++ (failure_text e ++ codes ")")))))
answer_of_fetch base (ok response) = answer_of response

-- `GET`. An address that is not set is empty.
unfoldable pub info_route :
    (fetch : Text → Result FetchFailure ProxyResponse) → (base : Text) → Result Thrown RouteAnswer
unfolding answer_of_fetch info_url error_answer
info_route fetch [] =
    ok (error_answer 503 (codes "No extension proxy is configured in this build."))
info_route fetch (c ∷ cs) = answer_of_fetch (c ∷ cs) (fetch (info_url (c ∷ cs)))

-- The answer as the browser's `fetch` gives it.
unfoldable pub served : RouteAnswer → Response
served answer = record {
  is_ok = leb 200 answer.status && ltb answer.status 300;
  status = answer.status;
  json = ok answer.body;
}
