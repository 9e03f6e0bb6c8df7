-- ===== src/Extension/Handlers/Service.antt =====
-- The greeting service over any sequence of requests.
use mathlib.Core.Path.{subst}
use flare_studio.Base.Text.{Text, codes, text_eq}
use flare_studio.Base.Value.{Value, str}
use flare_studio.Base.{
  ℕ, ◌+◌, ◌&&◌, some, List, [], ◌∷◌, ◌++◌, Result, ok, err, >>=-eq-ok, ◌≡◌, ◌⊎◌, inl, inr, ap, All,
  arith, ◌==◌, if◌then◌else◌, Bool-cases,
}
use flare_studio.Extension.Encoding.{string_to_bytes32_hex}
use flare_studio.Extension.Framework.{
  HandlerResult, HandlerFunc, first_match, lookup, normalize, empty_bytes32, handle,
}
use flare_studio.Extension.Server.{
  Platform, Server, Answer, answer, crash, unlogged, plain, bad_request, action_result,
  state_response, find_handler, normalized, or_default, member, run_handler, result_of,
  handle_request, Request, serve_all, new_server,
}
use flare_studio.Extension.Server.Responses.{Refused, handle_request_cases}
use flare_studio.Extension.Handlers.{
  State, Abi, handle_say_hello, handle_say_goodbye, register, report_state,
}
use flare_studio.Extension.Handlers.Counts.{
  Failed, Succeeded, handle_say_hello_cases, handle_say_goodbye_cases,
}

-- A property of every registered handler is one of the handler that is found.
module _ {H : Type 0} (P : H → Type 0) where
  abbrev Each : List (Text × Text × H) → Type 0
  Each hs = All (λ e. P e.2) hs

  first_match-Each :
      (t c : Text) (h : H) (hs : List (Text × Text × H))
      → Each hs
      → first_match t c hs ≡ some h
      → P h
  unfolding first_match
  first_match-Each t c h [] ps e = cc
  first_match-Each t c h ((t', c', h') ∷ hs) ps e =
      elim (Bool-cases (text_eq t' t && text_eq c' c)) [
        | inl here ↦ let same : h' ≡ h = ground arith in subst P same ps.0
        | inr later ↦ first_match-Each t c h hs ps.1 (ground arith)
      ]

  lookup_cases :
      (t c : Text) (h : H) (hs : List (Text × Text × H))
      → lookup t c hs ≡ some h
      → (first_match (normalize t) (normalize c) hs ≡ some h)
        ⊎ (first_match (normalize t) empty_bytes32 hs ≡ some h)
  unfolding lookup
  lookup_cases t c h hs e = ground arith

  lookup-Each :
      (t c : Text) (h : H) (hs : List (Text × Text × H)) → Each hs → lookup t c hs ≡ some h → P h
  lookup-Each t c h hs ps e = elim (lookup_cases t c h hs e) [
    | inl exact ↦ first_match-Each (normalize t) (normalize c) h hs ps exact
    | inr default ↦ first_match-Each (normalize t) empty_bytes32 h hs ps default
  ]

  Each-snoc :
      (hs : List (Text × Text × H)) (t c : Text) (h : H)
      → Each hs
      → P h
      → Each (hs ++ (t, c, h) ∷ [])
  Each-snoc [] t c h ps p = (p, tt)
  Each-snoc (e ∷ hs) t c h ps p = (ps.0, Each-snoc hs t c h ps.1 p)

  handle-Each :
      (t c : Text) (h : H) (hs hs' : List (Text × Text × H))
      → Each hs
      → P h
      → handle t c h hs ≡ ok hs'
      → Each hs'
  unfolding handle
  handle-Each t c h hs hs' ps p e =
      let (t', _, e1) = >>=-eq-ok (string_to_bytes32_hex t) _ e in
      let (c', _, e2) = >>=-eq-ok (string_to_bytes32_hex c) _ e1 in
      let same : hs ++ (t', c', h) ∷ [] ≡ hs' = cc e2 in subst Each same (Each-snoc hs t' c' h ps p)

-- How much work is on record, and how much of it an answer reports, or would if the line that logs it
-- had not thrown.
abbrev pub total : State → ℕ
total s = s.greeting_count + s.farewell_count

abbrev pub completions : Result Text HandlerResult → ℕ
completions (err e) = 0
completions (ok r) = if r.status == 1 then 1 else 0

abbrev pub completed : Answer → ℕ
completed (answer code (action_result r)) = if r.status == 1 then 1 else 0
completed (answer code (plain text)) = 0
completed (answer code (bad_request reason)) = 0
completed (answer code (state_response v state)) = 0
completed (crash e) = 0
completed (unlogged r) = if r.status == 1 then 1 else 0

abbrev pub all_completed : List Answer → ℕ
all_completed [] = 0
all_completed (a ∷ as') = completed a + all_completed as'

-- A handler that counts what it completes.
abbrev Counting : HandlerFunc State → Type 0
Counting h = (msg : Value) (s : State) → total (h msg s).1 ≡ total s + completions (h msg s).0

Failed-counts :
    (r : Result Text HandlerResult × State) (s : State)
    → Failed s r
    → total r.1 ≡ total s + completions r.0
Failed-counts r s (message, e, same) = ground (arith, ap total same, ap completions e)

Succeeded-counts :
    (r : Result Text HandlerResult × State) (s next : State)
    → total next ≡ total s + 1
    → Succeeded next r
    → total r.1 ≡ total s + completions r.0
Succeeded-counts r s next h (payload, e, same) = ground (arith, ap total same, ap completions e)

say_hello-Counting : (platform : Platform) → Counting (handle_say_hello platform)
say_hello-Counting platform msg s = elim (handle_say_hello_cases platform msg s) [
  | inl failed ↦ Failed-counts (handle_say_hello platform msg s) s failed
  | inr (name, _, _, done) ↦
      Succeeded-counts (handle_say_hello platform msg s) s _ (omega arith) done
]

say_goodbye-Counting : (abi : Abi) → Counting (handle_say_goodbye abi)
say_goodbye-Counting abi msg s = elim (handle_say_goodbye_cases abi msg s) [
  | inl failed ↦ Failed-counts (handle_say_goodbye abi msg s) s failed
  | inr (name, reason, _, _, done) ↦
      Succeeded-counts (handle_say_goodbye abi msg s) s _ (omega arith) done
]

register-Each :
    (platform : Platform) (abi : Abi) (hs : List (Text × Text × HandlerFunc State))
    → register platform abi [] ≡ ok hs
    → Each Counting hs
unfolding register
register-Each platform abi hs e =
    let (with_hello, first, second) = >>=-eq-ok (handle _ _ (handle_say_hello platform) []) _ e in
    handle-Each Counting _ _ (handle_say_goodbye abi) with_hello hs
      (handle-Each Counting _ _ (handle_say_hello platform) [] with_hello tt
        (say_hello-Counting platform) first)
      (say_goodbye-Counting abi) second

Refused-counts :
    (platform : Platform) (server : Server State) (r : Answer × State) (s : State)
    → Refused platform server r s
    → total r.1 ≡ total s + completed r.0
Refused-counts platform server (answer code (plain text), s') s (_, same) =
    ground (arith, ap total same)
Refused-counts platform server (answer code (bad_request reason), s') s (_, same) =
    ground (arith, ap total same)
Refused-counts platform server (answer code (action_result r), s') s (wrong, same) = absurd wrong
Refused-counts platform server (answer code (state_response v w), s') s (_, same) =
    ground (arith, ap total same)
Refused-counts platform server (unlogged r, s') s (wrong, same) = absurd wrong
Refused-counts platform server (crash e, s') s (_, same) = ground (arith, ap total same)

module _ (platform : Platform) (server : Server State)
    (counting : Each Counting server.handlers) where
  find_handler-Counting :
      (df : Value) (h : HandlerFunc State)
      → find_handler platform server df ≡ ok (some h)
      → Counting h
  unfolding find_handler
  find_handler-Counting df h e =
      let (t, _, e1) = >>=-eq-ok (normalized (member (codes "opType") df)) _ e in
      let (c, _, e2) = >>=-eq-ok (normalized (or_default (member (codes "opCommand") df) _)) _ e1 in
      lookup-Each Counting t c h server.handlers counting (cc e2)

  run_handler_counts :
      (fields df : Value) (h : HandlerFunc State) (s : State)
      → Counting h
      → total (run_handler platform server fields df h s).1
        ≡ total s + completed (run_handler platform server fields df h s).0
  unfolding run_handler result_of
  run_handler_counts fields df h s count =
      ground (arith, count (or_default (member (codes "originalMessage") df) (str (codes "0x"))) s)

  handle_request_counts :
      (method path body : Text) (s : State)
      → total (handle_request platform server method path body s).1
        ≡ total s + completed (handle_request platform server method path body s).0
  handle_request_counts method path body s =
      elim (handle_request_cases platform server method path body s) [
        | inl (fields, df, h, reaches, runs) ↦
            rw runs (run_handler_counts fields df h s (find_handler-Counting df h reaches.found))
        | inr refused ↦
            Refused-counts platform server (handle_request platform server method path body s) s
              refused
      ]

  serve_all_counts :
      (requests : List Request) (s : State)
      → total (serve_all platform server requests s).1
        ≡ total s + all_completed (serve_all platform server requests s).0
  unfolding serve_all
  serve_all_counts [] s = omega arith
  serve_all_counts (r ∷ rs) s = omega (
    arith,
    handle_request_counts r.method r.path r.body s,
    serve_all_counts rs (handle_request platform server r.method r.path r.body s).1,
  )

-- Over any sequence of requests, whatever they hold, the greetings and farewells on record grow by
-- exactly the number of results that report success, those among them counted that are not sent because
-- the line that logs them throws: nothing else counts, and nothing counts twice.
pub service_counts :
    (platform : Platform) (abi : Abi) (version : Text) (server : Server State)
    (requests : List Request) (s : State)
    → new_server version (register platform abi) report_state ≡ ok server
    → total (serve_all platform server requests s).1
      ≡ total s + all_completed (serve_all platform server requests s).0
unfolding new_server
service_counts platform abi version server requests s made =
    let (hex, _, e1) = >>=-eq-ok (string_to_bytes32_hex version) _ made in
    let (hs, registered, e2) = >>=-eq-ok (register platform abi []) _ e1 in
    let same : hs ≡ server.handlers = ground arith in
    serve_all_counts platform server
      (subst (Each Counting) same (register-Each platform abi hs registered)) requests s
