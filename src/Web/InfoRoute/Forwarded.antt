-- ===== src/Web/InfoRoute/Forwarded.antt =====
-- What reaches the browser through the route.
use mathlib.Core.Path.{subst}
use flare_studio.Base.Text.{Text, codes, includes}
use flare_studio.Base.Value.{Value}
use flare_studio.Base.{
  ℕ, true, ◌∷◌, ◌≡◌, sym, ◌≤◌, ◌≢◌, ◌↔◌, refl, arith, Result, ok, err, Bool-cases, inl, inr,
}
use flare_studio.Policy.TeeInfo.{tee_public_key_from_info}
use flare_studio.Web.Thrown.{Thrown}
use flare_studio.Web.Enclave.{key_of_response}
use flare_studio.Web.InfoRoute.{
  FetchFailure, ProxyResponse, RouteAnswer, type_text, error_answer, forward, answer_of,
  answer_of_fetch, info_url, info_route, served,
}

-- The proxy answered with a JSON document that has the key.
abbrev pub HasKey : Result FetchFailure ProxyResponse → Text → Type 0
HasKey reached key =
    (response : ProxyResponse) × (info : Value) × (reached ≡ ok response)
    × (response.is_ok ≡ true)
    × (includes (codes "json") (type_text response.content_type) ≡ true)
    × (response.json ≡ ok info)
    × (tee_public_key_from_info info ≡ ok key)

no_key_of_error :
    (status : ℕ) (text key : Text)
    → 300 ≤ status
    → key_of_response (served (error_answer status text)) ≢ ok key
unfolding key_of_response served error_answer
no_key_of_error status text key h = ground arith

key_of_document :
    (info : Value) (key : Text)
    → (key_of_response (served (record { status = 200; body = info })) ≡ ok key)
      ↔ (tee_public_key_from_info info ≡ ok key)
unfolding key_of_response served
key_of_document info key = ground arith

neither : {A B : Type 0} → (¬ A) → (¬ B) → A ↔ B
neither no_a no_b = (λ a. absurd (no_a a), λ b. absurd (no_b b))

no_key_in :
    (answer : RouteAnswer) (status : ℕ) (text key : Text)
    → 300 ≤ status
    → ◌≡◌ {A = Result Thrown RouteAnswer} (ok (error_answer status text)) (ok answer)
    → key_of_response (served answer) ≢ ok key
no_key_in answer status text key h e =
    let same : error_answer status text ≡ answer = cc e in
    subst (λ a. key_of_response (served a) ≢ ok key) same (no_key_of_error status text key h)

forwarded :
    (response : ProxyResponse) (answer : RouteAnswer) (key : Text) (r : Result Thrown Value)
    → response.is_ok ≡ true
    → includes (codes "json") (type_text response.content_type) ≡ true
    → response.json ≡ r
    → forward r ≡ ok answer
    → (key_of_response (served answer) ≡ ok key) ↔ HasKey (ok response) key
unfolding forward
forwarded response answer key (err e) fine typed read h = cc
forwarded response answer key (ok info) fine typed read h =
    let same : record { status = 200; body = info } ≡ answer = cc h in
    let (there, back) = key_of_document info key in
    (
      λ k. (
        response,
        info,
        refl,
        fine,
        typed,
        read,
        there (subst (λ a. key_of_response (served a) ≡ ok key) (sym same) k),
      ),
      λ (response', info', reached, fine', typed', read', found).
          subst (λ a. key_of_response (served a) ≡ ok key) same
            (back (cc (read, read', reached, found))),
    )

answer_key :
    (response : ProxyResponse) (answer : RouteAnswer) (key : Text)
    → answer_of response ≡ ok answer
    → (key_of_response (served answer) ≡ ok key) ↔ HasKey (ok response) key
unfolding answer_of
answer_key response answer key h = elim (Bool-cases response.is_ok) [
  | inl fine ↦ elim (Bool-cases (includes (codes "json") (type_text response.content_type))) [
    | inl typed ↦
        forwarded response answer key response.json fine typed refl (rw (fine, typed) at h)
    | inr other ↦
        let same = rw (fine, other) at h in
        neither (no_key_in answer 502 _ key (omega arith) same)
          (λ (response', info', reached, fine', typed', read', found).
            let one : response ≡ response' = cc reached in cc (other, typed', one))
  ]
  | inr bad ↦
      let same = rw bad at h in
      neither (no_key_in answer 502 _ key (omega arith) same)
        (λ (response', info', reached, fine', typed', read', found).
          let one : response ≡ response' = cc reached in cc (bad, fine', one))
]

reached_key :
    (base : Text) (reached : Result FetchFailure ProxyResponse) (answer : RouteAnswer) (key : Text)
    → answer_of_fetch base reached ≡ ok answer
    → (key_of_response (served answer) ≡ ok key) ↔ HasKey reached key
unfolding answer_of_fetch
reached_key base (ok response) answer key h = answer_key response answer key h
reached_key base (err e) answer key h =
    neither (no_key_in answer 502 _ key (omega arith) h)
      (λ (response', info', reached, fine', typed', read', found). cc reached)

-- The browser gets a key through the route exactly if the proxy answered with a JSON document, under
-- its content type, that has that key: whenever the route answers, a proxy that cannot be reached, an
-- error status or a page that is not JSON is an error for the browser too.
pub info_route-key :
    (fetch : Text → Result FetchFailure ProxyResponse) (c : ℕ) (cs : Text) (answer : RouteAnswer)
    (key : Text)
    → info_route fetch (c ∷ cs) ≡ ok answer
    → (key_of_response (served answer) ≡ ok key) ↔ HasKey (fetch (info_url (c ∷ cs))) key
unfolding info_route
info_route-key fetch c cs answer key h =
    reached_key (c ∷ cs) (fetch (info_url (c ∷ cs))) answer key h
