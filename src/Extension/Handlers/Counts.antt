-- ===== src/Extension/Handlers/Counts.antt =====
-- What the greeting handlers do to their state.
use flare_studio.Base.Text.{Text, codes}
use flare_studio.Base.Decimal.{decimal}
use flare_studio.Base.Json.{stringify}
use flare_studio.Base.Value.{Value, str, number, obj, field, end}
use flare_studio.Base.{
  ◌+◌, none, some, [], Result, ok, err, ◌≡◌, ◌≢◌, ◌⊎◌, inl, inr, refl, ◌∙◌, ap, arith, Result-cases,
}
use flare_studio.Extension.Framework.{HandlerResult}
use flare_studio.Extension.Server.{Platform}
use flare_studio.Extension.Handlers.{
  State, Abi, failure, greeting_for, farewell_for, hello_name, goodbye_message, handle_say_hello,
  handle_say_goodbye, success,
}

-- A handler that failed has an error to report and has changed nothing.
abbrev pub Failed : State → Result Text HandlerResult × State → Type 0
Failed s (r, s') = (message : Text) × (r ≡ ok (failure message)) × (s' ≡ s)

-- A handler that succeeded has status 1 and a payload, and has moved to the state `next`.
abbrev pub Succeeded : State → Result Text HandlerResult × State → Type 0
Succeeded next (r, s') =
    (payload : Text) × (r ≡ ok (record { payload = some payload; status = 1; error = none }))
    × (s' ≡ next)

abbrev pub greeted : Text → State → State
greeted name s = record s {
  greeting_count = s.greeting_count + 1;
  last_greeting = greeting_for name;
}

abbrev pub farewelled : Text → Text → State → State
farewelled name reason s = record s {
  farewell_count = s.farewell_count + 1;
  last_farewell = farewell_for name reason;
}

hello_name-ne-nil : (platform : Platform) (msg : Value) → hello_name platform msg ≢ ok []
unfolding hello_name
hello_name-ne-nil platform msg = ground arith

-- The response of a handler that succeeds is an object of a text and a number, which
-- `JSON.stringify` always writes out.
success_returns :
    (k l t n : Text)
    → (payload : Text) × (success (obj (field k (str t) (field l (number n) end)))
        ≡ ok (record { payload = some payload; status = 1; error = none }))
unfolding success stringify
success_returns k l t n = (_, refl)

Failed-of :
    {r : Result Text HandlerResult × State} (s : State) (message : Text)
    → r ≡ (ok (failure message), s)
    → Failed s r
Failed-of s message e = rw e (message, refl, refl)

module _ (platform : Platform) (msg : Value) (s : State) where
  hello_fails :
      (message : Text)
      → hello_name platform msg ≡ err message
      → handle_say_hello platform msg s ≡ (ok (failure message), s)
  unfolding handle_say_hello
  hello_fails message e = rw (e, handle_say_hello)

  hello_succeeds :
      (name : Text)
      → hello_name platform msg ≡ ok name
      → Succeeded (greeted name s) (handle_say_hello platform msg s)
  unfolding handle_say_hello
  hello_succeeds name e =
      let (payload, written) =
        success_returns (codes "greeting") (codes "greetingNumber") (greeting_for name)
          (decimal (s.greeting_count + 1)) in
      rw (e, handle_say_hello) (payload, written, refl)

  -- SAY_HELLO on any message either fails with status 0, an error text and no change, or decodes to a
  -- name that is not empty, answers with status 1, and counts one greeting, to that name.
  pub handle_say_hello_cases :
      Failed s (handle_say_hello platform msg s)
      ⊎ ((name : Text) × (hello_name platform msg ≡ ok name)
          × (name ≢ [])
          × Succeeded (greeted name s) (handle_say_hello platform msg s))
  handle_say_hello_cases = elim (Result-cases (hello_name platform msg)) [
    | inl (name, e) ↦
        inr (name, e, (λ p. hello_name-ne-nil platform msg (e ∙ ap ok p)), hello_succeeds name e)
    | inr (message, e) ↦ inl (Failed-of s message (hello_fails message e))
  ]

goodbye_message-ne-nil :
    (abi : Abi) (msg : Value) (reason : Text) → goodbye_message abi msg ≢ ok ([], reason)
unfolding goodbye_message
goodbye_message-ne-nil abi msg reason = ground arith

module _ (abi : Abi) (msg : Value) (s : State) where
  goodbye_fails :
      (message : Text)
      → goodbye_message abi msg ≡ err message
      → handle_say_goodbye abi msg s ≡ (ok (failure message), s)
  unfolding handle_say_goodbye
  goodbye_fails message e = rw (e, handle_say_goodbye)

  goodbye_succeeds :
      (name reason : Text)
      → goodbye_message abi msg ≡ ok (name, reason)
      → Succeeded (farewelled name reason s) (handle_say_goodbye abi msg s)
  unfolding handle_say_goodbye
  goodbye_succeeds name reason e =
      let (payload, written) =
        success_returns (codes "farewell") (codes "farewellNumber") (farewell_for name reason)
          (decimal (s.farewell_count + 1)) in
      rw (e, handle_say_goodbye) (payload, written, refl)

  -- SAY_GOODBYE on any message either fails with status 0, an error text and no change, or decodes to
  -- a name that is not empty and a reason, answers with status 1, and counts one farewell.
  pub handle_say_goodbye_cases :
      Failed s (handle_say_goodbye abi msg s)
      ⊎ ((name : Text) × (reason : Text) × (goodbye_message abi msg ≡ ok (name, reason))
          × (name ≢ [])
          × Succeeded (farewelled name reason s) (handle_say_goodbye abi msg s))
  handle_say_goodbye_cases = elim (Result-cases (goodbye_message abi msg)) [
    | inl ((name, reason), e) ↦ inr (
      name,
      reason,
      e,
      (λ p. goodbye_message-ne-nil abi msg reason (e ∙ ap (λ (n : Text). ok (n, reason)) p)),
      goodbye_succeeds name reason e,
    )
    | inr (message, e) ↦ inl (Failed-of s message (goodbye_fails message e))
  ]
