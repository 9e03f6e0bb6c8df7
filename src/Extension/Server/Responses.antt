-- ===== src/Extension/Server/Responses.antt =====
-- Which requests reach a handler, and what every other request leaves alone.
use flare_studio.Base.Text.{Text, codes, text_eq, text_eq_iff}
use flare_studio.Base.Value.{Value, str}
use flare_studio.Base.{
  some, ok, ◌≡◌, ◌⊎◌, inl, inr, refl, ◌∙◌, ap, arith, Bool-cases, Option-cases, Result-cases,
}
use flare_studio.Extension.Framework.{HandlerFunc}
use flare_studio.Extension.Server.{
  Platform, Server, Answer, answer, crash, unlogged, plain, bad_request, action_result,
  state_response, decode_action, find_handler, run_handler, dispatch, process_action, process_state,
  before_query, handle_request, member, or_default,
}

module _ {S : Type 0} (platform : Platform) (server : Server S) where
  -- A request that reaches a handler: where it came from and what it is called on.
  pub record Reaches (method path body : Text) (fields df : Value) (handler : HandlerFunc S)
      : Type 0 where
    pub posted : method ≡ codes "POST"
    pub at_action : before_query platform server path ≡ codes "/action"
    pub decoded : decode_action platform server body ≡ ok (fields, df)
    pub found : find_handler platform server df ≡ ok (some handler)

  abbrev pub argument : Value → Value
  argument df = or_default (member (codes "originalMessage") df) (str (codes "0x"))

  -- An answer that no handler made.
  abbrev pub IsRefusal : Answer → Type 0
  IsRefusal (answer code (plain text)) = (code ≡ 404) ⊎ (code ≡ 405) ⊎ (code ≡ 501)
  IsRefusal (answer code (bad_request reason)) = code ≡ 400
  IsRefusal (answer code (action_result r)) = ⊥
  IsRefusal (answer code (state_response v state)) = code ≡ 200
  IsRefusal (crash e) = Unit
  IsRefusal (unlogged r) = ⊥

  abbrev pub Handled : Text → Text → Text → S → Type 0
  Handled method path body s =
      (fields : Value) × (df : Value) × (handler : HandlerFunc S) × Reaches method path body fields
        df handler
      × (handle_request platform server method path body s
          ≡ run_handler platform server fields df handler s)

  abbrev pub Refused : Answer × S → S → Type 0
  Refused (a, s') s = IsRefusal a × (s' ≡ s)

  dispatch_cases :
      (fields df : Value) (s : S)
      → ((handler : HandlerFunc S) × (find_handler platform server df ≡ ok (some handler))
          × (dispatch platform server fields df s
              ≡ run_handler platform server fields df handler s))
        ⊎ Refused (dispatch platform server fields df s) s
  unfolding dispatch
  dispatch_cases fields df s = elim (Result-cases (find_handler platform server df)) [
    | inl (found, e) ↦ elim (Option-cases found) [
      | inl missing ↦ inr (rw (e, dispatch) (rw missing (inr (inr refl), refl)))
      | inr (handler, there) ↦ inl (handler, e ∙ ap ok there, rw (e, dispatch) (rw there refl))
    ]
    | inr (message, e) ↦ inr (rw (e, dispatch) (tt, refl))
  ]

  process_action_cases :
      (body : Text) (s : S)
      → ((fields : Value) × (df : Value) × (decode_action platform server body ≡ ok (fields, df))
          × (process_action platform server body s ≡ dispatch platform server fields df s))
        ⊎ Refused (process_action platform server body s) s
  unfolding process_action
  process_action_cases body s = elim (Result-cases (decode_action platform server body)) [
    | inl ((fields, df), e) ↦ inl (fields, df, e, rw (e, process_action))
    | inr (reason, e) ↦ inr (rw (e, process_action) (refl, refl))
  ]

  Refused-step : {r r' : Answer × S} (s : S) → r ≡ r' → Refused r' s → Refused r s
  Refused-step s e h = rw e h

  action_cases :
      (method path body : Text) (s : S)
      → method ≡ codes "POST"
      → before_query platform server path ≡ codes "/action"
      → handle_request platform server method path body s ≡ process_action platform server body s
      → Handled method path body s ⊎ Refused (handle_request platform server method path body s) s
  action_cases method path body s posted at step = elim (process_action_cases body s) [
    | inr refused ↦ inr (Refused-step s step refused)
    | inl (fields, df, decoded, to_dispatch) ↦ elim (dispatch_cases fields df s) [
      | inr refused ↦ inr (Refused-step s (step ∙ to_dispatch) refused)
      | inl (handler, found, runs) ↦ inl (
        fields,
        df,
        handler,
        record { posted = posted; at_action = at; decoded = decoded; found = found },
        step ∙ to_dispatch ∙ runs,
      )
    ]
  ]

  pub handle_request_cases :
      (method path body : Text) (s : S)
      → Handled method path body s ⊎ Refused (handle_request platform server method path body s) s
  handle_request_cases method path body s = elim (Bool-cases (text_eq clean (codes "/action"))) [
    | inl at_action ↦ elim (Bool-cases (text_eq method (codes "POST"))) [
      | inl posted ↦
          action_cases method path body s ((text_eq_iff _ _).0 posted)
            ((text_eq_iff _ _).0 at_action) (unfold handle_request in rw (at_action, posted))
      | inr other ↦ inr (unfold handle_request in rw (at_action, other) (inr (inl refl), refl))
    ]
    | inr elsewhere ↦ inr (unfold handle_request process_state in ground (arith, elsewhere))
  ]
    where
      clean : Text
      clean = before_query platform server path
