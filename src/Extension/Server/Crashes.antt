-- ===== src/Extension/Server/Crashes.antt =====
-- A request whose opType is no string is answered by an exception.
use flare_studio.Base.Text.{Text, codes, text_eq_refl}
use flare_studio.Base.Value.{Value, undefined, str}
use flare_studio.Base.{true, ok, err, ◌≡◌, ◌≢◌, refl, ◌∙◌, arith}
use flare_studio.Extension.Server.{
  Platform, Server, crash, decode_action, find_handler, dispatch, process_action, before_query,
  handle_request, member, truthy, normalized,
}

normalized_refuses :
    (v : Value)
    → ((t : Text) → v ≢ str t)
    → truthy v ≡ true
    → normalized v ≡ err (codes "toLowerCase is not a function")
unfolding normalized
normalized_refuses (str s) ne h = absurd (ne s refl)
normalized_refuses undefined ne h = cc
normalized_refuses v ne h = ground arith

module _ {S : Type 0} (platform : Platform) (server : Server S) where
  decode_action-truthy :
      (body : Text) (fields df : Value)
      → decode_action platform server body ≡ ok (fields, df)
      → truthy (member (codes "opType") df) ≡ true
  unfolding decode_action
  decode_action-truthy body fields df h = ground arith

  find_handler_throws :
      (df : Value) (m : Text)
      → normalized (member (codes "opType") df) ≡ err m
      → find_handler platform server df ≡ err m
  unfolding find_handler
  find_handler_throws df m e = rw e

  dispatch_throws :
      (fields df : Value) (m : Text) (s : S)
      → find_handler platform server df ≡ err m
      → dispatch platform server fields df s ≡ (crash m, s)
  unfolding dispatch
  dispatch_throws fields df m s e = rw (e, dispatch)

  process_action_dispatches :
      (body : Text) (fields df : Value) (s : S)
      → decode_action platform server body ≡ ok (fields, df)
      → process_action platform server body s ≡ dispatch platform server fields df s
  unfolding process_action
  process_action_dispatches body fields df s e = rw (e, process_action)

  handle_request_posts :
      (path body : Text) (s : S)
      → before_query platform server path ≡ codes "/action"
      → handle_request platform server (codes "POST") path body s
        ≡ process_action platform server body s
  unfolding handle_request
  handle_request_posts path body s e =
      rw (e, text_eq_refl (codes "/action"), text_eq_refl (codes "POST"))

  -- A POST to /action whose message decodes, and whose opType is a value other than a string, is not
  -- answered 400: the lookup throws, and the exception leaves `handleRequest`.
  pub op_type_crashes :
      (path body : Text) (fields df : Value) (s : S)
      → before_query platform server path ≡ codes "/action"
      → decode_action platform server body ≡ ok (fields, df)
      → ((t : Text) → member (codes "opType") df ≢ str t)
      → handle_request platform server (codes "POST") path body s
        ≡ (crash (codes "toLowerCase is not a function"), s)
  op_type_crashes path body fields df s at decoded ne =
      let throws =
        normalized_refuses (member (codes "opType") df) ne
          (decode_action-truthy body fields df decoded) in
      handle_request_posts path body s at
      ∙ process_action_dispatches body fields df s decoded
      ∙ dispatch_throws fields df _ s (find_handler_throws df _ throws)
