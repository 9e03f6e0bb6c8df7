-- ===== src/Orchestrator/Polling/Deadline.antt =====
-- The poll ends: by an answer, or once the deadline has passed.
use flare_studio.Base.Text.{Text}
use flare_studio.Base.{
  ℕ, zero, suc, ◌+◌, ◌≤◌, ◌<◌, true, Option, none, some, ok, err, ◌≡◌, inl, inr, refl, arith, ltb,
  Bool-cases, Option-cases, ltb→lt,
}
use flare_studio.Orchestrator.Polling.{
  Response, Timer, Polled, answered, json_threw, timed_out, exhausted, result_url, status_of, final,
  poll, poll_action_result,
}

module _ {W A : Type 0} (timer : Timer W A) (url : Text) (interval_ms deadline : ℕ) where
  -- How a poll has ended: with what an accepted response said, or with the deadline behind it.
  abbrev pub Ended : Polled A × W → Type 0
  Ended (answered v, w) =
      (before : W) × (response : Response A) × ((timer.fetch url before).0 ≡ some response)
      × (response.is_ok ≡ true)
      × (response.json ≡ ok v)
      × (timer.now before < deadline)
  Ended (json_threw e, w) =
      (before : W) × (response : Response A) × ((timer.fetch url before).0 ≡ some response)
      × (response.is_ok ≡ true)
      × (response.json ≡ err e)
      × (timer.now before < deadline)
  Ended (timed_out last, w) = deadline ≤ timer.now w
  Ended (exhausted, w) = ⊥

  final-Ended :
      (before after : W) (response : Option (Response A)) (result : Polled A)
      → (timer.fetch url before).0 ≡ response
      → timer.now before < deadline
      → final response ≡ some result
      → Ended (result, after)
  unfolding final
  final-Ended before after none result at early e = cc
  final-Ended before after (some r) (answered v) at early e =
      (before, r, at, ground (arith, e), ground (arith, e), early)
  final-Ended before after (some r) (json_threw t) at early e =
      (before, r, at, ground (arith, e), ground (arith, e), early)
  final-Ended before after (some r) (timed_out n) at early e = absurd (ground (arith, e))
  final-Ended before after (some r) exhausted at early e = absurd (ground (arith, e))

  poll-Ended :
      (fuel last : ℕ) (w : W)
      → 1 ≤ interval_ms
      → 1 ≤ fuel
      → deadline < timer.now w + fuel
      → Ended (poll timer url interval_ms deadline fuel last w)
  unfolding poll
  poll-Ended zero last w h some_fuel enough = absurd (omega (arith, some_fuel))
  poll-Ended (suc fuel) last w h some_fuel enough =
      let out = timer.fetch url w in
      elim (Bool-cases (ltb (timer.now w) deadline)) [
        | inr late ↦ rw (late) (ground (arith, late))
        | inl early ↦
            let before = ltb→lt (timer.now w) deadline early in
            elim (Option-cases (final out.0)) [
              | inr (result, e) ↦
                  rw (early) (rw (e) (final-Ended w out.1 out.0 result refl before e))
              | inl going ↦ rw (early) (
                  rw (going) (
                    poll-Ended fuel (status_of out.0) (timer.wait interval_ms out.1) h
                      (omega (arith, before, enough))
                      (omega (
                        arith,
                        before,
                        enough,
                        timer.fetch_later url w,
                        timer.wait_later interval_ms out.1,
                      ))))
            ]
      ]

-- Where the interval is at least a millisecond, a poll ends: with the answer of a response that was
-- accepted, or the error of its JSON, to a request made before the deadline; or with the deadline
-- behind it.
pub poll_action_result-Ended :
    {W A : Type 0} (timer : Timer W A) (ext_proxy_url instruction_id : Text)
    (timeout_ms interval_ms : ℕ) (w : W)
    → 1 ≤ interval_ms
    → Ended timer
        (result_url ext_proxy_url instruction_id)
        interval_ms
        (timer.now w + timeout_ms)
        (poll_action_result timer ext_proxy_url instruction_id timeout_ms interval_ms w)
unfolding poll_action_result
poll_action_result-Ended timer ext_proxy_url instruction_id timeout_ms interval_ms w h =
    poll-Ended timer (result_url ext_proxy_url instruction_id) interval_ms
      (timer.now w + timeout_ms) (suc timeout_ms) 0 w h (omega arith) (omega arith)
