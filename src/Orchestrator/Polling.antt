-- ===== src/Orchestrator/Polling.antt =====
-- apps/orchestrator/src/instructions.ts, `pollActionResult`: the loop that waits for the enclave. The
-- clock, `fetch` and `setTimeout` are parameters with a state of the world; times are milliseconds.
pub mod Deadline
use flare_studio.Base.Text.{Text, codes}
use flare_studio.Base.Decimal.{decimal}
use flare_studio.Base.{
  ℕ, zero, suc, ◌+◌, ◌-◌, ◌≤◌, Bool, true, false, Option, none, some, List, [], ◌∷◌, ◌++◌, Result,
  ok, err, ltb, ◌==◌, if◌then◌else◌,
}

-- `response.ok`, the status, and what its `json()` gives.
pub record Response (A : Type 0) : Type 0 where
  pub is_ok : Bool
  pub status : ℕ
  pub json : Result Text A

-- `fetch` that threw gives nothing. The laws: no call turns the clock back, and a wait takes at least
-- the time that it was asked to take.
pub record Timer (W A : Type 0) : Type 0 where
  pub now : W → ℕ
  pub fetch : Text → W → Option (Response A) × W
  pub wait : ℕ → W → W
  pub fetch_later : (url : Text) (w : W) → now w ≤ now (fetch url w).1
  pub wait_later : (n : ℕ) (w : W) → now w + n ≤ now (wait n w)

-- What is left of a poll: an answer of the enclave, the error of its `json()`, the error that the time
-- ran out, with the last status; `exhausted` if the fuel did not last.
pub data Polled (A : Type 0) : Type 0 where
  answered : A → Polled A
  json_threw : Text → Polled A
  timed_out : (last_status : ℕ) → Polled A
  exhausted : Polled A

-- `extProxyUrl.replace(/\/$/, '')`
unfoldable pub without_slash : Text → Text
without_slash [] = []
without_slash (c ∷ []) = if c == b'/' then [] else c ∷ []
without_slash (c ∷ d ∷ cs) = c ∷ without_slash (d ∷ cs)

unfoldable pub result_url : Text → Text → Text
unfolding without_slash
result_url ext_proxy_url instruction_id =
    without_slash ext_proxy_url ++ (codes "/action/result/" ++ instruction_id)

unfoldable pub status_of : {A : Type 0} → Option (Response A) → ℕ
status_of none = 0
status_of (some r) = r.status

-- The answer of one attempt, if the loop ends with it.
unfoldable pub final : {A : Type 0} → Option (Response A) → Option (Polled A)
final none = none
final (some r) =
    if r.is_ok then some (elim r.json [ ok v ↦ answered v | err e ↦ json_threw e ]) else none

module _ {W A : Type 0} (timer : Timer W A) (url : Text) (interval_ms deadline : ℕ) where
  -- The loop, on fuel.
  unfoldable pub poll : ℕ → (last_status : ℕ) → W → Polled A × W
  unfolding status_of final
  poll zero last w = (exhausted, w)
  poll (suc fuel) last w =
      let (response, w') = timer.fetch url w in
      let (rest, w'') = poll fuel (status_of response) (timer.wait interval_ms w') in
      if ltb (timer.now w) deadline
      then elim (final response) [ some result ↦ (result, w') | none ↦ (rest, w'') ]
      else (timed_out last, w)

-- With one round for each millisecond until the deadline, and one to see it.
unfoldable pub poll_action_result :
    {W A : Type 0}
    → Timer W A
    → (ext_proxy_url instruction_id : Text) → (timeout_ms interval_ms : ℕ) → W
    → Polled A × W
unfolding poll result_url
poll_action_result timer ext_proxy_url instruction_id timeout_ms interval_ms w =
    poll timer (result_url ext_proxy_url instruction_id) interval_ms (timer.now w + timeout_ms)
      (suc timeout_ms) 0 w
