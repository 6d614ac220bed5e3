-- ===== src/Trust/Http/Bounds.antt =====
-- How often a request is made, and that the retries come to an end.
use swamp_extensions.Common.{
  refl, inl, inr, ℕ, zero, suc, Bool, true, false, ◌&&◌, List, ◌++◌, Option, none, some, arith,
  if◌then◌else◌, ltb, take, is_empty, Bool-cases,
}
use swamp_extensions.Common.Text.{Text, lit}
use swamp_extensions.Common.Json.{Number}
use swamp_extensions.Common.Number.{less_than, whole}
use swamp_extensions.Common.Action.{
  Result, returned, Action, pure, throw, ◌>>=◌, ◌>>◌, throw_if, lift, Result-cases,
}
use swamp_extensions.Common.Action.Costs.{
  AtMost, still-AtMost, ask-AtMost, free-AtMost, >>=-AtMost, if-AtMost,
}
use swamp_extensions.Trust.Http.Redact.{redact_secrets}
use swamp_extensions.Trust.Http.{
  FetchJsonOptions, Event, fetched, slept, HttpResponse, RawResponse, Fetched, responded, threw,
  Runtime, retries_of, is_ok, http_error, strip_url, retry_delay, rate_limit_wait, is_retryable,
  waiting, request_of, sleep, fetch, reading, wait_for, after_response, after_error, after_fetch,
  request_from, request_raw, max_rate_limit_wait_ms, too_long, raw_response, or_empty, fetch_json,
  parsed,
}

unfoldable pub is_fetch : Event → Bool
is_fetch (fetched q) = true
is_fetch (slept ms) = false

throw_if_free : (b : Bool) (e : Text) → AtMost is_fetch 0 (throw_if b e)
throw_if_free true e = still-AtMost is_fetch (throw e) 0 (λ sent. refl)
throw_if_free false e = still-AtMost is_fetch (pure tt) 0 (λ sent. refl)

pub pure_free : {A : Type 0} (a : A) (n : ℕ) → AtMost is_fetch n (pure a)
pure_free a n = still-AtMost is_fetch (pure a) n (λ sent. refl)

throw_free : (A : Type 0) (e : Text) (n : ℕ) → AtMost is_fetch {A = A} n (throw e)
throw_free A e n = still-AtMost is_fetch (throw {A = A} e) n (λ sent. refl)

pub lift_free : {A : Type 0} (x : Result A) → AtMost is_fetch 0 (lift x)
lift_free x = still-AtMost is_fetch (lift x) 0 (λ sent. refl)

reading_free : {A : Type 0} (r : Runtime) (f : List Event → A) → AtMost is_fetch 0 (reading r f)
reading_free r f = still-AtMost is_fetch (reading r f) 0 (λ sent. refl)

module _ (r : Runtime) (url : Text) (o : FetchJsonOptions) where
  sleep_free : (ms : Number) → AtMost is_fetch 0 (sleep r ms)
  unfolding is_fetch
  sleep_free ms = free-AtMost is_fetch (λ _ _. returned tt) (slept ms) refl

  waiting_free :
      (res : HttpResponse) (limit : Option Number) (delay : Number)
      → AtMost is_fetch 0 (waiting r res url limit delay)
  unfolding waiting
  waiting_free res none delay = pure_free delay 0
  waiting_free res (some w) delay =
      >>=-AtMost is_fetch
        (throw_if (less_than (whole max_rate_limit_wait_ms) w) (too_long r res.status url w))
        (λ _. pure w) 0 0 0 (omega arith) (throw_if_free _ _) (λ _. pure_free w 0)

  wait_for_free :
      (res : HttpResponse) (attempt : ℕ) → AtMost is_fetch 0 (wait_for r res url attempt)
  unfolding wait_for
  wait_for_free res attempt =
      >>=-AtMost is_fetch (reading r (rate_limit_wait r res.header))
        (λ limit. reading r (retry_delay r (suc attempt)) >>= waiting r res url limit) 0 0 0
        (omega arith) (reading_free r (rate_limit_wait r res.header))
        (λ limit.
          >>=-AtMost is_fetch (reading r (retry_delay r (suc attempt))) (waiting r res url limit) 0
            0 0 (omega arith) (reading_free r (retry_delay r (suc attempt)))
            (waiting_free res limit))

  slept_then :
      (again : Action Event RawResponse) (n : ℕ)
      → AtMost is_fetch n again
      → (ms : Number) → AtMost is_fetch n (sleep r ms >> again)
  slept_then again n h ms =
      >>=-AtMost is_fetch (sleep r ms) (λ _. again) 0 n n (omega arith) (sleep_free ms) (λ _. h)

  after_response-AtMost :
      (n attempt : ℕ) (again : Action Event RawResponse) (res : HttpResponse)
      → AtMost is_fetch n again
      → AtMost is_fetch n (after_response r url o attempt again res)
  unfolding after_response
  after_response-AtMost n attempt again res h =
      if-AtMost is_fetch (is_ok res.status)
        (lift res.body >>= λ body. pure (raw_response r res body))
        (if is_retryable r res && ltb attempt (retries_of o)
          then (wait_for r res url attempt >>= λ wait. sleep r wait >> again)
          else throw (http_error r res.status url (redact_secrets (take 300 (or_empty res.body)))))
        n
        (>>=-AtMost is_fetch (lift res.body) (λ body. pure (raw_response r res body)) 0 n n
          (omega arith) (lift_free res.body) (λ body. pure_free _ n))
        (if-AtMost is_fetch (is_retryable r res && ltb attempt (retries_of o))
          (wait_for r res url attempt >>= λ wait. sleep r wait >> again)
          (throw (http_error r res.status url (redact_secrets (take 300 (or_empty res.body))))) n
          (>>=-AtMost is_fetch (wait_for r res url attempt) (λ wait. sleep r wait >> again) 0 n n
            (omega arith) (wait_for_free res attempt) (slept_then again n h))
          (throw_free RawResponse _ n))

  after_error-AtMost :
      (n attempt : ℕ) (again : Action Event RawResponse) (e : Text)
      → AtMost is_fetch n again
      → AtMost is_fetch n (after_error r url o attempt again e)
  unfolding after_error
  after_error-AtMost n attempt again e h =
      if-AtMost is_fetch (ltb attempt (retries_of o))
        (reading r (retry_delay r (suc attempt)) >>= λ delay. sleep r delay >> again)
        (throw (lit "request to " ++ (strip_url r url ++ (lit " failed: " ++ redact_secrets e)))) n
        (>>=-AtMost is_fetch (reading r (retry_delay r (suc attempt)))
          (λ delay. sleep r delay >> again) 0 n n (omega arith)
          (reading_free r (retry_delay r (suc attempt))) (slept_then again n h))
        (throw_free RawResponse _ n)

  after_fetch-AtMost :
      (n attempt : ℕ) (again : Action Event RawResponse) (f : Fetched)
      → AtMost is_fetch n again
      → AtMost is_fetch n (after_fetch r url o attempt again f)
  after_fetch-AtMost n attempt again (responded res) h = after_response-AtMost n attempt again res h
  after_fetch-AtMost n attempt again (threw e) h = after_error-AtMost n attempt again e h

  request_from-AtMost :
      (n attempt : ℕ) (e : Text) → AtMost is_fetch n (request_from r url o (throw e) n attempt)
  unfolding request_from
  request_from-AtMost zero attempt e = throw_free RawResponse e 0
  request_from-AtMost (suc n) attempt e =
      >>=-AtMost is_fetch (fetch r (request_of r url o))
        (after_fetch r url o attempt (request_from r url o (throw e) n (suc attempt))) 1 n (suc n)
        (omega arith)
        (ask-AtMost is_fetch (λ sent _. returned (r.network sent (request_of r url o)))
          (fetched (request_of r url o)))
        (λ f. after_fetch-AtMost n attempt _ f (request_from-AtMost n (suc attempt) e))

  pub request_raw-AtMost : AtMost is_fetch (suc (retries_of o)) (request_raw r url o)
  unfolding request_raw
  request_raw-AtMost = request_from-AtMost (suc (retries_of o)) 0 _

  parsed_free : (raw : RawResponse) → AtMost is_fetch 0 (parsed r raw url)
  unfolding parsed
  parsed_free raw = elim (Bool-cases (is_empty raw.body)) [
    | inl e ↦ still-AtMost is_fetch (parsed r raw url) 0 (λ sent. rw e refl)
    | inr e ↦ elim (Result-cases (r.json_parse raw.body)) [
      | inl (v, f) ↦ still-AtMost is_fetch (parsed r raw url) 0 (λ sent. rw (e, f) refl)
      | inr (m, f) ↦ still-AtMost is_fetch (parsed r raw url) 0 (λ sent. rw (e, f) refl)
    ]
  ]

  pub fetch_json-AtMost : AtMost is_fetch (suc (retries_of o)) (fetch_json r url o)
  unfolding fetch_json
  fetch_json-AtMost =
      >>=-AtMost is_fetch (request_raw r url o) (λ raw. parsed r raw url) (suc (retries_of o)) 0
        (suc (retries_of o)) (omega arith) request_raw-AtMost parsed_free
