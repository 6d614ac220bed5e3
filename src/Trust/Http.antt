-- ===== src/Trust/Http.antt =====
-- trust-network/shared/http.ts: a request with retries. What is fetched and the times slept are the
-- events of a run; messages to `onRetry` are left out.
pub mod Redact
pub mod Pages
pub mod Bounds
pub mod Unreachable
mod Witness
use swamp_extensions.Common.{
  ℕ, zero, suc, ◌+◌, ◌-◌, ◌*◌, ◌^◌, Bool, true, false, not, ◌&&◌, ◌||◌, List, [], ◌∷◌, ◌++◌, Option,
  none, some, if◌then◌else◌, get_or, ltb, leb, nat_beq, is_empty, take, truthy, ◌==◌, text_test,
}
use swamp_extensions.Common.Text.{Text, lit, split_from, drop_trailing}
use swamp_extensions.Common.Decimal.{decimal}
use swamp_extensions.Common.Json.{Number, Value}
use swamp_extensions.Common.Number.{
  whole, is_finite, less_than, plus, times, negated, rounded_thousandth,
}
use swamp_extensions.Common.Action.{
  Result, returned, failed, Action, pure, throw, ◌>>=◌, ◌>>◌, ask, throw_if, lift,
}
use swamp_extensions.Trust.Http.Redact.{redact_secrets}

pub record FetchJsonOptions : Type 0 where
  pub method : Option Text
  pub headers : List (Text × Text)
  pub body : Option Value
  pub timeout_ms : Option ℕ
  pub max_retries : Option ℕ

pub record HttpRequest : Type 0 where
  pub url : Text
  pub method : Text
  pub headers : List (Text × Text)
  pub body : Option Text
  pub timeout_ms : ℕ

pub data Event : Type 0 where
  fetched : HttpRequest → Event
  slept : Number → Event

-- A response; reading its body may fail.
pub record HttpResponse : Type 0 where
  pub status : ℕ
  pub header : Text → Option Text
  pub body : Result Text

pub record RawResponse : Type 0 where
  pub status : ℕ
  pub header : Text → Option Text
  pub body : Text

-- What `fetch` gives: a response, or an error that it throws.
pub data Fetched : Type 0 where
  responded : HttpResponse → Fetched
  threw : Text → Fetched

-- The runtime, by the events before: the network, the clock and the jitter of a delay; `Number` and
-- `Date.parse` of a text, `String` of a number, JSON, and the parts of a URL.
pub record Runtime : Type 0 where
  pub network : List Event → HttpRequest → Fetched
  pub now : List Event → Number
  pub jitter : List Event → ℕ
  pub number_of : Text → Number
  pub date_parse : Text → Number
  pub number_text : Number → Text
  pub stringify : Value → Text
  pub json_parse : Text → Result Value
  pub origin_path : Text → Option Text
  pub page_url : Text → Option Text → Result Text

abbrev pub retry_max_delay_ms : ℕ
retry_max_delay_ms = 20000

abbrev pub retry_base_ms : ℕ
retry_base_ms = 1000

abbrev pub max_rate_limit_wait_ms : ℕ
max_rate_limit_wait_ms = 90000

abbrev pub retries_of : FetchJsonOptions → ℕ
retries_of o = get_or o.max_retries 4

abbrev smaller : ℕ → ℕ → ℕ
smaller a b = if ltb b a then b else a

-- `Math.max(0, x)` of a finite number.
abbrev at_least_zero : Number → Number
at_least_zero x = if less_than x (whole 0) then whole 0 else x

-- `res.ok`.
abbrev pub is_ok : ℕ → Bool
is_ok status = leb 200 status && leb status 299

abbrev first_piece : List Text → Text
first_piece [] = []
first_piece (t ∷ ts) = t

abbrev pub or_empty : Result Text → Text
or_empty (returned t) = t
or_empty (failed e) = []

abbrev is_zero_text : Option Text → Bool
is_zero_text none = false
is_zero_text (some t) = t == lit "0"

module _ (r : Runtime) where
  pub strip_url : Text → Text
  strip_url raw = get_or (r.origin_path raw) (first_piece (split_from (lit "?") 0 [] raw))

  pub http_error : ℕ → Text → Text → Text
  http_error status url snippet =
      lit "HTTP " ++ (decimal status ++ (lit " for " ++ (strip_url url ++ (lit " — " ++ snippet))))

  pub retry_delay : ℕ → List Event → Number
  retry_delay attempt events =
      whole (smaller retry_max_delay_ms (retry_base_ms * 2 ^ (attempt - 1)) + r.jitter events)

  reset_number : Option Text → Number
  reset_number none = whole 0
  reset_number (some t) = r.number_of t

  -- The time until the limit is lifted, by `x-ratelimit-reset`; `Number(null)` is 0.
  reset_wait : (Text → Option Text) → List Event → Option Number
  reset_wait header events =
      let reset = reset_number (header (lit "x-ratelimit-reset")) in
      if is_zero_text (header (lit "x-ratelimit-remaining")) && is_finite reset
      then some (at_least_zero (plus (times reset 1000) (negated (r.now events))))
      else none

  -- The time of `Retry-After`, in seconds or as a date.
  retry_after : Text → List Event → Option Number
  retry_after t events =
      if is_finite (r.number_of t)
      then some (at_least_zero (times (r.number_of t) 1000))
      else if is_finite (r.date_parse t)
      then some (at_least_zero (plus (r.date_parse t) (negated (r.now events))))
      else none

  pub rate_limit_wait : (Text → Option Text) → List Event → Option Number
  rate_limit_wait header events = elim (header (lit "retry-after")) [
    | none ↦ reset_wait header events
    | some t ↦
        if is_empty t
        then reset_wait header events
        else elim (retry_after t events) [ none ↦ reset_wait header events | some w ↦ some w ]
  ]

  pub is_retryable : HttpResponse → Bool
  is_retryable res =
      nat_beq res.status 429
      || leb 500 res.status
      || (nat_beq res.status 403 && is_zero_text (res.header (lit "x-ratelimit-remaining")))

  pub request_of : Text → FetchJsonOptions → HttpRequest
  request_of url o = record {
    url = url;
    method = get_or o.method (lit "GET");
    headers = o.headers;
    body = elim o.body [ none ↦ none | some v ↦ some (r.stringify v) ];
    timeout_ms = get_or o.timeout_ms 30000;
  }

  abbrev pub sleep : Number → Action Event (Unit {0})
  sleep ms = ask (λ _ _. returned tt) (slept ms)

  abbrev pub fetch : HttpRequest → Action Event Fetched
  fetch req = ask (λ sent e. returned (r.network sent req)) (fetched req)

  abbrev pub reading : {A : Type 0} → (List Event → A) → Action Event A
  reading f events = (events, returned (f events))

  too_long : ℕ → Text → Number → Text
  too_long status url wait = http_error status url (
      lit "rate limited; resets in ~"
      ++ (r.number_text (rounded_thousandth wait) ++ lit "s — retry the scan later"))

  -- The wait that the answer asks for, if it is not too long, and else the delay.
  pub waiting : HttpResponse → Text → Option Number → Number → Action Event Number
  waiting res url none delay = pure delay
  waiting res url (some w) delay = do
    throw_if (less_than (whole max_rate_limit_wait_ms) w) (too_long res.status url w)
    pure w

  -- The wait before another attempt, which the answer may ask for.
  pub wait_for : HttpResponse → Text → ℕ → Action Event Number
  wait_for res url attempt = do
    limit ← reading (rate_limit_wait res.header)
    delay ← reading (retry_delay (suc attempt))
    waiting res url limit delay

  abbrev pub raw_response : HttpResponse → Text → RawResponse
  raw_response res body = record { status = res.status; header = res.header; body = body }

  -- A response, and the loop from the next attempt on.
  pub after_response :
      Text
      → FetchJsonOptions
      → ℕ
      → Action Event RawResponse
      → HttpResponse
      → Action Event RawResponse
  after_response url o attempt again res =
      if is_ok res.status
      then (lift res.body >>= λ body. pure (raw_response res body))
      else if is_retryable res && ltb attempt (retries_of o)
      then (wait_for res url attempt >>= λ wait. sleep wait >> again)
      else throw (http_error res.status url (redact_secrets (take 300 (or_empty res.body))))

  -- A fetch that threw.
  pub after_error :
      Text → FetchJsonOptions → ℕ → Action Event RawResponse → Text → Action Event RawResponse
  after_error url o attempt again e =
      if ltb attempt (retries_of o)
      then (reading (retry_delay (suc attempt)) >>= λ delay. sleep delay >> again)
      else throw (lit "request to " ++ (strip_url url ++ (lit " failed: " ++ redact_secrets e)))

  abbrev pub after_fetch :
      Text → FetchJsonOptions → ℕ → Action Event RawResponse → Fetched → Action Event RawResponse
  after_fetch url o attempt again f = elim f [
    | responded res ↦ after_response url o attempt again res
    | threw e ↦ after_error url o attempt again e
  ]

  -- The loop from an attempt on, for the rounds that are left, and what is behind the loop.
  pub request_from :
      Text
      → FetchJsonOptions
      → Action Event RawResponse
      → (rounds attempt : ℕ) → Action Event RawResponse
  request_from url o behind zero attempt = behind
  request_from url o behind (suc n) attempt =
      fetch (request_of url o)
      >>= after_fetch url o attempt (request_from url o behind n (suc attempt))

  pub request_raw : Text → FetchJsonOptions → Action Event RawResponse
  request_raw url o =
      request_from url o (throw (http_error 0 url (lit "request exhausted retries")))
        (suc (retries_of o)) 0

  parsed : RawResponse → Text → Action Event (Option Value)
  parsed raw url = if is_empty raw.body then pure none else elim (r.json_parse raw.body) [
    | returned v ↦ pure (some v)
    | failed e ↦ throw (http_error raw.status url (lit "response body was not valid JSON"))
  ]

  -- The answer's JSON; an empty body is `undefined`, which is none.
  pub fetch_json : Text → FetchJsonOptions → Action Event (Option Value)
  fetch_json url o = do raw ← request_raw url o; parsed raw url
