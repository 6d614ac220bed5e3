-- ===== src/Trust/Http/Unreachable.antt =====
-- The loop of a request returns or throws in its rounds.
use mathlib.Core.Path.{fun_ext}
use swamp_extensions.Common.{
  ◌≡◌, refl, ap, inl, inr, ℕ, zero, suc, ◌+◌, false, arith, ltb, Bool-cases,
}
use swamp_extensions.Common.Text.{Text}
use swamp_extensions.Common.Action.{Action, ◌>>=◌}
use swamp_extensions.Trust.Http.{
  FetchJsonOptions, Event, RawResponse, Fetched, responded, threw, Runtime, retries_of,
  is_retryable, fetch, request_of, after_response, after_error, after_fetch, request_from,
}

module _ (r : Runtime) (url : Text) (o : FetchJsonOptions) where
  last_attempt :
      (attempt : ℕ) (b c : Action Event RawResponse) (f : Fetched)
      → ltb attempt (retries_of o) ≡ false
      → after_fetch r url o attempt b f ≡ after_fetch r url o attempt c f
  unfolding after_response after_error
  last_attempt attempt b c (threw e) h = rw h refl
  last_attempt attempt b c (responded res) h = elim (Bool-cases (is_retryable r res)) [
    | inl e ↦ rw (e, h) refl
    | inr e ↦ rw e refl
  ]

  -- From an attempt that the retries allow, with the rounds that are left, what stands behind the
  -- loop makes no difference: the loop ends by itself.
  pub request_from_behind :
      (b c : Action Event RawResponse) (n attempt : ℕ)
      → attempt + n ≡ retries_of o
      → request_from r url o b (suc n) attempt ≡ request_from r url o c (suc n) attempt
  unfolding request_from
  request_from_behind b c zero attempt h =
      ap (λ f. fetch r (request_of r url o) >>= f)
        (fun_ext (λ f. last_attempt attempt b c f (ground arith)))
  request_from_behind b c (suc n) attempt h =
      ap (λ again. fetch r (request_of r url o) >>= after_fetch r url o attempt again)
        (request_from_behind b c n (suc attempt) (omega arith))
