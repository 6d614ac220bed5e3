-- ===== src/Trust/Http/Pages/Limit.antt =====
-- How many requests the pages of a list take.
use swamp_extensions.Common.{
  refl, inl, inr, ℕ, zero, suc, ◌+◌, ◌*◌, ◌≤◌, List, [], ◌++◌, Option, none, some, arith, count,
  is_empty, Bool-cases,
}
use swamp_extensions.Common.Text.{Text, lit}
use swamp_extensions.Common.Json.{Value}
use swamp_extensions.Common.Action.{Action, pure, ◌>>=◌, lift}
use swamp_extensions.Common.Action.Costs.{AtMost, still-AtMost, >>=-AtMost, if-AtMost}
use swamp_extensions.Trust.Http.{
  FetchJsonOptions, Event, RawResponse, Runtime, retries_of, request_raw, fetch_json,
}
use swamp_extensions.Trust.Http.Bounds.{
  is_fetch, pure_free, lift_free, request_raw-AtMost, fetch_json-AtMost,
}
use swamp_extensions.Trust.Http.Pages.{
  parse_next_link, page_items, github_body, github_pages, fetch_github_paginated, gcp_items,
  next_token, gcp_pages, fetch_gcp_paginated,
}

one_more : (n k : ℕ) → suc k + n * suc k ≤ suc n * suc k
one_more n k = grind arith

module _ (r : Runtime) (o : FetchJsonOptions) where
  github_body_free :
      (key : Option Text) (raw : RawResponse) → AtMost is_fetch 0 (github_body r o key raw)
  unfolding github_body
  github_body_free key raw = elim (Bool-cases (is_empty raw.body)) [
    | inl e ↦ still-AtMost is_fetch (github_body r o key raw) 0 (λ sent. rw e refl)
    | inr e ↦ still-AtMost is_fetch (github_body r o key raw) 0 (λ sent. rw e refl)
  ]

  github_pages-AtMost :
      (n : ℕ) (key next : Option Text) (out : List Value)
      → AtMost is_fetch (n * suc (retries_of o)) (github_pages r o n key next out)
  unfolding github_pages
  github_pages-AtMost zero key next out = pure_free out _
  github_pages-AtMost (suc n) key none out = pure_free out _
  github_pages-AtMost (suc n) key (some url) out =
      if-AtMost is_fetch (is_empty url) (pure out) (request_raw r url o >>= read)
        (suc n * suc (retries_of o)) (pure_free out _)
        (>>=-AtMost is_fetch (request_raw r url o) read (suc (retries_of o))
          (n * suc (retries_of o)) (suc n * suc (retries_of o)) (one_more n (retries_of o))
          (request_raw-AtMost r url o)
          (λ raw.
            >>=-AtMost is_fetch (github_body r o key raw) (rest raw) 0 (n * suc (retries_of o))
              (n * suc (retries_of o)) (omega arith) (github_body_free key raw)
              (λ body.
                github_pages-AtMost n key (parse_next_link (raw.header (lit "link")))
                  (out ++ page_items key body))))
    where
      rest : RawResponse → Value → Action Event (List Value)
      rest raw body =
          github_pages r o n key (parse_next_link (raw.header (lit "link")))
            (out ++ page_items key body)

      read : RawResponse → Action Event (List Value)
      read raw = github_body r o key raw >>= rest raw

  gcp_pages-AtMost :
      (n : ℕ) (url key : Text) (token : Option Text) (out : List Value)
      → AtMost is_fetch (n * suc (retries_of o)) (gcp_pages r o n url key token out)
  unfolding gcp_pages
  gcp_pages-AtMost zero url key token out = pure_free out _
  gcp_pages-AtMost (suc n) url key token out =
      >>=-AtMost is_fetch (lift (r.page_url url token)) (λ page. fetch_json r page o >>= next) 0
        (suc n * suc (retries_of o)) (suc n * suc (retries_of o)) (omega arith)
        (lift_free (r.page_url url token))
        (λ page.
          >>=-AtMost is_fetch (fetch_json r page o) next (suc (retries_of o))
            (n * suc (retries_of o)) (suc n * suc (retries_of o)) (one_more n (retries_of o))
            (fetch_json-AtMost r page o)
            (λ body.
              followed (λ t more. gcp_pages-AtMost n url key (some t) more) body
                (next_token r o body)))
    where
      follow : Option Value → Option Text → Action Event (List Value)
      follow body t = elim t [
        | none ↦ pure (out ++ gcp_items r o key body)
        | some u ↦ gcp_pages r o n url key (some u) (out ++ gcp_items r o key body)
      ]

      next : Option Value → Action Event (List Value)
      next body = follow body (next_token r o body)

      followed :
          ((t : Text) (more : List Value)
            → AtMost is_fetch (n * suc (retries_of o)) (gcp_pages r o n url key (some t) more))
          → (body : Option Value) (t : Option Text)
          → AtMost is_fetch (n * suc (retries_of o)) (follow body t)
      followed h body none = pure_free _ _
      followed h body (some t) = h t _

  fetch_github_paginated_limit :
      (url : Text) (key : Option Text)
      → count is_fetch (fetch_github_paginated r o url key []).0 ≤ 200 * suc (retries_of o)
  unfolding fetch_github_paginated AtMost count
  fetch_github_paginated_limit url key = omega (arith, github_pages-AtMost 200 key (some url) [] [])

  fetch_gcp_paginated_limit :
      (url key : Text)
      → count is_fetch (fetch_gcp_paginated r o url key []).0 ≤ 200 * suc (retries_of o)
  unfolding fetch_gcp_paginated AtMost count
  fetch_gcp_paginated_limit url key = omega (arith, gcp_pages-AtMost 200 url key none [] [])

  -- A list of GitHub and a list of GCP each take at most 200 pages, and each page one request and the
  -- retries that are allowed, whatever the service answers.
  pub paginated_limit :
      (url key : Text) (items_key : Option Text)
      → (count is_fetch (fetch_github_paginated r o url items_key []).0 ≤ 200 * suc (retries_of o))
        × (count is_fetch (fetch_gcp_paginated r o url key []).0 ≤ 200 * suc (retries_of o))
  paginated_limit url key items_key =
      (fetch_github_paginated_limit url items_key, fetch_gcp_paginated_limit url key)
