-- ===== src/Trust/Http/Pages.antt =====
-- trust-network/shared/http.ts: the pages of a list, over GitHub and over GCP.
pub mod Limit
use swamp_extensions.Common.{
  ℕ, zero, suc, Bool, true, false, not, ◌&&◌, List, [], ◌∷◌, ◌++◌, Option, none, some,
  if◌then◌else◌, is_empty, nat_beq, drop, truthy,
}
use swamp_extensions.Common.Text.{Text, lit, split_from, starts_with, is_space, drop_while}
use swamp_extensions.Common.Json.{
  Value, Entries, obj, arr, str, undefined, no_entry, no_item, to_list, get,
}
use swamp_extensions.Common.Action.{
  Result, returned, failed, Action, pure, throw, ◌>>=◌, ◌>>◌, lift,
}
use swamp_extensions.Trust.Http.{
  FetchJsonOptions, Event, RawResponse, Runtime, request_raw, fetch_json,
}

abbrev pub max_pages : ℕ
max_pages = 200

-- The text before the first `>`, and the text from it on.
to_close : Text → Text × Text
to_close [] = ([], [])
to_close (c ∷ s) =
    let (inside, rest) = to_close s in if nat_beq c b'>' then ([], c ∷ s) else (c ∷ inside, rest)

-- `/<([^>]+)>;\s*rel="next"/` behind its `<`.
link_target : Text → Option Text
link_target s =
    let (inside, rest) = to_close s in
    if not (is_empty inside)
      && starts_with rest (lit ">;")
      && starts_with (drop_while is_space (drop 2 rest)) (lit "rel=\"next\"")
    then some inside
    else none

pub link_match : Text → Option Text
link_match [] = none
link_match (c ∷ s) =
    let more = link_match s in
    if nat_beq c b'<' then elim (link_target s) [ some t ↦ some t | none ↦ more ] else more

first_match : List Text → Option Text
first_match [] = none
first_match (t ∷ ts) = elim (link_match t) [ some u ↦ some u | none ↦ first_match ts ]

pub parse_next_link : Option Text → Option Text
parse_next_link none = none
parse_next_link (some t) = if is_empty t then none else first_match (split_from (lit ",") 0 [] t)

-- `body?.[key]`.
abbrev member : Text → Value → Value
member key (obj es) = get key es
member key _ = undefined

abbrev items_of : Value → List Value
items_of (arr vs) = to_list vs
items_of _ = []

-- The items of a page: the body, or its member of a key.
abbrev pub page_items : Option Text → Value → List Value
page_items none body = items_of body
page_items (some key) body = if is_empty key then items_of body else items_of (member key body)

-- What an empty body stands for.
empty_body : Option Text → Value
empty_body key = if truthy key then obj no_entry else arr no_item

module _ (r : Runtime) (o : FetchJsonOptions) where
  pub github_body : Option Text → RawResponse → Action Event Value
  github_body key raw =
      if is_empty raw.body then pure (empty_body key) else lift (r.json_parse raw.body)

  -- The loop, for the pages that are left, with the items so far.
  pub github_pages :
      (pages : ℕ) → Option Text → Option Text → List Value → Action Event (List Value)
  github_pages zero key next out = pure out
  github_pages (suc n) key none out = pure out
  github_pages (suc n) key (some url) out =
      if is_empty url
      then pure out
      else (request_raw r url o >>= λ raw. github_body key raw >>= λ body.
          github_pages n key (parse_next_link (raw.header (lit "link")))
            (out ++ page_items key body))

  pub fetch_github_paginated : Text → Option Text → Action Event (List Value)
  fetch_github_paginated url key = github_pages max_pages key (some url) []

  abbrev pub gcp_items : Text → Option Value → List Value
  gcp_items key none = []
  gcp_items key (some body) = items_of (member key body)

  text_of : Value → Option Text
  text_of (str t) = if is_empty t then none else some t
  text_of _ = none

  -- The token of the next page, where it is a text that is not empty.
  pub next_token : Option Value → Option Text
  next_token none = none
  next_token (some body) = text_of (member (lit "nextPageToken") body)

  pub gcp_pages : (pages : ℕ) → Text → Text → Option Text → List Value → Action Event (List Value)
  gcp_pages zero url key token out = pure out
  gcp_pages (suc n) url key token out = lift (r.page_url url token) >>= λ page.
      fetch_json r page o >>= λ body. elim (next_token body) [
        | none ↦ pure (out ++ gcp_items key body)
        | some t ↦ gcp_pages n url key (some t) (out ++ gcp_items key body)
      ]

  pub fetch_gcp_paginated : Text → Text → Action Event (List Value)
  fetch_gcp_paginated url key = gcp_pages max_pages url key none []
