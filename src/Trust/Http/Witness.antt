-- ===== src/Trust/Http/Witness.antt =====
-- The theorems on requests at a sample network.
use swamp_extensions.Common.{◌≡◌, refl, suc, ◌*◌, ◌≤◌, [], none, some, count}
use swamp_extensions.Common.Text.{Text, lit}
use swamp_extensions.Common.Json.{nan}
use swamp_extensions.Common.Number.{whole}
use swamp_extensions.Common.Action.{returned, failed, throw}
use swamp_extensions.Trust.Http.{FetchJsonOptions, responded, Runtime, retries_of, request_from}
use swamp_extensions.Trust.Http.Bounds.{is_fetch}
use swamp_extensions.Trust.Http.Unreachable.{request_from_behind}
use swamp_extensions.Trust.Http.Pages.{fetch_github_paginated, fetch_gcp_paginated}
use swamp_extensions.Trust.Http.Pages.Limit.{paginated_limit}

-- A service that is always busy.
abbrev busy : Runtime
busy = record {
  network =
      λ _ _. responded (record { status = 503; header = λ _. none; body = returned (lit "busy") });
  now = λ _. whole 0;
  jitter = λ _. 0;
  number_of = λ _. nan;
  date_parse = λ _. nan;
  number_text = λ _. lit "0";
  stringify = λ _. lit "{}";
  json_parse = λ _. failed (lit "no JSON");
  origin_path = λ url. some url;
  page_url = λ url _. returned url;
}

abbrev options : FetchJsonOptions
options = record {
  method = none;
  headers = [];
  body = none;
  timeout_ms = none;
  max_retries = some 2;
}

abbrev url : Text
url = lit "https://api.example.net/pools"

request_from_behind_example :
    request_from busy url options (throw (lit "behind")) 3 0
    ≡ request_from busy url options (throw []) 3 0
request_from_behind_example =
    request_from_behind busy url options (throw (lit "behind")) (throw []) 2 0 refl

paginated_limit_example :
    (count is_fetch (fetch_github_paginated busy options url none []).0
      ≤ 200 * suc (retries_of options))
    × (count is_fetch (fetch_gcp_paginated busy options url (lit "pools") []).0
        ≤ 200 * suc (retries_of options))
paginated_limit_example = paginated_limit busy options url (lit "pools") none
