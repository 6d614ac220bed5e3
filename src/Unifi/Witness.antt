-- ===== src/Unifi/Witness.antt =====
-- The theorems on the DNS records at a sample controller.
use swamp_extensions.Common.{
  ◌≡◌, refl, true, false, List, [], none, some, find, text_beq, is_empty, All,
}
use swamp_extensions.Common.Text.{Text, lit, join, includes, split_from, to_upper, to_lower, trim}
use swamp_extensions.Common.Json.{Number, Value, obj, arr, str, entry, no_entry, item, no_item, get}
use swamp_extensions.Unifi.Parse.{
  normalize_records, is_same_record, find_existing, record_of, raw_list, as_string,
}
use swamp_extensions.Unifi.Client.{
  UnifiOptions, UnifiRequest, Outcome, responded, Runtime, redact_secret,
}
use swamp_extensions.Unifi.Client.Redacted.{pieces-redact_secret}
use swamp_extensions.Unifi.Dns.{UpsertArgs, DeleteArgs, id_of}

abbrev now : Text
now = lit "2026-06-09T00:00:00Z"

-- A controller with one record, which answers each request with its list.
abbrev dns_list : Value
dns_list = arr (
    item
      (obj (
        entry (lit "_id") (str (lit "65f")) (
          entry (lit "key") (str (lit "Omni.example.net")) (
            entry (lit "record_type") (str (lit "a"))
              (entry (lit "value") (str (lit "192.0.2.7")) no_entry)))))
      no_item)

abbrev answer : UnifiOptions → List UnifiRequest → UnifiRequest → Outcome
answer _ _ _ = responded 200 dns_list

abbrev runtime : Runtime
runtime = record { transport = answer; encode_uri_component = λ t. t; stringify = λ _. lit "{}" }

abbrev number_text : Number → Text
number_text _ = lit "0"

abbrev string_of : Value → Text
string_of (str t) = t
string_of _ = lit "[object Object]"

abbrev options : UnifiOptions
options = record {
  controller_url = lit "https://192.0.2.1";
  api_key = lit "key";
  site = lit "default";
  ca_cert = none;
  insecure_skip_tls_verify = false;
}

abbrev upsert_args : UpsertArgs
upsert_args = record {
  key = lit " omni.example.net";
  record_type = lit "A";
  value = lit "192.0.2.8";
  enabled = true;
}

abbrev delete_args : DeleteArgs
delete_args = record { key = lit "omni.example.net"; record_type = lit "A" }

has_key : is_empty options.api_key ≡ false
unfolding lit
has_key = refl

id_test :
    id_of (
      find_existing
        (normalize_records number_text dns_list now)
        upsert_args.key
        upsert_args.record_type)
    ≡ some (lit "65f")
unfolding id_of find_existing find is_same_record normalize_records record_of raw_list as_string get
    text_beq lit trim to_lower to_upper
id_test = refl

pieces-redact_secret_example :
    (redact_secret (lit "bad key: key") (lit "key")
      ≡ join (lit "[REDACTED]") (split_from (lit "key") 0 [] (lit "bad key: key")))
    × (join (lit "key") (split_from (lit "key") 0 [] (lit "bad key: key")) ≡ lit "bad key: key")
    × All (λ t. includes t (lit "key") ≡ false) (split_from (lit "key") 0 [] (lit "bad key: key"))
pieces-redact_secret_example = pieces-redact_secret (lit "bad key: key") (lit "key") has_key
