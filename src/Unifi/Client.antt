-- ===== src/Unifi/Client.antt =====
-- unifi/client.ts and unifi/util.ts: a request to the controller, and the secret in what it says.
pub mod Redacted
use swamp_extensions.Common.{
  ℕ, zero, suc, ◌-◌, Bool, ◌&&◌, List, [], ◌∷◌, ◌++◌, Option, if◌then◌else◌, leb, ltb, length,
  is_empty,
}
use swamp_extensions.Common.Text.{Text, lit, join, starts_with, split_from}
use swamp_extensions.Common.Json.{Value}
use swamp_extensions.Common.Decimal.{decimal}
use swamp_extensions.Common.Action.{Result, returned, failed}

pub record UnifiOptions : Type 0 where
  pub controller_url : Text
  pub api_key : Text
  pub site : Text
  pub ca_cert : Option Text
  pub insecure_skip_tls_verify : Bool

pub record UnifiRequest : Type 0 where
  pub method : Text
  pub path : Text
  pub body : Option Value

-- What a transport gives: a response, or an error that it throws.
pub data Outcome : Type 0 where
  responded : (status : ℕ) (json : Value) → Outcome
  threw : Text → Outcome

pub redact_secret : Text → Text → Text
redact_secret text secret =
    if is_empty secret then text else join (lit "[REDACTED]") (split_from secret 0 [] text)

-- `fetch` with the state of the network is a function of the requests sent before;
-- `encodeURIComponent` and `JSON.stringify` are the runtime's.
pub record Runtime : Type 0 where
  pub transport : UnifiOptions → List UnifiRequest → UnifiRequest → Outcome
  pub encode_uri_component : Text → Text
  pub stringify : Value → Text

module _ (runtime : Runtime) where
  pub static_dns_path : Text → Text
  static_dns_path site =
      lit "/proxy/network/v2/api/site/" ++ (runtime.encode_uri_component site ++ lit "/static-dns")

  -- The value of a response, or an error where the status is not of the 200s.
  unfoldable pub accepted : UnifiOptions → UnifiRequest → Outcome → Result Value
  accepted opts req (threw message) = failed message
  accepted opts req (responded status json) =
      if leb 200 status && ltb status 300
      then returned json
      else failed (
          lit "UniFi "
          ++ (req.method
              ++ (lit " "
                  ++ (req.path
                      ++ (lit " failed (HTTP "
                          ++ (decimal status
                              ++ (lit "): "
                                  ++ redact_secret (runtime.stringify json) opts.api_key)))))))

  -- The requests sent so far, with this one, and its result.
  unfoldable pub unifi_request_ok :
      UnifiOptions → UnifiRequest → List UnifiRequest → List UnifiRequest × Result Value
  unifi_request_ok opts req sent =
      (sent ++ req ∷ [], accepted opts req (runtime.transport opts sent req))
