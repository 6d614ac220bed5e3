-- ===== src/Cloudflare/Witness.antt =====
-- The theorems on the scan at a sample account.
use swamp_extensions.Common.{◌≡◌, ◌+◌, [], ◌∷◌, none, some, tally_of}
use swamp_extensions.Common.Text.{lit}
use swamp_extensions.Common.Number.{whole}
use swamp_extensions.Cloudflare.Scan.{RawApp, Client, scan_accounts, summary_of}
use swamp_extensions.Cloudflare.Scan.Counted.{
  written_as, scan_accounts-IsCounted, scan_accounts_targets,
}

abbrev wiki : RawApp
wiki = record {
  id = lit "a1";
  name = some (lit "wiki");
  domain = some (lit "wiki.example.net");
  kind = some (lit "self_hosted");
  allowed_idps = none;
  saas_auth_type = none;
}

-- An account with one application, whose policies cannot be read, and a list of tokens that fails.
abbrev client : Client
client = record {
  applications = λ _. (wiki ∷ [], none);
  policies = λ _ _. ([], some (lit "403 Forbidden"));
  identity_providers = λ _. ([], none);
  service_tokens = λ _. ([], some (lit "timeout"));
  certificates = λ _. ([], none);
  protocol_of = λ _. some (lit "https:");
  date_parse = λ _. whole 0;
  now_ms = whole 0;
  now = lit "2026-06-09T00:00:00Z";
}

scan_accounts-IsCounted_example :
    tally_of
      (lit "access_app")
      (summary_of client (scan_accounts client (lit "acc" ∷ []))).resource_counts
    ≡ written_as (lit "access_app") (scan_accounts client (lit "acc" ∷ [])).written
scan_accounts-IsCounted_example = scan_accounts-IsCounted client (lit "access_app") (lit "acc" ∷ [])

scan_accounts_targets_example :
    (summary_of client (scan_accounts client (lit "acc" ∷ []))).targets_scanned
      + (summary_of client (scan_accounts client (lit "acc" ∷ []))).targets_failed
    ≡ 1
scan_accounts_targets_example = scan_accounts_targets client (lit "acc" ∷ [])
