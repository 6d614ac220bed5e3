-- ===== src/Trust/Naming.antt =====
-- trust-network/shared/schema.ts: stableHash, sanitizeInstanceName and trustEdgeId.
pub mod Shape
use Prim.Native.Nat.{bit_xor}
use swamp_extensions.Common.{
  ℕ, zero, suc, ◌≡◌, refl, ◌+◌, ◌-◌, ◌*◌, ◌/◌, ◌%◌, ◌^◌, Bool, true, false, not, ◌&&◌, ◌||◌, List,
  [], ◌∷◌, ◌++◌, if◌then◌else◌, ltb, leb, nat_beq, length, take, is_empty,
}
use swamp_extensions.Common.Text.{Text, lit, to_lower, drop_while, drop_trailing, join}
use swamp_extensions.Trust.Schema.{CredentialType}
use swamp_extensions.Trust.Schema.Names.{credential_name}

-- One round of the FNV-1a loop. `^=` and `Math.imul` leave a signed 32-bit number, which stands
-- for this one modulo 2^32; `>>> 0` reads it so.
hash_step : ℕ → ℕ → ℕ
hash_step h c = bit_xor h c * 0x01000193 % 2 ^ 32

hash_from : ℕ → Text → ℕ
hash_from h [] = h
hash_from h (c ∷ s) = hash_from (hash_step h c) s

hex_digit : ℕ → ℕ
hex_digit d = if ltb d 10 then 48 + d else 87 + d

-- `toString(16)` and `padStart(8, "0")` together, for a number below 16 ^ k: its k last digits.
hex_padded : ℕ → ℕ → Text → Text
hex_padded zero n rest = rest
hex_padded (suc k) n rest = hex_padded k (n / 16) (hex_digit (n % 16) ∷ rest)

unfoldable pub stable_hash : Text → Text
unfolding hash_from hash_step hex_padded hex_digit
stable_hash input = hex_padded 8 (hash_from 0x811c9dc5 input) []

abbrev pub is_alnum : ℕ → Bool
is_alnum c = (leb b'a' c && leb c b'z') || (leb b'0' c && leb c b'9')

-- `replace(/[^a-z0-9]+/g, "-")`: each maximal run of other units becomes one dash. The flag says
-- whether the unit before is in such a run.
dash_runs : Bool → Text → Text
dash_runs inside [] = []
dash_runs inside (c ∷ s) =
    let rest = dash_runs (not (is_alnum c)) s in
    if is_alnum c then c ∷ rest else if inside then rest else b'-' ∷ rest

abbrev pub is_dash : ℕ → Bool
is_dash c = nat_beq c b'-'

-- `replace(/^-+|-+$/g, "")`.
trim_dashes : Text → Text
trim_dashes s = drop_trailing is_dash (drop_while is_dash s)

pub cleaned : Text → Text
unfolding dash_runs trim_dashes
cleaned raw = trim_dashes (dash_runs false (to_lower raw))

bounded : Text → Text → Text
bounded raw clean =
    if is_empty clean
    then lit "unnamed"
    else if leb (length clean) 100
    then clean
    else take 91 clean ++ (lit "-" ++ stable_hash raw)

unfoldable pub sanitize_instance_name : Text → Text
unfolding cleaned bounded stable_hash to_lower drop_while drop_trailing lit
sanitize_instance_name raw = bounded raw (cleaned raw)

pub record EdgeParts : Type 0 where
  pub source_domain_id : Text
  pub source_label : Text
  pub target_domain_id : Text
  pub target_label : Text
  pub source_issuer : Text
  pub credential_type : CredentialType

unfoldable pub trust_edge_id : EdgeParts → Text
unfolding stable_hash join lit
trust_edge_id p =
    lit "edge-"
    ++ stable_hash (
        join (lit "|") (
          p.source_domain_id
          ∷ p.source_label
          ∷ p.target_domain_id
          ∷ p.target_label
          ∷ p.source_issuer
          ∷ credential_name p.credential_type
          ∷ []))

hash_test : stable_hash (lit "a") ≡ lit "e40c292c"
unfolding stable_hash lit
hash_test = refl

name_test : sanitize_instance_name (lit "--GitHub:Org/Acme  Inc.") ≡ lit "github-org-acme-inc"
unfolding sanitize_instance_name
name_test = refl
