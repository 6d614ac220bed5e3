-- ===== src/Unifi/Dns.antt =====
-- unifi/dns.ts: the methods of the model. Each gives the requests sent, in order, and the resources
-- written, or the message of the error that it throws.
pub mod Requests
use swamp_extensions.Common.{
  Bool, true, false, List, [], ◌∷◌, ◌++◌, Option, none, some, map, if◌then◌else◌, get_or, find,
  head?, take, is_empty, ◌==◌, text_test, text_beq,
}
use swamp_extensions.Common.Text.{Text, lit, to_upper}
use swamp_extensions.Common.Json.{
  Number, Value, Entries, obj, str, num, bool, entry, no_entry, get, with_entry,
}
use swamp_extensions.Trust.Naming.{cleaned}
use swamp_extensions.Unifi.Parse.{
  DnsRecord, raw_list, normalize_record, normalize_records, find_existing,
}
use swamp_extensions.Common.Action.{Result, returned, failed}
use swamp_extensions.Unifi.Client.{
  UnifiOptions, UnifiRequest, Runtime, static_dns_path, unifi_request_ok,
}

pub record UpsertArgs : Type 0 where
  pub key : Text
  pub record_type : Text
  pub value : Text
  pub enabled : Bool

pub record DeleteArgs : Type 0 where
  pub key : Text
  pub record_type : Text

-- The names and the records of the resources that are written.
abbrev pub Written : Type 0
Written = List (Text × DnsRecord)

-- Go on with the value, where there was no error.
pub and_then :
    {A B : Type 0}
    → List UnifiRequest × Result A
    → (List UnifiRequest → A → List UnifiRequest × Result B)
    → List UnifiRequest × Result B
and_then (sent, returned a) next = next sent a
and_then (sent, failed message) next = (sent, failed message)

-- `existing?.id`, where it is not empty.
unfoldable pub id_of : Option DnsRecord → Option Text
id_of none = none
id_of (some r) = elim r.id [ none ↦ none | some id ↦ if is_empty id then none else some id ]

pub body_of : Entries → UpsertArgs → Text → Value
body_of raw args record_type = obj (
    with_entry (lit "enabled") (bool args.enabled) (
      with_entry (lit "value") (str args.value) (
        with_entry (lit "record_type") (str record_type)
          (with_entry (lit "key") (str args.key) raw))))

-- sanitizeInstanceName of unifi/schema.ts, which cuts a long name and adds no hash.
pub clipped_instance_name : Text → Text
clipped_instance_name raw =
    let clean = cleaned raw in if is_empty clean then lit "unnamed" else take 100 clean

-- `string_of` is `String` of a value, and `number_text` that of a number.
module _ (runtime : Runtime) (number_text : Number → Text) (string_of : Value → Text)
    (g : UnifiOptions) (now : Text) where
  pub record_instance_name : Text → Text → Text
  record_instance_name record_type key =
      lit "dns-" ++ clipped_instance_name (record_type ++ (lit "-" ++ key))

  pub list_request : UnifiRequest
  list_request = record { method = lit "GET"; path = static_dns_path runtime g.site; body = none }

  unfoldable pub record_path : Text → Text
  record_path id = static_dns_path runtime g.site ++ (lit "/" ++ id)

  pub named : DnsRecord → Text × DnsRecord
  named r = (record_instance_name r.record_type r.key, r)

  pub list_records : List UnifiRequest × Result Written
  list_records =
      if is_empty g.api_key
      then ([], failed (lit "apiKey is required to query UniFi"))
      else and_then (unifi_request_ok runtime g list_request [])
          (λ sent json. (sent, returned (map named (normalize_records number_text json now))))

  -- The raw record that has an id, or an object with no properties.
  pub raw_of : Text → Value → Entries
  raw_of id json = get_or (find (λ r. string_of (get (lit "_id") r) == id) (raw_list json)) no_entry

  unfoldable pub change_request : UpsertArgs → Text → Value → Option Text → UnifiRequest
  unfolding record_path
  change_request args record_type json (some id) = record {
    method = lit "PUT";
    path = record_path id;
    body = some (body_of (raw_of id json) args record_type);
  }
  change_request args record_type json none = record {
    method = lit "POST";
    path = static_dns_path runtime g.site;
    body = some (body_of no_entry args record_type);
  }

  -- The record that the controller echoes.
  pub echoed : Value → DnsRecord
  echoed json =
      get_or (head? (normalize_records number_text json now))
        (normalize_record number_text json now)

  pub existing_in : Value → Text → Text → Option DnsRecord
  existing_in json key record_type =
      find_existing (normalize_records number_text json now) key record_type

  pub upsert_record : UpsertArgs → List UnifiRequest × Result Written
  upsert_record args =
      let record_type = to_upper args.record_type in
      if is_empty g.api_key
      then ([], failed (lit "apiKey is required to update UniFi"))
      else and_then (unifi_request_ok runtime g list_request []) (λ sent json.
        and_then
          (unifi_request_ok runtime g
            (change_request args record_type json (id_of (existing_in json args.key record_type)))
            sent)
          (λ all result. (all, returned (named (echoed result) ∷ []))))

  pub tombstone : DeleteArgs → Option DnsRecord → DnsRecord
  tombstone args existing = record {
    id = none;
    record_type = to_upper args.record_type;
    key = args.key;
    value = elim existing [ none ↦ [] | some r ↦ r.value ];
    enabled = false;
    observed_at = now;
  }

  pub delete_request : Text → UnifiRequest
  delete_request id = record { method = lit "DELETE"; path = record_path id; body = none }

  -- The deletion of what was found, where it has an id, and the tombstone.
  pub delete_existing :
      DeleteArgs
      → Option DnsRecord
      → Option Text
      → List UnifiRequest
      → List UnifiRequest × Result Written
  delete_existing args existing none sent = (sent, returned (named (tombstone args existing) ∷ []))
  delete_existing args existing (some id) sent =
      and_then (unifi_request_ok runtime g (delete_request id) sent)
        (λ all _. (all, returned (named (tombstone args existing) ∷ [])))

  pub delete_record : DeleteArgs → List UnifiRequest × Result Written
  delete_record args =
      if is_empty g.api_key
      then ([], failed (lit "apiKey is required to update UniFi"))
      else and_then (unifi_request_ok runtime g list_request []) (λ sent json.
        let existing = existing_in json args.key (to_upper args.record_type) in
        delete_existing args existing (id_of existing) sent)
