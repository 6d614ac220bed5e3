-- ===== src/Unifi/Dns/Requests.antt =====
-- What the methods that change a record send, and that a deletion is idempotent.
use swamp_extensions.Common.{
  ◌≡◌, refl, ◌⊎◌, inl, inr, Bool, true, false, ◌&&◌, List, [], ◌∷◌, Option, none, some, arith, any,
  find, is_empty, Bool-cases, Option-cases, text_beq, text_beq_refl,
}
use swamp_extensions.Common.Text.{Text, to_upper}
use swamp_extensions.Common.Json.{Number, Value, Entries}
use swamp_extensions.Unifi.Parse.{DnsRecord, normalize_records, is_same_record, find_existing}
use swamp_extensions.Common.Action.{Result, returned, failed}
use swamp_extensions.Unifi.Client.{UnifiOptions, UnifiRequest, Runtime, unifi_request_ok}
use swamp_extensions.Unifi.Dns.{
  UpsertArgs, DeleteArgs, Written, and_then, id_of, list_request, change_request, existing_in,
  tombstone, delete_request, delete_existing, delete_record, named, body_of,
}

abbrev pub has_id : Text → DnsRecord → Bool
has_id id r = elim r.id [ none ↦ false | some i ↦ text_beq i id ]

-- A record of the list has the key, the type and the id.
abbrev pub is_listed : List DnsRecord → Text → Text → Text → Bool
is_listed records key record_type id =
    any (λ r. is_same_record key record_type r && has_id id r) records

has_id-id_of : (r : DnsRecord) (id : Text) → id_of (some r) ≡ some id → has_id id r ≡ true
unfolding id_of
has_id-id_of r id e = ground (arith, text_beq_refl id)

is_listed-find :
    (records : List DnsRecord) (key record_type id : Text)
    → id_of (find (is_same_record key record_type) records) ≡ some id
    → is_listed records key record_type id ≡ true
unfolding find id_of
is_listed-find [] key record_type id e = absurd (cc)
is_listed-find (r ∷ records) key record_type id e =
    ground (arith, has_id-id_of r id, is_listed-find records key record_type id)

sent-and_then :
    {A B : Type 0} (r : List UnifiRequest × Result A) (f : A → Result B)
    → (and_then r (λ all a. (all, f a))).0 ≡ r.0
unfolding and_then
sent-and_then (sent, returned a) f = refl
sent-and_then (sent, failed message) f = refl

find-none :
    (rs : List DnsRecord) (key record_type : Text)
    → any (is_same_record key record_type) rs ≡ false
    → find_existing rs key record_type ≡ none
unfolding find_existing find
find-none [] key record_type h = refl
find-none (r ∷ rs) key record_type h = ground (arith, find-none rs key record_type)

-- The body of an update is the record that has the id, and that of a creation an empty object, each
-- with the four properties that are asked for.
abbrev pub asked_for : UpsertArgs → Entries → Value
asked_for args raw = body_of raw args (to_upper args.record_type)

module _ (runtime : Runtime) (number_text : Number → Text) (string_of : Value → Text)
    (g : UnifiOptions) (now : Text) where
  -- The result of the first request.
  abbrev pub listing : Result Value
  listing = (unifi_request_ok runtime g (list_request runtime number_text string_of g now) []).1

  abbrev records : Value → List DnsRecord
  records json = normalize_records number_text json now

  abbrev changing : UpsertArgs → Value → Option Text → UnifiRequest
  changing args json id =
      change_request runtime number_text string_of g now args (to_upper args.record_type) json id

  delete_change :
      (args : DeleteArgs) (json : Value) (id : Text)
      → is_empty g.api_key ≡ false
      → listing ≡ returned json
      → id_of (find_existing (records json) args.key (to_upper args.record_type)) ≡ some id
      → (delete_record runtime number_text string_of g now args).0
        ≡ list_request runtime number_text string_of g now
          ∷ delete_request runtime number_text string_of g now id
          ∷ []
  unfolding delete_record unifi_request_ok existing_in delete_existing and_then
  delete_change args json id a l e =
      rw (a, l, e)
        (sent-and_then
          (unifi_request_ok runtime g (delete_request runtime number_text string_of g now id)
            (list_request runtime number_text string_of g now ∷ []))
          (λ _. returned (
            named runtime number_text string_of g now (
              tombstone runtime number_text string_of g now args
                (find_existing (records json) args.key (to_upper args.record_type)))
            ∷ [])))

  -- The tombstone of a record, given after the list alone was read.
  abbrev pub only_tombstone : DeleteArgs → Option DnsRecord → List UnifiRequest × Result Written
  only_tombstone args existing = (
    list_request runtime number_text string_of g now ∷ [],
    returned (
        named runtime number_text string_of g now
          (tombstone runtime number_text string_of g now args existing)
        ∷ []),
  )

  -- Where the list is read and no record has the key and the type, or the first that has them has no
  -- id, a deletion sends nothing more and succeeds with a tombstone; else it deletes the id of a
  -- listed record that has the key and the type, and nothing else.
  pub delete_record-delete_request :
      (args : DeleteArgs) (json : Value)
      → is_empty g.api_key ≡ false
      → listing ≡ returned json
      → ((any (is_same_record args.key (to_upper args.record_type)) (records json) ≡ false)
          × (delete_record runtime number_text string_of g now args ≡ only_tombstone args none))
        ⊎ ((id_of (find_existing (records json) args.key (to_upper args.record_type)) ≡ none)
            × (delete_record runtime number_text string_of g now args
                ≡ only_tombstone args
                    (find_existing (records json) args.key (to_upper args.record_type))))
        ⊎ ((id : Text) × (is_listed (records json) args.key (to_upper args.record_type) id ≡ true)
            × ((delete_record runtime number_text string_of g now args).0
                ≡ list_request runtime number_text string_of g now
                  ∷ delete_request runtime number_text string_of g now id
                  ∷ []))
  unfolding delete_record and_then unifi_request_ok existing_in delete_existing id_of find_existing
  delete_record-delete_request args json a l =
      elim (Bool-cases (any (is_same_record args.key (to_upper args.record_type)) (records json))) [
        | inl h ↦
            elim (Option-cases
              (id_of (find_existing (records json) args.key (to_upper args.record_type)))) [
                | inl e ↦ inr (inl (e, rw (a, l, e) refl))
                | inr (id, e) ↦ inr (
                    inr (
                      id,
                      is_listed-find (records json) args.key (to_upper args.record_type) id e,
                      delete_change args json id a l e,
                    ))
              ]
        | inr h ↦
            inl (h, rw (a, l, find-none (records json) args.key (to_upper args.record_type) h) refl)
      ]
