-- ===== src/Truenas/Vm/Storage/Repeat.antt =====
-- A second run of an operation that has gone through creates nothing.
use swamp_extensions.Common.{
  ◌≡◌, refl, inl, inr, ◌⊎◌, true, false, List, [], ◌∷◌, ◌++◌, Option, none, some, is_some-some,
  Bool-cases, All,
}
use swamp_extensions.Common.Text.{Text, lit}
use swamp_extensions.Common.Json.{Number, Value, Entries, Items, obj, arr, get, to_list}
use swamp_extensions.Common.Number.{less_than, less_than_self}
use swamp_extensions.Common.Action.{returned, failed, sent-lift, Result-cases}
use swamp_extensions.Truenas.Lookup.{DiskParams, disk_attributes, gib_to_bytes, parse_volsize_bytes}
use swamp_extensions.Truenas.Lookup.Found.{find_disk_device-found}
use swamp_extensions.Truenas.Vm.{GlobalArgs, Call, Runtime, open_session}
use swamp_extensions.Truenas.Vm.Storage.{
  CreateZvolArgs, is_smaller, too_small, checked, ensure_zvol, device_query, ensure_device,
  disk_body, attach_disk,
}

module _ (r : Runtime) where
  disk_body_again :
      (a : DiskParams) (items : Items) (before after : List Value) (es : Entries)
      → r.answer [] (device_query a.vm_id) ≡ returned (arr items)
      → to_list items ≡ before ++ obj es ∷ after
      → get (lit "attributes") es ≡ disk_attributes a
      → (disk_body r a []).0 ≡ device_query a.vm_id ∷ []
  unfolding disk_body ensure_device
  disk_body_again a items before after es l e h =
      let (device, f) =
        is_some-some _ (find_disk_device-found r.conversions items before after es e a h) in
      rw (l, f) (sent-lift _ _ (device_query a.vm_id ∷ []))

  -- Where the query for the devices of a machine gives one with the attributes that the disk is
  -- created with, attaching the disk again sends no call but this query.
  pub attach_disk-disk_attributes :
      (g : GlobalArgs) (a : DiskParams) (items : Items) (before after : List Value) (es : Entries)
      → r.answer [] (device_query a.vm_id) ≡ returned (arr items)
      → to_list items ≡ before ++ obj es ∷ after
      → get (lit "attributes") es ≡ disk_attributes a
      → All (λ c. c ≡ device_query a.vm_id) (attach_disk r g a []).0
  unfolding attach_disk
  attach_disk-disk_attributes g a items before after es l e h =
      elim (Result-cases (open_session r g)) [
        | inl (u, k) ↦ rw (k, disk_body_again a items before after es l e h) (refl, tt)
        | inr (m, k) ↦ rw k tt
      ]

  checked-gib_to_bytes :
      (a : CreateZvolArgs) (have : Option Number) (sent : List Call)
      → ((is_smaller have (gib_to_bytes a.size_gib) ≡ true)
          × ((e : Text) × (checked r a have sent ≡ (sent, failed e))))
        ⊎ ((size : Number) × (less_than size (gib_to_bytes a.size_gib) ≡ false)
            × (checked r a have sent ≡ (sent, returned (true, size))))
  unfolding checked is_smaller
  checked-gib_to_bytes a none sent =
      inr (gib_to_bytes a.size_gib, less_than_self (gib_to_bytes a.size_gib), refl)
  checked-gib_to_bytes a (some have) sent =
      elim (Bool-cases (less_than have (gib_to_bytes a.size_gib))) [
        | inl e ↦ inl (e, (too_small r a (some have), rw e refl))
        | inr e ↦ inr (have, e, rw e refl)
      ]

  -- Where a volume is there, no call is made: it is refused where its size is read and is below what
  -- is asked for, and else a size that is not below is reported.
  pub ensure_zvol-gib_to_bytes :
      (a : CreateZvolArgs) (existing : Entries) (sent : List Call)
      → ((is_smaller (parse_volsize_bytes r.conversions existing) (gib_to_bytes a.size_gib) ≡ true)
          × ((e : Text) × (ensure_zvol r a (some existing) sent ≡ (sent, failed e))))
        ⊎ ((size : Number) × (less_than size (gib_to_bytes a.size_gib) ≡ false)
            × (ensure_zvol r a (some existing) sent ≡ (sent, returned (true, size))))
  unfolding ensure_zvol
  ensure_zvol-gib_to_bytes a existing sent =
      checked-gib_to_bytes a (parse_volsize_bytes r.conversions existing) sent
