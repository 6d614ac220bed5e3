-- ===== src/Truenas/Lookup/Found.antt =====
-- A device that a call created is found again.
use swamp_extensions.Common.{
  ◌≡◌, refl, inl, inr, Bool, true, ◌&&◌, List, [], ◌∷◌, ◌++◌, get_or, Bool-cases, text_beq,
  text_beq_refl, is_some,
}
use swamp_extensions.Common.Text.{lit, to_lower, to_upper}
use swamp_extensions.Common.Json.{Value, Entries, obj, arr, Items, get, to_list}
use swamp_extensions.Truenas.Values.{as_record, field, Conversions, string_or_null}
use swamp_extensions.Truenas.Lookup.{
  DiskParams, disk_attributes, NicParams, nic_attributes, first_record, in_result, device_type,
  upper_or_null, attribute, find_disk_device, find_nic_device, is_text,
}

first_record-found :
    (p : Entries → Bool) (before : List Value) (es : Entries) (after : List Value)
    → p es ≡ true
    → is_some (first_record p (before ++ obj es ∷ after)) ≡ true
unfolding first_record
first_record-found p [] es after h = rw h refl
first_record-found p (obj fs ∷ before) es after h = elim (Bool-cases (p fs)) [
  | inl e ↦ rw e refl
  | inr e ↦ rw e (first_record-found p before es after h)
]
first_record-found p (_ ∷ before) es after h = first_record-found p before es after h

disk-is_found :
    (c : Conversions) (a : DiskParams) (es : Entries)
    → get (lit "attributes") es ≡ disk_attributes a
    → (is_text (device_type c es) (lit "DISK") && is_text (attribute c (lit "path") es) a.zvol_path)
      ≡ true
unfolding device_type upper_or_null attribute disk_attributes as_record field get string_or_null
    text_beq lit to_upper
disk-is_found c a es h = rw (h, text_beq_refl a.zvol_path) refl

nic-is_found :
    (c : Conversions) (a : NicParams) (es : Entries)
    → get (lit "attributes") es ≡ nic_attributes a
    → (is_text (device_type c es) (lit "NIC")
        && text_beq (to_lower (get_or (attribute c (lit "mac") es) [])) (to_lower a.mac))
      ≡ true
unfolding device_type upper_or_null attribute nic_attributes as_record field get string_or_null
    text_beq lit to_upper
nic-is_found c a es h = rw (h, text_beq_refl (to_lower a.mac)) refl

module _ (c : Conversions) (items : Items) (before after : List Value) (es : Entries)
    (listed : to_list items ≡ before ++ obj es ∷ after) where
  -- Where the devices have one with the attributes that a disk is created with, a disk of that path
  -- is found.
  pub find_disk_device-found :
      (a : DiskParams)
      → get (lit "attributes") es ≡ disk_attributes a
      → is_some (find_disk_device c (arr items) a.zvol_path) ≡ true
  unfolding find_disk_device in_result
  find_disk_device-found a h =
      rw listed (first_record-found _ before es after (disk-is_found c a es h))

  -- The same of a network card and its address.
  pub find_nic_device-found :
      (a : NicParams)
      → get (lit "attributes") es ≡ nic_attributes a
      → is_some (find_nic_device c (arr items) a.mac) ≡ true
  unfolding find_nic_device in_result
  find_nic_device-found a h =
      rw listed (first_record-found _ before es after (nic-is_found c a es h))
