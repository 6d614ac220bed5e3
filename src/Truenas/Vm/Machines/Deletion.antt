-- ===== src/Truenas/Vm/Machines/Deletion.antt =====
-- What a deletion may touch.
use swamp_extensions.Common.{
  ◌≡◌, refl, ap, sym, ◌∙◌, inl, inr, false, List, [], Option, none, some, All,
}
use swamp_extensions.Common.Text.{Text, lit}
use swamp_extensions.Common.Json.{Number, Entries, get}
use swamp_extensions.Common.Action.{
  Result, returned, failed, Action, pure, ◌>>=◌, ◌>>◌, ask, lift, Result-cases, >>=-returned,
  >>=-failed,
}
use swamp_extensions.Common.Action.Calls.{
  Makes, >>=-Makes, pure-Makes, ask-Makes, throw-Makes, lift-Makes,
}
use swamp_extensions.Truenas.Lookup.{is_swamp_managed, find_vm_by_id}
use swamp_extensions.Truenas.Vm.{
  GlobalArgs, Call, VmInstance, Written, Runtime, query, call, open_session, to_vm_instance,
}
use swamp_extensions.Truenas.Vm.Machines.{
  VmRef, DeleteArgs, or_throw, resolve_vm, resolve, by_id, by_name, id_of, name_of, delete_found,
  delete_dataset, delete_body, delete, not_managed, write_instance, status, status_body, id_query,
  name_query, all_query, no_vm,
}

abbrev pub IsQuery : Call → Type 0
IsQuery c = c.method ≡ lit "vm.query"

module _ (r : Runtime) (P : Call → Type 0) (q : (c : Call) → IsQuery c → P c) where
  by_id-Makes : (id : Number) → Makes P (by_id r id)
  unfolding by_id id_query all_query query
  by_id-Makes id =
      >>=-Makes P (ask r.answer (id_query (some id))) _
        (ask-Makes P r.answer (id_query (some id)) (q _ refl))
        (λ found.
          elim (find_vm_by_id r.conversions found (some id))
            as (λ o. Makes P (elim o as (λ _. Action Call (Option Entries)) [
              | some es ↦ pure (some es)
              | none ↦
                  (call r all_query >>= λ all. pure (find_vm_by_id r.conversions all (some id)))
            ])) [
              | some es ↦ pure-Makes P (some es)
              | none ↦
                  >>=-Makes P (ask r.answer all_query) _ (ask-Makes P r.answer all_query (q _ refl))
                    (λ all. pure-Makes P _)
            ])

  resolve-Makes : (id : Option Number) (name : Option Text) → Makes P (resolve r id name)
  unfolding resolve by_name name_query query
  resolve-Makes (some id) name = by_id-Makes id
  resolve-Makes none (some name) =
      >>=-Makes P (ask r.answer (name_query name)) _
        (ask-Makes P r.answer (name_query name) (q _ refl)) (λ found. pure-Makes P _)
  resolve-Makes none none =
      >>=-Makes P (ask r.answer _) _ (ask-Makes P r.answer _ (q _ refl))
        (λ found. pure-Makes P none)

  pub resolve_vm-Makes : (ref : VmRef) → Makes P (resolve_vm r ref)
  unfolding resolve_vm
  resolve_vm-Makes ref = resolve-Makes ref.vm_id ref.name

abbrev pub IsFailure : {A : Type 0} → Result A → Type 0
IsFailure x = (e : Text) × (x ≡ failed e)

or_throw-Makes : {A : Type 0} (P : Call → Type 0) (o : Option A) (e : Text) → Makes P (or_throw o e)
or_throw-Makes {A} P none e = throw-Makes P A e
or_throw-Makes P (some a) e = pure-Makes P a

module _ (r : Runtime) where
  write_instance-Makes :
      (P : Call → Type 0) (name : Text) (i : VmInstance) → Makes P (write_instance r name i)
  unfolding write_instance
  write_instance-Makes P name i =
      >>=-Makes P (lift (r.parse_vm_instance i)) _ (lift-Makes P (r.parse_vm_instance i))
        (λ j. pure-Makes P _)

  queries : (ref : VmRef) → All IsQuery (resolve_vm r ref []).0
  unfolding Makes
  queries ref = resolve_vm-Makes r IsQuery (λ c h. h) ref [] tt

  status_body-Makes : (ref : VmRef) → Makes IsQuery (status_body r ref)
  unfolding status_body
  status_body-Makes ref =
      >>=-Makes IsQuery (resolve_vm r ref) _ (resolve_vm-Makes r IsQuery (λ c h. h) ref) (λ found.
        >>=-Makes IsQuery (or_throw found (no_vm r ref)) _
          (or_throw-Makes IsQuery found (no_vm r ref))
          (λ es.
            write_instance-Makes IsQuery (name_of r es (id_of r es))
              (to_vm_instance r es (lit "status"))))

  status-Makes : (g : GlobalArgs) (ref : VmRef) → Makes IsQuery (status r g ref)
  unfolding status
  status-Makes g ref =
      >>=-Makes IsQuery (lift (open_session r g)) _ (lift-Makes IsQuery (open_session r g))
        (λ u. status_body-Makes ref)

  -- The status of a machine is read with queries only.
  pub status-IsQuery : (g : GlobalArgs) (ref : VmRef) → All IsQuery (status r g ref []).0
  unfolding Makes
  status-IsQuery g ref = status-Makes g ref [] tt

  delete_found-unmanaged :
      (a : DeleteArgs) (sent : List Call) (es : Entries)
      → is_swamp_managed r.conversions (get (lit "description") es) ≡ false
      → a.force ≡ false
      → delete_found r a (some es) sent ≡ (sent, failed (not_managed r (id_of r es)))
  unfolding delete_found
  delete_found-unmanaged a sent es m f = rw (f, m) refl

  unmanaged :
      (a : DeleteArgs) (sent : List Call) (es : Entries)
      → resolve_vm r a.ref [] ≡ (sent, returned (some es))
      → is_swamp_managed r.conversions (get (lit "description") es) ≡ false
      → a.force ≡ false
      → delete_body r a [] ≡ (sent, failed (not_managed r (id_of r es)))
  unfolding delete_body
  unmanaged a sent es e m f =
      >>=-returned (resolve_vm r a.ref) (λ found. delete_found r a found >>= rest) [] sent (some es)
        e
      ∙ >>=-failed (delete_found r a (some es)) rest sent sent (not_managed r (id_of r es))
          (delete_found-unmanaged a sent es m f)
    where
      rest : Written → Action Call Written
      rest written = delete_dataset r a.delete_zvol a.zvol_path >> pure written

  -- Where the machine that is found lacks the marker, and force is not asked for, a deletion fails,
  -- and every call that it made is a query.
  pub delete-is_swamp_managed :
      (g : GlobalArgs) (a : DeleteArgs) (sent : List Call) (es : Entries)
      → resolve_vm r a.ref [] ≡ (sent, returned (some es))
      → is_swamp_managed r.conversions (get (lit "description") es) ≡ false
      → a.force ≡ false
      → All IsQuery (delete r g a []).0 × IsFailure (delete r g a []).1
  unfolding delete
  delete-is_swamp_managed g a sent es e m f = elim (Result-cases (open_session r g)) [
    | inl (u, k) ↦
        rw (k, unmanaged a sent es e m f)
          (rw (sym (ap (λ p. p.0) e)) (queries a.ref), (not_managed r (id_of r es), refl))
    | inr (message, k) ↦ rw k (tt, (message, refl))
  ]
