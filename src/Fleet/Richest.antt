-- ===== src/Fleet/Richest.antt =====
-- The rows that dedupeRows keeps: the richest of each key, and all rows without a name.
use swamp_extensions.Common.{
  ◌||◌, ◌≡◌, refl, sym, ap, ◌∙◌, inl, inr, ℕ, Bool, true, false, not, ◌&&◌, List, [], ◌∷◌, ◌++◌,
  Option, none, some, arith, map, foldl, filter, any, if◌then◌else◌, leb, text_beq, text_beq_iff,
  text_beq_refl, Bool-cases, All, All-append, All-mono, foldl_inv, filter-append, filter-pass,
  filter-fail, any-append, append-nil, append_assoc,
}
use swamp_extensions.Common.Text.{Text}
use swamp_extensions.Common.Text.Distinct.{IsDistinct}
use swamp_extensions.Common.Assoc.{
  lookup, set, keys, values, lookup-set, set-IsDistinct, Entries, Entries-set,
}
use swamp_extensions.Fleet.{
  FleetRow, richness, is_nameless, row_key, is_richer, Best, keep_richest, best_rows, dedupe_rows,
}

abbrev pub is_named : FleetRow → Bool
is_named r = not (is_nameless r)

-- There is a row, and it is at least so rich.
covers : ℕ → Option FleetRow → Bool
covers n none = false
covers n (some r) = leb n (richness r)

keep_richest-covers :
    (s : Best) (r : FleetRow) (k : Text) (n : ℕ)
    → covers n (lookup k s.best) ≡ true
    → covers n (lookup k (keep_richest s r).best) ≡ true
unfolding keep_richest is_richer covers
keep_richest-covers s r k n h =
    ground (arith, lookup-set (row_key r) k r s.best, text_beq_iff (row_key r) k)

keep_richest_added :
    (s : Best) (r : FleetRow)
    → is_nameless r ≡ false
    → covers (richness r) (lookup (row_key r) (keep_richest s r).best) ≡ true
unfolding keep_richest is_richer covers
keep_richest_added s r h =
    ground (arith, lookup-set (row_key r) (row_key r) r s.best, text_beq_refl (row_key r))

foldl-covers :
    (rows : List FleetRow) (s : Best) (k : Text) (n : ℕ)
    → covers n (lookup k s.best) ≡ true
    → covers n (lookup k (foldl keep_richest s rows).best) ≡ true
foldl-covers rows s k n h =
    foldl_inv (λ t. covers n (lookup k t.best) ≡ true) keep_richest
      (λ t r. keep_richest-covers t r k n) rows s h

foldl_added :
    (rows : List FleetRow) (s : Best)
    → All
        (λ r.
          is_nameless r ≡ false
          → covers (richness r) (lookup (row_key r) (foldl keep_richest s rows).best) ≡ true)
        rows
foldl_added [] s = tt
foldl_added (r ∷ rows) s = (
  λ h. foldl-covers rows (keep_richest s r) (row_key r) (richness r) (keep_richest_added s r h),
  foldl_added rows (keep_richest s r),
)

-- The rows of the map have a name, and stand under their keys.
abbrev IsOwn : Text → FleetRow → Type 0
IsOwn k r = (k ≡ row_key r) × (is_nameless r ≡ false)

record IsSound (s : Best) : Type 0 where
  own : Entries IsOwn s.best
  distinct : IsDistinct (keys s.best)
  nameless : All (λ r. is_nameless r ≡ true) s.passthrough

put-IsSound :
    (s : Best) (r : FleetRow)
    → is_nameless r ≡ false
    → IsSound s
    → IsSound (record { best = set (row_key r) r s.best; passthrough = s.passthrough })
put-IsSound s r e h = record {
  own = Entries-set IsOwn (row_key r) r s.best (refl, e) h.own;
  distinct = set-IsDistinct (row_key r) r s.best h.distinct;
  nameless = h.nameless;
}

keep_richest-IsSound : (s : Best) (r : FleetRow) → IsSound s → IsSound (keep_richest s r)
unfolding keep_richest
keep_richest-IsSound s r h = elim (Bool-cases (is_nameless r)) [
  | inl e ↦ rw e (record {
    own = h.own;
    distinct = h.distinct;
    nameless = All-append (λ q. is_nameless q ≡ true) s.passthrough (r ∷ []) h.nameless (e, tt);
  })
  | inr e ↦ rw e (elim (Bool-cases (is_richer r (lookup (row_key r) s.best))) [
    | inl f ↦ rw f (put-IsSound s r e h)
    | inr f ↦ rw f h
  ])
]

best_rows-IsSound : (rows : List FleetRow) → IsSound (best_rows rows)
unfolding best_rows
best_rows-IsSound rows =
    foldl_inv IsSound keep_richest keep_richest-IsSound rows _
      (record { own = tt; distinct = tt; nameless = tt })

values-named :
    (m : List (Text × FleetRow)) → Entries IsOwn m → All (λ r. is_nameless r ≡ false) (values m)
values-named [] h = tt
values-named ((k, r) ∷ m) (o, h) = (o.1, values-named m h)

keys-row_key : (m : List (Text × FleetRow)) → Entries IsOwn m → map row_key (values m) ≡ keys m
keys-row_key [] h = refl
keys-row_key ((k, r) ∷ m) (o, h) = simp (sym o.0, keys-row_key m h)

any-values :
    (m : List (Text × FleetRow)) (k : Text) (n : ℕ)
    → Entries IsOwn m
    → covers n (lookup k m) ≡ true
    → any (λ r. text_beq (row_key r) k && leb n (richness r)) (values m) ≡ true
unfolding lookup covers
any-values [] k n h e = ground arith
any-values ((j, r) ∷ m) k n (o, h) e = ground (arith, any-values m k n h, o.0)

named_rows :
    (rows : List FleetRow) → filter is_named (dedupe_rows rows) ≡ values (best_rows rows).best
unfolding dedupe_rows
named_rows rows =
    let s = best_rows rows in
    let h = best_rows-IsSound rows in
    filter-append is_named (values s.best) s.passthrough
    ∙ rw
        (
          filter-pass is_named (values s.best)
              (All-mono (λ r e. ap not e) (values s.best) (values-named s.best h.own)),
          filter-fail is_named s.passthrough (All-mono (λ r e. ap not e) s.passthrough h.nameless),
        )
        (append-nil (values s.best))

-- No two rows that have a name have the same key, whatever the rows.
pub dedupe_rows-IsDistinct :
    (rows : List FleetRow) → IsDistinct (map row_key (filter is_named (dedupe_rows rows)))
dedupe_rows-IsDistinct rows =
    let h = best_rows-IsSound rows in
    rw (named_rows rows, keys-row_key (best_rows rows).best h.own) h.distinct

passthrough-keep_richest :
    (s : Best) (r : FleetRow)
    → (keep_richest s r).passthrough ≡ s.passthrough ++ (if is_nameless r then r ∷ [] else [])
unfolding keep_richest
passthrough-keep_richest s r = ground (arith, append-nil s.passthrough)

passthrough-foldl :
    (rows : List FleetRow) (s : Best)
    → (foldl keep_richest s rows).passthrough ≡ s.passthrough ++ filter is_nameless rows
unfolding filter
passthrough-foldl [] s = sym (append-nil s.passthrough)
passthrough-foldl (r ∷ rows) s = grind (
  arith,
  passthrough-foldl rows (keep_richest s r),
  passthrough-keep_richest s r,
  append_assoc s.passthrough (r ∷ []) (filter is_nameless rows),
  append-nil s.passthrough,
)

-- Rows without a name are never merged: they stay, in their order.
pub nameless-dedupe_rows :
    (rows : List FleetRow) → filter is_nameless (dedupe_rows rows) ≡ filter is_nameless rows
unfolding dedupe_rows best_rows
nameless-dedupe_rows rows =
    let s = best_rows rows in
    let h = best_rows-IsSound rows in
    filter-append is_nameless (values s.best) s.passthrough
    ∙ rw
        (
          filter-fail is_nameless (values s.best) (values-named s.best h.own),
          filter-pass is_nameless s.passthrough h.nameless,
        )
        (passthrough-foldl rows _)

or_else : (b : Bool) {c : Bool} → (b ≡ false → c ≡ true) → (b || c) ≡ true
or_else true h = refl
or_else false h = h refl

dedupe_rows-covers :
    (rows : List FleetRow) (k : Text) (n : ℕ)
    → covers n (lookup k (best_rows rows).best) ≡ true
    → any (λ q. text_beq (row_key q) k && leb n (richness q)) (dedupe_rows rows) ≡ true
unfolding dedupe_rows
dedupe_rows-covers rows k n h =
    let s = best_rows rows in
    ground (
      arith,
      any-append (λ q. text_beq (row_key q) k && leb n (richness q)) (values s.best) s.passthrough,
      any-values s.best k n (best_rows-IsSound rows).own h,
    )

-- For each row that has a name, a row with its key is kept that is at least so rich.
pub dedupe_rows-richest :
    (rows : List FleetRow)
    → All
        (λ r.
          (is_nameless r
            || any
                (λ q. text_beq (row_key q) (row_key r) && leb (richness r) (richness q))
                (dedupe_rows rows))
          ≡ true)
        rows
unfolding best_rows
dedupe_rows-richest rows =
    All-mono
      (λ r f. or_else (is_nameless r) (λ e. dedupe_rows-covers rows (row_key r) (richness r) (f e)))
      rows (foldl_added rows _)

module _ {ℓ} (P : FleetRow → Type ℓ) where
  IsAll : Best → Type ℓ
  IsAll s = Entries (λ k r. P r) s.best × All P s.passthrough

  keep_richest-IsAll : (s : Best) (r : FleetRow) → P r → IsAll s → IsAll (keep_richest s r)
  unfolding keep_richest IsAll
  keep_richest-IsAll s r p (h, k) = elim (Bool-cases (is_nameless r)) [
    | inl e ↦ rw e (h, All-append P s.passthrough (r ∷ []) k (p, tt))
    | inr e ↦ rw e (elim (Bool-cases (is_richer r (lookup (row_key r) s.best))) [
      | inl f ↦ rw f (Entries-set (λ k r. P r) (row_key r) r s.best p h, k)
      | inr f ↦ rw f (h, k)
    ])
  ]

  foldl-IsAll :
      (rows : List FleetRow) (s : Best) → All P rows → IsAll s → IsAll (foldl keep_richest s rows)
  foldl-IsAll [] s h a = a
  foldl-IsAll (r ∷ rows) s (p, h) a =
      foldl-IsAll rows (keep_richest s r) h (keep_richest-IsAll s r p a)

  values-All : (m : List (Text × FleetRow)) → Entries (λ k r. P r) m → All P (values m)
  values-All [] h = tt
  values-All ((k, r) ∷ m) (p, h) = (p, values-All m h)

  -- Every row that is kept was given: what holds of all the rows holds of those kept.
  dedupe_rows-All : (rows : List FleetRow) → All P rows → All P (dedupe_rows rows)
  unfolding dedupe_rows best_rows IsAll
  dedupe_rows-All rows h =
      let s = best_rows rows in
      let a = foldl-IsAll rows (record { best = []; passthrough = [] }) h (tt, tt) in
      All-append P (values s.best) s.passthrough (values-All s.best a.0) a.1
