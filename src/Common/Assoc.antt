-- ===== src/Common/Assoc.antt =====
-- `Map<string, V>`: association lists in insertion order, each key once.
use mathlib.Core.Path.{◌≡◌, refl, sym, subst}
use mathlib.Core.Logic.{inl, inr}
use mathlib.Core.Bool.{◌||◌}
use mathlib.Core.List.{List, [], ◌∷◌}
use mathlib.Core.Option.{Option, none, some}
use native.Mathlib.Omega.{arith}
use swamp_extensions.Common.Tests.{if◌then◌else◌, text_beq, text_beq_iff, Bool-cases}
use swamp_extensions.Common.Text.{Text, contains}
use swamp_extensions.Common.Text.Distinct.{IsDistinct}

module _ {ℓ} {V : Type ℓ} where
  -- `m.get(k)`.
  unfoldable pub lookup : Text → List (Text × V) → Option V
  lookup k [] = none
  lookup k ((j, v) ∷ m) = if text_beq j k then some v else lookup k m

  -- `m.set(k, v)`: a new key goes to the end, a known one keeps its place.
  unfoldable pub set : Text → V → List (Text × V) → List (Text × V)
  set k v [] = (k, v) ∷ []
  set k v ((j, w) ∷ m) = if text_beq j k then (j, v) ∷ m else (j, w) ∷ set k v m

  abbrev pub keys : List (Text × V) → List Text
  keys [] = []
  keys ((k, v) ∷ m) = k ∷ keys m

  abbrev pub values : List (Text × V) → List V
  values [] = []
  values ((k, v) ∷ m) = v ∷ values m

  pub lookup-set :
      (k j : Text) (v : V) (m : List (Text × V))
      → lookup j (set k v m) ≡ (if text_beq k j then some v else lookup j m)
  unfolding lookup set
  lookup-set k j v [] = refl
  lookup-set k j v ((i, w) ∷ m) =
      ground (arith, text_beq_iff k j, text_beq_iff i k, text_beq_iff i j, lookup-set k j v m)

  contains-set :
      (j k : Text) (v : V) (m : List (Text × V))
      → contains (keys (set k v m)) j ≡ (contains (keys m) j || text_beq k j)
  unfolding set
  contains-set j k v [] = ground arith
  contains-set j k v ((i, w) ∷ m) = ground (arith, contains-set j k v m, text_beq_iff i k)

  pub set-IsDistinct :
      (k : Text) (v : V) (m : List (Text × V)) → IsDistinct (keys m) → IsDistinct (keys (set k v m))
  unfolding set
  set-IsDistinct k v [] h = (refl, tt)
  set-IsDistinct k v ((i, w) ∷ m) h =
      ground
        (arith, contains-set i k v m, text_beq_iff k i, text_beq_iff i k, set-IsDistinct k v m h.1)

-- A property of each key with its value.
module _ {ℓ κ} {V : Type ℓ} (P : Text → V → Type κ) where
  abbrev pub Entries : List (Text × V) → Type κ
  Entries [] = Unit
  Entries ((k, v) ∷ m) = P k v × Entries m

  pub Entries-set :
      (k : Text) (v : V) (m : List (Text × V)) → P k v → Entries m → Entries (set k v m)
  unfolding set
  Entries-set k v [] p h = (p, tt)
  Entries-set k v ((j, w) ∷ m) p (q, h) = elim (Bool-cases (text_beq j k)) [
    | inl same ↦ rw same (subst (λ i. P i v) (sym ((text_beq_iff j k).0 same)) p, h)
    | inr other ↦ rw other (q, Entries-set k v m p h)
  ]
