-- ===== src/Base/Map.antt =====
-- `HashMap` and `BTreeMap` as association lists. The list's order stands for the map's iteration
-- order, which `HashMap` leaves open. `Distinct` says that each key stands in it once.
use mathlib.Core.Path.{◌≡◌, refl}
use mathlib.Core.Logic.{◌≢◌, ◌⊎◌, inl, inr}
use mathlib.Core.Bool.{Bool, true, false}
use mathlib.Core.Option.{Option, none, some}
use mathlib.Core.List.{List, [], ◌∷◌}
use native.Mathlib.Omega.{arith}
use barenetes.Base.Tests.{if◌then◌else◌, Bool-cases}
use barenetes.Base.Eq.{Equality, ◌==◌}
use barenetes.Base.Lists.{filter, Member}

abbrev pub Map : Type 0 → Type 0 → Type 0
Map K V = List (K × V)

module _ {K : Type 0} {V : Type 0} ⦃e : Equality K⦄ where
  abbrev pub lookup : K → Map K V → Option V
  lookup k [] = none
  lookup k ((j, v) ∷ m) = if j == k then some v else lookup k m

  abbrev pub contains_key : K → Map K V → Bool
  contains_key k m = elim (lookup k m) [ none ↦ false | some _ ↦ true ]

  abbrev pub insert : K → V → Map K V → Map K V
  insert k v [] = (k, v) ∷ []
  insert k v ((j, w) ∷ m) = if j == k then (k, v) ∷ m else (j, w) ∷ insert k v m

  -- The key stands at most once in a map of the program; here every entry of the key goes.
  abbrev pub remove : K → Map K V → Map K V
  remove k [] = []
  remove k ((j, w) ∷ m) = let rest = remove k m in if j == k then rest else (j, w) ∷ rest

  -- Each key is bound once.
  abbrev pub Distinct : Map K V → Type 0
  Distinct [] = Unit
  Distinct ((k, v) ∷ m) = (lookup k m ≡ none) × Distinct m

  pub lookup-insert :
      (k j : K) (v : V) (m : Map K V)
      → lookup j (insert k v m) ≡ (if k == j then some v else lookup j m)
  lookup-insert k j v [] = refl
  lookup-insert k j v ((i, w) ∷ m) =
      ground (arith, e.beq_iff k j, e.beq_iff i k, e.beq_iff i j, lookup-insert k j v m)

  pub lookup-remove :
      (k j : K) (m : Map K V) → lookup j (remove k m) ≡ (if k == j then none else lookup j m)
  lookup-remove k j [] = ground arith
  lookup-remove k j ((i, w) ∷ m) =
      ground (arith, e.beq_iff k j, e.beq_iff i k, e.beq_iff i j, lookup-remove k j m)

  pub insert-Distinct : (k : K) (v : V) (m : Map K V) → Distinct m → Distinct (insert k v m)
  insert-Distinct k v [] d = (refl, tt)
  insert-Distinct k v ((i, w) ∷ m) d =
      ground (arith, e.beq_iff i k, e.beq_iff k i, lookup-insert k i v m, insert-Distinct k v m)

  pub remove-Distinct : (k : K) (m : Map K V) → Distinct m → Distinct (remove k m)
  remove-Distinct k [] d = tt
  remove-Distinct k ((i, w) ∷ m) d =
      ground (arith, e.beq_iff i k, e.beq_iff k i, lookup-remove k i m, remove-Distinct k m)

  pub filter-lookup-none :
      (p : K × V → Bool) (k : K) (m : Map K V) → lookup k m ≡ none → lookup k (filter p m) ≡ none
  filter-lookup-none p k [] h = refl
  filter-lookup-none p k ((i, w) ∷ m) h = ground (arith, filter-lookup-none p k m)

  pub filter-Distinct : (p : K × V → Bool) (m : Map K V) → Distinct m → Distinct (filter p m)
  filter-Distinct p [] d = tt
  filter-Distinct p ((i, w) ∷ m) d = ground (arith, filter-lookup-none p i m, filter-Distinct p m)

  pub Member-lookup :
      (k : K) (v : V) (m : Map K V) → Distinct m → Member (k, v) m → lookup k m ≡ some v
  Member-lookup k v [] d h = elim h [ ]
  Member-lookup k v ((i, w) ∷ m) d h = ground (arith, e.beq_iff i k, Member-lookup k v m)

  pub lookup-Member : (k : K) (v : V) (m : Map K V) → lookup k m ≡ some v → Member (k, v) m
  lookup-Member k v [] h = cc
  lookup-Member k v ((i, w) ∷ m) h = ground (arith, e.beq_iff i k, lookup-Member k v m)

  pub remove_absent : (k : K) (m : Map K V) → lookup k m ≡ none → remove k m ≡ m
  remove_absent k [] h = refl
  remove_absent k ((i, w) ∷ m) h = ground (arith, remove_absent k m)

  pub lookup-remove_self : (k : K) (m : Map K V) → lookup k (remove k m) ≡ none
  lookup-remove_self k m = ground (arith, lookup-remove k k m, e.beq_iff k k)

  pub lookup-insert_self : (k : K) (v : V) (m : Map K V) → lookup k (insert k v m) ≡ some v
  lookup-insert_self k v m = ground (arith, lookup-insert k k v m, e.beq_iff k k)

  pub remove-some :
      (k j : K) {v : V} (m : Map K V) → lookup j (remove k m) ≡ some v → lookup j m ≡ some v
  remove-some k j m h = ground (arith, lookup-remove k j m)

  pub contains_key-insert :
      (k j : K) (v w : V) (m : Map K V)
      → lookup k m ≡ some w
      → contains_key j (insert k v m) ≡ contains_key j m
  contains_key-insert k j v w m h = ground (arith, lookup-insert k j v m, e.beq_iff k j)

  -- An entry of the map after an insertion is the new one or an old one.
  pub insert-some :
      (k j : K) (v : V) {w : V} (m : Map K V)
      → lookup j (insert k v m) ≡ some w
      → ((k ≡ j) × (v ≡ w)) ⊎ ((k ≢ j) × (lookup j m ≡ some w))
  insert-some k j v m h = elim (Bool-cases (k == j)) [
    | inl same ↦ inl ((e.beq_iff k j).0 same, ground (arith, lookup-insert k j v m))
    | inr other ↦ inr (λ eq. ground (arith, e.beq_iff k j), ground (arith, lookup-insert k j v m))
  ]

  pub filter-some :
      (p : K × V → Bool) (j : K) {v : V} (m : Map K V)
      → Distinct m
      → lookup j (filter p m) ≡ some v
      → (lookup j m ≡ some v) × (p (j, v) ≡ true)
  filter-some p j {v} [] d h = cc
  filter-some p j {v} ((i, w) ∷ m) d h =
      ground (arith, filter-some p j {v = v} m d.1, e.beq_iff i j, filter-lookup-none p j m)

  pub lookup-absent :
      (k j : K) (m : Map K V)
      → lookup k m ≡ none
      → lookup j m ≡ (if k == j then none else lookup j m)
  lookup-absent k j m h = elim (Bool-cases (k == j)) [
    | inl same ↦ rw (same, ← (e.beq_iff k j).0 same) h
    | inr other ↦ rw other
  ]

  -- An entry put in under a new key and taken out again leaves the map as it was.
  pub remove-insert_new :
      (k : K) (v : V) (m : Map K V) → lookup k m ≡ none → remove k (insert k v m) ≡ m
  remove-insert_new k v [] h = ground (arith, e.beq_iff k k)
  remove-insert_new k v ((i, w) ∷ m) h = ground (arith, remove-insert_new k v m)
