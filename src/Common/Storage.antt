-- ===== src/Common/Storage.antt =====
-- `StorageMap` as an association list. The pallets read a map by key, write it, remove a key, and
-- iterate over the entries; a map with `ValueQuery` reads a default where there is no entry.
use blockchain_protocol_v.Common.{Bool-cases, inl, ap, inr}
use Prim.Native.Nat.{ℕ, ◌+◌, ◌≤◌}
use mathlib.Core.Path.{◌≡◌, refl}
use mathlib.Core.Bool.{Bool, true, not}
use mathlib.Core.Option.{Option, none, some}
use mathlib.Core.List.{List, [], ◌∷◌}
use native.Mathlib.Omega.{arith}
use blockchain_protocol_v.Common.Tests.{Eq, ◌==◌, if◌then◌else◌, is_some, get_or, beq_refl}

abbrev pub Map : Type 0 → Type 0 → Type 0
Map K V = List (K × V)

module _ {K V : Type 0} ⦃e : Eq K⦄ where
  abbrev pub lookup : K → Map K V → Option V
  lookup k [] = none
  lookup k ((j, v) ∷ m) = if k == j then some v else lookup k m

  abbrev pub contains_key : K → Map K V → Bool
  contains_key k m = is_some (lookup k m)

  abbrev pub get : V → K → Map K V → V
  get d k m = get_or d (lookup k m)

  pub absent : (k : K) (m : Map K V) → not (contains_key k m) ≡ true → lookup k m ≡ none
  absent k m h = ground (arith, h)

  abbrev pub insert : K → V → Map K V → Map K V
  insert k v [] = (k, v) ∷ []
  insert k v ((j, w) ∷ m) = if k == j then (k, v) ∷ m else (j, w) ∷ insert k v m

  -- Every entry of the key, so that none is left whatever the list holds.
  abbrev pub remove : K → Map K V → Map K V
  remove k [] = []
  remove k ((j, w) ∷ m) = let rest = remove k m in if k == j then rest else (j, w) ∷ rest

  pub lookup-insert :
      (j k : K) (v : V) (m : Map K V)
      → lookup j (insert k v m) ≡ (if j == k then some v else lookup j m)
  lookup-insert j k v [] = refl
  lookup-insert j k v ((i, w) ∷ m) =
      ground (arith, e.beq_iff j k, e.beq_iff k i, e.beq_iff j i, lookup-insert j k v m)

  pub lookup-remove :
      (j k : K) (m : Map K V) → lookup j (remove k m) ≡ (if j == k then none else lookup j m)
  lookup-remove j k [] = ground arith
  lookup-remove j k ((i, w) ∷ m) =
      ground (arith, e.beq_iff j k, e.beq_iff k i, e.beq_iff j i, lookup-remove j k m)

  pub lookup-insert_self : (k : K) (v : V) (m : Map K V) → lookup k (insert k v m) ≡ some v
  lookup-insert_self k v m = rw (lookup-insert k k v m, beq_refl k)

  pub get-insert :
      (d : V) (j k : K) (v : V) (m : Map K V)
      → get d j (insert k v m) ≡ (if j == k then v else get d j m)
  get-insert d j k v m = ground (arith, lookup-insert j k v m)

  -- The sum of a measure over the entries.
  abbrev pub total : (V → ℕ) → Map K V → ℕ
  total f [] = 0
  total f ((_, v) ∷ m) = f v + total f m

  -- A write moves the sum by the difference, where a missing entry reads a default of measure 0.
  pub total-insert :
      (f : V → ℕ) (d : V) (k : K) (v : V) (m : Map K V)
      → f d ≡ 0
      → total f (insert k v m) + f (get d k m) ≡ total f m + f v
  total-insert f d k v [] z = omega arith
  total-insert f d k v ((i, w) ∷ m) z = ground (arith, total-insert f d k v m z)

  pub get-le-total : (f : V → ℕ) (d : V) (k : K) (m : Map K V) → f d ≡ 0 → f (get d k m) ≤ total f m
  get-le-total f d k [] z = omega arith
  get-le-total f d k ((i, w) ∷ m) z = ground (arith, get-le-total f d k m z)

  -- A new key leaves the entries that are there.
  pub lookup-insert_fresh :
      (k j : K) (v : V) (m : Map K V) {x : V}
      → lookup k m ≡ some x
      → lookup j m ≡ none
      → lookup k (insert j v m) ≡ some x
  lookup-insert_fresh k j v m h fresh = elim (Bool-cases (k == j)) [
    | inl same ↦ let equal : k ≡ j = (e.beq_iff k j).0 same in cc (ap (λ i. lookup i m) equal)
    | inr other ↦ rw (lookup-insert k j v m, other) h
  ]
