-- ===== src/Base/Maps.antt =====
-- Go's `map[K]V` as an association list: its order stands for the order in which `range` goes
-- through the map. A key that is stored again keeps its place.
use Prim.Native.Nat.{suc}
use mathlib.Core.Path.{◌≡◌, refl, ap}
use mathlib.Core.Logic.{inl, inr}
use mathlib.Core.Bool.{Bool, true, false, ◌&&◌, ◌||◌, not}
use mathlib.Core.Option.{Option, none, some}
use mathlib.Core.List.{List, [], ◌∷◌, ◌++◌}
use native.Mathlib.Omega.{arith}
use golintmu.Base.Tests.{Eq, ◌==◌, if◌then◌else◌, Bool-cases}
use golintmu.Base.Lists.{length, contains, IsDistinct}

abbrev pub Map {ℓ κ} : Type ℓ → Type κ → Type (ℓ ⊔ κ)
Map K V = List (K × V)

module _ {ℓ κ} {K : Type ℓ} {V : Type κ} where
  abbrev pub keys : Map K V → List K
  keys [] = []
  keys ((k, _) ∷ m) = k ∷ keys m

  pub length-keys : (m : Map K V) → length (keys m) ≡ length m
  length-keys [] = refl
  length-keys (e ∷ m) = ap suc (length-keys m)

module _ {ℓ κ} {K : Type ℓ} {V : Type κ} ⦃e : Eq K⦄ where
  abbrev pub lookup : K → Map K V → Option V
  lookup k [] = none
  lookup k ((j, v) ∷ m) = if j == k then some v else lookup k m

  -- `m[k] = v`
  abbrev pub insert : K → V → Map K V → Map K V
  insert k v [] = (k, v) ∷ []
  insert k v ((j, w) ∷ m) = if j == k then (j, v) ∷ m else (j, w) ∷ insert k v m

  -- `delete(m, k)`
  abbrev pub delete : K → Map K V → Map K V
  delete k [] = []
  delete k ((j, w) ∷ m) = let rest = delete k m in if j == k then rest else (j, w) ∷ rest

  -- `_, ok := m[k]`
  abbrev pub has : K → Map K V → Bool
  has k m = contains (keys m) k

  pub lookup-insert :
      (k j : K) (v : V) (m : Map K V)
      → lookup j (insert k v m) ≡ (if k == j then some v else lookup j m)
  lookup-insert k j v [] = refl
  lookup-insert k j v ((i, w) ∷ m) = ground (arith, lookup-insert k j v m)

  pub lookup-delete :
      (k j : K) (m : Map K V) → lookup j (delete k m) ≡ (if k == j then none else lookup j m)
  lookup-delete k j [] = ground arith
  lookup-delete k j ((i, w) ∷ m) = ground (arith, lookup-delete k j m)

  pub has-insert : (k j : K) (v : V) (m : Map K V) → has j (insert k v m) ≡ (k == j || has j m)
  has-insert k j v [] = refl
  has-insert k j v ((i, w) ∷ m) = ground (arith, has-insert k j v m)

  pub has-delete : (k j : K) (m : Map K V) → has j (delete k m) ≡ (not (k == j) && has j m)
  has-delete k j [] = ground arith
  has-delete k j ((i, w) ∷ m) = ground (arith, has-delete k j m)

  pub has_of_lookup : (k : K) (v : V) (m : Map K V) → lookup k m ≡ some v → has k m ≡ true
  has_of_lookup k v [] h = cc
  has_of_lookup k v ((j, w) ∷ m) h = ground (arith, has_of_lookup k v m)

  pub lookup_of_has : (k : K) (m : Map K V) → has k m ≡ true → (v : V) × (lookup k m ≡ some v)
  lookup_of_has k [] h = absurd (cc)
  lookup_of_has k ((j, w) ∷ m) h = elim (Bool-cases (j == k)) [
    | inl p ↦ (w, rw p)
    | inr p ↦ let (v, found) = lookup_of_has k m (ground arith) in (v, rw p found)
  ]

  pub lookup_of_not-has : (k : K) (m : Map K V) → has k m ≡ false → lookup k m ≡ none
  lookup_of_not-has k [] h = refl
  lookup_of_not-has k ((j, w) ∷ m) h = ground (arith, lookup_of_not-has k m)

  pub insert-IsDistinct :
      (k : K) (v : V) (m : Map K V) → IsDistinct (keys m) → IsDistinct (keys (insert k v m))
  insert-IsDistinct k v [] d = (refl, tt)
  insert-IsDistinct k v ((j, w) ∷ m) d =
      ground (arith, has-insert k j v m, insert-IsDistinct k v m d.1)

  pub delete-IsDistinct :
      (k : K) (m : Map K V) → IsDistinct (keys m) → IsDistinct (keys (delete k m))
  delete-IsDistinct k [] d = tt
  delete-IsDistinct k ((j, w) ∷ m) d = ground (arith, has-delete k j m, delete-IsDistinct k m d.1)

module _ {ℓ κ} {K : Type ℓ} {V : Type κ} ⦃e : Eq K⦄ where
  -- `m[k]` of a map of slices: a missing key reads as the empty slice.
  abbrev pub lookup_list : K → Map K (List V) → List V
  lookup_list k m = elim (lookup k m) [ none ↦ [] | some l ↦ l ]

  -- `m[k] = append(m[k], v)`
  abbrev pub append_at : K → V → Map K (List V) → Map K (List V)
  append_at k v m = insert k (lookup_list k m ++ v ∷ []) m

  pub lookup_list-append_at :
      (k j : K) (v : V) (m : Map K (List V))
      → lookup_list j (append_at k v m)
        ≡ (if k == j then lookup_list k m ++ v ∷ [] else lookup_list j m)
  lookup_list-append_at k j v m = ground (arith, lookup-insert k j (lookup_list k m ++ v ∷ []) m)
