-- ===== src/Base/Marks.antt =====
-- How much of a finite universe a growing set has left: the measure of the loops that mark.
use Prim.Native.Nat.{ℕ, ◌≤◌, ◌<◌}
use mathlib.Core.Path.{◌≡◌}
use mathlib.Core.Bool.{true, false, not}
use mathlib.Core.List.{List, [], ◌∷◌}
use native.Mathlib.Omega.{arith}
use golintmu.Base.Tests.{Eq}
use golintmu.Base.Lists.{length, keep, contains, add, contains-add}

module _ {ℓ} {A : Type ℓ} ⦃e : Eq A⦄ where
  -- How many of the values are not marked yet.
  abbrev pub unmarked : List A → List A → ℕ
  unmarked values marked = length (keep (λ v. not (contains marked v)) values)

  pub unmarked-add-le :
      (values marked : List A) (v : A) → unmarked values (add v marked) ≤ unmarked values marked
  unmarked-add-le [] marked v = omega arith
  unmarked-add-le (x ∷ values) marked v =
      ground (arith, unmarked-add-le values marked v, contains-add v x marked)

  pub unmarked-add-lt :
      (values marked : List A) (v : A)
      → contains values v ≡ true
      → contains marked v ≡ false
      → unmarked values (add v marked) < unmarked values marked
  unmarked-add-lt [] marked v h k = absurd (cc)
  unmarked-add-lt (x ∷ values) marked v h k = ground (
    arith,
    unmarked-add-le values marked v,
    unmarked-add-lt values marked v,
    contains-add v x marked,
  )
