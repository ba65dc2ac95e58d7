-- ===== src/Walk/Blocks/Potential.antt =====
-- What the walk of pkg/analyzer/ssawalk.go can still drop from the entry states of blocks.
use golintmu.Base.{
  ℕ, suc, ◌+◌, ◌*◌, ◌≤◌, ◌<◌, ◌≡◌, Bool, true, false, Option, none, some, List, [], ◌∷◌, arith,
  nat_eq, lookup, insert, Map, contains, length, lookup-insert, keep, length-keys,
  length-le_of_subset, keys,
}
use golintmu.LockState.{LockRef_eq, LockState}
use golintmu.LockState.Order.{IsValid, Below, size}

-- A block counts for what can still be dropped from its entry state, and for more if it has none.
unfoldable pub weight : ℕ → Option LockState → ℕ
weight n none = suc (n + n)
weight n (some e) = size e

unfoldable pub potential : ℕ → List ℕ → Map ℕ LockState → ℕ
unfolding weight
potential n [] m = 0
potential n (b ∷ bs) m = weight n (lookup b m) + potential n bs m

pub potential-keep :
    (n : ℕ) (p : ℕ → Bool) (bs : List ℕ)
    → potential n (keep p bs) [] + length bs ≤ length bs * suc (suc (n + n))
unfolding potential
potential-keep n p [] = grind arith
potential-keep n p (b ∷ bs) = grind (arith, potential-keep n p bs)

module _ (n b : ℕ) (e : LockState) (m : Map ℕ LockState) where
  pub potential-insert-absent :
      (bs : List ℕ) → contains bs b ≡ false → potential n bs (insert b e m) ≡ potential n bs m
  unfolding potential
  potential-insert-absent [] h = omega arith
  potential-insert-absent (x ∷ bs) h =
      ground (arith, lookup-insert b x e m, potential-insert-absent bs)

module _ (n b : ℕ) (e : LockState) (m : Map ℕ LockState)
    (less : size e ≤ weight n (lookup b m)) where
  pub potential-insert-le : (bs : List ℕ) → potential n bs (insert b e m) ≤ potential n bs m
  unfolding potential
  potential-insert-le [] = omega arith
  potential-insert-le (x ∷ bs) = ground (arith, lookup-insert b x e m, potential-insert-le bs)

module _ (n b : ℕ) (e : LockState) (m : Map ℕ LockState)
    (less : size e < weight n (lookup b m)) where
  pub potential-insert-lt :
      (bs : List ℕ) → contains bs b ≡ true → potential n bs (insert b e m) < potential n bs m
  unfolding potential
  potential-insert-lt [] h = absurd (cc)
  potential-insert-lt (x ∷ bs) h = ground (
    arith,
    lookup-insert b x e m,
    potential-insert-le n b e m (omega arith) bs,
    potential-insert-lt bs,
  )

pub size-Below : {a b : LockState} → IsValid a → Below a b → size a ≤ size b
size-Below {a} {b} v below = omega (
  arith,
  length-keys a.held,
  length-keys b.held,
  length-le_of_subset (keys a.held) (keys b.held) v.distinct_held below.below_held,
  length-le_of_subset a.deferred_unlocks b.deferred_unlocks v.distinct_deferred
      below.below_deferred,
)
