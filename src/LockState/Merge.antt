-- ===== src/LockState/Merge.antt =====
-- `intersect` of pkg/analyzer/lockstate.go: what holds where two branches meet.
use golintmu.Base.{
  ◌≤◌, ◌<◌, ◌≡◌, refl, true, false, ◌&&◌, [], ◌∷◌, inl, inr, arith, Option, none, some,
  Option-cases, ◌==◌, length, contains, has, keys, lookup, IsDistinct, Map, length-keys,
  contains-keep, IsDistinct-keep, length-keep-le, if◌then◌else◌, has_of_lookup, lookup_of_not-has,
  bool_eq,
}
use golintmu.LockState.{
  LockRef, LockRef_eq, HeldLock, LockState, equal_held, intersect, intersect_held,
}
use golintmu.LockState.Order.{IsValid, Below, size, equal_held_parts}

-- What the merged map has at a key.
abbrev pub agreed : Option HeldLock → Option HeldLock → Option HeldLock
agreed none o = none
agreed (some v) none = none
agreed (some v) (some w) = if v.exclusive == w.exclusive then some v else none

module _ (other : Map LockRef HeldLock) where
  has-intersect_held-le :
      (k : LockRef) (m : Map LockRef HeldLock)
      → has k (intersect_held m other) ≡ true
      → has k m ≡ true
  unfolding intersect_held
  has-intersect_held-le k [] h = h
  has-intersect_held-le k ((j, v) ∷ m) h = ground (arith, has-intersect_held-le k m)

  has-intersect_held-other :
      (k : LockRef) (m : Map LockRef HeldLock)
      → has k (intersect_held m other) ≡ true
      → has k other ≡ true
  unfolding intersect_held
  has-intersect_held-other k [] h = absurd (cc)
  has-intersect_held-other k ((j, v) ∷ m) h = elim (Option-cases (lookup j other)) [
    | inl p ↦ ground (arith, has-intersect_held-other k m)
    | inr (w, p) ↦ ground (arith, has_of_lookup j w other, has-intersect_held-other k m)
  ]

  not-has-intersect_held :
      (k : LockRef) (m : Map LockRef HeldLock)
      → has k m ≡ false
      → has k (intersect_held m other) ≡ false
  not-has-intersect_held k m h = ground (arith, has-intersect_held-le k m)

  lookup-intersect_held :
      (k : LockRef) (m : Map LockRef HeldLock)
      → IsDistinct (keys m)
      → lookup k (intersect_held m other) ≡ agreed (lookup k m) (lookup k other)
  unfolding intersect_held
  lookup-intersect_held k [] d = refl
  lookup-intersect_held k ((j, v) ∷ m) d = ground (
    arith,
    lookup-intersect_held k m d.1,
    not-has-intersect_held j m d.0,
    lookup_of_not-has j (intersect_held m other),
  )

  IsDistinct-intersect_held :
      (m : Map LockRef HeldLock) → IsDistinct (keys m) → IsDistinct (keys (intersect_held m other))
  unfolding intersect_held
  IsDistinct-intersect_held [] d = tt
  IsDistinct-intersect_held ((j, v) ∷ m) d =
      ground (arith, IsDistinct-intersect_held m d.1, not-has-intersect_held j m d.0)

  length-intersect_held-le : (m : Map LockRef HeldLock) → length (intersect_held m other) ≤ length m
  unfolding intersect_held
  length-intersect_held-le [] = omega arith
  length-intersect_held-le ((j, v) ∷ m) = ground (arith, length-intersect_held-le m)

-- Where the first state lists no lock twice: after the merge a lock is held exactly if both states
-- hold it in the same mode, with the acquisition of the first, and an unlock is deferred exactly if
-- both defer it.
pub intersect_lem :
    (a b : LockState) (k : LockRef)
    → IsValid a
    → (lookup k (intersect a b).held ≡ agreed (lookup k a.held) (lookup k b.held))
      × (contains (intersect a b).deferred_unlocks k
          ≡ (contains a.deferred_unlocks k && contains b.deferred_unlocks k))
unfolding intersect
intersect_lem a b k v = (
  lookup-intersect_held b.held k a.held v.distinct_held,
  contains-keep (contains b.deferred_unlocks) a.deferred_unlocks k,
)

module _ (a b : LockState) where
  pub intersect-IsValid : IsValid a → IsValid (intersect a b)
  unfolding intersect
  intersect-IsValid v = record {
    distinct_held = IsDistinct-intersect_held b.held a.held v.distinct_held;
    distinct_deferred = IsDistinct-keep _ a.deferred_unlocks v.distinct_deferred;
  }

  pub intersect-Below_left : Below (intersect a b) a
  unfolding intersect
  intersect-Below_left = record {
    below_held = λ k. has-intersect_held-le b.held k a.held;
    below_deferred =
        λ k h. ground (arith, contains-keep (contains b.deferred_unlocks) a.deferred_unlocks k);
  }

  pub intersect-Below_right : Below (intersect a b) b
  unfolding intersect
  intersect-Below_right = record {
    below_held = λ k. has-intersect_held-other b.held k a.held;
    below_deferred =
        λ k h. ground (arith, contains-keep (contains b.deferred_unlocks) a.deferred_unlocks k);
  }

  -- A merge that is not the first state has fewer locks or deferred unlocks.
  pub size-intersect-lt : equal_held (intersect a b) a ≡ false → size (intersect a b) < size a
  unfolding intersect
  size-intersect-lt h =
      let below = intersect-Below_left in
      ground (
        arith,
        (equal_held_parts (intersect a b) a).1,
        below.below_held,
        below.below_deferred,
        length-keys a.held,
        length-keys (intersect_held a.held b.held),
        length-intersect_held-le b.held a.held,
        length-keep-le (contains b.deferred_unlocks) a.deferred_unlocks,
      )
