-- ===== src/Leaks/Positions.antt =====
-- The first loop of `computeReturnsHolding` of pkg/analyzer/reporter.go: the positions at which a
-- function returns with a lock.
use golintmu.Base.{
  Eq, ℕ, ◌≡◌, subst, ==_iff, inl, inr, Bool, false, ◌&&◌, ◌||◌, none, some, List, [], ◌∷◌, ◌==◌,
  nat_eq, pair_eq, arith, Map, keys, lookup_list, insert, lookup-insert, insert-IsDistinct,
  contains, contains-add, any, add, fold, IsDistinct, IsDistinct-add, Bool-cases, Option-cases,
}
use golintmu.Ssa.{Program}
use golintmu.Pass.{PassContext, MutexFieldKey, LockLeakCandidate}
use golintmu.Pass.Keys.{MutexFieldKey_eq}
use golintmu.Walk.Locks.{lock_ref_to_mutex_field_key}
use golintmu.Leaks.{add_return_position, return_positions}

-- `m[k][a] = true` keeps each set free of repetitions.
IsDistinct-at :
    {K V : Type 0} ⦃e : Eq K⦄ ⦃f : Eq V⦄ (k j : K) (a : V) (m : Map K (List V))
    → IsDistinct (lookup_list j m)
    → IsDistinct (lookup_list j (insert k (add a (lookup_list k m)) m))
IsDistinct-at k j a m h = elim (Bool-cases (k == j)) [
  | inl same ↦
      let e : k ≡ j = (==_iff k j).0 same in
      ground (
        arith,
        lookup-insert k j (add a (lookup_list k m)) m,
        same,
        e,
        h,
        IsDistinct-add a (lookup_list j m) h,
      )
  | inr other ↦ ground (arith, lookup-insert k j (add a (lookup_list k m)) m, other, h)
]

module _ (prog : Program) where
  -- A candidate of the function, the lock and the position.
  abbrev pub is_leak : ℕ → MutexFieldKey → ℕ → LockLeakCandidate → Bool
  is_leak fn mfk p c =
      c.fn == fn
      && (c.pos == p
          && elim (lock_ref_to_mutex_field_key prog c.ref) [ none ↦ false | some k ↦ k == mfk ])

  module _ (fn : ℕ) (mfk : MutexFieldKey) where
    abbrev at_lock : Map (ℕ × MutexFieldKey) (List ℕ) → List ℕ
    at_lock m = lookup_list (fn, mfk) m

    -- The positions so far: the keys, and the positions of each, are distinct.
    pub record IsCollected (m : Map (ℕ × MutexFieldKey) (List ℕ)) : Type 0 where
      pub distinct_keys : IsDistinct (keys m)
      pub distinct : IsDistinct (at_lock m)

    contains-add_return_position :
        (m : Map (ℕ × MutexFieldKey) (List ℕ)) (c : LockLeakCandidate) (p : ℕ)
        → contains (at_lock (add_return_position prog m c)) p
          ≡ (contains (at_lock m) p || is_leak fn mfk p c)
    unfolding add_return_position
    contains-add_return_position m c p =
        elim (Option-cases (lock_ref_to_mutex_field_key prog c.ref)) [
          | inl unknown ↦ ground (arith, unknown)
          | inr (k, known) ↦ ground (
            arith,
            known,
            lookup-insert (c.fn, k) (fn, mfk) (add c.pos (lookup_list (c.fn, k) m)) m,
            contains-add c.pos p (lookup_list (c.fn, k) m),
          )
        ]

    add_return_position-IsCollected :
        (m : Map (ℕ × MutexFieldKey) (List ℕ)) (c : LockLeakCandidate)
        → IsCollected m
        → IsCollected (add_return_position prog m c)
    unfolding add_return_position
    add_return_position-IsCollected m c h =
        elim (Option-cases (lock_ref_to_mutex_field_key prog c.ref)) [
          | inl unknown ↦ subst IsCollected {x = m} (ground (arith, unknown)) h
          | inr (k, known) ↦
              let ps = add c.pos (lookup_list (c.fn, k) m) in
              subst IsCollected {x = insert (c.fn, k) ps m} (ground (arith, known)) (record {
                distinct_keys = insert-IsDistinct (c.fn, k) ps m h.distinct_keys;
                distinct = IsDistinct-at (c.fn, k) (fn, mfk) c.pos m h.distinct;
              })
        ]

    -- The candidates of one position.
    contains-candidates :
        (m : Map (ℕ × MutexFieldKey) (List ℕ)) (cs : List LockLeakCandidate) (p : ℕ)
        → contains (at_lock (fold (add_return_position prog) m cs)) p
          ≡ (contains (at_lock m) p || any (is_leak fn mfk p) cs)
    contains-candidates m [] p = ground arith
    contains-candidates m (c ∷ cs) p = ground (
      arith,
      contains-candidates (add_return_position prog m c) cs p,
      contains-add_return_position m c p,
    )

    candidates-IsCollected :
        (m : Map (ℕ × MutexFieldKey) (List ℕ)) (cs : List LockLeakCandidate)
        → IsCollected m
        → IsCollected (fold (add_return_position prog) m cs)
    candidates-IsCollected m [] h = h
    candidates-IsCollected m (c ∷ cs) h =
        candidates-IsCollected (add_return_position prog m c) cs
          (add_return_position-IsCollected m c h)

    abbrev candidates_of :
        Map (ℕ × MutexFieldKey) (List ℕ)
        → ℕ × List LockLeakCandidate
        → Map (ℕ × MutexFieldKey) (List ℕ)
    candidates_of m (_, cs) = fold (add_return_position prog) m cs

    contains-collected :
        (m : Map (ℕ × MutexFieldKey) (List ℕ)) (l : Map ℕ (List LockLeakCandidate)) (p : ℕ)
        → contains (at_lock (fold candidates_of m l)) p
          ≡ (contains (at_lock m) p || any (λ (_, cs). any (is_leak fn mfk p) cs) l)
    contains-collected m [] p = ground arith
    contains-collected m ((pos, cs) ∷ l) p = ground (
      arith,
      contains-collected (fold (add_return_position prog) m cs) l p,
      contains-candidates m cs p,
    )

    all_candidates-IsCollected :
        (m : Map (ℕ × MutexFieldKey) (List ℕ)) (l : Map ℕ (List LockLeakCandidate))
        → IsCollected m
        → IsCollected (fold candidates_of m l)
    all_candidates-IsCollected m [] h = h
    all_candidates-IsCollected m ((pos, cs) ∷ l) h =
        all_candidates-IsCollected (fold (add_return_position prog) m cs) l
          (candidates-IsCollected m cs h)

    -- The function has a leak of the lock at the position.
    abbrev pub leaks_at : PassContext → ℕ → Bool
    leaks_at ctx p = any (λ (_, cs). any (is_leak fn mfk p) cs) ctx.lock_leak_candidates

    pub contains-return_positions :
        (ctx : PassContext) (p : ℕ)
        → contains (lookup_list (fn, mfk) (return_positions prog ctx)) p ≡ leaks_at ctx p
    unfolding return_positions
    contains-return_positions ctx p = contains-collected [] ctx.lock_leak_candidates p

    pub return_positions-IsCollected : (ctx : PassContext) → IsCollected (return_positions prog ctx)
    unfolding return_positions
    return_positions-IsCollected ctx =
        all_candidates-IsCollected [] ctx.lock_leak_candidates
          (record { distinct_keys = tt; distinct = tt })
