-- ===== src/Walk/Locks/Leaks.antt =====
-- `checkReturnWithHeldLocks` of pkg/analyzer/ssawalk.go: the candidates for a leaked lock.
use golintmu.Base.{
  ℕ, ◌≡◌, refl, Bool, not, ◌&&◌, inl, inr, List, [], ◌∷◌, ◌==◌, arith, nat_eq, if◌then◌else◌,
  Bool-cases, List-cases, any, Map, has, contains, lookup, lookup_list, lookup-insert,
  lookup-delete, delete,
}
use golintmu.Ssa.{Program}
use golintmu.LockState.{LockRef, LockRef_eq, HeldLock, LockState}
use golintmu.Pass.{PassContext, LockLeakCandidate}
use golintmu.Walk.Locks.{leak_candidates, check_return_with_held_locks}

-- A candidate of the list is about the lock.
abbrev pub names : LockRef → List LockLeakCandidate → Bool
names ref = any (λ c. c.ref == ref)

module _ (prog : Program) (fn ret_pos : ℕ) (ls : LockState) (ref : LockRef) where
  names-leak_candidates :
      (held : Map LockRef HeldLock)
      → names ref (leak_candidates prog fn ret_pos ls held)
        ≡ (has ref held && not (contains ls.deferred_unlocks ref))
  unfolding leak_candidates
  names-leak_candidates [] = refl
  names-leak_candidates ((r, hl) ∷ held) = elim (Bool-cases (r == ref)) [
    | inl same ↦ let e : r ≡ ref = ground arith in rw e (ground (arith, names-leak_candidates held))
    | inr other ↦ ground (arith, other, names-leak_candidates held)
  ]

-- After `checkReturnWithHeldLocks` a lock is a candidate at the return exactly if it is held there
-- and no unlock of it is deferred, whatever an earlier walk of the block had recorded; the
-- candidates at all other positions stay.
pub check_return_with_held_locks_lem :
    (prog : Program) (ctx : PassContext) (fn ret_pos : ℕ) (ls : LockState) (ref : LockRef)
    → (names ref (
          lookup_list ret_pos
            (check_return_with_held_locks prog ctx fn ret_pos ls).lock_leak_candidates)
        ≡ (has ref ls.held && not (contains ls.deferred_unlocks ref)))
      × ((pos : ℕ)
          → lookup pos (check_return_with_held_locks prog ctx fn ret_pos ls).lock_leak_candidates
            ≡ (if ret_pos == pos
                then lookup ret_pos
                    (check_return_with_held_locks prog ctx fn ret_pos ls).lock_leak_candidates
                else lookup pos ctx.lock_leak_candidates))
unfolding check_return_with_held_locks
check_return_with_held_locks_lem prog ctx fn ret_pos ls ref =
    let old = ctx.lock_leak_candidates in
    let named = names-leak_candidates prog fn ret_pos ls ref ls.held in
    elim (List-cases (leak_candidates prog fn ret_pos ls ls.held)) [
      | inl clean ↦
          rw (check_return_with_held_locks, clean)
            (
              ground (arith, clean, named, lookup-delete ret_pos ret_pos old),
              λ pos.
                  ground (arith, lookup-delete ret_pos pos old, lookup-delete ret_pos ret_pos old),
            )
      | inr (c, cs, leaks) ↦
          let new = c ∷ cs in
          rw (check_return_with_held_locks, leaks)
            (
              ground (arith, leaks, named, lookup-insert ret_pos ret_pos new (delete ret_pos old)),
              λ pos. ground (
                arith,
                lookup-delete ret_pos pos old,
                lookup-insert ret_pos pos new (delete ret_pos old),
                lookup-insert ret_pos ret_pos new (delete ret_pos old),
              ),
            )
    ]
