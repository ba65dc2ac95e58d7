-- ===== src/Walk/Blocks/Sound.antt =====
-- The walk of pkg/analyzer/ssawalk.go, for functions in which all paths to a block arrive with the
-- same locks.
use golintmu.Base.{
  ℕ, ◌≡◌, true, inl, inr, none, some, List, [], ◌∷◌, arith, nat_eq, lookup, has, contains,
  lookup_of_has,
}
use golintmu.Ssa.{Program}
use golintmu.LockState.{LockState, new_lock_state}
use golintmu.LockState.Order.{IsValid, new_lock_state-IsValid}
use golintmu.Pass.{PassContext}
use golintmu.Walk.Instrs.Effects.{run_locks, run_locks-IsValid, run_locks-Below}
use golintmu.Walk.Blocks.{WalkContext, new_walk_context, walk_block, walk_fuel}
use golintmu.Walk.Blocks.Rounds.{IsClosed}
use golintmu.Walk.Blocks.Visits.{Entries, fresh-le}
use golintmu.Walk.Blocks.Once.{Same, Same-sym, Same-trans, IsConsistent, Walks, walk_block-once}

-- The states in which the paths from the entry block reach a block.
pub data At (prog : Program) (entry : ℕ) : ℕ → LockState → Type 0 where
  at_entry : At prog entry entry new_lock_state
  at_succ :
      {b c : ℕ} {ls : LockState}
      → At prog entry b ls
      → contains (prog.block b).succs c ≡ true
      → At prog entry c (run_locks prog (prog.block b).instrs ls)

module _ (prog : Program) (bs : List ℕ) (entry : ℕ) (expected : ℕ → LockState)
    (closed : IsClosed prog bs) (consistent : IsConsistent prog bs entry expected) where
  -- The paths arrive with what is expected.
  At-expected :
      {b : ℕ} {ls : LockState}
      → contains bs entry ≡ true
      → At prog entry b ls
      → (contains bs b ≡ true) × IsValid ls × Same ls (expected b)
  At-expected is_block at_entry = (is_block, new_lock_state-IsValid, consistent.start)
  At-expected is_block (at_succ {b} {c} {ls} path is_succ) =
      let (inside, v, same) = At-expected is_block path in
      (
        closed b inside c is_succ,
        run_locks-IsValid prog (prog.block b).instrs ls v,
        Same-trans
            (
              run_locks-Below prog (prog.block b).instrs same.0,
              run_locks-Below prog (prog.block b).instrs same.1,
            )
            (consistent.step b c inside is_succ),
      )

  At-visited :
      (m : Entries)
      → ((b s : ℕ) → has b m ≡ true → contains (prog.block b).succs s ≡ true → has s m ≡ true)
      → has entry m ≡ true
      → {b : ℕ} {ls : LockState} → At prog entry b ls
      → has b m ≡ true
  At-visited m done start at_entry = start
  At-visited m done start (at_succ {b} {c} path is_succ) =
      done b c (At-visited m done start path) is_succ

-- The walk from the entry block, and what it has done when it returns.
walk_once :
    (prog : Program) (fn entry : ℕ) (rest : List ℕ) (ctx : PassContext) (expected : ℕ → LockState)
    → (prog.func fn).blocks ≡ entry ∷ rest
    → (closed : IsClosed prog (prog.func fn).blocks)
    → (consistent : IsConsistent prog (prog.func fn).blocks entry expected)
    → Walks prog
        (prog.func fn).blocks
        entry
        expected
        closed
        consistent
        new_walk_context
        (entry ∷ [])
        (walk_block prog (walk_fuel prog fn) fn entry none new_lock_state (ctx, new_walk_context))
unfolding walk_fuel
walk_once prog fn entry rest ctx expected e closed consistent =
    let bs = (prog.func fn).blocks in
    walk_block-once prog bs entry expected closed consistent (walk_fuel prog fn) fn entry none
      new_lock_state ctx new_walk_context (rw e (ground arith)) (λ b x k. absurd (cc))
      new_lock_state-IsValid consistent.start (grind (arith, fresh-le bs []))

-- The blocks of a function are closed under successors, and all paths to a block arrive with the
-- locks that `expected` has for it. Then the walk from the entry block returns, with no block
-- marked as reported for inconsistent locks; and it has recorded, for each block that a path
-- reaches, an entry state that holds just the locks, and defers just the unlocks, that the path
-- arrives with.
pub walk_sound :
    (prog : Program) (fn entry : ℕ) (rest : List ℕ) (ctx : PassContext) (expected : ℕ → LockState)
    → (prog.func fn).blocks ≡ entry ∷ rest
    → IsClosed prog (prog.func fn).blocks
    → IsConsistent prog (prog.func fn).blocks entry expected
    → (s : PassContext × WalkContext) × (walk_block prog
          (walk_fuel prog fn)
          fn
          entry
          none
          new_lock_state
          (ctx, new_walk_context)
        ≡ some s)
      × (s.1.inconsistent_lock_reported ≡ [])
      × ((b : ℕ) (ls : LockState)
          → At prog entry b ls
          → (e : LockState) × (lookup b s.1.entry_states ≡ some e) × Same e ls)
walk_sound prog fn entry rest ctx expected e closed consistent =
    let bs = (prog.func fn).blocks in
    let (s, result, post, start) = walk_once prog fn entry rest ctx expected e closed consistent in
    (
      s,
      result,
      post.silent,
      λ b ls path.
          let visited =
            At-visited prog bs entry expected closed consistent s.1.entry_states
              (λ c x h k. elim (post.settled c x h k) [ inl old ↦ absurd (cc) | inr done ↦ done ])
              (start entry (ground arith)) path in
          let (r, at) = lookup_of_has b s.1.entry_states visited in
          let (_, _, same) =
            At-expected prog bs entry expected closed consistent (rw e (ground arith)) path in
          (r, at, Same-trans (post.as_expected b r at).1 (Same-sym same)),
    )
