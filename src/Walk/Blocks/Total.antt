-- ===== src/Walk/Blocks/Total.antt =====
-- Phase 1 of pkg/analyzer/ssawalk.go, function by function.
use golintmu.Base.{
  ℕ, ◌≡◌, refl, Bool, true, ◌⊎◌, inl, inr, none, some, List, [], ◌∷◌, arith, nat_eq, ◌>>=◌,
  contains,
}
use golintmu.Ssa.{Program}
use golintmu.LockState.{LockState, new_lock_state}
use golintmu.Pass.{PassContext}
use golintmu.Walk.Blocks.{
  WalkContext, new_walk_context, walk_block, walk_fuel, walk_function, walk_functions,
  collect_observations,
}
use golintmu.Walk.Blocks.Rounds.{IsClosed, IsRanked}
use golintmu.Walk.Blocks.Ends.{walk_returns}
use golintmu.Walk.Blocks.Once.{IsConsistent}
use golintmu.Walk.Blocks.Sound.{walk_sound}

-- No block that leaves a lock or a deferred unlock that there was not before is on a loop.
abbrev pub HasRanks : Program → List ℕ → Type 0
HasRanks prog bs = (steady : ℕ → Bool) × (rank : ℕ → ℕ) × IsRanked prog bs steady rank

-- All paths to a block arrive with the same locks.
abbrev pub HasStates : Program → List ℕ → Type 0
HasStates prog bs =
    (expected : ℕ → LockState) × ((entry : ℕ) (rest : List ℕ)
      → bs ≡ entry ∷ rest
      → IsConsistent prog bs entry expected)

-- Functions for which the walk is known to end.
pub record IsTame (prog : Program) (fn : ℕ) : Type 0 where
  pub closed : IsClosed prog (prog.func fn).blocks
  pub tame : HasRanks prog (prog.func fn).blocks ⊎ HasStates prog (prog.func fn).blocks

abbrev pub AllTame : Program → Type 0
AllTame prog = (fn : ℕ) → contains prog.src_funcs fn ≡ true → IsTame prog fn

walk_tame :
    (prog : Program) (fn entry : ℕ) (rest : List ℕ) (ctx : PassContext)
    → (prog.func fn).blocks ≡ entry ∷ rest
    → IsTame prog fn
    → (s : PassContext × WalkContext) × (walk_block prog
          (walk_fuel prog fn)
          fn
          entry
          none
          new_lock_state
          (ctx, new_walk_context)
        ≡ some s)
walk_tame prog fn entry rest ctx e t = elim t.tame [
  | inl (steady, rank, ranked) ↦ walk_returns prog fn entry rest ctx steady rank e t.closed ranked
  | inr (expected, consistent) ↦
      let (s, result, _, _) =
        walk_sound prog fn entry rest ctx expected e t.closed (consistent entry rest e) in
      (s, result)
]

walk_function-total :
    (prog : Program) (fn : ℕ) (ctx : PassContext)
    → IsTame prog fn
    → (ctx' : PassContext) × (walk_function prog ctx fn ≡ some ctx')
unfolding walk_function
walk_function-total prog fn ctx t = by_blocks (prog.func fn).blocks refl
  where
    by_blocks :
        (bs : List ℕ)
        → (prog.func fn).blocks ≡ bs
        → (ctx' : PassContext) × (walk_function prog ctx fn ≡ some ctx')
    by_blocks [] e = (ctx, rw (e, walk_function))
    by_blocks (entry ∷ rest) e =
        let (s, result) = walk_tame prog fn entry rest ctx e t in
        (s.0, rw (e, walk_function, result))

walk_functions-total :
    (prog : Program) (fns : List ℕ) (ctx : PassContext)
    → ((fn : ℕ) → contains fns fn ≡ true → IsTame prog fn)
    → (ctx' : PassContext) × (walk_functions prog fns ctx ≡ some ctx')
unfolding walk_functions
walk_functions-total prog [] ctx all = (ctx, refl)
walk_functions-total prog (fn ∷ fns) ctx all =
    let (ctx', first) = walk_function-total prog fn ctx (all fn (ground arith)) in
    let (ctx'', rest) = walk_functions-total prog fns ctx' (λ g m. all g (ground arith)) in
    (ctx'', rw (first, ◌>>=◌) rest)

-- Phase 1 returns, within its fuel, where for each function to walk the successors of its blocks
-- are its blocks, and either no block that leaves a lock or a deferred unlock that there was not
-- before is on a loop, or all paths to a block arrive with the same locks.
pub collect_observations-total :
    (prog : Program) (ctx : PassContext)
    → AllTame prog
    → (ctx' : PassContext) × (collect_observations prog ctx ≡ some ctx')
unfolding collect_observations
collect_observations-total prog ctx all = walk_functions-total prog prog.src_funcs ctx all
