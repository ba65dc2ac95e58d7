-- ===== src/Walk/Blocks/Ends.antt =====
-- The fuel of the walk of pkg/analyzer/ssawalk.go, for functions in which no block that leaves locks
-- behind is on a loop.
use golintmu.Base.{
  ℕ, zero, suc, ◌+◌, ◌≤◌, ◌<◌, ◌≡◌, refl, ◌∙◌, Bool, true, Option, none, some, List, [], ◌∷◌, arith,
  nat_eq, ◌>>=◌, contains, length, IsSubset, has,
}
use golintmu.Ssa.{Program}
use golintmu.LockState.{LockRef_eq, LockState, new_lock_state}
use golintmu.LockState.Order.{new_lock_state-IsValid}
use golintmu.Pass.{PassContext}
use golintmu.Walk.Universe.{IsWithin, lock_refs, run_locks-IsWithin, instr_refs-lock_refs}
use golintmu.Walk.Blocks.{
  WalkContext, new_walk_context, enter_block, run_block, walk_succs, walk_block, walk_fuel,
}
use golintmu.Walk.Blocks.Enter.{
  Outcome, returned, walked, enter_block-Outcome, run_block_lem, walk_block-returned,
  walk_block-walked,
}
use golintmu.Walk.Blocks.Potential.{potential-keep}
use golintmu.Walk.Blocks.Rounds.{
  IsClosed, IsRanked, refs, left_of, AllIn, Below-IsWithin, walked-lt-weight, recorded,
  recorded-AllIn, recorded-succs, recorded-le,
}

module _ (prog : Program) (bs : List ℕ) (steady : ℕ → Bool) (rank : ℕ → ℕ)
    (closed : IsClosed prog bs) (ranked : IsRanked prog bs steady rank) where
  abbrev left : WalkContext → ℕ
  left w = (left_of prog bs steady rank ranked) w.entry_states

  abbrev AllWithin : WalkContext → Type 0
  AllWithin w = (AllIn prog bs steady rank ranked) w.entry_states

  -- The walk returns, and leaves no more to be done.
  abbrev Returns : WalkContext → Option (PassContext × WalkContext) → Type 0
  Returns w r = (s : PassContext × WalkContext) × (r ≡ some s) × AllWithin s.1 × (left s.1 ≤ left w)

  abbrev WalkReturns : ℕ → ℕ → Type 0
  WalkReturns fuel fn =
      (b : ℕ) (from : Option ℕ) (ls : LockState) (ctx : PassContext) (w : WalkContext)
      → contains bs b ≡ true
      → AllWithin w
      → IsWithin (refs prog bs steady rank ranked) ls
      → left w + rank b < fuel
      → Returns w (walk_block prog fuel fn b from ls (ctx, w))

  walk_succs-Returns :
      (fuel fn b : ℕ) (ls : LockState)
      → WalkReturns fuel fn
      → IsWithin (refs prog bs steady rank ranked) ls
      → (succs : List ℕ) (ctx : PassContext) (w : WalkContext) → IsSubset succs bs
      → AllWithin w
      → ((s : ℕ) → contains succs s ≡ true → left w + rank s < fuel)
      → Returns w (walk_succs (walk_block prog fuel fn) b ls succs (ctx, w))
  unfolding walk_succs
  walk_succs-Returns fuel fn b ls ih h [] ctx w sub all less = ((ctx, w), refl, all, omega arith)
  walk_succs-Returns fuel fn b ls ih h (s ∷ succs) ctx w sub all less =
      let ((ctx', w'), first, all', le) =
        ih s (some b) ls ctx w (sub s (ground arith)) all h (less s (ground arith)) in
      let (r, rest, all'', le') =
        walk_succs-Returns fuel fn b ls ih h succs ctx' w' (λ x k. sub x (ground arith)) all'
          (λ x k. omega (arith, less x (ground arith))) in
      (r, rw (first, ◌>>=◌) rest, all'', omega arith)

  walk_block-step :
      (fuel fn b : ℕ) (from : Option ℕ) (ls : LockState) (ctx : PassContext) (w : WalkContext)
      → WalkReturns fuel fn
      → contains bs b ≡ true
      → AllWithin w
      → IsWithin (refs prog bs steady rank ranked) ls
      → left w + rank b < suc fuel
      → Outcome w
          (enter_block prog fn b from ls (ctx, w)).0.1
          b
          ls
          (enter_block prog fn b from ls (ctx, w)).1
      → Returns w (walk_block prog (suc fuel) fn b from ls (ctx, w))
  walk_block-step fuel fn b from ls ctx w ih is_block all h less (returned prev e _ _ same) = (
    (enter_block prog fn b from ls (ctx, w)).0,
    walk_block-returned prog fuel fn b from ls (ctx, w) e,
    rw same all,
    rw same (omega arith),
  )
  walk_block-step fuel fn b from ls ctx w ih is_block all h less (walked ls' e ins v below falls) =
      let entered = (enter_block prog fn b from ls (ctx, w)).0 in
      let m = w.entry_states in
      let visited = has b m in
      let within : IsWithin (refs prog bs steady rank ranked) ls' =
        (Below-IsWithin prog bs steady rank ranked) v below h in
      let exit_within =
        run_locks-IsWithin prog (refs prog bs steady rank ranked) (prog.block b).instrs ls'
          (instr_refs-lock_refs prog bs b is_block) within in
      let lt = (walked-lt-weight prog bs steady rank ranked) b ls' w within falls in
      let (changed, exit) = run_block_lem prog fn b visited ls' entered.0 entered.1 in
      let ran = run_block prog fn b visited ls' entered in
      let start : ran.0.1.entry_states ≡ (recorded prog bs steady rank ranked) b visited ls' m =
        rw (← ins) changed in
      let (r, rest, all', le) =
        walk_succs-Returns fuel fn b ran.1 ih (rw exit exit_within) (prog.block b).succs ran.0.0
          ran.0.1 (closed b is_block)
          (rw start
            ((recorded-AllIn prog bs steady rank ranked) b visited ls' m within exit_within all))
          (λ s k. rw start (
            omega (
              arith,
              ((recorded-succs prog bs steady rank ranked) b s visited ls' m is_block k
                  exit_within.valid v lt).1,
            ))) in
      let le' =
        (recorded-le prog bs steady rank ranked) b visited ls' m is_block exit_within.valid v lt in
      let le'' : left r.1
          ≤ (left_of prog bs steady rank ranked)
              ((recorded prog bs steady rank ranked) b visited ls' m) =
        rw start at le in
      (r, walk_block-walked prog fuel fn b from ls (ctx, w) ls' e ∙ rest, all', omega arith)

  walk_block-returns : (fuel fn : ℕ) → WalkReturns fuel fn
  walk_block-returns zero fn b from ls ctx w is_block all h less = absurd (omega arith)
  walk_block-returns (suc fuel) fn b from ls ctx w is_block all h less =
      walk_block-step fuel fn b from ls ctx w (walk_block-returns fuel fn) is_block all h less
        (enter_block-Outcome prog fn b from ls ctx w (λ prev e. (all b prev e).valid) h.valid)

new_lock_state-IsWithin :
    (prog : Program) (bs : List ℕ) → IsWithin (lock_refs prog bs) new_lock_state
new_lock_state-IsWithin prog bs = record {
  valid = new_lock_state-IsValid;
  within_held = λ k m. absurd (cc);
  within_deferred = λ k m. absurd (cc);
}

-- The walk from the entry block returns within its fuel.
pub walk_returns :
    (prog : Program) (fn entry : ℕ) (rest : List ℕ) (ctx : PassContext) (steady : ℕ → Bool)
    (rank : ℕ → ℕ)
    → (prog.func fn).blocks ≡ entry ∷ rest
    → IsClosed prog (prog.func fn).blocks
    → IsRanked prog (prog.func fn).blocks steady rank
    → (s : PassContext × WalkContext) × (walk_block prog
          (walk_fuel prog fn)
          fn
          entry
          none
          new_lock_state
          (ctx, new_walk_context)
        ≡ some s)
unfolding walk_fuel
walk_returns prog fn entry rest ctx steady rank e closed ranked =
    let bs = (prog.func fn).blocks in
    let start = potential-keep (length (lock_refs prog bs)) steady bs in
    let is_block : contains bs entry ≡ true = rw e (ground arith) in
    let low = ranked.bounded entry is_block in
    let (s, result, _, _) =
      walk_block-returns prog bs steady rank closed ranked (walk_fuel prog fn) fn entry none
        new_lock_state ctx new_walk_context is_block (λ b x k. absurd (cc))
        (new_lock_state-IsWithin prog bs) (omega arith) in
    (s, result)
