-- ===== src/Walk/Blocks/Enter.antt =====
-- What the head of `walkBlock` leaves: an early return, or a state to walk the block with.
use golintmu.Base.{
  ℕ, suc, ◌<◌, ◌≡◌, inl, inr, Option, none, some, arith, nat_eq, Bool-cases, Option-cases, Bool,
  if◌then◌else◌, ap, has, lookup, insert,
}
use golintmu.Ssa.{Program}
use golintmu.LockState.{LockState, equal_held, intersect}
use golintmu.LockState.Order.{IsValid, Below, Below-refl, Below-trans, size, equal_held_iff}
use golintmu.LockState.Merge.{
  intersect-IsValid, intersect-Below_left, intersect-Below_right, size-intersect-lt,
}
use golintmu.Pass.{PassContext}
use golintmu.Walk.Blocks.{WalkContext, revisit, enter_block, run_block, walk_succs, walk_block}
use golintmu.Walk.Instrs.Effects.{run_locks, process_block-locks}

-- `returned`: the recorded entry state is already below the new one. `walked`: the state walked
-- with is recorded; it is below the new one, and below and smaller than an older record.
pub data Outcome (w w' : WalkContext) (b : ℕ) (ls : LockState) (walk : Option LockState)
    : Type 0 where
  returned :
      (prev : LockState)
      → walk ≡ none
      → lookup b w.entry_states ≡ some prev
      → Below prev ls
      → w'.entry_states ≡ w.entry_states
      → Outcome w w' b ls walk
  walked :
      (ls' : LockState)
      → walk ≡ some ls'
      → w'.entry_states ≡ insert b ls' w.entry_states
      → IsValid ls'
      → Below ls' ls
      → ((prev : LockState)
          → lookup b w.entry_states ≡ some prev
          → Below ls' prev × (size ls' < size prev))
      → Outcome w w' b ls walk

module _ (prog : Program) (fn b : ℕ) (from : Option ℕ) (ls : LockState) where
  revisit-Outcome :
      (prev : LockState) (ctx : PassContext) (w : WalkContext)
      → lookup b w.entry_states ≡ some prev
      → IsValid prev
      → IsValid ls
      → Outcome w
          (revisit prog fn b from prev ls (ctx, w)).0.1
          b
          ls
          (revisit prog fn b from prev ls (ctx, w)).1
  unfolding revisit
  revisit-Outcome prev ctx w e vp vl = elim (Bool-cases (equal_held ls prev)) [
    | inl same ↦
        returned prev (rw (same, revisit)) e ((equal_held_iff ls prev vl vp).0 same).1
          (rw (same, revisit))
    | inr differ ↦ elim (Bool-cases (equal_held (intersect prev ls) prev)) [
      | inl converged ↦
          returned prev (ground arith) e
            (Below-trans (((equal_held_iff _ prev (intersect-IsValid prev ls vp) vp).0 converged).1)
              (intersect-Below_right prev ls))
            (ground arith)
      | inr falls ↦
          walked (intersect prev ls) (ground arith) (ground arith) (intersect-IsValid prev ls vp)
            (intersect-Below_right prev ls)
            (λ prev' e'.
              let same : prev' ≡ prev = cc in
              (rw same (intersect-Below_left prev ls), rw same (size-intersect-lt prev ls falls)))
    ]
  ]

  pub enter_block-Outcome :
      (ctx : PassContext) (w : WalkContext)
      → ((prev : LockState) → lookup b w.entry_states ≡ some prev → IsValid prev)
      → IsValid ls
      → Outcome w
          (enter_block prog fn b from ls (ctx, w)).0.1
          b
          ls
          (enter_block prog fn b from ls (ctx, w)).1
  unfolding enter_block
  enter_block-Outcome ctx w valid vl = elim (Option-cases (lookup b w.entry_states)) [
    | inl fresh ↦
        walked ls (rw (fresh, enter_block)) (rw (fresh, enter_block)) vl (Below-refl ls)
          (λ prev e. absurd (cc))
    | inr (prev, e) ↦ rw (e, enter_block) (revisit-Outcome prev ctx w e (valid prev e) vl)
  ]

-- Walking the instructions ends with the locks that they leave, and with them for the block's
-- entry state if that is the state walked with.
pub run_block_lem :
    (prog : Program) (fn b : ℕ) (shared : Bool) (ls : LockState) (ctx : PassContext)
    (w : WalkContext)
    → ((run_block prog fn b shared ls (ctx, w)).0.1.entry_states ≡ (
        if shared
        then insert b (run_locks prog (prog.block b).instrs ls) w.entry_states
        else w.entry_states))
      × ((run_block prog fn b shared ls (ctx, w)).1 ≡ run_locks prog (prog.block b).instrs ls)
unfolding run_block
run_block_lem prog fn b shared ls ctx w =
    let exit = process_block-locks prog fn (prog.block b).instrs (ctx, ls) in
    (ap (λ e. if shared then insert b e w.entry_states else w.entry_states) exit, exit)

-- One round of `walkBlock`.
module _ (prog : Program) (fuel fn b : ℕ) (from : Option ℕ) (ls : LockState)
    (s : PassContext × WalkContext) where
  pub walk_block-returned :
      (enter_block prog fn b from ls s).1 ≡ none
      → walk_block prog (suc fuel) fn b from ls s ≡ some (enter_block prog fn b from ls s).0
  unfolding walk_block
  walk_block-returned e = rw (e, walk_block)

  pub walk_block-walked :
      (ls' : LockState)
      → (enter_block prog fn b from ls s).1 ≡ some ls'
      → walk_block prog (suc fuel) fn b from ls s
        ≡ walk_succs
            (walk_block prog fuel fn)
            b
            (run_block prog fn b (has b s.1.entry_states) ls' (enter_block prog fn b from ls s).0).1
            (prog.block b).succs
            (run_block prog fn b (has b s.1.entry_states) ls' (enter_block prog fn b from ls s).0).0
  unfolding walk_block
  walk_block-walked ls' e = rw (e, walk_block)
