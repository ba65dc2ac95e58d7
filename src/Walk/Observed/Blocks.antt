-- ===== src/Walk/Observed/Blocks.antt =====
-- The walk of pkg/analyzer/ssawalk.go observes fields that are no mutexes: block by block.
use golintmu.Base.{
  ℕ, zero, suc, ◌≡◌, sym, ◌∙◌, subst, inl, inr, Bool, true, false, Option, none, some, List, [],
  ◌∷◌, nat_eq, arith, lookup, has, ◌>>=◌, >>=-eq-some, Option-cases, List-cases,
}
use golintmu.Ssa.{
  Program, Instr, Op, call, defer, go, return, store, read, map_update, phi_node, other_op,
}
use golintmu.LockState.{LockState, new_lock_state, fork}
use golintmu.Pass.{PassContext, new_pass_context}
use golintmu.Walk.Locks.{check_deferred_unlock_mismatch, check_deferred_lock_instead_of_unlock}
use golintmu.Walk.Locks.Unobserved.{
  process_call-Keeps, check_deferred_unlock_mismatch-Keeps, check_deferred_lock-Keeps,
  record_deferred_unlock-Keeps, check_return-Keeps, report_inconsistent_lock_state-Keeps,
}
use golintmu.Walk.Instrs.{process_instruction, process_block}
use golintmu.Walk.Fields.{process_store, process_read}
use golintmu.Walk.Blocks.{
  WalkContext, new_walk_context, revisit, enter_block, run_block, walk_succs, walk_block,
  walk_function, walk_functions, walk_fuel, collect_observations,
}
use golintmu.Walk.Blocks.Total.{AllTame, collect_observations-total}
use golintmu.Directives.{File, parse_annotations}
use golintmu.Walk.Observed.{IsObserved, process_access-IsObserved}

module _ (prog : Program) where
  open prog use {block, func}

  abbrev Holds : PassContext → Type 0
  Holds ctx = IsObserved prog ctx.observations

  op-Holds :
      (fn pos : ℕ) (op : Op) (ctx : PassContext) (ls : LockState)
      → Holds ctx
      → Holds (process_instruction prog fn (ctx, ls) (record { pos = pos; op = op })).0
  unfolding process_instruction process_store process_read
  op-Holds fn pos (call common) ctx ls o =
      subst (IsObserved prog) (sym (process_call-Keeps prog fn pos common (ctx, ls))) o
  op-Holds fn pos (defer common) ctx ls o =
      let checked = check_deferred_unlock_mismatch prog ctx fn pos common ls in
      let typo = check_deferred_lock_instead_of_unlock prog checked fn pos common in
      subst (IsObserved prog)
        (sym (
          record_deferred_unlock-Keeps prog fn common (typo, ls)
          ∙ check_deferred_lock-Keeps prog checked fn pos common
          ∙ check_deferred_unlock_mismatch-Keeps prog ctx fn pos common ls))
        o
  op-Holds fn pos (go common) ctx ls o = o
  op-Holds fn pos return ctx ls o =
      subst (IsObserved prog) (sym (check_return-Keeps prog ctx fn pos ls)) o
  op-Holds fn pos (store addr v) ctx ls o =
      process_access-IsObserved prog false ctx fn pos addr ls o
  op-Holds fn pos (read token x) ctx ls o = process_access-IsObserved prog true ctx fn pos x ls o
  op-Holds fn pos (map_update v) ctx ls o = o
  op-Holds fn pos phi_node ctx ls o = o
  op-Holds fn pos other_op ctx ls o = o

  process_instruction-Holds :
      (fn : ℕ) (s : PassContext × LockState) (instr : Instr)
      → Holds s.0
      → Holds (process_instruction prog fn s instr).0
  process_instruction-Holds fn s instr o = op-Holds fn instr.pos instr.op s.0 s.1 o

  process_block-Holds :
      (fn : ℕ) (instrs : List Instr) (s : PassContext × LockState)
      → Holds s.0
      → Holds (process_block prog fn instrs s).0
  unfolding process_block
  process_block-Holds fn [] s o = o
  process_block-Holds fn (instr ∷ instrs) s o =
      process_block-Holds fn instrs (process_instruction prog fn s instr)
        (process_instruction-Holds fn s instr o)

  enter_block-Keeps :
      (fn b : ℕ) (from : Option ℕ) (ls : LockState) (s : PassContext × WalkContext)
      → (enter_block prog fn b from ls s).0.0.observations ≡ s.0.observations
  unfolding enter_block revisit
  enter_block-Keeps fn b from ls (ctx, w) = elim (Option-cases (lookup b w.entry_states)) [
    | inl first ↦ ground (arith, first)
    | inr (prev_entry, again) ↦
        ground (arith, again, report_inconsistent_lock_state-Keeps prog ctx fn b prev_entry ls)
  ]

  run_block-Holds :
      (fn b : ℕ) (shared : Bool) (ls : LockState) (s : PassContext × WalkContext)
      → Holds s.0
      → Holds (run_block prog fn b shared ls s).0.0
  unfolding run_block
  run_block-Holds fn b shared ls (ctx, w) o = process_block-Holds fn (block b).instrs (ctx, ls) o

  walk_succs-Holds :
      (walk : ℕ
        → Option ℕ
        → LockState
        → PassContext × WalkContext
        → Option (PassContext × WalkContext))
      → ((b : ℕ) (from : Option ℕ) (ls : LockState) (s s' : PassContext × WalkContext)
          → walk b from ls s ≡ some s'
          → Holds s.0
          → Holds s'.0)
      → (b : ℕ) (ls : LockState) (succs : List ℕ) (s s' : PassContext × WalkContext)
      → walk_succs walk b ls succs s ≡ some s'
      → Holds s.0
      → Holds s'.0
  unfolding walk_succs
  walk_succs-Holds walk step b ls [] s s' h o =
      let e : s ≡ s' = ground (arith, h) in subst (λ t. Holds t.0) e o
  walk_succs-Holds walk step b ls (succ ∷ succs) s s' h o =
      let (mid, first, rest) = >>=-eq-some (walk succ (some b) (fork ls) s) _ h in
      walk_succs-Holds walk step b ls succs mid s' rest (step succ (some b) (fork ls) s mid first o)

  walk_block-Holds :
      (fuel fn b : ℕ) (from : Option ℕ) (ls : LockState) (s s' : PassContext × WalkContext)
      → walk_block prog fuel fn b from ls s ≡ some s'
      → Holds s.0
      → Holds s'.0
  unfolding walk_block
  walk_block-Holds zero fn b from ls s s' h o = absurd (cc h)
  walk_block-Holds (suc fuel) fn b from ls s s' h o =
      let entered = enter_block prog fn b from ls s in
      let o' : Holds entered.0.0 =
        subst (IsObserved prog) (sym (enter_block-Keeps fn b from ls s)) o in
      elim (Option-cases entered.1) [
        | inl early ↦
            let e : entered.0 ≡ s' = ground (arith, h, early) in subst (λ t. Holds t.0) e o'
        | inr (ls', walked) ↦
            let visited = has b s.1.entry_states in
            let ran = run_block prog fn b visited ls' entered.0 in
            walk_succs-Holds (walk_block prog fuel fn) (walk_block-Holds fuel fn) b ran.1
              (block b).succs ran.0 s' (ground (arith, h, walked))
              (run_block-Holds fn b visited ls' entered.0 o')
      ]

  walk_function-Holds :
      (ctx ctx' : PassContext) (fn : ℕ)
      → walk_function prog ctx fn ≡ some ctx'
      → Holds ctx
      → Holds ctx'
  unfolding walk_function
  walk_function-Holds ctx ctx' fn h o = elim (List-cases (func fn).blocks) [
    | inl external ↦ let e : ctx ≡ ctx' = ground (arith, h, external) in subst Holds e o
    | inr (entry, blocks, e) ↦
        let start =
          walk_block prog (walk_fuel prog fn) fn entry none new_lock_state
            (ctx, new_walk_context) in
        let chained : (start >>= λ (c, _). some c) ≡ some ctx' = ground (arith, h, e) in
        let (s, walked, last) = >>=-eq-some start (λ (c, _). some c) {b = ctx'} chained in
        let same : s.0 ≡ ctx' = ground (arith, last) in
        subst Holds same (
          walk_block-Holds (walk_fuel prog fn) fn entry none new_lock_state (ctx, new_walk_context)
            s walked o)
  ]

  walk_functions-Holds :
      (fns : List ℕ) (ctx ctx' : PassContext)
      → walk_functions prog fns ctx ≡ some ctx'
      → Holds ctx
      → Holds ctx'
  unfolding walk_functions
  walk_functions-Holds [] ctx ctx' h o = let e : ctx ≡ ctx' = ground (arith, h) in subst Holds e o
  walk_functions-Holds (fn ∷ fns) ctx ctx' h o =
      let (mid, first, rest) = >>=-eq-some (walk_function prog ctx fn) _ h in
      walk_functions-Holds fns mid ctx' rest (walk_function-Holds ctx mid fn first o)

-- The observations of a pass after the walk, which returns for each package whose functions all
-- have only their own blocks for successors, and either have no block on a loop that leaves a lock
-- or a deferred unlock that there was not before, or reach each block with the same locks on all
-- paths: each observation is of a field that its struct type has, by its
-- index, and that is no mutex, and each field has one list of observations.
pub collect_observations-IsObserved :
    (prog : Program) (files : List File) (verbose : Bool)
    → AllTame prog
    → (ctx : PassContext) × (collect_observations prog
          (parse_annotations prog files (new_pass_context verbose))
        ≡ some ctx)
      × IsObserved prog ctx.observations
unfolding collect_observations parse_annotations new_pass_context
collect_observations-IsObserved prog files verbose tame =
    let start = parse_annotations prog files (new_pass_context verbose) in
    let (ctx, e) = collect_observations-total prog start tame in
    (
      ctx,
      e,
      walk_functions-Holds prog prog.src_funcs start ctx e
          (record { distinct = tt; plain = λ key h. absurd (cc h) }),
    )
