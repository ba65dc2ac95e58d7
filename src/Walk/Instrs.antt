-- ===== src/Walk/Instrs.antt =====
-- pkg/analyzer/ssawalk.go: one instruction of a block, and all of them.
pub mod Effects
use golintmu.Base.{ℕ, List, [], ◌∷◌, fold}
use golintmu.Ssa.{
  Program, Instr, Op, call, defer, go, return, store, read, map_update, phi_node, other_op,
}
use golintmu.LockState.{LockState}
use golintmu.Pass.{PassContext}
use golintmu.Walk.Locks.{
  process_call, check_deferred_unlock_mismatch, check_deferred_lock_instead_of_unlock,
  record_deferred_unlock, check_return_with_held_locks,
}
use golintmu.Walk.Fields.{process_store, process_read}

module _ (prog : Program) where
  unfoldable pub process_instruction : ℕ → PassContext × LockState → Instr → PassContext × LockState
  unfolding process_call check_deferred_unlock_mismatch check_deferred_lock_instead_of_unlock
      record_deferred_unlock check_return_with_held_locks process_store process_read
  process_instruction fn (ctx, ls) instr = elim instr.op [
    | call common ↦ process_call prog fn instr.pos common (ctx, ls)
    | defer common ↦
        let checked = check_deferred_unlock_mismatch prog ctx fn instr.pos common ls in
        let typo = check_deferred_lock_instead_of_unlock prog checked fn instr.pos common in
        record_deferred_unlock prog fn common (typo, ls)
    | return ↦ (check_return_with_held_locks prog ctx fn instr.pos ls, ls)
    | store addr _ ↦ (process_store prog ctx fn instr.pos addr ls, ls)
    | read _ x ↦ (process_read prog ctx fn instr.pos x ls, ls)
    | _ ↦ (ctx, ls)
  ]

  -- The loop over `block.Instrs`.
  unfoldable pub process_block : ℕ → List Instr → PassContext × LockState → PassContext × LockState
  unfolding process_instruction
  process_block fn instrs s = fold (process_instruction fn) s instrs
