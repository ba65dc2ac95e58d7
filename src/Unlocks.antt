-- ===== src/Unlocks.antt =====
-- pkg/analyzer/reporter.go: `reportDeferredUnlockOfUnlocked`.
pub mod Unmatched
use golintmu.Base.{
  ℕ, Bool, true, false, ◌&&◌, Option, none, some, List, ◌==◌, if◌then◌else◌, nat_eq, any, contains,
  lookup, fold,
}
use golintmu.Ssa.{Program}
use golintmu.LockState.{LockRef}
use golintmu.Pass.{PassContext, MutexFieldKey, UnlockOfUnlockedCandidate, Message}
use golintmu.Pass.Keys.{MutexFieldKey_eq}
use golintmu.Report.{report_lock}
use golintmu.Walk.Locks.{lock_ref_to_mutex_field_key}

unfoldable pub callee_returns_holding : PassContext → ℕ → MutexFieldKey → Bool
callee_returns_holding ctx fn mfk =
    any
      (λ cs. cs.caller == fn && elim (lookup cs.callee ctx.func_facts) [
        | none ↦ false
        | some facts ↦ contains facts.returns_holding mfk
      ])
      ctx.call_sites

module _ (prog : Program) where
  unfoldable pub function_requires_mutex : PassContext → ℕ → LockRef → Bool
  unfolding lock_ref_to_mutex_field_key
  function_requires_mutex ctx fn ref = elim (lock_ref_to_mutex_field_key prog ref) [
    | none ↦ false
    | some mfk ↦ elim (lookup fn ctx.func_facts) [
      | none ↦ false
      | some facts ↦ contains facts.requires mfk
    ]
  ]

  unfoldable pub report_unlock_of_unlocked : PassContext → ℕ → ℕ → LockRef → PassContext
  unfolding report_lock
  report_unlock_of_unlocked ctx fn pos ref =
      report_lock prog ctx fn pos ref Message.unlock_of_unlocked

  -- The condition `ok && ctx.calleeReturnsHolding(c.Fn, mfk)`.
  unfoldable pub is_acquired_by_callee : PassContext → ℕ → LockRef → Bool
  unfolding lock_ref_to_mutex_field_key callee_returns_holding
  is_acquired_by_callee ctx fn ref = elim (lock_ref_to_mutex_field_key prog ref) [
    | none ↦ false
    | some mfk ↦ callee_returns_holding ctx fn mfk
  ]

  -- The body of the loop.
  unfoldable pub check_unlock : PassContext → UnlockOfUnlockedCandidate → PassContext
  unfolding function_requires_mutex is_acquired_by_callee report_unlock_of_unlocked
  check_unlock ctx c =
      if function_requires_mutex ctx c.fn c.ref
      then ctx
      else (if is_acquired_by_callee ctx c.fn c.ref
          then ctx
          else report_unlock_of_unlocked ctx c.fn c.pos c.ref)

  unfoldable pub report_deferred_unlock_of_unlocked : PassContext → PassContext
  unfolding check_unlock
  report_deferred_unlock_of_unlocked ctx = fold check_unlock ctx ctx.unlock_of_unlocked_candidates
