-- ===== src/AcquireHelpers.antt =====
-- pkg/analyzer/reporter.go: `checkCallersOfAcquireHelpers`, the functions that return with a lock,
-- and their callers.
pub mod Entries
pub mod Unreleased
use golintmu.Base.{
  ℕ, Bool, true, false, Option, none, some, List, [], ◌∷◌, ◌==◌, if◌then◌else◌, nat_eq, string_eq,
  lookup, contains, fold,
}
use golintmu.Ssa.{Program}
use golintmu.Pass.{PassContext, MutexFieldKey, CallSiteRecord, FuncLockFacts, Message}
use golintmu.Pass.Keys.{MutexFieldKey_eq}
use golintmu.FuncFacts.{func_facts_of, update_func_facts}
use golintmu.Report.{reportf, is_suppressed, mutex_field_key_name}

module _ (prog : Program) where
  open prog use {func}

  unfoldable pub report_acquire_helper : ℕ → PassContext → MutexFieldKey → PassContext
  unfolding is_suppressed mutex_field_key_name reportf
  report_acquire_helper fn ctx mfk =
      if is_suppressed prog ctx fn (func fn).fn_pos
      then ctx
      else (let name = mutex_field_key_name prog mfk in
          if name == ""
          then ctx
          else reportf ctx (func fn).fn_pos (Message.acquire_helper (func fn).fn_name name))

  unfoldable pub report_caller_missing_unlock :
      CallSiteRecord → PassContext → MutexFieldKey → PassContext
  unfolding is_suppressed mutex_field_key_name reportf
  report_caller_missing_unlock cs ctx mfk =
      if is_suppressed prog ctx cs.caller cs.pos
      then ctx
      else (let name = mutex_field_key_name prog mfk in
          if name == ""
          then ctx
          else reportf ctx cs.pos (
              Message.caller_missing_unlock (func cs.caller).fn_name (func cs.callee).fn_name name))

  -- The body of the inner loop over the call sites.
  unfoldable pub check_released : CallSiteRecord → PassContext → MutexFieldKey → PassContext
  unfolding func_facts_of report_caller_missing_unlock
  check_released cs ctx mfk =
      let caller_facts = func_facts_of ctx cs.caller in
      if contains caller_facts.returns_holding mfk
      then ctx
      else (if contains caller_facts.releases mfk
          then ctx
          else report_caller_missing_unlock cs ctx mfk)

  -- The body of the outer loop; the caller has facts from here on.
  unfoldable pub check_caller : PassContext → CallSiteRecord → PassContext
  unfolding update_func_facts check_released
  check_caller ctx cs = elim (lookup cs.callee ctx.func_facts) [
    | none ↦ ctx
    | some callee_facts ↦ elim callee_facts.returns_holding [
      | [] ↦ ctx
      | mfk ∷ rest ↦
          fold (check_released cs) (update_func_facts ctx cs.caller (λ f. f)) (mfk ∷ rest)
    ]
  ]

  -- The first loop.
  unfoldable pub report_acquire_helpers : PassContext → PassContext
  unfolding report_acquire_helper
  report_acquire_helpers ctx =
      fold (λ c (fn, facts). fold (report_acquire_helper fn) c facts.returns_holding) ctx
        ctx.func_facts

  unfoldable pub check_callers_of_acquire_helpers : PassContext → PassContext
  unfolding report_acquire_helpers check_caller
  check_callers_of_acquire_helpers ctx =
      fold check_caller (report_acquire_helpers ctx) ctx.call_sites
