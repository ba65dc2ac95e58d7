-- ===== src/Leaks.antt =====
-- pkg/analyzer/reporter.go: `computeReturnsHolding`, and `reportDeferredLockLeaks`.
pub mod Holding
pub mod Counts
pub mod Positions
pub mod Leaked
use golintmu.Base.{
  ℕ, suc, Bool, true, false, ◌&&◌, Option, none, some, List, [], ◌∷◌, ◌==◌, if◌then◌else◌, nat_eq,
  string_eq, pair_eq, Map, lookup, lookup_list, insert, contains, add, fold, length, ltb,
}
use golintmu.Ssa.{Program, Instr, Op, return}
use golintmu.LockState.{LockRef}
use golintmu.Pass.{PassContext, MutexFieldKey, LockLeakCandidate, Message}
use golintmu.Pass.Keys.{MutexFieldKey_eq, DeferredLockTypoKey_eq}
use golintmu.FuncFacts.{update_func_facts, add_returns_holding}
use golintmu.Report.{reportf, is_suppressed, lock_ref_name}
use golintmu.Report.Paths.{base_name}
use golintmu.Walk.Locks.{lock_ref_to_mutex_field_key}
use golintmu.Unlocks.{function_requires_mutex}

-- `m[k]` of a map of counts
abbrev pub count_at : ℕ → Map ℕ ℕ → ℕ
count_at k m = elim (lookup k m) [ none ↦ 0 | some n ↦ n ]

abbrev pub is_return : Instr → Bool
is_return instr = elim instr.op [ return ↦ true | _ ↦ false ]

module _ (prog : Program) where
  open prog use {func, block, src_funcs, position}

  -- The body of the loop over the candidates of a position: the positions of each function and
  -- lock.
  unfoldable pub add_return_position :
      Map (ℕ × MutexFieldKey) (List ℕ) → LockLeakCandidate → Map (ℕ × MutexFieldKey) (List ℕ)
  unfolding lock_ref_to_mutex_field_key
  add_return_position positions c = elim (lock_ref_to_mutex_field_key prog c.ref) [
    | none ↦ positions
    | some mfk ↦ insert (c.fn, mfk) (add c.pos (lookup_list (c.fn, mfk) positions)) positions
  ]

  unfoldable pub return_positions : PassContext → Map (ℕ × MutexFieldKey) (List ℕ)
  unfolding add_return_position
  return_positions ctx =
      fold (λ m (_, candidates). fold add_return_position m candidates) [] ctx.lock_leak_candidates

  -- `returnCount`: the loop over a function's instructions.
  unfoldable pub count_returns : Map ℕ ℕ → ℕ → Map ℕ ℕ
  count_returns counts fn =
      fold
        (λ m b.
          fold (λ m' instr. if is_return instr then insert fn (suc (count_at fn m')) m' else m') m
            (block b).instrs)
        counts (func fn).blocks

  unfoldable pub return_count : Map ℕ ℕ
  unfolding count_returns
  return_count = fold count_returns [] src_funcs

  -- The body of the last loop.
  unfoldable pub mark_returns_holding : PassContext → (ℕ × MutexFieldKey) × List ℕ → PassContext
  unfolding return_count update_func_facts
  mark_returns_holding ctx ((fn, mfk), positions) =
      if length positions == count_at fn return_count && ltb 0 (count_at fn return_count)
      then update_func_facts ctx fn (add_returns_holding mfk)
      else ctx

  unfoldable pub compute_returns_holding : PassContext → PassContext
  unfolding return_positions mark_returns_holding
  compute_returns_holding ctx = fold mark_returns_holding ctx (return_positions ctx)

  unfoldable pub report_lock_leak : PassContext → LockLeakCandidate → PassContext
  unfolding is_suppressed lock_ref_name reportf base_name
  report_lock_leak ctx c =
      if is_suppressed prog ctx c.fn c.pos
      then ctx
      else (let name = lock_ref_name prog c.ref in
          if name == ""
          then ctx
          else (let acquire_pos = position c.acquire_pos in
              reportf ctx c.pos (
                Message.lock_leak name (base_name acquire_pos.filename) acquire_pos.line
                  acquire_pos.column)))

  -- The function is an acquire helper for the lock.
  unfoldable pub is_acquire_helper : PassContext → ℕ → LockRef → Bool
  unfolding lock_ref_to_mutex_field_key
  is_acquire_helper ctx fn ref = elim (lock_ref_to_mutex_field_key prog ref) [
    | none ↦ false
    | some mfk ↦ elim (lookup fn ctx.func_facts) [
      | none ↦ false
      | some facts ↦ contains facts.returns_holding mfk
    ]
  ]

  -- The body of the loops.
  unfoldable pub check_leak : PassContext → LockLeakCandidate → PassContext
  unfolding function_requires_mutex is_acquire_helper report_lock_leak
  check_leak ctx c =
      if function_requires_mutex prog ctx c.fn c.ref
      then ctx
      else (if contains ctx.deferred_lock_typo_reported (record { fn = c.fn; ref = c.ref })
          then ctx
          else (if is_acquire_helper ctx c.fn c.ref then ctx else report_lock_leak ctx c))

  unfoldable pub report_deferred_lock_leaks : PassContext → PassContext
  unfolding check_leak
  report_deferred_lock_leaks ctx =
      fold (λ c (_, candidates). fold check_leak c candidates) ctx ctx.lock_leak_candidates
