-- ===== src/Deadlocks.antt =====
-- pkg/analyzer/reporter.go: `detectAndReportLockOrderCycles`.
pub mod Reported
use golintmu.Base.{
  ℕ, String, Bool, true, false, ◌||◌, Option, none, some, List, [], ◌∷◌, ◌++◌, ◌==◌, if◌then◌else◌,
  string_eq, ◌>>=◌, any, contains, fold,
}
use golintmu.Ssa.{Program}
use golintmu.Pass.{PassContext, LockOrderEdge, Message}
use golintmu.Report.{reportf, is_suppressed, mutex_field_key_name}
use golintmu.Concurrency.{is_concurrent}
use golintmu.LockOrder.Search.{detect_cycles}

module _ (prog : Program) where
  -- The names of the mutexes of a cycle, each once.
  unfoldable pub names_of : List LockOrderEdge → List String
  unfolding mutex_field_key_name
  names_of cycle =
      fold
        (λ names e.
          let name = mutex_field_key_name prog e.from in
          if name == "" || contains names name then names else names ++ name ∷ [])
        [] cycle

  unfoldable pub report_lock_order_cycle : PassContext → List LockOrderEdge → PassContext
  unfolding is_suppressed names_of reportf
  report_lock_order_cycle ctx [] = ctx
  report_lock_order_cycle ctx (edge ∷ rest) =
      if is_suppressed prog ctx edge.fn edge.pos then ctx else elim (names_of (edge ∷ rest)) [
        | [] ↦ ctx
        | first ∷ others ↦ elim others [
          | [] ↦ reportf ctx edge.pos (Message.order_cycle_self first)
          | second ∷ _ ↦ reportf ctx edge.pos (Message.order_cycle first second)
        ]
      ]

  unfoldable pub check_cycle : PassContext → List LockOrderEdge → PassContext
  unfolding is_concurrent report_lock_order_cycle
  check_cycle ctx cycle =
      if any (λ edge. is_concurrent ctx edge.fn) cycle
      then report_lock_order_cycle ctx cycle
      else ctx

  -- `none`: the fuel of the search ran out.
  unfoldable pub detect_and_report_lock_order_cycles : PassContext → Option PassContext
  unfolding check_cycle detect_cycles
  detect_and_report_lock_order_cycles ctx =
      detect_cycles prog ctx.lock_order_edges >>= λ cycles. some (fold check_cycle ctx cycles)
