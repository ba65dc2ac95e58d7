-- ===== src/Run.antt =====
-- pkg/analyzer/golintmu.go: `run`, the phases of one pass.
pub mod Ends
pub mod Reports
use golintmu.Base.{Bool, Option, some, List, ◌>>=◌}
use golintmu.Ssa.{Program}
use golintmu.Pass.{PassContext, new_pass_context}
use golintmu.Walk.Blocks.{collect_observations}
use golintmu.Inference.{infer_guards}
use golintmu.Interproc.{
  derive_initial_requirements, propagate_requirements, collect_interprocedural_lock_order_edges,
}
use golintmu.Concurrency.{compute_concurrent_context}
use golintmu.Deadlocks.{detect_and_report_lock_order_cycles}
use golintmu.Leaks.{compute_returns_holding, report_deferred_lock_leaks}
use golintmu.AcquireHelpers.{check_callers_of_acquire_helpers}
use golintmu.Unlocks.{report_deferred_unlock_of_unlocked}
use golintmu.Violations.{check_violations}
use golintmu.Calls.{check_interprocedural_violations}
use golintmu.Exported.{check_exported_guarded_fields}
use golintmu.Directives.{File, parse_annotations}
use golintmu.Facts.{Imported}
use golintmu.Facts.Import.{import_facts}
use golintmu.Facts.Export.{Exports, export_facts}

-- What a pass leaves: its state, with the diagnostics, and the facts; `none` where the export
-- panics.
pub record Outcome : Type 0 where
  pub context : PassContext
  pub exports : Option Exports

-- Phases 3.9 to 4.5, which only report.
unfoldable pub report_all : Program → PassContext → PassContext
report_all prog ctx = check_exported_guarded_fields prog (
    check_interprocedural_violations prog (
      check_violations prog
        (report_deferred_unlock_of_unlocked prog (report_deferred_lock_leaks prog ctx))))

module _ (prog : Program) (imported : Imported) where
  -- Phases 1.5 to 3.
  unfoldable pub infer_facts : PassContext → PassContext
  infer_facts ctx =
      propagate_requirements prog
        (derive_initial_requirements prog (infer_guards prog (import_facts prog imported ctx)))

  -- The state with which the phases that only report start; `none`: the fuel of one of the loops
  -- ran out.
  unfoldable pub before_reports : List File → Bool → Option PassContext
  unfolding infer_facts
  before_reports files verbose = do
    walked ← collect_observations prog (parse_annotations prog files (new_pass_context verbose))
    concurrent ← compute_concurrent_context prog (infer_facts walked)
    ordered ←
        detect_and_report_lock_order_cycles prog
          (collect_interprocedural_lock_order_edges prog concurrent)
    some (check_callers_of_acquire_helpers prog (compute_returns_holding prog ordered))

  -- Phases 3.9 to 5.
  unfoldable pub finish : PassContext → Outcome
  unfolding report_all
  finish ctx =
      let reported = report_all prog ctx in
      record { context = reported; exports = export_facts prog imported.has_fact_types reported }

  unfoldable pub run : List File → Bool → Option Outcome
  unfolding before_reports finish
  run files verbose = before_reports files verbose >>= λ ctx. some (finish ctx)
