-- ===== src/Tests/Run.antt =====
-- The theorems on the whole pass, for the sample.
use mathlib.Core.List.{Memᴰ}
use golintmu.Base.{◌≡◌, ◌↔◌, ◌⊎◌, false, true, none, some, List, [], ◌++◌}
use golintmu.Pass.{PassContext, Diagnostic}
use golintmu.Facts.{Imported}
use golintmu.Run.{Outcome, before_reports, report_all, run}
use golintmu.Run.Ends.{run_lem}
use golintmu.Run.Reports.{OfPass, report_all_lem}
use golintmu.Tests.Sample.{sample}
use golintmu.Tests.Graphs.{straight, straight-AllTame}
use golintmu.Tests.Reporter.{reporting_on}

-- No facts of other packages.
abbrev nothing_imported : Imported
nothing_imported = record {
  imports = [];
  scope_lookup = λ _ _. none;
  has_fact_types = true;
  field_guard_fact = λ _. none;
  func_lock_fact = λ _. none;
  concurrent_fact = λ _. false;
}

run_lem_example :
    (ctx : PassContext) × (outcome : Outcome) × (before_reports straight nothing_imported [] true
      ≡ some ctx)
    × (run straight nothing_imported [] true ≡ some outcome)
    × ((d : Diagnostic)
        → Memᴰ d outcome.context.diagnostics ↔ (Memᴰ d ctx.diagnostics ⊎ OfPass straight ctx d))
run_lem_example = run_lem straight nothing_imported [] true straight-AllTame

report_all_lem_example :
    (new : List Diagnostic) × (report_all sample reporting_on
      ≡ record reporting_on { diagnostics = reporting_on.diagnostics ++ new })
    × ((d : Diagnostic) → Memᴰ d new ↔ OfPass sample reporting_on d)
report_all_lem_example = report_all_lem sample reporting_on
