-- ===== src/Run/Reports.antt =====
-- What the last phases of the pass of pkg/analyzer/golintmu.go report, together.
use mathlib.Core.List.{Memᴰ}
use golintmu.Base.{◌≡◌, ◌↔◌, ◌⊎◌, List, ◌++◌}
use golintmu.Ssa.{Program}
use golintmu.Pass.{PassContext, Diagnostic}
use golintmu.Report.Adds.{then-Adds}
use golintmu.Leaks.{report_deferred_lock_leaks}
use golintmu.Leaks.Leaked
use golintmu.Leaks.Leaked.{report_deferred_lock_leaks-Adds}
use golintmu.Unlocks.{report_deferred_unlock_of_unlocked}
use golintmu.Unlocks.Unmatched
use golintmu.Unlocks.Unmatched.{report_deferred_unlock_of_unlocked-Adds}
use golintmu.Violations.{check_violations}
use golintmu.Violations.Reports.{check_violations-Adds}
use golintmu.Violations.Reports
use golintmu.Calls.{check_interprocedural_violations}
use golintmu.Calls.Reported.{OfCall, check_interprocedural_violations-Adds}
use golintmu.Exported.{check_exported_guarded_fields}
use golintmu.Exported.Reported
use golintmu.Exported.Reported.{check_exported_guarded_fields-Adds}
use golintmu.Run.{report_all}

module _ (prog : Program) (ctx : PassContext) where
  -- A lock leak, or an unlock of an unlocked mutex.
  abbrev pub OfLock : Diagnostic → Type 0
  OfLock d = Leaked.IsReported prog ctx d ⊎ Unmatched.IsReported prog ctx d

  -- Or an access that is a violation.
  abbrev pub OfAccess : Diagnostic → Type 0
  OfAccess d = OfLock d ⊎ Reports.IsReported prog ctx d

  -- Or a call that is one.
  abbrev pub OfBody : Diagnostic → Type 0
  OfBody d = OfAccess d ⊎ OfCall prog ctx d

  -- Or an exported field that is guarded.
  abbrev pub OfPass : Diagnostic → Type 0
  OfPass d = OfBody d ⊎ Reported.IsReported prog ctx d

-- The phases after the check of acquire helpers append diagnostics and change nothing else, and
-- none depends on what another reports: there is a diagnostic for each lock leak, each unmatched
-- unlock, each violating access, each violating call and each exported guarded field, all of them
-- judged by the state with which these phases start, and no other.
pub report_all_lem :
    (prog : Program) (ctx : PassContext)
    → (new : List Diagnostic) × (report_all prog ctx
        ≡ record ctx { diagnostics = ctx.diagnostics ++ new })
      × ((d : Diagnostic) → Memᴰ d new ↔ OfPass prog ctx d)
unfolding report_all
report_all_lem prog ctx =
    let locks =
      then-Adds ctx (Leaked.IsReported prog ctx) (Unmatched.IsReported prog ctx)
        (report_deferred_lock_leaks prog) (report_deferred_unlock_of_unlocked prog)
        (report_deferred_lock_leaks-Adds prog ctx)
        (report_deferred_unlock_of_unlocked-Adds prog ctx) in
    let accesses =
      then-Adds ctx (OfLock prog ctx) (Reports.IsReported prog ctx)
        (λ c. report_deferred_unlock_of_unlocked prog (report_deferred_lock_leaks prog c))
        (check_violations prog) locks (check_violations-Adds prog ctx) in
    let calls =
      then-Adds ctx (OfAccess prog ctx) (OfCall prog ctx)
        (λ c.
          check_violations prog
            (report_deferred_unlock_of_unlocked prog (report_deferred_lock_leaks prog c)))
        (check_interprocedural_violations prog) accesses
        (check_interprocedural_violations-Adds prog ctx) in
    then-Adds ctx (OfBody prog ctx) (Reported.IsReported prog ctx)
      (λ c. check_interprocedural_violations prog (
        check_violations prog
          (report_deferred_unlock_of_unlocked prog (report_deferred_lock_leaks prog c))))
      (check_exported_guarded_fields prog) calls (check_exported_guarded_fields-Adds prog ctx)
      ctx.diagnostics
