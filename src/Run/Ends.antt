-- ===== src/Run/Ends.antt =====
-- The pass of pkg/analyzer/golintmu.go ends, and what it has reported then.
use mathlib.Core.List.{Memᴰ}
use mathlib.Core.List.Memᴰ
use golintmu.Base.{
  sym, ap, subst, inl, inr, ◌↔◌, ◌⊎◌, ◌≡◌, refl, ◌++◌, Bool, some, List, nat_eq, ◌>>=◌,
}
use golintmu.Ssa.{Program}
use golintmu.Pass.{PassContext, new_pass_context, Diagnostic}
use golintmu.Walk.Blocks.Total.{AllTame, collect_observations-total}
use golintmu.Concurrency.Reachable.{compute_concurrent_context_lem}
use golintmu.Deadlocks.Reported.{detect_and_report_lock_order_cycles_lem}
use golintmu.Interproc.{collect_interprocedural_lock_order_edges}
use golintmu.Directives.{File, parse_annotations}
use golintmu.Facts.{Imported}
use golintmu.Run.{Outcome, infer_facts, before_reports, finish, report_all, run}
use golintmu.Run.Reports.{OfPass, report_all_lem}
use golintmu.Leaks.{compute_returns_holding}
use golintmu.AcquireHelpers.{check_callers_of_acquire_helpers}

-- The phases before the reports return, for functions whose walk ends: the fuel of the walk, of the
-- search for concurrent functions and of the search for lock order cycles is enough.
before_reports-total :
    (prog : Program) (imported : Imported) (files : List File) (verbose : Bool)
    → AllTame prog
    → (ctx : PassContext) × (before_reports prog imported files verbose ≡ some ctx)
unfolding before_reports
before_reports-total prog imported files verbose tame =
    let start = parse_annotations prog files (new_pass_context verbose) in
    let (walked, e) = collect_observations-total prog start tame in
    let (concurrent, e', _) =
      compute_concurrent_context_lem prog (infer_facts prog imported walked) in
    let (cycles, new, _, e'', _) =
      detect_and_report_lock_order_cycles_lem prog
        (collect_interprocedural_lock_order_edges prog concurrent) in
    let ordered : PassContext = record (collect_interprocedural_lock_order_edges prog concurrent) {
      diagnostics = (collect_interprocedural_lock_order_edges prog concurrent).diagnostics ++ new;
    } in
    (
      check_callers_of_acquire_helpers prog (compute_returns_holding prog ordered),
      rw (before_reports, e, e', e'', ◌>>=◌) refl,
    )

-- The whole pass returns, for each package whose functions all have only their own blocks for
-- successors, and either have no block on a loop that leaves a lock or a deferred unlock that there
-- was not before, or reach each block with the same locks on all paths, each set of imported facts, each set of files and in both modes; and when it returns, each lock
-- leak, unmatched unlock, violating access, violating call and exported guarded field in the state
-- that the earlier phases leave has its diagnostic, what those phases have reported is still
-- there, and there is no other diagnostic.
pub run_lem :
    (prog : Program) (imported : Imported) (files : List File) (verbose : Bool)
    → AllTame prog
    → (ctx : PassContext) × (outcome : Outcome) × (before_reports prog imported files verbose
        ≡ some ctx)
      × (run prog imported files verbose ≡ some outcome)
      × ((d : Diagnostic)
          → Memᴰ d outcome.context.diagnostics ↔ (Memᴰ d ctx.diagnostics ⊎ OfPass prog ctx d))
unfolding run finish
run_lem prog imported files verbose tame =
    let (ctx, e) = before_reports-total prog imported files verbose tame in
    let (new, e', exact) = report_all_lem prog ctx in
    let all_of : (report_all prog ctx).diagnostics ≡ ctx.diagnostics ++ new =
      ap (λ c. c.diagnostics) e' in
    (
      ctx,
      finish prog imported ctx,
      e,
      rw (run, e, ◌>>=◌) refl,
      λ d. (
        λ m. elim (Memᴰ.append_cases ctx.diagnostics (subst (λ l. Memᴰ d l) all_of m)) [
          | inl old ↦ inl old
          | inr added ↦ inr ((exact d).0 added)
        ],
        λ s.
            subst (λ l. Memᴰ d l) (sym all_of)
              (elim s [
                | inl old ↦ Memᴰ.append_left new old
                | inr p ↦ Memᴰ.append_right ctx.diagnostics ((exact d).1 p)
              ]),
      ),
    )
