-- ===== src/Leaks/Leaked.antt =====
-- Which lock leaks `reportDeferredLockLeaks` of pkg/analyzer/reporter.go reports.
use mathlib.Core.List.{Memᴰ}
use golintmu.Base.{
  ◌≡◌, refl, ◌↔◌, ℕ, false, not, ◌&&◌, inl, inr, List, ◌++◌, ◌==◌, string_eq, nat_eq, arith,
  Bool-cases, fold, contains,
}
use golintmu.Ssa.{Program}
use golintmu.Pass.{PassContext, LockLeakCandidate, Message, Diagnostic}
use golintmu.Pass.Keys.{DeferredLockTypoKey_eq}
use golintmu.Report.{reportf, is_suppressed, lock_ref_name}
use golintmu.Report.Paths.{base_name}
use golintmu.Report.Adds.{reporting, Adds, when-Adds, fold-Adds}
use golintmu.Unlocks.{function_requires_mutex}
use golintmu.Leaks.{is_acquire_helper, report_lock_leak, check_leak, report_deferred_lock_leaks}

module _ (prog : Program) (ctx : PassContext) where
  open prog use {position}

  -- A leak that nothing excuses, and its diagnostic.
  pub record IsLeaked (c : LockLeakCandidate) (d : Diagnostic) : Type 0 where
    pub not_required : function_requires_mutex prog ctx c.fn c.ref ≡ false
    pub no_typo :
        contains ctx.deferred_lock_typo_reported (record { fn = c.fn; ref = c.ref }) ≡ false
    pub no_helper : is_acquire_helper prog ctx c.fn c.ref ≡ false
    pub loud : is_suppressed prog ctx c.fn c.pos ≡ false
    pub named : (lock_ref_name prog c.ref == "") ≡ false
    pub reported : d ≡ record {
      pos = c.pos;
      message =
          Message.lock_leak
            (lock_ref_name prog c.ref)
            (base_name (position c.acquire_pos).filename)
            (position c.acquire_pos).line
            (position c.acquire_pos).column;
    }

  check_leak-Adds :
      (c : LockLeakCandidate) (ds : List Diagnostic)
      → Adds ctx (IsLeaked c) ds (check_leak prog (reporting ctx ds) c)
  unfolding check_leak function_requires_mutex is_acquire_helper report_lock_leak reportf
      is_suppressed
  check_leak-Adds c ds =
      when-Adds ctx (IsLeaked c) ds (check_leak prog (reporting ctx ds) c)
        (not (function_requires_mutex prog ctx c.fn c.ref)
          && (not (contains ctx.deferred_lock_typo_reported (record { fn = c.fn; ref = c.ref }))
              && (not (is_acquire_helper prog ctx c.fn c.ref)
                  && (not (is_suppressed prog ctx c.fn c.pos)
                      && not (lock_ref_name prog c.ref == "")))))
        (record {
          pos = c.pos;
          message =
              Message.lock_leak (lock_ref_name prog c.ref)
                (base_name (position c.acquire_pos).filename) (position c.acquire_pos).line
                (position c.acquire_pos).column;
        })
        (elim (Bool-cases (function_requires_mutex prog ctx c.fn c.ref)) [
          | inl required ↦ ground (arith, required)
          | inr not_required ↦ elim (Bool-cases (is_acquire_helper prog ctx c.fn c.ref)) [
            | inl helper ↦ ground (arith, not_required, helper)
            | inr no_helper ↦ elim (Bool-cases (is_suppressed prog ctx c.fn c.pos)) [
              | inl silent ↦ ground (arith, not_required, no_helper, silent)
              | inr loud ↦ elim (Bool-cases (lock_ref_name prog c.ref == "")) [
                | inl unnamed ↦ ground (arith, not_required, no_helper, loud, unnamed)
                | inr named ↦ ground (arith, not_required, no_helper, loud, named)
              ]
            ]
          ]
        ])
        (λ h. record {
          not_required = ground (arith, h);
          no_typo = ground (arith, h);
          no_helper = ground (arith, h);
          loud = ground (arith, h);
          named = ground (arith, h);
          reported = refl;
        })
        (λ d' l.
          (ground (arith, l.not_required, l.no_typo, l.no_helper, l.loud, l.named), l.reported))

  abbrev pub IsReported : Diagnostic → Type 0
  IsReported d =
      (entry : ℕ × List LockLeakCandidate) × Memᴰ entry ctx.lock_leak_candidates
      × ((c : LockLeakCandidate) × Memᴰ c entry.1 × IsLeaked c d)

  pub report_deferred_lock_leaks-Adds :
      (ds : List Diagnostic)
      → Adds ctx IsReported ds (report_deferred_lock_leaks prog (reporting ctx ds))
  unfolding report_deferred_lock_leaks
  report_deferred_lock_leaks-Adds =
      fold-Adds ctx (λ c (_, candidates). fold (check_leak prog) c candidates)
        (λ entry d. (c : LockLeakCandidate) × Memᴰ c entry.1 × IsLeaked c d)
        ctx.lock_leak_candidates
        (λ (_, candidates). fold-Adds ctx (check_leak prog) IsLeaked candidates check_leak-Adds)

-- The diagnostics that `reportDeferredLockLeaks` appends, and no other part of the pass changes:
-- one for each recorded leak whose lock the function does not require, for which no deferred lock
-- was reported as a typo, which is no postcondition of an acquire helper, and which is not
-- suppressed and has a name; it says where the lock was taken.
pub report_deferred_lock_leaks_lem :
    (prog : Program) (ctx : PassContext)
    → (new : List Diagnostic) × (report_deferred_lock_leaks prog ctx
        ≡ record ctx { diagnostics = ctx.diagnostics ++ new })
      × ((d : Diagnostic)
          → Memᴰ d new ↔ (
              (entry : ℕ × List LockLeakCandidate) × Memᴰ entry ctx.lock_leak_candidates
              × ((c : LockLeakCandidate) × Memᴰ c entry.1 × IsLeaked prog ctx c d)))
report_deferred_lock_leaks_lem prog ctx = report_deferred_lock_leaks-Adds prog ctx ctx.diagnostics
