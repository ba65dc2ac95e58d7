-- ===== src/Unlocks/Unmatched.antt =====
-- Which unlocks `reportDeferredUnlockOfUnlocked` of pkg/analyzer/reporter.go reports.
use mathlib.Core.List.{Memᴰ}
use golintmu.Base.{◌≡◌, refl, ◌↔◌, false, inl, inr, List, ◌++◌, ◌==◌, string_eq, arith, Bool-cases}
use golintmu.Ssa.{Program}
use golintmu.Pass.{PassContext, UnlockOfUnlockedCandidate, Message, Diagnostic}
use golintmu.Report.{is_suppressed, lock_ref_name}
use golintmu.Report.Adds.{reporting, Adds, nothing, one}
use golintmu.Report.Adds.{fold-Adds}
use golintmu.Unlocks.{
  function_requires_mutex, is_acquired_by_callee, check_unlock, report_deferred_unlock_of_unlocked,
}

module _ (prog : Program) (ctx : PassContext) where
  -- An unlock that neither the callers nor a callee have locked for, and its diagnostic.
  pub record IsUnmatched (c : UnlockOfUnlockedCandidate) (d : Diagnostic) : Type 0 where
    pub not_required : function_requires_mutex prog ctx c.fn c.ref ≡ false
    pub not_acquired : is_acquired_by_callee prog ctx c.fn c.ref ≡ false
    pub loud : is_suppressed prog ctx c.fn c.pos ≡ false
    pub named : (lock_ref_name prog c.ref == "") ≡ false
    pub reported :
        d ≡ record { pos = c.pos; message = Message.unlock_of_unlocked (lock_ref_name prog c.ref) }

  abbrev IsStep : UnlockOfUnlockedCandidate → List Diagnostic → Type 0
  IsStep c ds = Adds ctx (IsUnmatched c) ds (check_unlock prog (reporting ctx ds) c)

  quiet :
      (c : UnlockOfUnlockedCandidate) (ds : List Diagnostic)
      → check_unlock prog (reporting ctx ds) c ≡ reporting ctx ds
      → ((d : Diagnostic) → ¬ (IsUnmatched c d))
      → IsStep c ds
  quiet c ds e h = nothing ctx (IsUnmatched c) ds (check_unlock prog (reporting ctx ds) c) e h

  check_unlock-Adds : (c : UnlockOfUnlockedCandidate) (ds : List Diagnostic) → IsStep c ds
  unfolding check_unlock
  check_unlock-Adds c ds = elim (Bool-cases (function_requires_mutex prog ctx c.fn c.ref)) [
    | inl required ↦ quiet c ds (ground (arith, required)) (λ d p. cc (required, p.not_required))
    | inr not_required ↦ elim (Bool-cases (is_acquired_by_callee prog ctx c.fn c.ref)) [
      | inl acquired ↦
          quiet c ds (ground (arith, not_required, acquired)) (λ d p. cc (acquired, p.not_acquired))
      | inr not_acquired ↦ elim (Bool-cases (is_suppressed prog ctx c.fn c.pos)) [
        | inl silent ↦
            quiet c ds (ground (arith, not_required, not_acquired, silent))
              (λ d p. cc (silent, p.loud))
        | inr loud ↦ elim (Bool-cases (lock_ref_name prog c.ref == "")) [
          | inl unnamed ↦
              quiet c ds (ground (arith, not_required, not_acquired, loud, unnamed))
                (λ d p. cc (unnamed, p.named))
          | inr named ↦
              one ctx (IsUnmatched c) ds (check_unlock prog (reporting ctx ds) c)
                (record {
                  pos = c.pos;
                  message = Message.unlock_of_unlocked (lock_ref_name prog c.ref);
                })
                (ground (arith, not_required, not_acquired, loud, named))
                (record {
                  not_required = not_required;
                  not_acquired = not_acquired;
                  loud = loud;
                  named = named;
                  reported = refl;
                })
                (λ d p. p.reported)
        ]
      ]
    ]
  ]

  abbrev pub IsReported : Diagnostic → Type 0
  IsReported d =
      (c : UnlockOfUnlockedCandidate) × Memᴰ c ctx.unlock_of_unlocked_candidates × IsUnmatched c d

  pub report_deferred_unlock_of_unlocked-Adds :
      (ds : List Diagnostic)
      → Adds ctx IsReported ds (report_deferred_unlock_of_unlocked prog (reporting ctx ds))
  unfolding report_deferred_unlock_of_unlocked
  report_deferred_unlock_of_unlocked-Adds =
      fold-Adds ctx (check_unlock prog) IsUnmatched ctx.unlock_of_unlocked_candidates
        check_unlock-Adds

-- The phase `reportDeferredUnlockOfUnlocked` appends diagnostics and changes nothing else: one for
-- each candidate whose lock the function does not require, none of its callees returns holding,
-- and which is not suppressed and has a name, and no other.
pub report_deferred_unlock_of_unlocked_lem :
    (prog : Program) (ctx : PassContext)
    → (new : List Diagnostic) × (report_deferred_unlock_of_unlocked prog ctx
        ≡ record ctx { diagnostics = ctx.diagnostics ++ new })
      × ((d : Diagnostic)
          → Memᴰ d new ↔ (
              (c : UnlockOfUnlockedCandidate) × Memᴰ c ctx.unlock_of_unlocked_candidates
              × IsUnmatched prog ctx c d))
report_deferred_unlock_of_unlocked_lem prog ctx =
    report_deferred_unlock_of_unlocked-Adds prog ctx ctx.diagnostics
