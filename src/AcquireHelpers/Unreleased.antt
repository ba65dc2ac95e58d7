-- ===== src/AcquireHelpers/Unreleased.antt =====
-- Which reports `checkCallersOfAcquireHelpers` of pkg/analyzer/reporter.go makes.
use mathlib.Core.List.{Memᴰ}
use golintmu.Base.{
  ◌≡◌, refl, ap, ◌∙◌, ◌↔◌, ◌⊎◌, ℕ, false, not, ◌&&◌, inl, inr, List, ◌++◌, ◌==◌, string_eq, nat_eq,
  arith, Map, Bool-cases, fold, contains,
}
use golintmu.Ssa.{Program}
use golintmu.Pass.{PassContext, MutexFieldKey, CallSiteRecord, FuncLockFacts, Message, Diagnostic}
use golintmu.Pass.Keys.{MutexFieldKey_eq}
use golintmu.FuncFacts.{func_facts_of}
use golintmu.Report.{reportf, is_suppressed, mutex_field_key_name}
use golintmu.Report.Adds.{reporting, Adds, when-Adds, then-Adds, fold-Adds}
use golintmu.AcquireHelpers.Entries.{with_facts, check_only, callers-with}
use golintmu.AcquireHelpers.{
  report_acquire_helper, report_acquire_helpers, report_caller_missing_unlock, check_released,
  check_callers_of_acquire_helpers,
}

module _ (prog : Program) (ctx : PassContext) where
  open prog use {func}

  -- An acquire helper, and its diagnostic.
  pub record IsHelper (fn : ℕ) (mfk : MutexFieldKey) (d : Diagnostic) : Type 0 where
    pub loud : is_suppressed prog ctx fn (func fn).fn_pos ≡ false
    pub named : (mutex_field_key_name prog mfk == "") ≡ false
    pub reported : d ≡ record {
      pos = (func fn).fn_pos;
      message = Message.acquire_helper (func fn).fn_name (mutex_field_key_name prog mfk);
    }

  -- A caller that neither returns with the lock that its callee leaves it nor ever releases it.
  pub record IsUnreleased (cs : CallSiteRecord) (mfk : MutexFieldKey) (d : Diagnostic)
      : Type 0 where
    pub not_passed_on : contains (func_facts_of ctx cs.caller).returns_holding mfk ≡ false
    pub not_released : contains (func_facts_of ctx cs.caller).releases mfk ≡ false
    pub loud : is_suppressed prog ctx cs.caller cs.pos ≡ false
    pub named : (mutex_field_key_name prog mfk == "") ≡ false
    pub reported : d ≡ record {
      pos = cs.pos;
      message =
          Message.caller_missing_unlock
            (func cs.caller).fn_name
            (func cs.callee).fn_name
            (mutex_field_key_name prog mfk);
    }

  report_acquire_helper-Adds :
      (fn : ℕ) (mfk : MutexFieldKey) (ds : List Diagnostic)
      → Adds ctx (IsHelper fn mfk) ds (report_acquire_helper prog fn (reporting ctx ds) mfk)
  unfolding report_acquire_helper reportf is_suppressed
  report_acquire_helper-Adds fn mfk ds =
      when-Adds ctx (IsHelper fn mfk) ds (report_acquire_helper prog fn (reporting ctx ds) mfk)
        (not (is_suppressed prog ctx fn (func fn).fn_pos)
          && not (mutex_field_key_name prog mfk == ""))
        (record {
          pos = (func fn).fn_pos;
          message = Message.acquire_helper (func fn).fn_name (mutex_field_key_name prog mfk);
        })
        (elim (Bool-cases (is_suppressed prog ctx fn (func fn).fn_pos)) [
          | inl silent ↦ ground (arith, silent)
          | inr loud ↦ ground (arith, loud)
        ])
        (λ h. record { loud = ground (arith, h); named = ground (arith, h); reported = refl })
        (λ d' p. (ground (arith, p.loud, p.named), p.reported))

  check_released-Adds :
      (cs : CallSiteRecord) (mfk : MutexFieldKey) (ds : List Diagnostic)
      → Adds ctx (IsUnreleased cs mfk) ds (check_released prog cs (reporting ctx ds) mfk)
  unfolding check_released report_caller_missing_unlock reportf is_suppressed func_facts_of
  check_released-Adds cs mfk ds =
      when-Adds ctx (IsUnreleased cs mfk) ds (check_released prog cs (reporting ctx ds) mfk)
        (not (contains (func_facts_of ctx cs.caller).returns_holding mfk)
          && (not (contains (func_facts_of ctx cs.caller).releases mfk)
              && (not (is_suppressed prog ctx cs.caller cs.pos)
                  && not (mutex_field_key_name prog mfk == ""))))
        (record {
          pos = cs.pos;
          message =
              Message.caller_missing_unlock (func cs.caller).fn_name (func cs.callee).fn_name
                (mutex_field_key_name prog mfk);
        })
        (elim (Bool-cases (is_suppressed prog ctx cs.caller cs.pos)) [
          | inl silent ↦ ground (arith, silent)
          | inr loud ↦ ground (arith, loud)
        ])
        (λ h. record {
          not_passed_on = ground (arith, h);
          not_released = ground (arith, h);
          loud = ground (arith, h);
          named = ground (arith, h);
          reported = refl;
        })
        (λ d' p. (ground (arith, p.not_passed_on, p.not_released, p.loud, p.named), p.reported))

  -- The reports on helpers, or on their callers.
  abbrev pub OfHelper : Diagnostic → Type 0
  OfHelper d =
      (entry : ℕ × FuncLockFacts) × Memᴰ entry ctx.func_facts
      × ((mfk : MutexFieldKey) × Memᴰ mfk entry.1.returns_holding × IsHelper entry.0 mfk d)

  abbrev pub OfCaller : Diagnostic → Type 0
  OfCaller d =
      (cs : CallSiteRecord) × Memᴰ cs ctx.call_sites
      × ((mfk : MutexFieldKey) × Memᴰ mfk (func_facts_of ctx cs.callee).returns_holding
          × IsUnreleased cs mfk d)

  helpers-Adds :
      (ds : List Diagnostic) → Adds ctx OfHelper ds (report_acquire_helpers prog (reporting ctx ds))
  unfolding report_acquire_helpers
  helpers-Adds =
      fold-Adds ctx (λ c (fn, facts). fold (report_acquire_helper prog fn) c facts.returns_holding)
        (λ entry d.
          (mfk : MutexFieldKey) × Memᴰ mfk entry.1.returns_holding × IsHelper entry.0 mfk d)
        ctx.func_facts
        (λ (fn, facts).
          fold-Adds ctx (report_acquire_helper prog fn) (IsHelper fn) facts.returns_holding
            (report_acquire_helper-Adds fn))

  callers-Adds :
      (ds : List Diagnostic)
      → Adds ctx OfCaller ds (fold (check_only prog) (reporting ctx ds) ctx.call_sites)
  unfolding func_facts_of
  callers-Adds =
      fold-Adds ctx (check_only prog)
        (λ cs d.
          (mfk : MutexFieldKey) × Memᴰ mfk (func_facts_of ctx cs.callee).returns_holding
          × IsUnreleased cs mfk d)
        ctx.call_sites
        (λ cs.
          fold-Adds ctx (check_released prog cs) (IsUnreleased cs)
            (func_facts_of ctx cs.callee).returns_holding (check_released-Adds cs))

-- What `checkCallersOfAcquireHelpers` does: it appends diagnostics, makes empty facts for some
-- functions that had none, so that each function's facts read as before, and changes nothing else.
-- The diagnostics are one for each function and lock that it returns with, and one for each call
-- site and lock that the callee returns with, if the caller neither returns with the lock nor
-- releases it; none where the report is suppressed or the lock has no name.
pub check_callers_of_acquire_helpers_lem :
    (prog : Program) (ctx : PassContext)
    → (new : List Diagnostic) × (fs : Map ℕ FuncLockFacts) × (check_callers_of_acquire_helpers prog
          ctx
        ≡ record ctx { func_facts = fs; diagnostics = ctx.diagnostics ++ new })
      × ((g : ℕ)
          → func_facts_of (check_callers_of_acquire_helpers prog ctx) g ≡ func_facts_of ctx g)
      × ((d : Diagnostic) → Memᴰ d new ↔ (OfHelper prog ctx d ⊎ OfCaller prog ctx d))
unfolding check_callers_of_acquire_helpers func_facts_of
check_callers_of_acquire_helpers_lem prog ctx =
    let first = report_acquire_helpers prog ctx in
    let (new, e, here) =
      then-Adds ctx (OfHelper prog ctx) (OfCaller prog ctx) (report_acquire_helpers prog)
        (λ c. fold (check_only prog) c ctx.call_sites) (helpers-Adds prog ctx)
        (callers-Adds prog ctx) ctx.diagnostics in
    let (fs, same, e') = callers-with prog first.func_facts first ctx.call_sites (λ g. refl) in
    let whole : check_callers_of_acquire_helpers prog ctx
        ≡ record ctx { func_facts = fs; diagnostics = ctx.diagnostics ++ new } =
      e' ∙ ap (with_facts fs) e in
    (
      new,
      fs,
      whole,
      λ g. ap (λ c. func_facts_of c g) e' ∙ same g ∙ ap (λ c. func_facts_of c g) e,
      here,
    )
