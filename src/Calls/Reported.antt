-- ===== src/Calls/Reported.antt =====
-- Which calls `checkInterproceduralViolations` of pkg/analyzer/reporter.go reports.
use mathlib.Core.List.{Memᴰ}
use golintmu.Base.{
  ◌≡◌, refl, ap, zero, suc, ℕ, [], lookup_list, ◌↔◌, ◌⊎◌, true, false, not, ◌&&◌, ◌||◌, inl, inr,
  none, some, List, ◌∷◌, ◌++◌, ◌==◌, string_eq, nat_eq, arith, subst, Bool-cases, Option-cases,
  lookup, fold, if◌then◌else◌,
}
use golintmu.Ssa.{Program}
use golintmu.Pass.{PassContext, MutexFieldKey, CallSiteRecord, FuncLockFacts, Message, Diagnostic}
use golintmu.Pass.Keys.{MutexFieldKey_eq}
use golintmu.Report.{reportf, is_suppressed, mutex_field_key_name}
use golintmu.Report.Adds.{reporting, Adds, nothing, when-Adds, then-Adds, Adds-iff, fold-Adds}
use golintmu.Concurrency.{is_concurrent}
use golintmu.Interproc.{caller_holds_mutex, is_pre_publication_constructor_call}
use golintmu.Violations.{should_suppress_direct_violation}
use golintmu.Calls.{
  max_depth, max_chains, access_reason, call_reason, first_explained, format_single_origin,
  format_requirement_reasons, add_chain, reasons_of, report_missing_lock_at_call_site,
  report_double_lock_at_call_site, check_required, check_acquired, check_call_site,
  check_interprocedural_violations,
}

module _ (prog : Program) (ctx : PassContext) where
  open prog use {func}

  -- A lock that the callee requires and the caller does not hold, where the requirement is not
  -- left to the caller's callers and the call is not one on an object under construction.
  pub record IsMissing (cs : CallSiteRecord) (mfk : MutexFieldKey) (d : Diagnostic) : Type 0 where
    pub unheld : caller_holds_mutex cs mfk ≡ false
    pub direct : should_suppress_direct_violation ctx cs.caller mfk ≡ false
    pub published : is_pre_publication_constructor_call prog cs ≡ false
    pub loud : is_suppressed prog ctx cs.caller cs.pos ≡ false
    pub named : (mutex_field_key_name prog mfk == "") ≡ false
    pub reported : d ≡ record {
      pos = cs.pos;
      message =
          Message.missing_lock_at_call
            (mutex_field_key_name prog mfk)
            (func cs.callee).fn_name
            (reasons_of prog ctx cs mfk);
    }

  -- A lock that the caller holds and the callee acquires.
  pub record IsDouble (cs : CallSiteRecord) (mfk : MutexFieldKey) (d : Diagnostic) : Type 0 where
    pub held : caller_holds_mutex cs mfk ≡ true
    pub loud : is_suppressed prog ctx cs.caller cs.pos ≡ false
    pub named : (mutex_field_key_name prog mfk == "") ≡ false
    pub reported : d ≡ record {
      pos = cs.pos;
      message =
          Message.double_lock_at_call (mutex_field_key_name prog mfk) (func cs.callee).fn_name;
    }

  format_single_origin-reporting :
      (depth : ℕ) (mfk : MutexFieldKey) (ds : List Diagnostic)
      → format_single_origin prog depth (reporting ctx ds) mfk
        ≡ format_single_origin prog depth ctx mfk
  unfolding format_single_origin
  format_single_origin-reporting zero mfk ds = refl
  format_single_origin-reporting (suc depth) mfk ds =
      ap
        (λ explain fn origin. elim origin.via_callee [
          | none ↦ access_reason prog fn origin
          | some callee ↦
              call_reason prog fn callee origin.via_call_pos ∷ elim (lookup callee ctx.func_facts) [
                | none ↦ []
                | some callee_facts ↦
                    first_explained (explain callee) (lookup_list mfk callee_facts.requires_origin)
              ]
        ])
        (format_single_origin-reporting depth mfk ds)

  reasons_of-reporting :
      (cs : CallSiteRecord) (mfk : MutexFieldKey) (ds : List Diagnostic)
      → reasons_of prog (reporting ctx ds) cs mfk ≡ reasons_of prog ctx cs mfk
  unfolding reasons_of format_requirement_reasons
  reasons_of-reporting cs mfk ds =
      ap
        (λ explain.
          if ctx.verbose
          then (elim (lookup cs.callee ctx.func_facts) [
            | none ↦ []
            | some facts ↦
                (fold (add_chain max_chains (explain cs.callee)) ([], 0)
                  (lookup_list mfk facts.requires_origin)).0
          ])
          else [])
        (format_single_origin-reporting max_depth mfk ds)

  check_required-Adds :
      (cs : CallSiteRecord) (mfk : MutexFieldKey) (ds : List Diagnostic)
      → Adds ctx (IsMissing cs mfk) ds (check_required prog cs (reporting ctx ds) mfk)
  unfolding check_required report_missing_lock_at_call_site reportf should_suppress_direct_violation
      is_suppressed reasons_of
  check_required-Adds cs mfk ds =
      when-Adds ctx (IsMissing cs mfk) ds (check_required prog cs (reporting ctx ds) mfk)
        (not (
            caller_holds_mutex cs mfk
            || should_suppress_direct_violation ctx cs.caller mfk
            || is_pre_publication_constructor_call prog cs)
          && (not (is_suppressed prog ctx cs.caller cs.pos)
              && not (mutex_field_key_name prog mfk == "")))
        (record {
          pos = cs.pos;
          message =
              Message.missing_lock_at_call (mutex_field_key_name prog mfk) (func cs.callee).fn_name
                (reasons_of prog ctx cs mfk);
        })
        (elim (Bool-cases (is_suppressed prog ctx cs.caller cs.pos)) [
          | inl silent ↦ ground (arith, silent)
          | inr loud ↦ elim (Bool-cases (mutex_field_key_name prog mfk == "")) [
            | inl unnamed ↦ ground (arith, loud, unnamed)
            | inr named ↦ ground (arith, loud, named, reasons_of-reporting cs mfk ds)
          ]
        ])
        (λ h. record {
          unheld = ground (arith, h);
          direct = ground (arith, h);
          published = ground (arith, h);
          loud = ground (arith, h);
          named = ground (arith, h);
          reported = refl;
        })
        (λ d' m. (ground (arith, m.unheld, m.direct, m.published, m.loud, m.named), m.reported))

  check_acquired-Adds :
      (cs : CallSiteRecord) (mfk : MutexFieldKey) (ds : List Diagnostic)
      → Adds ctx (IsDouble cs mfk) ds (check_acquired prog cs (reporting ctx ds) mfk)
  unfolding check_acquired report_double_lock_at_call_site reportf is_suppressed
  check_acquired-Adds cs mfk ds =
      when-Adds ctx (IsDouble cs mfk) ds (check_acquired prog cs (reporting ctx ds) mfk)
        (caller_holds_mutex cs mfk
          && (not (is_suppressed prog ctx cs.caller cs.pos)
              && not (mutex_field_key_name prog mfk == "")))
        (record {
          pos = cs.pos;
          message =
              Message.double_lock_at_call (mutex_field_key_name prog mfk) (func cs.callee).fn_name;
        })
        (elim (Bool-cases (is_suppressed prog ctx cs.caller cs.pos)) [
          | inl silent ↦ ground (arith, silent)
          | inr loud ↦ elim (Bool-cases (mutex_field_key_name prog mfk == "")) [
            | inl unnamed ↦ ground (arith, loud, unnamed)
            | inr named ↦ ground (arith, loud, named)
          ]
        ])
        (λ h. record {
          held = ground (arith, h);
          loud = ground (arith, h);
          named = ground (arith, h);
          reported = refl;
        })
        (λ d' m. (ground (arith, m.held, m.loud, m.named), m.reported))

  abbrev pub Missing : FuncLockFacts → CallSiteRecord → Diagnostic → Type 0
  Missing facts cs d = (mfk : MutexFieldKey) × Memᴰ mfk facts.requires × IsMissing cs mfk d

  abbrev pub Double : FuncLockFacts → CallSiteRecord → Diagnostic → Type 0
  Double facts cs d = (mfk : MutexFieldKey) × Memᴰ mfk facts.acquires_transitive × IsDouble cs mfk d

  -- The diagnostics of one call site: of a concurrent caller, and a callee that has facts.
  pub record IsReported (cs : CallSiteRecord) (d : Diagnostic) : Type 0 where
    pub concurrent : is_concurrent ctx cs.caller ≡ true
    pub facts : FuncLockFacts
    pub found : lookup cs.callee ctx.func_facts ≡ some facts
    pub kind : Missing facts cs d ⊎ Double facts cs d

  check_call_site-Adds :
      (cs : CallSiteRecord) (ds : List Diagnostic)
      → Adds ctx (IsReported cs) ds (check_call_site prog (reporting ctx ds) cs)
  unfolding check_call_site is_concurrent
  check_call_site-Adds cs ds = elim (Bool-cases (is_concurrent ctx cs.caller)) [
    | inr alone ↦
        nothing ctx (IsReported cs) ds (check_call_site prog (reporting ctx ds) cs)
          (ground (arith, alone)) (λ d p. cc (alone, p.concurrent))
    | inl concurrent ↦ elim (Option-cases (lookup cs.callee ctx.func_facts)) [
      | inl unknown ↦
          nothing ctx (IsReported cs) ds (check_call_site prog (reporting ctx ds) cs)
            (ground (arith, concurrent, unknown)) (λ d p. cc (unknown, p.found))
      | inr (facts, found) ↦
          Adds-iff ctx (λ d. Missing facts cs d ⊎ Double facts cs d) (IsReported cs) ds
            (fold (check_acquired prog cs)
              (fold (check_required prog cs) (reporting ctx ds) facts.requires)
              facts.acquires_transitive)
            (check_call_site prog (reporting ctx ds) cs) (ground (arith, concurrent, found))
            (λ d. (
              λ k. record { concurrent = concurrent; facts = facts; found = found; kind = k },
              λ p.
                  let same : p.facts ≡ facts = ground (arith, p.found, found) in
                  subst (λ f. Missing f cs d ⊎ Double f cs d) same p.kind,
            ))
            (then-Adds ctx (Missing facts cs) (Double facts cs)
              (λ c. fold (check_required prog cs) c facts.requires)
              (λ c. fold (check_acquired prog cs) c facts.acquires_transitive)
              (fold-Adds ctx (check_required prog cs) (IsMissing cs) facts.requires
                (check_required-Adds cs))
              (fold-Adds ctx (check_acquired prog cs) (IsDouble cs) facts.acquires_transitive
                (check_acquired-Adds cs))
              ds)
    ]
  ]

  abbrev pub OfCall : Diagnostic → Type 0
  OfCall d = (cs : CallSiteRecord) × Memᴰ cs ctx.call_sites × IsReported cs d

  pub check_interprocedural_violations-Adds :
      (ds : List Diagnostic)
      → Adds ctx OfCall ds (check_interprocedural_violations prog (reporting ctx ds))
  unfolding check_interprocedural_violations
  check_interprocedural_violations-Adds =
      fold-Adds ctx (check_call_site prog) IsReported ctx.call_sites check_call_site-Adds

-- The diagnostics that `checkInterproceduralViolations` appends, and no other part of the pass
-- changes: at a call site of a concurrent caller whose callee has facts, one for each lock that
-- the callee requires and the caller does not hold, unless the requirement is left to the caller's
-- callers or the object is under construction, and one for each lock that the caller holds and
-- the callee acquires, directly or through its callees; none where the report is suppressed or
-- the lock has no name.
pub check_interprocedural_violations_lem :
    (prog : Program) (ctx : PassContext)
    → (new : List Diagnostic) × (check_interprocedural_violations prog ctx
        ≡ record ctx { diagnostics = ctx.diagnostics ++ new })
      × ((d : Diagnostic)
          → Memᴰ d new
            ↔ ((cs : CallSiteRecord) × Memᴰ cs ctx.call_sites × IsReported prog ctx cs d))
check_interprocedural_violations_lem prog ctx =
    check_interprocedural_violations-Adds prog ctx ctx.diagnostics
