-- ===== src/AcquireHelpers/Entries.antt =====
-- `checkCallersOfAcquireHelpers` of pkg/analyzer/reporter.go makes facts for callers that had none:
-- they read as before.
use golintmu.Base.{
  ◌≡◌, refl, sym, ap, ◌∙◌, subst, ℕ, inl, inr, List, [], ◌∷◌, ==_iff, string_eq, nat_eq, arith, Map,
  Bool-cases, Option-cases, List-cases, lookup, insert, fold,
}
use golintmu.Ssa.{Program}
use golintmu.Pass.{PassContext, MutexFieldKey, CallSiteRecord, FuncLockFacts}
use golintmu.Pass.Keys.{MutexFieldKey_eq}
use golintmu.FuncFacts.{func_facts_of, update_func_facts, func_facts_of-update}
use golintmu.Report.{reportf, is_suppressed}
use golintmu.AcquireHelpers.{report_caller_missing_unlock, check_released, check_caller}

-- The pass with other function facts.
abbrev pub with_facts : Map ℕ FuncLockFacts → PassContext → PassContext
with_facts fs c = record c { func_facts = fs }

-- Facts that read as those of the pass do.
abbrev pub IsSame : Map ℕ FuncLockFacts → PassContext → Type 0
IsSame fs c = (g : ℕ) → func_facts_of (with_facts fs c) g ≡ func_facts_of c g

module _ (prog : Program) where
  open prog use {func}

  -- A call site, without facts for the caller.
  abbrev pub check_only : PassContext → CallSiteRecord → PassContext
  check_only ctx cs =
      fold (check_released prog cs) ctx (func_facts_of ctx cs.callee).returns_holding

  check_released-facts :
      (cs : CallSiteRecord) (c : PassContext) (mfk : MutexFieldKey)
      → (check_released prog cs c mfk).func_facts ≡ c.func_facts
  unfolding check_released report_caller_missing_unlock reportf
  check_released-facts cs c mfk = ground arith

  check_released-with :
      (cs : CallSiteRecord) (fs : Map ℕ FuncLockFacts) (c : PassContext) (mfk : MutexFieldKey)
      → IsSame fs c
      → check_released prog cs (with_facts fs c) mfk ≡ with_facts fs (check_released prog cs c mfk)
  unfolding check_released report_caller_missing_unlock reportf is_suppressed
  check_released-with cs fs c mfk same = elim (Bool-cases (is_suppressed prog c cs.caller cs.pos)) [
    | inl silent ↦ ground (arith, same cs.caller, silent)
    | inr loud ↦ ground (arith, same cs.caller, loud)
  ]

  IsSame-released :
      (cs : CallSiteRecord) (fs : Map ℕ FuncLockFacts) (c : PassContext) (mfk : MutexFieldKey)
      → IsSame fs c
      → IsSame fs (check_released prog cs c mfk)
  unfolding func_facts_of
  IsSame-released cs fs c mfk same g = ground (arith, same g, check_released-facts cs c mfk)

  released-with :
      (cs : CallSiteRecord) (fs : Map ℕ FuncLockFacts) (c : PassContext) (l : List MutexFieldKey)
      → IsSame fs c
      → IsSame fs (fold (check_released prog cs) c l)
        × (fold (check_released prog cs) (with_facts fs c) l
            ≡ with_facts fs (fold (check_released prog cs) c l))
  released-with cs fs c [] same = (same, refl)
  released-with cs fs c (mfk ∷ l) same =
      let (after, e) =
        released-with cs fs (check_released prog cs c mfk) l (IsSame-released cs fs c mfk same) in
      (
        after,
        ap (λ c'. fold (check_released prog cs) c' l) (check_released-with cs fs c mfk same) ∙ e,
      )

  -- The facts that a call site makes read as the old ones.
  check_caller-with :
      (cs : CallSiteRecord) (fs : Map ℕ FuncLockFacts) (c : PassContext)
      → IsSame fs c
      → (fs' : Map ℕ FuncLockFacts) × IsSame fs' (check_only c cs)
        × (check_caller prog (with_facts fs c) cs ≡ with_facts fs' (check_only c cs))
  unfolding check_caller func_facts_of update_func_facts
  check_caller-with cs fs c same = elim (Option-cases (lookup cs.callee fs)) [
    | inl unknown ↦
        let idle : check_only c cs ≡ c = ground (arith, same cs.callee, unknown) in
        (fs, subst (IsSame fs) (sym idle) same, ground (arith, unknown, idle))
    | inr (facts, known) ↦ elim (List-cases facts.returns_holding) [
      | inl no_lock ↦
          let idle : check_only c cs ≡ c = ground (arith, same cs.callee, known, no_lock) in
          (fs, subst (IsSame fs) (sym idle) same, ground (arith, known, no_lock, idle))
      | inr (mfk, rest, e) ↦
          let fs' = insert cs.caller (func_facts_of (with_facts fs c) cs.caller) fs in
          let same' : IsSame fs' c = λ g. ground (
            arith,
            same g,
            func_facts_of-update (with_facts fs c) cs.caller g (λ f. f),
            ==_iff cs.caller g,
          ) in
          let (after, through) =
            released-with cs fs' c (func_facts_of c cs.callee).returns_holding same' in
          let held = (func_facts_of c cs.callee).returns_holding in
          let read : facts.returns_holding ≡ held = ground (arith, same cs.callee, known) in
          let entered : check_caller prog (with_facts fs c) cs
              ≡ fold (check_released prog cs) (with_facts fs' c) facts.returns_holding =
            ground (arith, known, e) in
          (
            fs',
            after,
            entered ∙ ap (fold (check_released prog cs) (with_facts fs' c)) read ∙ through,
          )
    ]
  ]

  pub callers-with :
      (fs : Map ℕ FuncLockFacts) (c : PassContext) (sites : List CallSiteRecord)
      → IsSame fs c
      → (fs' : Map ℕ FuncLockFacts) × IsSame fs' (fold check_only c sites)
        × (fold (check_caller prog) (with_facts fs c) sites
            ≡ with_facts fs' (fold check_only c sites))
  callers-with fs c [] same = (fs, same, refl)
  callers-with fs c (cs ∷ sites) same =
      let (fs', same', e) = check_caller-with cs fs c same in
      let (fs'', after, e') = callers-with fs' (check_only c cs) sites same' in
      (fs'', after, ap (λ c'. fold (check_caller prog) c' sites) e ∙ e')
