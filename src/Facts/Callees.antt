-- ===== src/Facts/Callees.antt =====
-- What `importFuncLockFacts` of pkg/analyzer/facts.go makes of the facts of a callee.
use golintmu.Base.{
  ℕ, ◌≡◌, sym, ◌∙◌, ap, inl, inr, Bool, true, not, ◌&&◌, ◌||◌, Option, none, some, List, [], ◌∷◌,
  ◌==◌, ==_iff, if◌then◌else◌, nat_eq, arith, contains, contains-add, any, fold, Bool-cases,
  Option-cases,
}
use golintmu.Ssa.{Program}
use golintmu.Pass.{PassContext, FuncLockFacts, CallSiteRecord, MutexFieldKey}
use golintmu.Pass.Keys.{MutexFieldKey_eq}
use golintmu.FuncFacts.{func_facts_of, func_facts_of-update}
use golintmu.Facts.{FuncLockFact, MutexRef, Imported, mutex_field_key_set_to_refs, import_refs}
use golintmu.Facts.Import.{
  is_imported, import_func_fact, import_callee, import_func_lock_fact, import_func_lock_facts,
}
use golintmu.Facts.Export.{func_lock_fact_of}
use golintmu.Facts.Refs.{IsVisible, import_refs-mutex_field_key_set_to_refs}

module _ (prog : Program) (imported : Imported) (fn : ℕ) where
  open imported use {func_lock_fact}

  -- The facts of the function after its fact was read.
  abbrev pub with_fact : Option FuncLockFact → FuncLockFacts → FuncLockFacts
  with_fact none facts = facts
  with_fact (some fact) facts = import_func_fact prog imported fact facts

  abbrev is_new : List ℕ → Bool
  is_new seen = is_imported prog fn && not (contains seen fn)

  facts-import_func_lock_fact :
      (ctx : PassContext) (callee : ℕ)
      → func_facts_of (import_func_lock_fact prog imported ctx callee) fn ≡ (
          if callee == fn
          then with_fact (func_lock_fact callee) (func_facts_of ctx fn)
          else func_facts_of ctx fn)
  unfolding import_func_lock_fact
  facts-import_func_lock_fact ctx callee = elim (Option-cases (func_lock_fact callee)) [
    | inl unknown ↦ ground (arith, unknown)
    | inr (fact, known) ↦ ground (
      arith,
      known,
      func_facts_of-update ctx callee fn (import_func_fact prog imported fact),
      ==_iff callee fn,
    )
  ]

  abbrev step : PassContext × List ℕ → CallSiteRecord → PassContext × List ℕ
  step = import_callee prog (import_func_lock_fact prog imported)

  seen-step :
      (ctx : PassContext) (seen : List ℕ) (cs : CallSiteRecord)
      → is_new (step (ctx, seen) cs).1 ≡ (is_new seen && not (cs.callee == fn))
  unfolding import_callee
  seen-step ctx seen cs = elim (Bool-cases (cs.callee == fn)) [
    | inl same ↦
        let e : cs.callee ≡ fn = (==_iff cs.callee fn).0 same in
        ground (arith, same, e, contains-add cs.callee fn seen)
    | inr other ↦ ground (arith, other, contains-add cs.callee fn seen)
  ]

  facts-step :
      (ctx : PassContext) (seen : List ℕ) (cs : CallSiteRecord)
      → func_facts_of (step (ctx, seen) cs).0 fn ≡ (
          if is_new seen && cs.callee == fn
          then with_fact (func_lock_fact fn) (func_facts_of ctx fn)
          else func_facts_of ctx fn)
  unfolding import_callee
  facts-step ctx seen cs = elim (Bool-cases (cs.callee == fn)) [
    | inl same ↦
        let e : cs.callee ≡ fn = (==_iff cs.callee fn).0 same in
        ground (arith, same, e, facts-import_func_lock_fact ctx cs.callee)
    | inr other ↦ ground (arith, other, facts-import_func_lock_fact ctx cs.callee)
  ]

  facts-fold :
      (ctx : PassContext) (seen : List ℕ) (sites : List CallSiteRecord)
      → func_facts_of (fold step (ctx, seen) sites).0 fn ≡ (
          if is_new seen && any (λ cs. cs.callee == fn) sites
          then with_fact (func_lock_fact fn) (func_facts_of ctx fn)
          else func_facts_of ctx fn)
  facts-fold ctx seen [] = ground arith
  facts-fold ctx seen (cs ∷ sites) =
      let next = step (ctx, seen) cs in
      ground (arith, facts-fold next.0 next.1 sites, seen-step ctx seen cs, facts-step ctx seen cs)

-- What a set of the function's facts is after the import, if the exporting package had `set`.
abbrev pub IsJoined : List MutexFieldKey → List MutexFieldKey → List MutexFieldKey → Type 0
IsJoined after before set =
    (mfk : MutexFieldKey) → contains after mfk ≡ (contains before mfk || contains set mfk)

func_lock_fact_of-inv :
    (prog : Program) (facts : FuncLockFacts) (fact : FuncLockFact)
    → func_lock_fact_of prog facts ≡ some fact
    → (mutex_field_key_set_to_refs prog facts.requires ≡ some fact.fact_requires)
      × (mutex_field_key_set_to_refs prog facts.acquires ≡ some fact.fact_acquires)
      × (mutex_field_key_set_to_refs prog facts.acquires_transitive
          ≡ some fact.fact_acquires_transitive)
      × (mutex_field_key_set_to_refs prog facts.returns_holding ≡ some fact.fact_returns_holding)
unfolding func_lock_fact_of
func_lock_fact_of-inv prog facts fact h =
    (ground (arith, h), ground (arith, h), ground (arith, h), ground (arith, h))

-- One of the facts' sets: its references are imported as the set.
joined :
    (prog : Program) (imported : Imported) (set before : List MutexFieldKey) (refs : List MutexRef)
    → ((k : MutexFieldKey) → contains set k ≡ true → IsVisible prog imported k)
    → mutex_field_key_set_to_refs prog set ≡ some refs
    → IsJoined (import_refs prog imported before refs) before set
joined prog imported set before refs visible h mfk =
    let (refs', e, same) = import_refs-mutex_field_key_set_to_refs prog imported set visible in
    let eq : refs' ≡ refs = ground (arith, e, h) in
    ap (λ r. contains (import_refs prog imported before r) mfk) (sym eq) ∙ same before mfk

-- The facts of a callee, exported by its package and imported by a caller's: each set of locks
-- (required, acquired, acquired in calls, held on return) is joined with the set that the
-- exporting package has computed. The callee is one of another package and is called, its fact is
-- the one that was exported, the two packages read the same names and paths, and the caller's
-- sees the struct types in the sets.
pub import_func_lock_facts-func_lock_fact_of :
    (prog : Program) (ctx : PassContext) (imported : Imported) (fn : ℕ) (facts : FuncLockFacts)
    (fact : FuncLockFact)
    → func_lock_fact_of prog facts ≡ some fact
    → imported.func_lock_fact fn ≡ some fact
    → is_imported prog fn ≡ true
    → any (λ cs. cs.callee == fn) ctx.call_sites ≡ true
    → ((k : MutexFieldKey)
        → (contains facts.requires k
            || contains facts.acquires k
            || contains facts.acquires_transitive k
            || contains facts.returns_holding k)
          ≡ true
        → IsVisible prog imported k)
    → IsJoined
        (func_facts_of (import_func_lock_facts prog imported ctx) fn).requires
        (func_facts_of ctx fn).requires
        facts.requires
      × IsJoined
          (func_facts_of (import_func_lock_facts prog imported ctx) fn).acquires
          (func_facts_of ctx fn).acquires
          facts.acquires
      × IsJoined
          (func_facts_of (import_func_lock_facts prog imported ctx) fn).acquires_transitive
          (func_facts_of ctx fn).acquires_transitive
          facts.acquires_transitive
      × IsJoined
          (func_facts_of (import_func_lock_facts prog imported ctx) fn).returns_holding
          (func_facts_of ctx fn).returns_holding
          facts.returns_holding
unfolding import_func_lock_facts import_func_fact func_lock_fact_of
import_func_lock_facts-func_lock_fact_of prog ctx imported fn facts fact h known foreign called
      visible =
    let old = func_facts_of ctx fn in
    let whole : func_facts_of (import_func_lock_facts prog imported ctx) fn
        ≡ with_fact prog imported fn (some fact) old =
      ground (arith, facts-fold prog imported fn ctx [] ctx.call_sites, foreign, called, known) in
    let (e1, e2, e3, e4) = func_lock_fact_of-inv prog facts fact h in
    (
      λ mfk.
          ap (λ f. contains f.requires mfk) whole
          ∙ joined prog imported facts.requires old.requires fact.fact_requires
              (λ k m. visible k (ground (arith, m))) e1 mfk,
      λ mfk.
          ap (λ f. contains f.acquires mfk) whole
          ∙ joined prog imported facts.acquires old.acquires fact.fact_acquires
              (λ k m. visible k (ground (arith, m))) e2 mfk,
      λ mfk.
          ap (λ f. contains f.acquires_transitive mfk) whole
          ∙ joined prog imported facts.acquires_transitive old.acquires_transitive
              fact.fact_acquires_transitive (λ k m. visible k (ground (arith, m))) e3 mfk,
      λ mfk.
          ap (λ f. contains f.returns_holding mfk) whole
          ∙ joined prog imported facts.returns_holding old.returns_holding fact.fact_returns_holding
              (λ k m. visible k (ground (arith, m))) e4 mfk,
    )
