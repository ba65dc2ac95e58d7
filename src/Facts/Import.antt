-- ===== src/Facts/Import.antt =====
-- pkg/analyzer/facts.go: `importFacts`.
use golintmu.Base.{
  ℕ, Bool, false, not, none, some, List, [], ◌==◌, if◌then◌else◌, nat_eq, Map, keys, lookup, insert,
  contains, add, fold,
}
use golintmu.Ssa.{Program}
use golintmu.Inference.{is_local_type}
use golintmu.Pass.{PassContext, FieldKey, CallSiteRecord, FuncLockFacts, GuardInfo}
use golintmu.Pass.Keys.{FieldKey_eq}
use golintmu.FuncFacts.{update_func_facts}
use golintmu.Facts.{FieldGuardFact, FuncLockFact, Imported, import_refs}

-- `fact.NeedsExclusive[fieldIndex]`, of a map that may be nil
unfoldable pub needs_exclusive_of : FieldGuardFact → ℕ → Bool
needs_exclusive_of fact i = elim fact.needs_exclusive [
  | none ↦ false
  | some needs ↦ elim (lookup i needs) [ none ↦ false | some b ↦ b ]
]

-- The inner loop of `importFieldGuardFacts`.
unfoldable pub import_guards :
    ℕ → FieldGuardFact → Map FieldKey GuardInfo → Map ℕ ℕ → Map FieldKey GuardInfo
unfolding needs_exclusive_of
import_guards t fact guards entries =
    fold
      (λ m (field_index, mutex_field_index).
        insert (record { struct_type = t; field_index = field_index })
          (record {
            mutex_field_index = mutex_field_index;
            needs_exclusive = needs_exclusive_of fact field_index;
          })
          m)
      guards entries

module _ (prog : Program) where
  open prog use {func, pass_pkg}

  -- The function has an object, of another package.
  unfoldable pub is_imported : ℕ → Bool
  is_imported fn = elim (func fn).object [
    | none ↦ false
    | some obj ↦ not (obj.object_pkg == pass_pkg)
  ]

  -- The loop of `importFuncLockFacts` and of `importConcurrentFacts`: each imported callee once.
  unfoldable pub import_callee :
      (PassContext → ℕ → PassContext) → PassContext × List ℕ → CallSiteRecord → PassContext × List ℕ
  unfolding is_imported
  import_callee import (ctx, seen) cs =
      if not (is_imported cs.callee)
      then (ctx, seen)
      else (if contains seen cs.callee
          then (ctx, seen)
          else (import ctx cs.callee, add cs.callee seen))

module _ (prog : Program) (imported : Imported) where
  open imported use {field_guard_fact, func_lock_fact, concurrent_fact, has_fact_types}

  -- The body of the outer loop, with the set `seen`.
  unfoldable pub import_type :
      Map FieldKey GuardInfo × List ℕ → FieldKey → Map FieldKey GuardInfo × List ℕ
  unfolding import_guards
  import_type (guards, seen) key =
      if is_local_type prog key.struct_type
      then (guards, seen)
      else (if contains seen key.struct_type then (guards, seen) else (
        elim (field_guard_fact key.struct_type) [
          | none ↦ guards
          | some fact ↦ import_guards key.struct_type fact guards fact.guards
        ],
        add key.struct_type seen,
      ))

  unfoldable pub import_field_guard_facts : PassContext → PassContext
  unfolding import_type
  import_field_guard_facts ctx = record ctx {
    guards = (fold import_type (ctx.guards, []) (keys ctx.observations)).0;
  }

  unfoldable pub import_func_fact : FuncLockFact → FuncLockFacts → FuncLockFacts
  unfolding import_refs
  import_func_fact fact facts = record facts {
    requires = import_refs prog imported facts.requires fact.fact_requires;
    acquires = import_refs prog imported facts.acquires fact.fact_acquires;
    acquires_transitive =
        import_refs prog imported facts.acquires_transitive fact.fact_acquires_transitive;
    returns_holding = import_refs prog imported facts.returns_holding fact.fact_returns_holding;
  }

  unfoldable pub import_func_lock_fact : PassContext → ℕ → PassContext
  unfolding import_func_fact update_func_facts
  import_func_lock_fact ctx callee = elim (func_lock_fact callee) [
    | none ↦ ctx
    | some fact ↦ update_func_facts ctx callee (import_func_fact fact)
  ]

  unfoldable pub import_func_lock_facts : PassContext → PassContext
  unfolding import_callee import_func_lock_fact
  import_func_lock_facts ctx =
      (fold (import_callee prog import_func_lock_fact) (ctx, []) ctx.call_sites).0

  unfoldable pub import_concurrent_fact : PassContext → ℕ → PassContext
  import_concurrent_fact ctx callee =
      if concurrent_fact callee
      then elim ctx.annotations [
        | none ↦ ctx
        | some ann ↦ record ctx {
          annotations = some (record ann { concurrent = add callee ann.concurrent });
        }
      ]
      else ctx

  unfoldable pub import_concurrent_facts : PassContext → PassContext
  unfolding import_callee import_concurrent_fact
  import_concurrent_facts ctx =
      (fold (import_callee prog import_concurrent_fact) (ctx, []) ctx.call_sites).0

  unfoldable pub import_facts : PassContext → PassContext
  unfolding import_field_guard_facts import_func_lock_facts import_concurrent_facts
  import_facts ctx =
      if not has_fact_types
      then ctx
      else import_concurrent_facts (import_func_lock_facts (import_field_guard_facts ctx))
