-- ===== src/Facts/Export.antt =====
-- pkg/analyzer/facts.go: `exportFacts`.
use golintmu.Base.{
  ℕ, Bool, true, false, not, ◌&&◌, ◌||◌, Option, none, some, List, [], ◌∷◌, ◌==◌, if◌then◌else◌,
  nat_eq, ◌>>=◌, Map, lookup, insert, add, fold,
}
use golintmu.Ssa.{Program}
use golintmu.Inference.{is_local_type}
use golintmu.Pass.{PassContext, FieldKey, FuncLockFacts, GuardInfo, MutexFieldKey}
use golintmu.Concurrency.{detect_concurrent_entrypoints}
use golintmu.Facts.{FieldGuardFact, FuncLockFact, mutex_field_key_set_to_refs}

-- `typeGuards`
pub record TypeGuards : Type 0 where
  pub guards : Map ℕ ℕ
  pub needs_exclusive : Map ℕ Bool

abbrev pub new_type_guards : TypeGuards
new_type_guards = record { guards = []; needs_exclusive = [] }

unfoldable pub add_guard : FieldKey → GuardInfo → TypeGuards → TypeGuards
add_guard key guard tg = record {
  guards = insert key.field_index guard.mutex_field_index tg.guards;
  needs_exclusive =
      if guard.needs_exclusive
      then insert key.field_index true tg.needs_exclusive
      else tg.needs_exclusive;
}

abbrev pub fact_of : TypeGuards → FieldGuardFact
fact_of tg = record { guards = tg.guards; needs_exclusive = some tg.needs_exclusive }

-- The second loop of `exportFieldGuardFacts`.
unfoldable pub facts_of : Map ℕ TypeGuards → Map ℕ FieldGuardFact
facts_of [] = []
facts_of ((t, tg) ∷ m) = (t, fact_of tg) ∷ facts_of m

-- The calls of `ExportObjectFact`.
pub record Exports : Type 0 where
  pub field_guards : Map ℕ FieldGuardFact
  pub func_locks : List (ℕ × FuncLockFact)
  pub concurrent : List ℕ

abbrev is_nil : List MutexFieldKey → Bool
is_nil [] = true
is_nil (x ∷ xs) = false

module _ (prog : Program) where
  open prog use {func, pass_pkg, type_exported}

  -- The body of the first loop of `exportFieldGuardFacts`.
  unfoldable pub group_guard : Map ℕ TypeGuards → FieldKey × GuardInfo → Map ℕ TypeGuards
  unfolding add_guard
  group_guard by_type (key, guard) =
      if not (is_local_type prog key.struct_type) || not (type_exported key.struct_type)
      then by_type
      else (let tg : TypeGuards = elim (lookup key.struct_type by_type) [
        | none ↦ new_type_guards
        | some tg ↦ tg
      ] in
          insert key.struct_type (add_guard key guard tg) by_type)

  unfoldable pub export_field_guard_facts : PassContext → Map ℕ FieldGuardFact
  unfolding group_guard facts_of
  export_field_guard_facts ctx = facts_of (fold group_guard [] ctx.guards)

  -- The function has an exported object of this package.
  unfoldable pub is_exported : ℕ → Bool
  is_exported fn = elim (func fn).object [
    | none ↦ false
    | some obj ↦ obj.object_pkg == pass_pkg && obj.object_exported
  ]

  unfoldable pub func_lock_fact_of : FuncLockFacts → Option FuncLockFact
  unfolding mutex_field_key_set_to_refs
  func_lock_fact_of facts = do
    requires ← mutex_field_key_set_to_refs prog facts.requires
    acquires ← mutex_field_key_set_to_refs prog facts.acquires
    acquires_transitive ← mutex_field_key_set_to_refs prog facts.acquires_transitive
    returns_holding ← mutex_field_key_set_to_refs prog facts.returns_holding
    some (record {
      fact_requires = requires;
      fact_acquires = acquires;
      fact_acquires_transitive = acquires_transitive;
      fact_returns_holding = returns_holding;
    })

  -- The loop of `exportFuncLockFacts`; `none` where the source panics.
  unfoldable pub export_func_locks : Map ℕ FuncLockFacts → Option (List (ℕ × FuncLockFact))
  unfolding is_exported func_lock_fact_of
  export_func_locks [] = some []
  export_func_locks ((fn, facts) ∷ m) = export_func_locks m >>= λ rest.
      if not (is_exported fn)
        || is_nil facts.requires
          && is_nil facts.acquires
          && is_nil facts.acquires_transitive
          && is_nil facts.returns_holding
      then some rest
      else (func_lock_fact_of facts >>= λ fact. some ((fn, fact) ∷ rest))

  unfoldable pub export_func_lock_facts : PassContext → Option (List (ℕ × FuncLockFact))
  unfolding export_func_locks
  export_func_lock_facts ctx = export_func_locks ctx.func_facts

  unfoldable pub export_concurrent_facts : PassContext → List ℕ
  unfolding is_exported
  export_concurrent_facts ctx =
      fold (λ exported fn. if is_exported fn then add fn exported else exported) []
        (detect_concurrent_entrypoints prog ctx)

  unfoldable pub export_facts : Bool → PassContext → Option Exports
  unfolding export_field_guard_facts export_func_lock_facts export_concurrent_facts
  export_facts has_fact_types ctx =
      if not has_fact_types
      then some (record { field_guards = []; func_locks = []; concurrent = [] })
      else (export_func_lock_facts ctx >>= λ func_locks. some (record {
        field_guards = export_field_guard_facts ctx;
        func_locks = func_locks;
        concurrent = export_concurrent_facts ctx;
      }))
