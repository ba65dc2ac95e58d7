-- ===== src/FuncFacts.antt =====
-- `getOrCreateFuncFacts` of pkg/analyzer/interprocedural.go, and the maps that it hands out.
use golintmu.Base.{
  ℕ, ◌≡◌, none, some, [], arith, ◌==◌, nat_eq, lookup, insert, add, lookup-insert, if◌then◌else◌,
}
use golintmu.Pass.{PassContext, FuncLockFacts, MutexFieldKey}
use golintmu.Pass.Keys.{MutexFieldKey_eq}

abbrev pub new_func_lock_facts : FuncLockFacts
new_func_lock_facts = record {
  requires = [];
  requires_origin = [];
  acquires = [];
  acquires_transitive = [];
  returns_holding = [];
  releases = [];
}

-- The facts of a function, and new ones if it has none yet.
unfoldable pub func_facts_of : PassContext → ℕ → FuncLockFacts
func_facts_of ctx fn = elim (lookup fn ctx.func_facts) [ none ↦ new_func_lock_facts | some f ↦ f ]

-- `facts := ctx.getOrCreateFuncFacts(fn)` and an update of what it points to.
unfoldable pub update_func_facts : PassContext → ℕ → (FuncLockFacts → FuncLockFacts) → PassContext
unfolding func_facts_of
update_func_facts ctx fn f = record ctx {
  func_facts = insert fn (f (func_facts_of ctx fn)) ctx.func_facts;
}

pub func_facts_of-update :
    (ctx : PassContext) (fn g : ℕ) (f : FuncLockFacts → FuncLockFacts)
    → func_facts_of (update_func_facts ctx fn f) g
      ≡ (if fn == g then f (func_facts_of ctx fn) else func_facts_of ctx g)
unfolding update_func_facts
func_facts_of-update ctx fn g f =
    ground (arith, lookup-insert fn g (f (func_facts_of ctx fn)) ctx.func_facts)

abbrev pub add_requires : MutexFieldKey → FuncLockFacts → FuncLockFacts
add_requires k f = record f { requires = add k f.requires }

abbrev pub add_acquires : MutexFieldKey → FuncLockFacts → FuncLockFacts
add_acquires k f = record f { acquires = add k f.acquires }

abbrev pub add_acquires_transitive : MutexFieldKey → FuncLockFacts → FuncLockFacts
add_acquires_transitive k f = record f { acquires_transitive = add k f.acquires_transitive }

abbrev pub add_returns_holding : MutexFieldKey → FuncLockFacts → FuncLockFacts
add_returns_holding k f = record f { returns_holding = add k f.returns_holding }

abbrev pub add_releases : MutexFieldKey → FuncLockFacts → FuncLockFacts
add_releases k f = record f { releases = add k f.releases }
