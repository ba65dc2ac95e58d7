-- ===== src/Facts.antt =====
-- pkg/analyzer/facts.go: the facts that pass from a package to the packages that import it, and
-- references to mutex fields in them.
pub mod Import
pub mod Export
pub mod Refs
pub mod Guards
pub mod Fetched
pub mod Callees
use Prim.Native.String.{compare}
use text.Mathlib.Text.{is_lt}
use golintmu.Base.{
  ℕ, String, Bool, true, false, not, Option, none, some, List, [], ◌∷◌, ◌==◌, if◌then◌else◌, nat_eq,
  string_eq, ◌>>=◌, Map, add, fold, length, ltb,
}
use golintmu.Types.{Ty}
use golintmu.Ssa.{Program}
use golintmu.Resolver.{fields_of, named_of}
use golintmu.Pass.{MutexFieldKey}
use golintmu.Pass.Keys.{MutexFieldKey_eq}

-- `needs_exclusive` is `none` for a nil map.
pub record FieldGuardFact : Type 0 where
  pub guards : Map ℕ ℕ
  pub needs_exclusive : Option (Map ℕ Bool)

pub record MutexRef : Type 0 where
  pub ref_pkg_path : String
  pub ref_type_name : String
  pub ref_field_index : ℕ

pub record FuncLockFact : Type 0 where
  pub fact_requires : List MutexRef
  pub fact_acquires : List MutexRef
  pub fact_acquires_transitive : List MutexRef
  pub fact_returns_holding : List MutexRef

-- A `types.Object` of a package's scope: a `*types.TypeName` with its type, or another object.
pub data ScopeObject : Type 0 where
  type_object : Ty → ScopeObject
  other_object : ScopeObject

-- What go/types and go/analysis tell of the imported packages: `Pkg.Imports()`, `Scope().Lookup`,
-- whether the analyzer has fact types, and `ImportObjectFact` for types and for functions.
pub record Imported : Type 0 where
  pub imports : List ℕ
  pub scope_lookup : ℕ → String → Option ScopeObject
  pub has_fact_types : Bool
  pub field_guard_fact : ℕ → Option FieldGuardFact
  pub func_lock_fact : ℕ → Option FuncLockFact
  pub concurrent_fact : ℕ → Bool

-- `obj.(*types.TypeName)`
unfoldable pub type_of_object : ScopeObject → Option Ty
type_of_object (type_object t) = some t
type_of_object other_object = none

-- The order of `sort.Slice`.
unfoldable pub ref_less : MutexRef → MutexRef → Bool
ref_less a b =
    if not (a.ref_pkg_path == b.ref_pkg_path)
    then is_lt (compare a.ref_pkg_path b.ref_pkg_path)
    else (if not (a.ref_type_name == b.ref_type_name)
        then is_lt (compare a.ref_type_name b.ref_type_name)
        else ltb a.ref_field_index b.ref_field_index)

unfoldable pub insert_ref : MutexRef → List MutexRef → List MutexRef
unfolding ref_less
insert_ref ref [] = ref ∷ []
insert_ref ref (r ∷ refs) =
    let rest = insert_ref ref refs in if ref_less r ref then r ∷ rest else ref ∷ r ∷ refs

-- `sort.Slice`, as an insertion sort.
unfoldable pub sort_refs : List MutexRef → List MutexRef
unfolding insert_ref
sort_refs [] = []
sort_refs (ref ∷ refs) = insert_ref ref (sort_refs refs)

module _ (prog : Program) where
  open prog use {pass_pkg, pkg_path, type_pkg, type_name, type_underlying}

  -- `none`: the type has no package, where the source panics.
  unfoldable pub mutex_field_key_to_ref : MutexFieldKey → Option MutexRef
  mutex_field_key_to_ref mfk = type_pkg mfk.struct_type >>= λ p. some (record {
    ref_pkg_path = pkg_path p;
    ref_type_name = type_name mfk.struct_type;
    ref_field_index = mfk.field_index;
  })

  -- The loop of `mutexFieldKeySetToRefs`.
  unfoldable pub refs_of : List MutexFieldKey → Option (List MutexRef)
  unfolding mutex_field_key_to_ref
  refs_of [] = some []
  refs_of (mfk ∷ set) = do ref ← mutex_field_key_to_ref mfk; refs ← refs_of set; some (ref ∷ refs)

  unfoldable pub mutex_field_key_set_to_refs : List MutexFieldKey → Option (List MutexRef)
  unfolding refs_of sort_refs
  mutex_field_key_set_to_refs set = refs_of set >>= λ refs. some (sort_refs refs)

  -- The loop over `Imports()`.
  unfoldable pub find_import : String → List ℕ → Option ℕ
  find_import path [] = none
  find_import path (imp ∷ imps) =
      let rest = find_import path imps in if pkg_path imp == path then some imp else rest

  module _ (imported : Imported) where
    open imported use {imports, scope_lookup}

    -- The package of a path: the analyzed one, or a direct import.
    unfoldable pub package_of : String → Option ℕ
    unfolding find_import
    package_of path = if path == pkg_path pass_pkg then some pass_pkg else find_import path imports

    unfoldable pub mutex_ref_to_key : MutexRef → Option MutexFieldKey
    unfolding package_of type_of_object named_of fields_of
    mutex_ref_to_key ref = do
      pkg ← package_of ref.ref_pkg_path
      obj ← scope_lookup pkg ref.ref_type_name
      t ← type_of_object obj
      named ← named_of t
      st ← fields_of prog (type_underlying named)
      if ltb ref.ref_field_index (length st)
          then some (record { struct_type = named; field_index = ref.ref_field_index })
          else none

    -- The loops of `importFuncLockFacts` over the references of one set.
    unfoldable pub import_refs : List MutexFieldKey → List MutexRef → List MutexFieldKey
    unfolding mutex_ref_to_key
    import_refs set refs =
        fold (λ s ref. elim (mutex_ref_to_key ref) [ none ↦ s | some mfk ↦ add mfk s ]) set refs
