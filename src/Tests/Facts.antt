-- ===== src/Tests/Facts.antt =====
-- The theorems on exported facts, for a package that imports the sample's.
use golintmu.Base.{
  or_else, ℕ, ℕ_discrete, ◌≡◌, ◌↔◌, refl, sym, subst, Bool, true, false, ◌||◌, Option, none, some,
  List, [], ◌∷◌, ◌==◌, ==_iff, if◌then◌else◌, nat_eq, arith, keys, lookup, contains,
}
use golintmu.Types.{named}
use golintmu.Ssa.{Program}
use golintmu.Pass.{PassContext, new_pass_context, MutexFieldKey, FieldKey, FuncLockFacts}
use golintmu.Pass.Keys.{MutexFieldKey_eq, FieldKey_eq}
use golintmu.FuncFacts.{new_func_lock_facts, func_facts_of, add_requires}
use golintmu.Facts.{
  Imported, MutexRef, FuncLockFact, type_object, mutex_field_key_set_to_refs, mutex_ref_to_key,
  import_refs,
}
use golintmu.Facts.Import.{import_field_guard_facts, import_func_lock_facts}
use golintmu.Facts.Export.{func_lock_fact_of, export_field_guard_facts}
use golintmu.Facts.Refs.{IsVisible, import_refs-mutex_field_key_set_to_refs}
use golintmu.Facts.Guards.{exports}
use golintmu.Facts.Fetched.{import_field_guard_facts-export_field_guard_facts}
use golintmu.Facts.Callees.{IsJoined, import_func_lock_facts-func_lock_fact_of}
use golintmu.Tests.Sample.{sample}

abbrev mu_key : MutexFieldKey
mu_key = record { struct_type = 0; field_index = 0 }

abbrev n_key : FieldKey
n_key = record { struct_type = 0; field_index = 1 }

-- The sample's package, whose types are exported, and the pass that has a guard of it.
abbrev exporter : Program
exporter = record sample { type_exported = λ _. true }

abbrev exported : PassContext
exported = record (new_pass_context false) {
  guards = (n_key, record { mutex_field_index = 0; needs_exclusive = true }) ∷ [];
}

-- A package that imports it, and calls a function of it that requires `mu`.
abbrev importer : Program
importer = record exporter {
  pass_pkg = 7;
  func = λ f. record (exporter.func f) {
    object = some (record { object_pkg = 0; object_exported = true });
  };
}

abbrev mu_ref : MutexRef
mu_ref = record {
  ref_pkg_path = "example.com/counter";
  ref_type_name = "counter";
  ref_field_index = 0;
}

abbrev requires_mu : FuncLockFact
requires_mu = record {
  fact_requires = mu_ref ∷ [];
  fact_acquires = [];
  fact_acquires_transitive = [];
  fact_returns_holding = [];
}

abbrev imported : Imported
imported = record {
  imports = 0 ∷ [];
  scope_lookup = λ _ _. some (type_object (named 0));
  has_fact_types = true;
  field_guard_fact = λ t. lookup t (export_field_guard_facts exporter exported);
  func_lock_fact = λ _. some requires_mu;
  concurrent_fact = λ _. false;
}

abbrev importing : PassContext
importing = record (new_pass_context false) {
  observations = (n_key, []) ∷ [];
  call_sites =
      record { caller = 9; callee = 0; pos = 60; held_by_struct_type = []; receiver_value = none }
      ∷ [];
}

mu_key-IsVisible : IsVisible importer imported mu_key
unfolding golintmu.Facts.package_of golintmu.Facts.find_import golintmu.Base.dec_of_iff
    golintmu.Resolver.fields_of
mu_key-IsVisible = record {
  pkg = 0;
  fields = sample.struct_fields 0;
  of_pkg = refl;
  found_pkg = refl;
  in_scope = refl;
  of_struct = refl;
  in_struct = omega arith;
}

only_mu : (k : MutexFieldKey) → contains (mu_key ∷ []) k ≡ true → IsVisible importer imported k
only_mu k m =
    let e : mu_key ≡ k = ground (arith, m) in subst (IsVisible importer imported) e mu_key-IsVisible

import_refs-mutex_field_key_set_to_refs_example :
    (refs : List MutexRef) × (mutex_field_key_set_to_refs importer (mu_key ∷ []) ≡ some refs)
    × ((before : List MutexFieldKey) (mfk : MutexFieldKey)
        → contains (import_refs importer imported before refs) mfk
          ≡ (contains before mfk || contains (mu_key ∷ []) mfk))
import_refs-mutex_field_key_set_to_refs_example =
    import_refs-mutex_field_key_set_to_refs importer imported (mu_key ∷ []) only_mu

import_field_guard_facts-export_field_guard_facts_example :
    lookup n_key (import_field_guard_facts importer imported importing).guards
    ≡ or_else
        (if exports exporter 0 then lookup n_key exported.guards else none)
        (lookup n_key importing.guards)
unfolding golintmu.Inference.is_local_type ℕ_discrete
import_field_guard_facts-export_field_guard_facts_example =
    import_field_guard_facts-export_field_guard_facts exporter importer exported importing imported
      n_key (refl, tt) (λ t. refl) refl refl

-- What the sample's package has found of the function, and exports.
abbrev requiring : FuncLockFacts
requiring = add_requires mu_key new_func_lock_facts

requiring-exported : func_lock_fact_of importer requiring ≡ some requires_mu
unfolding func_lock_fact_of mutex_field_key_set_to_refs golintmu.Facts.refs_of
    golintmu.Facts.sort_refs golintmu.Facts.insert_ref golintmu.Facts.mutex_field_key_to_ref
requiring-exported = refl

abbrev after_import : FuncLockFacts
after_import = func_facts_of (import_func_lock_facts importer imported importing) 0

import_func_lock_facts-func_lock_fact_of_example :
    IsJoined after_import.requires (func_facts_of importing 0).requires requiring.requires
    × IsJoined after_import.acquires (func_facts_of importing 0).acquires requiring.acquires
    × IsJoined after_import.acquires_transitive
        (func_facts_of importing 0).acquires_transitive
        requiring.acquires_transitive
    × IsJoined after_import.returns_holding
        (func_facts_of importing 0).returns_holding
        requiring.returns_holding
unfolding golintmu.Facts.Import.is_imported ℕ_discrete
import_func_lock_facts-func_lock_fact_of_example =
    import_func_lock_facts-func_lock_fact_of importer importing imported 0 requiring requires_mu
      requiring-exported refl refl refl (λ k m. only_mu k (ground (arith, m)))
