-- ===== src/Tests/Guards.antt =====
-- The theorems on guards, for observations of the sample's field.
use golintmu.Base.{
  or_else, ℕ, ◌≡◌, refl, ◌↔◌, ◌⊎◌, true, false, none, some, List, [], ◌∷◌, nat_eq, lookup,
}
use golintmu.Pass.{PassContext, new_pass_context, FieldKey, GuardInfo, Observation}
use golintmu.Pass.Keys.{FieldKey_eq}
use golintmu.Inference.{
  pick_most_frequent_mutex, infer_field_guard, infer_guards, is_local_type, is_immutable_field,
}
use golintmu.Inference.Count.{votes}
use golintmu.Inference.Guard.{IsMostFrequent, pick_most_frequent_mutex_lem, infer_field_guard_lem}
use golintmu.Inference.Store.{observed_guard, relevant, infer_guards_lem}
use mathlib.Core.List.{Memᴰ, ◌++◌}
use golintmu.Pass.{Diagnostic}
use golintmu.Base.{lookup_list}
use golintmu.Violations.{check_violations}
use golintmu.Violations.Steps.{Violates}
use golintmu.Violations.Reports.{check_violations_lem}
use golintmu.Tests.Sample.{sample}

abbrev n_key : FieldKey
n_key = record { struct_type = 0; field_index = 1 }

-- A write under the mutex 0, a read under 2 and two reads without a lock.
abbrev observed : List Observation
observed =
    record {
      same_base_mutex_fields = record { field_index = 0; exclusive = true } ∷ [];
      is_read = false;
      fn = 0;
      pos = 40;
    }
    ∷ record {
      same_base_mutex_fields = record { field_index = 2; exclusive = false } ∷ [];
      is_read = true;
      fn = 0;
      pos = 41;
    }
    ∷ record { same_base_mutex_fields = []; is_read = true; fn = 3; pos = 42 }
    ∷ record { same_base_mutex_fields = []; is_read = true; fn = 3; pos = 43 }
    ∷ []

abbrev observing : PassContext
observing = record (new_pass_context false) { observations = (n_key, observed) ∷ [] }

pick_most_frequent_mutex_lem_example :
    ((i : ℕ)
      → (pick_most_frequent_mutex n_key observed false ≡ some i)
        ↔ IsMostFrequent n_key false observed i)
    × ((pick_most_frequent_mutex n_key observed false ≡ none)
        ↔ ((j : ℕ) → votes n_key false observed j ≡ 0))
pick_most_frequent_mutex_lem_example = pick_most_frequent_mutex_lem n_key false observed

infer_field_guard_lem_example :
    ((g : GuardInfo)
      → (infer_field_guard n_key observed ≡ some g) ↔ (
          ((g.needs_exclusive ≡ true) × IsMostFrequent n_key true observed g.mutex_field_index)
          ⊎ ((g.needs_exclusive ≡ false)
              × ((j : ℕ) → votes n_key true observed j ≡ 0)
              × IsMostFrequent n_key false observed g.mutex_field_index)))
    × ((infer_field_guard n_key observed ≡ none) ↔ ((j : ℕ) → votes n_key false observed j ≡ 0))
infer_field_guard_lem_example = infer_field_guard_lem n_key observed

infer_guards_lem_example :
    (lookup n_key (infer_guards sample observing).guards
      ≡ or_else
          (observed_guard sample n_key (lookup n_key observing.observations))
          (lookup n_key observing.guards))
    × ((g : GuardInfo)
        → (observed_guard sample n_key (lookup n_key observing.observations) ≡ some g) ↔ (
            (observations : List Observation) × (lookup n_key observing.observations
              ≡ some observations)
            × (is_local_type sample n_key.struct_type ≡ true)
            × (is_immutable_field (relevant sample n_key observations) ≡ false)
            × (infer_field_guard n_key (relevant sample n_key observations) ≡ some g)))
infer_guards_lem_example = infer_guards_lem sample observing n_key (refl, tt)

-- The reads do not hold the guard.
abbrev guarded : PassContext
guarded = record observing {
  guards = (n_key, record { mutex_field_index = 0; needs_exclusive = true }) ∷ [];
}

check_violations_lem_example :
    (new : List Diagnostic) × (check_violations sample guarded
      ≡ record guarded { diagnostics = guarded.diagnostics ++ new })
    × ((d : Diagnostic)
        → Memᴰ d new ↔ (
            (g : FieldKey × GuardInfo) × Memᴰ g guarded.guards
            × ((obs : Observation) × Memᴰ obs (lookup_list g.0 guarded.observations)
                × Violates sample guarded g.0 g.1 obs d)))
check_violations_lem_example = check_violations_lem sample guarded
