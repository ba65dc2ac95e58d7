-- ===== src/Violations.antt =====
-- pkg/analyzer/reporter.go: `checkViolations`, the direct accesses without the guard.
pub mod Steps
pub mod Reports
use golintmu.Base.{
  ℕ, String, Bool, true, false, not, ◌&&◌, ◌||◌, Option, none, some, List, [], ◌∷◌, ◌==◌,
  if◌then◌else◌, nat_eq, ◌>>=◌, lookup, lookup_list, contains, get_elem?, fold,
}
use golintmu.Types.{field_label}
use golintmu.Ssa.{Program}
use golintmu.Resolver.{fields_of}
use golintmu.Pass.{
  PassContext, FieldKey, MutexFieldKey, GuardInfo, Observation, HeldMutexField, Message,
}
use golintmu.Pass.Keys.{FieldKey_eq, MutexFieldKey_eq}
use golintmu.Report.{reportf, is_suppressed}
use golintmu.Inference.{is_constructor_like}
use golintmu.Concurrency.{is_concurrent}
use golintmu.Interproc.{has_callers}

-- The mode in which the first entry of the mutex is held, if it is.
unfoldable pub held_mode : ℕ → List HeldMutexField → Option Bool
held_mode i [] = none
held_mode i (hmf ∷ fields) =
    let rest = held_mode i fields in if hmf.field_index == i then some hmf.exclusive else rest

unfoldable pub should_suppress_direct_violation : PassContext → ℕ → MutexFieldKey → Bool
unfolding has_callers
should_suppress_direct_violation ctx fn mfk = elim (lookup fn ctx.func_facts) [
  | none ↦ false
  | some facts ↦ contains facts.requires mfk && has_callers ctx fn
]

module _ (prog : Program) where
  open prog use {type_name, type_underlying}

  -- "StructName.fieldName" of the field and of its mutex.
  unfoldable pub guarded_labels : FieldKey → GuardInfo → Option (String × String)
  unfolding fields_of field_label
  guarded_labels key guard = do
    st ← fields_of prog (type_underlying key.struct_type)
    field ← get_elem? st key.field_index
    mutex ← get_elem? st guard.mutex_field_index
    some (
      field_label (type_name key.struct_type) field.field_name,
      field_label (type_name key.struct_type) mutex.field_name,
    )

  -- What the two reports share.
  unfoldable pub report_guarded :
      (String → String → Message) → PassContext → Observation → FieldKey → GuardInfo → PassContext
  unfolding is_suppressed guarded_labels reportf
  report_guarded message ctx obs key guard =
      if is_suppressed prog ctx obs.fn obs.pos then ctx else elim (guarded_labels key guard) [
        | none ↦ ctx
        | some (field, mutex) ↦ reportf ctx obs.pos (message field mutex)
      ]

  unfoldable pub report_violation : PassContext → Observation → FieldKey → GuardInfo → PassContext
  unfolding report_guarded
  report_violation = report_guarded Message.field_unguarded

  unfoldable pub report_write_under_shared_lock :
      PassContext → Observation → FieldKey → GuardInfo → PassContext
  unfolding report_guarded
  report_write_under_shared_lock = report_guarded Message.write_under_shared_lock

  -- The body of the inner loop.
  unfoldable pub check_observation : FieldKey → GuardInfo → PassContext → Observation → PassContext
  unfolding held_mode should_suppress_direct_violation report_violation
      report_write_under_shared_lock is_concurrent
  check_observation key guard ctx obs =
      if is_constructor_like prog obs.fn key.struct_type
      then ctx
      else elim (held_mode guard.mutex_field_index obs.same_base_mutex_fields) [
        | some exclusive ↦
            if not obs.is_read && not exclusive && is_concurrent ctx obs.fn
            then report_write_under_shared_lock ctx obs key guard
            else ctx
        | none ↦
            if not (is_concurrent ctx obs.fn)
              || should_suppress_direct_violation ctx obs.fn
                  (record { struct_type = key.struct_type; field_index = guard.mutex_field_index })
            then ctx
            else report_violation ctx obs key guard
      ]

  unfoldable pub check_violations : PassContext → PassContext
  unfolding check_observation
  check_violations ctx =
      fold (λ c (key, guard). fold (check_observation key guard) c (lookup_list key c.observations))
        ctx ctx.guards
