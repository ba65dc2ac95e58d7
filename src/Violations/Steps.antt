-- ===== src/Violations/Steps.antt =====
-- One step of `checkViolations` of pkg/analyzer/reporter.go: what a single access adds.
use golintmu.Base.{
  String, ◌≡◌, refl, ap, ◌∙◌, ◌⊎◌, Bool, true, false, not, ◌&&◌, inl, inr, Option, none, some, List,
  arith, Bool-cases, Option-cases,
}
use golintmu.Ssa.{Program}
use golintmu.Pass.{
  PassContext, FieldKey, MutexFieldKey, GuardInfo, Observation, Message, Diagnostic,
}
use golintmu.Pass.Keys.{FieldKey_eq, MutexFieldKey_eq}
use golintmu.Report.{is_suppressed}
use golintmu.Report.Adds.{reporting, Adds, nothing, one}
use golintmu.Inference.{is_constructor_like}
use golintmu.Concurrency.{is_concurrent}
use golintmu.Violations.{
  held_mode, should_suppress_direct_violation, guarded_labels, check_observation,
}

module _ (prog : Program) (ctx : PassContext) where
  -- An access that is a violation, and its diagnostic: outside of the type's constructors, in a
  -- concurrent function that is not suppressed, without the guard or with a write under a shared
  -- hold of it.
  pub data Violates (key : FieldKey) (guard : GuardInfo) (obs : Observation)
      : Diagnostic → Type 0 where
    unguarded :
        {field mutex : String}
        → is_constructor_like prog obs.fn key.struct_type ≡ false
        → is_concurrent ctx obs.fn ≡ true
        → is_suppressed prog ctx obs.fn obs.pos ≡ false
        → held_mode guard.mutex_field_index obs.same_base_mutex_fields ≡ none
        → should_suppress_direct_violation ctx obs.fn
            (record { struct_type = key.struct_type; field_index = guard.mutex_field_index })
          ≡ false
        → guarded_labels prog key guard ≡ some (field, mutex)
        → Violates key guard obs
            (record { pos = obs.pos; message = Message.field_unguarded field mutex })
    shared_write :
        {field mutex : String}
        → is_constructor_like prog obs.fn key.struct_type ≡ false
        → is_concurrent ctx obs.fn ≡ true
        → is_suppressed prog ctx obs.fn obs.pos ≡ false
        → held_mode guard.mutex_field_index obs.same_base_mutex_fields ≡ some false
        → obs.is_read ≡ false
        → guarded_labels prog key guard ≡ some (field, mutex)
        → Violates key guard obs
            (record { pos = obs.pos; message = Message.write_under_shared_lock field mutex })

  module _ (key : FieldKey) (guard : GuardInfo) (obs : Observation) where
    abbrev required_key : MutexFieldKey
    required_key = record { struct_type = key.struct_type; field_index = guard.mutex_field_index }

    abbrev held : Option Bool
    held = held_mode guard.mutex_field_index obs.same_base_mutex_fields

    -- What every violation has.
    record Parts (d : Diagnostic) : Type 0 where
      field : String
      mutex : String
      outside : is_constructor_like prog obs.fn key.struct_type ≡ false
      concurrent : is_concurrent ctx obs.fn ≡ true
      loud : is_suppressed prog ctx obs.fn obs.pos ≡ false
      labels : guarded_labels prog key guard ≡ some (field, mutex)
      kind :
          ((held ≡ none)
            × (should_suppress_direct_violation ctx obs.fn required_key ≡ false)
            × (d ≡ record { pos = obs.pos; message = Message.field_unguarded field mutex }))
          ⊎ ((held ≡ some false)
              × (obs.is_read ≡ false)
              × (d ≡ record {
                pos = obs.pos;
                message = Message.write_under_shared_lock field mutex;
              }))

    Violates-Parts : {d : Diagnostic} → Violates key guard obs d → Parts d
    Violates-Parts (unguarded {field} {mutex} o c l h s n) = record {
      field = field;
      mutex = mutex;
      outside = o;
      concurrent = c;
      loud = l;
      labels = n;
      kind = inl (h, s, refl);
    }
    Violates-Parts (shared_write {field} {mutex} o c l h r n) = record {
      field = field;
      mutex = mutex;
      outside = o;
      concurrent = c;
      loud = l;
      labels = n;
      kind = inr (h, r, refl);
    }

    abbrev checked : List Diagnostic → PassContext
    checked ds = check_observation prog key guard (reporting ctx ds) obs

    abbrev IsStep : List Diagnostic → Type 0
    IsStep ds = Adds ctx (Violates key guard obs) ds (checked ds)

    quiet :
        (ds : List Diagnostic)
        → checked ds ≡ reporting ctx ds
        → ((d : Diagnostic) → ¬ (Parts d))
        → IsStep ds
    quiet ds e h =
        nothing ctx (Violates key guard obs) ds (checked ds) e (λ d v. h d (Violates-Parts v))

    -- The guard is not held.
    unheld-Adds :
        (ds : List Diagnostic)
        → is_constructor_like prog obs.fn key.struct_type ≡ false
        → held ≡ none
        → IsStep ds
    unfolding check_observation
    unheld-Adds ds outside unheld = elim (Bool-cases (is_concurrent ctx obs.fn)) [
      | inr alone ↦
          quiet ds (ground (arith, outside, unheld, alone)) (λ d p. cc (alone, p.concurrent))
      | inl concurrent ↦
          elim (Bool-cases (should_suppress_direct_violation ctx obs.fn required_key)) [
            | inl at_calls ↦
                quiet ds (ground (arith, outside, unheld, concurrent, at_calls))
                  (λ d p. ground (arith, p.kind, at_calls, unheld))
            | inr direct ↦ elim (Bool-cases (is_suppressed prog ctx obs.fn obs.pos)) [
              | inl silent ↦
                  quiet ds (ground (arith, outside, unheld, concurrent, direct, silent))
                    (λ d p. cc (silent, p.loud))
              | inr loud ↦ elim (Option-cases (guarded_labels prog key guard)) [
                | inl unnamed ↦
                    quiet ds (ground (arith, outside, unheld, concurrent, direct, loud, unnamed))
                      (λ d p. cc (unnamed, p.labels))
                | inr ((field, mutex), named) ↦
                    one ctx (Violates key guard obs) ds (checked ds)
                      (record { pos = obs.pos; message = Message.field_unguarded field mutex })
                      (ground (arith, outside, unheld, concurrent, direct, loud, named))
                      (unguarded outside concurrent loud unheld direct named)
                      (λ d v.
                        let p = Violates-Parts v in ground (arith, p.kind, p.labels, named, unheld))
              ]
            ]
          ]
    ]

    -- The guard is held.
    held-Adds :
        (exclusive : Bool) (ds : List Diagnostic)
        → is_constructor_like prog obs.fn key.struct_type ≡ false
        → held ≡ some exclusive
        → IsStep ds
    unfolding check_observation
    held-Adds exclusive ds outside in_mode =
        elim (Bool-cases (not obs.is_read && (not exclusive && is_concurrent ctx obs.fn))) [
          | inr fine ↦
              quiet ds (ground (arith, outside, in_mode, fine))
                (λ d p. ground (arith, p.kind, p.concurrent, fine, in_mode))
          | inl race ↦ elim (Bool-cases (is_suppressed prog ctx obs.fn obs.pos)) [
            | inl silent ↦
                quiet ds (ground (arith, outside, in_mode, race, silent))
                  (λ d p. cc (silent, p.loud))
            | inr loud ↦ elim (Option-cases (guarded_labels prog key guard)) [
              | inl unnamed ↦
                  quiet ds (ground (arith, outside, in_mode, race, loud, unnamed))
                    (λ d p. cc (unnamed, p.labels))
              | inr ((field, mutex), named) ↦
                  let shared : exclusive ≡ false = ground (arith, race) in
                  one ctx (Violates key guard obs) ds (checked ds)
                    (record {
                      pos = obs.pos;
                      message = Message.write_under_shared_lock field mutex;
                    })
                    (ground (arith, outside, in_mode, race, loud, named))
                    (shared_write outside (ground (arith, race)) loud (in_mode ∙ ap some shared)
                      (ground (arith, race)) named)
                    (λ d v.
                      let p = Violates-Parts v in ground (arith, p.kind, p.labels, named, in_mode))
            ]
          ]
        ]

    pub check_observation-Adds : (ds : List Diagnostic) → IsStep ds
    unfolding check_observation
    check_observation-Adds ds =
        elim (Bool-cases (is_constructor_like prog obs.fn key.struct_type)) [
          | inl inside ↦ quiet ds (ground (arith, inside)) (λ d p. cc (inside, p.outside))
          | inr outside ↦ elim (Option-cases held) [
            | inl unheld ↦ unheld-Adds ds outside unheld
            | inr (exclusive, in_mode) ↦ held-Adds exclusive ds outside in_mode
          ]
        ]
