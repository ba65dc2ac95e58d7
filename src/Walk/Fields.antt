-- ===== src/Walk/Fields.antt =====
-- pkg/analyzer/ssawalk.go: observations of field accesses.
use golintmu.Base.{
  ℕ, zero, suc, Bool, true, false, Option, none, some, List, [], ◌∷◌, ◌==◌, if◌then◌else◌, nat_eq,
  ◌>>=◌, get_elem?, contains, add, append_at, fold, Map,
}
use golintmu.Ssa.{Program}
use golintmu.LockState.{LockRef, HeldLock, LockState}
use golintmu.Resolver.{
  unwrap_ssa_value, resolve_field_access, is_mutex_type, fields_of, field_addr_of, unwrap_fuel,
}
use golintmu.Pass.{PassContext, FieldKey, ObsKey, HeldMutexField, Observation}
use golintmu.Pass.Keys.{FieldKey_eq, ObsKey_eq}

-- `sameBaseMutexFields`
same_base_from : ℕ → Map LockRef HeldLock → List HeldMutexField
same_base_from base [] = []
same_base_from base ((_, hl) ∷ held) =
    let rest = same_base_from base held in
    if hl.ref.base == base
    then record { field_index = hl.ref.field_index; exclusive = hl.exclusive } ∷ rest
    else rest

unfoldable pub same_base_mutex_fields : ℕ → LockState → List HeldMutexField
unfolding same_base_from
same_base_mutex_fields base ls = same_base_from base ls.held

-- `observedAt` guards the append: an access is observed once.
unfoldable pub observe : PassContext → FieldKey → Observation → PassContext
observe ctx key obs =
    let ok2 : ObsKey = record { field = key; pos = obs.pos; is_read = obs.is_read } in
    if contains ctx.observed_at ok2 then ctx else record ctx {
      observed_at = add ok2 ctx.observed_at;
      observations = append_at key obs ctx.observations;
    }

module _ (prog : Program) where
  open prog use {value_of, type_underlying}

  -- The base and key of an access to a field that is no mutex.
  unfoldable pub observable : ℕ → Option (ℕ × FieldKey)
  unfolding resolve_field_access fields_of is_mutex_type
  observable v = do
    (base, i, n) ← resolve_field_access prog v
    fields ← fields_of prog (type_underlying n)
    field ← get_elem? fields i
    if is_mutex_type prog field.field_type
        then none
        else some (base, record { struct_type = n; field_index = i })

  -- The accesses that the loop of `recordAncestorObservations` finds, innermost first. `none`:
  -- the fuel ran out.
  unfoldable pub ancestors : ℕ → ℕ → List ℕ → Option (List (ℕ × FieldKey))
  unfolding observable unwrap_ssa_value field_addr_of
  ancestors zero current seen = none
  ancestors (suc fuel) current seen = elim (contains seen current) [
    | true ↦ some []
    | false ↦
        let unwrapped = unwrap_ssa_value prog current in
        elim (field_addr_of (value_of unwrapped)) [
          | none ↦ some []
          | some (x, _) ↦ elim (observable unwrapped) [
            | none ↦ some []
            | some access ↦ ancestors fuel x (add current seen) >>= λ rest. some (access ∷ rest)
          ]
        ]
  ]

  unfoldable pub observation_at : ℕ → Bool → ℕ → LockState → ℕ → Observation
  unfolding same_base_mutex_fields
  observation_at fn is_read pos ls base = record {
    same_base_mutex_fields = same_base_mutex_fields base ls;
    is_read = is_read;
    fn = fn;
    pos = pos;
  }

  -- `x` is the base of the `FieldAddr` that is accessed.
  unfoldable pub record_ancestor_observations :
      PassContext → ℕ → ℕ → Bool → ℕ → LockState → PassContext
  unfolding ancestors observe observation_at
  record_ancestor_observations ctx fn x is_read pos ls = elim (ancestors (unwrap_fuel prog) x []) [
    | none ↦ ctx
    | some accesses ↦
        fold (λ c (base, key). observe c key (observation_at fn is_read pos ls base)) ctx accesses
  ]

  -- What `processStore` and `processRead` share: `v` is the address that is stored to or read.
  unfoldable pub process_access : Bool → PassContext → ℕ → ℕ → ℕ → LockState → PassContext
  unfolding observable observation_at record_ancestor_observations field_addr_of
  process_access is_read ctx fn pos v ls = elim (observable v) [
    | none ↦ ctx
    | some (base, key) ↦
        let ok2 : ObsKey = record { field = key; pos = pos; is_read = is_read } in
        if contains ctx.observed_at ok2
        then ctx
        else (let observed : PassContext = record ctx {
          observed_at = add ok2 ctx.observed_at;
          observations = append_at key (observation_at fn is_read pos ls base) ctx.observations;
        } in
            elim (field_addr_of (value_of v)) [
              | none ↦ observed
              | some (x, _) ↦ record_ancestor_observations observed fn x is_read pos ls
            ])
  ]

  unfoldable pub process_store : PassContext → ℕ → ℕ → ℕ → LockState → PassContext
  unfolding process_access
  process_store = process_access false

  unfoldable pub process_read : PassContext → ℕ → ℕ → ℕ → LockState → PassContext
  unfolding process_access
  process_read = process_access true
