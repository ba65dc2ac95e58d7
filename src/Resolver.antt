-- ===== src/Resolver.antt =====
-- pkg/analyzer/resolver.go: from an SSA value to the lock or the field that it denotes.
pub mod Phi
pub mod Fuel
use golintmu.Base.{
  ℕ, zero, suc, String, Bool, true, false, not, ◌&&◌, ◌||◌, Option, none, some, List, [], ◌∷◌, ◌==◌,
  if◌then◌else◌, nat_eq, string_eq, ◌>>=◌, contains, add, length, get_elem?, leb, ltb,
}
use golintmu.Types.{Ty, StructField, named, pointer, struct, other_type}
use golintmu.Ssa.{
  Program, Value, Token, phi, field_addr, unop, alloc, function, make_closure, other_value, mul,
}
use golintmu.LockState.{LockRef, field_lock}

-- The loop over the edges of `resolvePhiIfUniform`. `unwrap` is the recursive call.
unfoldable pub uniform :
    (ℕ → List ℕ → Option (ℕ × List ℕ)) → List ℕ → Option ℕ → List ℕ → Option (Option ℕ × List ℕ)
uniform unwrap [] unique visited = some (unique, visited)
uniform unwrap (edge ∷ edges) unique visited = unwrap edge visited >>= λ (v, visited').
    elim unique [
      | none ↦ uniform unwrap edges (some v) visited'
      | some u ↦
          let rest = uniform unwrap edges (some u) visited' in
          if u == v then rest else some (none, visited')
    ]

-- `ptr.Elem()`, if the type is a pointer
unfoldable pub elem_of : Ty → Option Ty
elem_of (pointer t) = some t
elem_of t = none

unfoldable pub named_of : Ty → Option ℕ
named_of (named n) = some n
named_of t = none

-- `fa.X` and `fa.Field` of a `*ssa.FieldAddr`
unfoldable pub field_addr_of : Value → Option (ℕ × ℕ)
field_addr_of (field_addr x i) = some (x, i)
field_addr_of v = none

unfoldable pub is_rw_lock_method : String → Bool
is_rw_lock_method name = name == "RLock" || name == "RUnlock"

module _ (prog : Program) where
  open prog use {
    value_of, value_type, values, struct_fields, type_underlying, type_name, type_pkg, pkg_path,
  }

  -- `unwrapSSAValueVisited`, with `resolvePhiIfUniform` in place. `none`: the fuel ran out.
  unfoldable pub unwrap_visited : ℕ → ℕ → List ℕ → Option (ℕ × List ℕ)
  unfolding uniform
  unwrap_visited zero v visited = none
  unwrap_visited (suc fuel) v visited = elim (value_of v) [
    | phi edges ↦ elim (contains visited v) [
      | true ↦ some (v, visited)
      | false ↦ uniform (unwrap_visited fuel) edges none (add v visited) >>= λ (resolved, visited').
          elim resolved [ none ↦ some (v, visited') | some u ↦ unwrap_visited fuel u visited' ]
    ]
    | _ ↦ some (v, visited)
  ]

  -- A value is unwrapped through each phi once.
  abbrev pub unwrap_fuel : ℕ
  unwrap_fuel = suc (length values)

  unfoldable pub unwrap_ssa_value : ℕ → ℕ
  unfolding unwrap_visited
  unwrap_ssa_value v = elim (unwrap_visited unwrap_fuel v []) [ none ↦ v | some (u, _) ↦ u ]

  -- The loop of `canonicalizeBase`.
  unfoldable pub canonicalize_from : ℕ → ℕ → List ℕ → Option ℕ
  unfolding unwrap_ssa_value
  canonicalize_from zero v seen = none
  canonicalize_from (suc fuel) v seen = elim (contains seen v) [
    | true ↦ some v
    | false ↦ elim (value_of v) [
      | unop op x ↦ elim op [
        | mul ↦ canonicalize_from fuel (unwrap_ssa_value x) (add v seen)
        | _ ↦ some v
      ]
      | _ ↦ some v
    ]
  ]

  unfoldable pub canonicalize_base : ℕ → ℕ
  unfolding canonicalize_from
  canonicalize_base v =
      let u = unwrap_ssa_value v in
      elim (canonicalize_from unwrap_fuel u []) [ none ↦ u | some w ↦ w ]

  -- `t.Underlying()`
  unfoldable pub underlying : Ty → Ty
  underlying (named n) = type_underlying n
  underlying t = t

  -- A named type of package `sync` that has one of the names.
  sync_type : Ty → (String → Bool) → Bool
  sync_type (named n) name = elim (type_pkg n) [
    | none ↦ false
    | some p ↦ pkg_path p == "sync" && name (type_name n)
  ]
  sync_type t name = false

  unfoldable pub is_mutex_type : Ty → Bool
  unfolding sync_type
  is_mutex_type t = sync_type t (λ name. name == "Mutex" || name == "RWMutex")

  unfoldable pub is_rw_mutex_type : Ty → Bool
  unfolding sync_type
  is_rw_mutex_type t = sync_type t (λ name. name == "RWMutex")

  unfoldable pub fields_of : Ty → Option (List StructField)
  fields_of (struct s) = some (struct_fields s)
  fields_of t = none

  unfoldable pub resolve_lock_ref : ℕ → Option LockRef
  unfolding unwrap_ssa_value canonicalize_base underlying is_mutex_type elem_of fields_of
      field_addr_of
  resolve_lock_ref v = do
    (x, i) ← field_addr_of (value_of (unwrap_ssa_value v))
    elem ← elem_of (underlying (value_type x))
    fields ← fields_of (underlying elem)
    field ← get_elem? fields i
    if is_mutex_type field.field_type
        then some (record { kind = field_lock; base = canonicalize_base x; field_index = i })
        else none

  -- The loop over the fields from index `i` on: the first embedded mutex that has the method.
  unfoldable pub embedded_mutex : String → ℕ → List StructField → Option ℕ
  unfolding is_mutex_type is_rw_mutex_type is_rw_lock_method
  embedded_mutex name i [] = none
  embedded_mutex name i (field ∷ fields) =
      let rest = embedded_mutex name (suc i) fields in
      if not field.anonymous || not (is_mutex_type field.field_type)
      then rest
      else (if is_rw_lock_method name && not (is_rw_mutex_type field.field_type)
          then rest
          else some i)

  unfoldable pub resolve_embedded_mutex_ref : ℕ → String → Option LockRef
  unfolding unwrap_ssa_value canonicalize_base underlying embedded_mutex elem_of fields_of
  resolve_embedded_mutex_ref v name = do
    let recv = unwrap_ssa_value v
    elem ← elem_of (underlying (value_type recv))
    fields ← fields_of (underlying elem)
    i ← embedded_mutex name 0 fields
    some (record { kind = field_lock; base = canonicalize_base recv; field_index = i })

  unfoldable pub resolve_field_access : ℕ → Option (ℕ × ℕ × ℕ)
  unfolding canonicalize_base underlying elem_of named_of field_addr_of
  resolve_field_access v = do
    (x, i) ← field_addr_of (value_of v)
    elem ← elem_of (underlying (value_type x))
    n ← named_of elem
    some (canonicalize_base x, i, n)

unfoldable pub is_lock_method : String → Bool
is_lock_method name = name == "Lock" || name == "Unlock" || name == "RLock" || name == "RUnlock"

unfoldable pub is_lock_acquire : String → Bool
is_lock_acquire name = name == "Lock" || name == "RLock"

unfoldable pub is_exclusive_lock : String → Bool
is_exclusive_lock name = name == "Lock"

unfoldable pub is_exclusive_unlock : String → Bool
is_exclusive_unlock name = name == "Unlock"
