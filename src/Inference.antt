-- ===== src/Inference.antt =====
-- pkg/analyzer/inference.go: which mutex guards a field.
pub mod Count
pub mod Best
pub mod Guard
pub mod Store
use Prim.Native.String.{String}
use text.Mathlib.Text.{starts_with, find?}
use golintmu.Base.{
  ℕ, zero, suc, ◌+◌, Bool, true, false, not, ◌&&◌, ◌||◌, Option, none, some, List, [], ◌∷◌, ◌==◌,
  if◌then◌else◌, nat_eq, string_eq, Map, lookup, insert, keep, any, all, fold, ltb,
}
use golintmu.Types.{Ty, named, Ty_eq}
use golintmu.Ssa.{Program}
use golintmu.Resolver.{elem_of}
use golintmu.Pass.{PassContext, FieldKey, GuardInfo, Observation, HeldMutexField}
use golintmu.Pass.Keys.{FieldKey_eq}

-- `strings.Contains`
contains_text : String → String → Bool
contains_text s t = elim (find? s t) [ none ↦ false | some _ ↦ true ]

unfoldable pub is_immutable_field : List Observation → Bool
is_immutable_field observations = all (λ obs. obs.is_read) observations

-- The inner loop: the mutexes held at one observation are counted.
unfoldable pub count_fields : ℕ → List HeldMutexField → Map ℕ ℕ → Map ℕ ℕ
count_fields self [] counts = counts
count_fields self (hmf ∷ fields) counts = count_fields self fields (
    if hmf.field_index == self
    then counts
    else insert hmf.field_index (elim (lookup hmf.field_index counts) [ none ↦ 1 | some c ↦ c + 1 ])
        counts)

unfoldable pub count_mutexes : FieldKey → Bool → List Observation → Map ℕ ℕ → Map ℕ ℕ
unfolding count_fields
count_mutexes key writes_only [] counts = counts
count_mutexes key writes_only (obs ∷ observations) counts =
    count_mutexes key writes_only observations (
      if writes_only && obs.is_read
      then counts
      else count_fields key.field_index obs.same_base_mutex_fields counts)

-- The body of the loop over `counts`; `none` is the source's -1.
unfoldable pub better : Option ℕ × ℕ → ℕ × ℕ → Option ℕ × ℕ
better (best, best_count) (field_idx, count) =
    if ltb best_count count
      || (count == best_count && elim best [ none ↦ true | some b ↦ ltb field_idx b ])
    then (some field_idx, count)
    else (best, best_count)

unfoldable pub pick_best : Map ℕ ℕ → Option ℕ
unfolding better
pick_best counts = (fold better (none, 0) counts).0

unfoldable pub pick_most_frequent_mutex : FieldKey → List Observation → Bool → Option ℕ
unfolding count_mutexes pick_best
pick_most_frequent_mutex key observations writes_only =
    pick_best (count_mutexes key writes_only observations [])

-- Some write holds the mutex.
unfoldable pub has_write_under : ℕ → List Observation → Bool
has_write_under best observations =
    any (λ obs. not obs.is_read && any (λ hmf. hmf.field_index == best) obs.same_base_mutex_fields)
      observations

unfoldable pub infer_field_guard : FieldKey → List Observation → Option GuardInfo
infer_field_guard key observations =
    let best : Option ℕ = elim (pick_most_frequent_mutex key observations true) [
      | some b ↦ some b
      | none ↦ pick_most_frequent_mutex key observations false
    ] in
    elim best [
      | none ↦ none
      | some b ↦
          some (record { mutex_field_index = b; needs_exclusive = has_write_under b observations })
    ]

module _ (prog : Program) where
  open prog use {func, type_name, type_pkg, pass_pkg}

  unfoldable pub returns_struct_type : ℕ → ℕ → Bool
  unfolding elem_of
  returns_struct_type fn struct_type =
      any
        (λ rt.
          rt == named struct_type
          || elim (elem_of rt) [ none ↦ false | some t ↦ t == named struct_type ])
        (func fn).results

  unfoldable pub is_constructor_like : ℕ → ℕ → Bool
  unfolding returns_struct_type contains_text
  is_constructor_like fn struct_type =
      let name = (func fn).fn_name in
      name == "init"
      || starts_with name "init#"
      || returns_struct_type fn struct_type
      || any (λ prefix. starts_with name prefix && contains_text name (type_name struct_type))
          ("New" ∷ "Make" ∷ "Create" ∷ [])

  unfoldable pub is_local_type : ℕ → Bool
  is_local_type n = elim (type_pkg n) [ none ↦ false | some p ↦ p == pass_pkg ]

  -- The body of the loop of `inferGuards`: the guard to store, if any.
  unfoldable pub candidate_guard : FieldKey → List Observation → Option GuardInfo
  candidate_guard key observations =
      if not (is_local_type key.struct_type)
      then none
      else (let filtered =
            keep (λ obs. not (is_constructor_like obs.fn key.struct_type)) observations in
          elim filtered [
            | [] ↦ none
            | obs ∷ rest ↦
                if is_immutable_field (obs ∷ rest) then none else infer_field_guard key (obs ∷ rest)
          ])

  store_guards : Map FieldKey (List Observation) → Map FieldKey GuardInfo → Map FieldKey GuardInfo
  store_guards [] guards = guards
  store_guards ((key, observations) ∷ m) guards =
      store_guards m (elim (candidate_guard key observations) [
        | none ↦ guards
        | some guard ↦ insert key guard guards
      ])

  unfoldable pub infer_guards : PassContext → PassContext
  unfolding store_guards
  infer_guards ctx = record ctx { guards = store_guards ctx.observations ctx.guards }
