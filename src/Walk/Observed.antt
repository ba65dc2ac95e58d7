-- ===== src/Walk/Observed.antt =====
-- What pkg/analyzer/ssawalk.go observes: fields of structs that are no mutexes, each once.
pub mod Blocks
use golintmu.Base.{
  ℕ, zero, suc, ◌≡◌, refl, sym, ap, ◌∙◌, subst, inl, inr, Bool, true, false, Option, none, some,
  List, [], ◌∷◌, ◌==◌, ==_iff, if◌then◌else◌, nat_eq, arith, Map, keys, has, has-insert, insert,
  lookup_list, insert-IsDistinct, append_at, get_elem?, contains, add, fold, IsDistinct, ◌>>=◌,
  >>=-eq-some, Bool-cases, Option-cases, ◌++◌,
}
use golintmu.Types.{StructField}
use golintmu.Ssa.{Program}
use golintmu.LockState.{LockState}
use golintmu.Resolver.{
  resolve_field_access, is_mutex_type, fields_of, field_addr_of, unwrap_fuel, unwrap_ssa_value,
}
use golintmu.Pass.{PassContext, FieldKey, ObsKey, Observation}
use golintmu.Pass.Keys.{FieldKey_eq, ObsKey_eq}
use golintmu.Walk.Fields.{
  observe, observable, ancestors, observation_at, record_ancestor_observations, process_access,
}

module _ (prog : Program) where
  open prog use {type_underlying, value_of}

  -- The key of a field that its struct has, and that is no mutex.
  pub record IsPlainField (key : FieldKey) : Type 0 where
    pub fields : List StructField
    pub field : StructField
    pub of_struct : fields_of prog (type_underlying key.struct_type) ≡ some fields
    pub of_field : get_elem? fields key.field_index ≡ some field
    pub no_mutex : is_mutex_type prog field.field_type ≡ false

  -- The observations are a map, and its keys are plain fields.
  pub record IsObserved (m : Map FieldKey (List Observation)) : Type 0 where
    pub distinct : IsDistinct (keys m)
    pub plain : (key : FieldKey) → has key m ≡ true → IsPlainField key

  append_at-IsObserved :
      (key : FieldKey) (obs : Observation) (m : Map FieldKey (List Observation))
      → IsPlainField key
      → IsObserved m
      → IsObserved (append_at key obs m)
  append_at-IsObserved key obs m p o = record {
    distinct = insert-IsDistinct key (lookup_list key m ++ obs ∷ []) m o.distinct;
    plain = λ k h. elim (Bool-cases (key == k)) [
      | inl same ↦ subst IsPlainField ((==_iff key k).0 same) p
      | inr other ↦
          o.plain k (ground (arith, has-insert key k (lookup_list key m ++ obs ∷ []) m, h, other))
    ];
  }

  observe-IsObserved :
      (ctx : PassContext) (key : FieldKey) (obs : Observation)
      → IsPlainField key
      → IsObserved ctx.observations
      → IsObserved (observe ctx key obs).observations
  unfolding observe
  observe-IsObserved ctx key obs p o =
      elim (Bool-cases
        (contains ctx.observed_at (record { field = key; pos = obs.pos; is_read = obs.is_read }))) [
          | inl seen ↦ subst IsObserved {x = ctx.observations} (ground (arith, seen)) o
          | inr fresh ↦
              subst IsObserved {x = append_at key obs ctx.observations} (ground (arith, fresh))
                (append_at-IsObserved key obs ctx.observations p o)
        ]

  observable-IsPlainField :
      (v base : ℕ) (key : FieldKey) → observable prog v ≡ some (base, key) → IsPlainField key
  unfolding observable
  observable-IsPlainField v base key h =
      let ((b, i, n), resolved, h1) = >>=-eq-some (resolve_field_access prog v) _ h in
      let (fields, st, h2) = >>=-eq-some (fields_of prog (type_underlying n)) _ h1 in
      let (field, at, h3) = >>=-eq-some (get_elem? fields i) _ h2 in
      elim (Bool-cases (is_mutex_type prog field.field_type)) [
        | inl mutex ↦ absurd (ground (arith, h3, mutex))
        | inr plain ↦
            let e : record { struct_type = n; field_index = i } ≡ key = ground (arith, h3, plain) in
            subst IsPlainField e (record {
              fields = fields;
              field = field;
              of_struct = st;
              of_field = at;
              no_mutex = plain;
            })
      ]

  -- Each access that the loop finds is one of a plain field.
  abbrev AllPlain : List (ℕ × FieldKey) → Type 0
  AllPlain [] = Unit
  AllPlain ((_, key) ∷ accesses) = IsPlainField key × AllPlain accesses

  ancestors-AllPlain :
      (fuel current : ℕ) (seen : List ℕ) (accesses : List (ℕ × FieldKey))
      → ancestors prog fuel current seen ≡ some accesses
      → AllPlain accesses
  unfolding ancestors
  ancestors-AllPlain zero current seen accesses h = absurd (cc h)
  ancestors-AllPlain (suc fuel) current seen accesses h =
      elim (Bool-cases (contains seen current)) [
        | inl again ↦
            let e : [] ≡ accesses = ground (arith, h, again) in subst AllPlain {x = []} e tt
        | inr new ↦
            let u = unwrap_ssa_value prog current in
            elim (Option-cases (field_addr_of (value_of u))) [
              | inl other ↦
                  let e : [] ≡ accesses = ground (arith, h, new, other) in
                  subst AllPlain {x = []} e tt
              | inr ((x, i), addr) ↦ elim (Option-cases (observable prog u)) [
                | inl none_here ↦
                    let e : [] ≡ accesses = ground (arith, h, new, addr, none_here) in
                    subst AllPlain {x = []} e tt
                | inr ((base, key), access) ↦
                    let chained : (ancestors prog fuel x (add current seen) >>= λ r.
                    some ((base, key) ∷ r))
                        ≡ ancestors prog (suc fuel) current seen =
                      ground (arith, new, addr, access) in
                    let (rest, deeper, e) =
                      >>=-eq-some (ancestors prog fuel x (add current seen))
                        (λ r. some ((base, key) ∷ r)) {b = accesses} (chained ∙ h) in
                    let whole : (base, key) ∷ rest ≡ accesses = ground (arith, e) in
                    subst AllPlain whole (
                      observable-IsPlainField u base key access,
                      ancestors-AllPlain fuel x (add current seen) rest deeper,
                    )
              ]
            ]
      ]

  observe_all-IsObserved :
      (f : ℕ → Observation) (ctx : PassContext) (accesses : List (ℕ × FieldKey))
      → AllPlain accesses
      → IsObserved ctx.observations
      → IsObserved (fold (λ c (base, key). observe c key (f base)) ctx accesses).observations
  observe_all-IsObserved f ctx [] p o = o
  observe_all-IsObserved f ctx ((base, key) ∷ accesses) p o =
      observe_all-IsObserved f (observe ctx key (f base)) accesses p.1
        (observe-IsObserved ctx key (f base) p.0 o)

  record_ancestor-IsObserved :
      (ctx : PassContext) (fn x : ℕ) (is_read : Bool) (pos : ℕ) (ls : LockState)
      → IsObserved ctx.observations
      → IsObserved (record_ancestor_observations prog ctx fn x is_read pos ls).observations
  unfolding record_ancestor_observations
  record_ancestor-IsObserved ctx fn x is_read pos ls o =
      elim (Option-cases (ancestors prog (unwrap_fuel prog) x [])) [
        | inl out ↦ subst IsObserved {x = ctx.observations} (ground (arith, out)) o
        | inr (accesses, found) ↦
            let f = observation_at prog fn is_read pos ls in
            let same : fold (λ c (base, key). observe c key (f base)) ctx accesses
                ≡ record_ancestor_observations prog ctx fn x is_read pos ls =
              ground (arith, found) in
            subst (λ c. IsObserved c.observations) same
              (observe_all-IsObserved f ctx accesses
                (ancestors-AllPlain (unwrap_fuel prog) x [] accesses found) o)
      ]

  pub process_access-IsObserved :
      (is_read : Bool) (ctx : PassContext) (fn pos v : ℕ) (ls : LockState)
      → IsObserved ctx.observations
      → IsObserved (process_access prog is_read ctx fn pos v ls).observations
  unfolding process_access
  process_access-IsObserved is_read ctx fn pos v ls o = elim (Option-cases (observable prog v)) [
    | inl other ↦ subst IsObserved {x = ctx.observations} (ground (arith, other)) o
    | inr ((base, key), access) ↦
        let ok2 : ObsKey = record { field = key; pos = pos; is_read = is_read } in
        let obs = observation_at prog fn is_read pos ls base in
        let observed : PassContext = record ctx {
          observed_at = add ok2 ctx.observed_at;
          observations = append_at key obs ctx.observations;
        } in
        let o' : IsObserved observed.observations =
          append_at-IsObserved key obs ctx.observations (observable-IsPlainField v base key access)
            o in
        elim (Bool-cases (contains ctx.observed_at ok2)) [
          | inl seen ↦ subst IsObserved {x = ctx.observations} (ground (arith, access, seen)) o
          | inr fresh ↦ elim (Option-cases (field_addr_of (value_of v))) [
            | inl no_base ↦
                subst IsObserved {x = observed.observations}
                  (ground (arith, access, fresh, no_base)) o'
            | inr ((x, i), addr) ↦
                let recorded = record_ancestor_observations prog observed fn x is_read pos ls in
                let same : recorded.observations
                    ≡ (process_access prog is_read ctx fn pos v ls).observations =
                  ground (arith, access, fresh, addr) in
                subst IsObserved same (record_ancestor-IsObserved observed fn x is_read pos ls o')
          ]
        ]
  ]
