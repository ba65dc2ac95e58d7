-- ===== src/Calls/Origins.antt =====
-- One explanation of pkg/analyzer/reporter.go: `formatSingleOrigin` follows calls along which the
-- requirement was passed on.
use mathlib.Core.List.{Memᴰ}
use golintmu.Base.{
  ◌≡◌, refl, sym, subst, ◌⊎◌, inl, inr, ℕ, zero, suc, ◌≤◌, true, none, some, List, [], ◌∷◌, nat_eq,
  arith, Bool-cases, Option-cases, List-cases, lookup, lookup_list, get_elem?, length,
}
use golintmu.Types.{StructField}
use golintmu.Ssa.{Program, is_valid}
use golintmu.Pass.{PassContext, MutexFieldKey, FuncLockFacts, RequirementOrigin, Reason}
use golintmu.Pass.Reason.{accesses}
use golintmu.Pass.Keys.{MutexFieldKey_eq}
use golintmu.Report.Paths.{base_name}
use golintmu.Resolver.{fields_of}
use golintmu.Calls.{first_explained, access_reason, call_reason, format_single_origin}

length-first_explained :
    (bound : ℕ) (explain : RequirementOrigin → List Reason) (origins : List RequirementOrigin)
    → ((origin : RequirementOrigin) → length (explain origin) ≤ bound)
    → length (first_explained explain origins) ≤ bound
unfolding first_explained
length-first_explained bound explain [] h = omega arith
length-first_explained bound explain (origin ∷ origins) h = elim (List-cases (explain origin)) [
  | inl silent ↦ ground (arith, silent, length-first_explained bound explain origins h)
  | inr (line, lines, e) ↦ ground (arith, e, h origin)
]

explains_of_found :
    (Explained : List Reason → Type 0) (explain : RequirementOrigin → List Reason)
    (origins : List RequirementOrigin)
    → ((origin : RequirementOrigin)
        → Memᴰ origin origins
        → (explain origin ≡ []) ⊎ Explained (explain origin))
    → (first_explained explain origins ≡ []) ⊎ Explained (first_explained explain origins)
unfolding first_explained
explains_of_found Explained explain [] h = inl refl
explains_of_found Explained explain (origin ∷ origins) h = elim (List-cases (explain origin)) [
  | inl silent ↦
      let skipped : first_explained explain (origin ∷ origins) ≡ first_explained explain origins =
        ground (arith, silent) in
      subst (λ lines. (lines ≡ []) ⊎ Explained lines) (sym skipped)
        (explains_of_found Explained explain origins (λ o m. h o (Memᴰ.tail m)))
  | inr (line, lines, e) ↦
      let found : first_explained explain (origin ∷ origins) ≡ explain origin = ground (arith, e) in
      subst (λ l. (l ≡ []) ⊎ Explained l) (sym found) (h origin (Memᴰ.head refl))
]

module _ (prog : Program) (ctx : PassContext) (mfk : MutexFieldKey) where
  open prog use {func, position, type_name, type_underlying}

  -- The origins that the function's facts record for the lock.
  abbrev pub IsOrigin : ℕ → RequirementOrigin → Type 0
  IsOrigin fn origin =
      (facts : FuncLockFacts) × (lookup fn ctx.func_facts ≡ some facts)
      × Memᴰ origin (lookup_list mfk facts.requires_origin)

  -- Why `fn` requires the lock: an access of its own, or a call and why the callee requires it,
  -- which may be left out.
  pub data Explains : ℕ → List Reason → Type 0 where
    accessed :
        {fn : ℕ} {origin : RequirementOrigin} {fields : List StructField} {field : StructField}
        → IsOrigin fn origin
        → origin.via_callee ≡ none
        → is_valid origin.access_pos ≡ true
        → fields_of prog (type_underlying origin.field_key.struct_type) ≡ some fields
        → get_elem? fields origin.field_key.field_index ≡ some field
        → Explains fn (
            accesses
              (func fn).fn_name
              (type_name origin.field_key.struct_type)
              field.field_name
              (base_name (position origin.access_pos).filename)
              (position origin.access_pos).line
              (position origin.access_pos).column
            ∷ [])
    cut :
        {fn callee : ℕ} {origin : RequirementOrigin}
        → IsOrigin fn origin
        → origin.via_callee ≡ some callee
        → Explains fn (call_reason prog fn callee origin.via_call_pos ∷ [])
    passed_on :
        {fn callee : ℕ} {origin : RequirementOrigin} {lines : List Reason}
        → IsOrigin fn origin
        → origin.via_callee ≡ some callee
        → Explains callee lines
        → Explains fn (call_reason prog fn callee origin.via_call_pos ∷ lines)

  length-access_reason :
      (fn : ℕ) (origin : RequirementOrigin) → length (access_reason prog fn origin) ≤ 1
  unfolding access_reason
  length-access_reason fn origin = ground arith

  pub length-format_single_origin :
      (depth fn : ℕ) (origin : RequirementOrigin)
      → length (format_single_origin prog depth ctx mfk fn origin) ≤ depth
  unfolding format_single_origin
  length-format_single_origin zero fn origin = omega arith
  length-format_single_origin (suc depth) fn origin = elim (Option-cases origin.via_callee) [
    | inl direct ↦ ground (arith, direct, length-access_reason fn origin)
    | inr (callee, via) ↦ elim (Option-cases (lookup callee ctx.func_facts)) [
      | inl unknown ↦ ground (arith, via, unknown)
      | inr (facts, found) ↦ ground (
        arith,
        via,
        found,
        length-first_explained depth (format_single_origin prog depth ctx mfk callee)
            (lookup_list mfk facts.requires_origin) (length-format_single_origin depth callee),
      )
    ]
  ]

  access_reason-Explains :
      (fn : ℕ) (origin : RequirementOrigin)
      → IsOrigin fn origin
      → origin.via_callee ≡ none
      → (access_reason prog fn origin ≡ []) ⊎ Explains fn (access_reason prog fn origin)
  unfolding access_reason
  access_reason-Explains fn origin o direct = elim (Bool-cases (is_valid origin.access_pos)) [
    | inr invalid ↦ inl (ground (arith, invalid))
    | inl valid ↦
        elim (Option-cases (fields_of prog (type_underlying origin.field_key.struct_type))) [
          | inl no_struct ↦ inl (ground (arith, valid, no_struct))
          | inr (fields, st) ↦ elim (Option-cases (get_elem? fields origin.field_key.field_index)) [
            | inl outside ↦ inl (ground (arith, valid, st, outside))
            | inr (field, inside) ↦ inr (
                subst (Explains fn) (ground (arith, valid, st, inside))
                  (accessed o direct valid st inside))
          ]
        ]
  ]

  pub format_single_origin-Explains :
      (depth fn : ℕ) (origin : RequirementOrigin)
      → IsOrigin fn origin
      → (format_single_origin prog depth ctx mfk fn origin ≡ [])
        ⊎ Explains fn (format_single_origin prog depth ctx mfk fn origin)
  unfolding format_single_origin
  format_single_origin-Explains zero fn origin o = inl refl
  format_single_origin-Explains (suc depth) fn origin o = elim (Option-cases origin.via_callee) [
    | inl direct ↦
        let same : format_single_origin prog (suc depth) ctx mfk fn origin
            ≡ access_reason prog fn origin =
          ground (arith, direct) in
        subst (λ l. (l ≡ []) ⊎ Explains fn l) (sym same) (access_reason-Explains fn origin o direct)
    | inr (callee, via) ↦ elim (Option-cases (lookup callee ctx.func_facts)) [
      | inl unknown ↦ inr (subst (Explains fn) (ground (arith, via, unknown)) (cut o via))
      | inr (facts, found) ↦
          let deeper = format_single_origin prog depth ctx mfk callee in
          let origins = lookup_list mfk facts.requires_origin in
          let whole : call_reason prog fn callee origin.via_call_pos
                ∷ first_explained deeper origins
              ≡ format_single_origin prog (suc depth) ctx mfk fn origin =
            ground (arith, via, found) in
          inr (
            subst (Explains fn) whole
              (elim (explains_of_found (Explains callee) deeper origins
                (λ inner m. format_single_origin-Explains depth callee inner (facts, found, m))) [
                  | inl nothing ↦
                      subst (λ l. Explains fn (call_reason prog fn callee origin.via_call_pos ∷ l))
                        (sym nothing) (cut o via)
                  | inr root ↦ passed_on o via root
                ]))
    ]
  ]
