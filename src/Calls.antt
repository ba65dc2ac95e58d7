-- ===== src/Calls.antt =====
-- pkg/analyzer/reporter.go: `checkInterproceduralViolations`, the calls without a lock that the
-- callee requires, or with one that it acquires.
pub mod Origins
pub mod Reasons
pub mod Reported
use golintmu.Base.{
  ℕ, zero, suc, String, Bool, Option, none, some, List, [], ◌∷◌, ◌++◌, ◌==◌, if◌then◌else◌, nat_eq,
  string_eq, ◌>>=◌, lookup, lookup_list, get_elem?, fold, leb, not, ◌&&◌, ◌||◌,
}
use golintmu.Ssa.{Program, is_valid}
use golintmu.Resolver.{fields_of}
use golintmu.Pass.{PassContext, MutexFieldKey, CallSiteRecord, RequirementOrigin, Message, Reason}
use golintmu.Pass.Reason.{calls, accesses, blank}
use golintmu.Pass.Keys.{MutexFieldKey_eq}
use golintmu.Report.{reportf, is_suppressed, mutex_field_key_name}
use golintmu.Report.Paths.{base_name}
use golintmu.Concurrency.{is_concurrent}
use golintmu.Interproc.{caller_holds_mutex, is_pre_publication_constructor_call}
use golintmu.Violations.{should_suppress_direct_violation}

abbrev pub max_depth : ℕ
max_depth = 5

abbrev pub max_chains : ℕ
max_chains = 3

-- The loop that stops at the first origin with an explanation.
unfoldable pub first_explained :
    (RequirementOrigin → List Reason) → List RequirementOrigin → List Reason
first_explained explain [] = []
first_explained explain (origin ∷ origins) =
    let rest = first_explained explain origins in
    elim (explain origin) [ [] ↦ rest | line ∷ lines ↦ line ∷ lines ]

-- The body of the loop over the origins: the lines so far, and how many chains they are.
unfoldable pub add_chain :
    ℕ → (RequirementOrigin → List Reason) → List Reason × ℕ → RequirementOrigin → List Reason × ℕ
add_chain limit explain (lines, chains) origin =
    if leb limit chains then (lines, chains) else elim (explain origin) [
      | [] ↦ (lines, chains)
      | line ∷ chain ↦
          ((if chains == 0 then lines else lines ++ blank ∷ []) ++ line ∷ chain, suc chains)
    ]

module _ (prog : Program) where
  open prog use {func, position, type_name, type_underlying}

  -- The line of a direct access, if its field is in the struct.
  unfoldable pub access_reason : ℕ → RequirementOrigin → List Reason
  unfolding fields_of base_name
  access_reason fn origin =
      if is_valid origin.access_pos
      then elim (do
        fields ← fields_of prog (type_underlying origin.field_key.struct_type)
        get_elem? fields origin.field_key.field_index) [
          | none ↦ []
          | some field ↦
              let pos = position origin.access_pos in
              accesses (func fn).fn_name (type_name origin.field_key.struct_type) field.field_name
                (base_name pos.filename) pos.line pos.column
              ∷ []
        ]
      else []

  -- The line of a call.
  unfoldable pub call_reason : ℕ → ℕ → ℕ → Reason
  unfolding base_name
  call_reason fn callee call_pos =
      let pos = position call_pos in
      calls (func fn).fn_name (func callee).fn_name (base_name pos.filename) pos.line pos.column

  -- `formatSingleOrigin`: the first argument is what `depth` leaves of `maxDepth`.
  unfoldable pub format_single_origin :
      ℕ → PassContext → MutexFieldKey → ℕ → RequirementOrigin → List Reason
  unfolding access_reason call_reason first_explained
  format_single_origin zero ctx mfk fn origin = []
  format_single_origin (suc depth) ctx mfk fn origin = elim origin.via_callee [
    | none ↦ access_reason fn origin
    | some callee ↦
        call_reason fn callee origin.via_call_pos ∷ elim (lookup callee ctx.func_facts) [
          | none ↦ []
          | some callee_facts ↦
              first_explained (format_single_origin depth ctx mfk callee)
                (lookup_list mfk callee_facts.requires_origin)
        ]
  ]

  unfoldable pub format_requirement_reasons : PassContext → ℕ → MutexFieldKey → ℕ → List Reason
  unfolding add_chain format_single_origin
  format_requirement_reasons ctx fn mfk limit = elim (lookup fn ctx.func_facts) [
    | none ↦ []
    | some facts ↦
        (fold (add_chain limit (format_single_origin max_depth ctx mfk fn)) ([], 0)
          (lookup_list mfk facts.requires_origin)).0
  ]

  -- What the report of a missing lock explains.
  unfoldable pub reasons_of : PassContext → CallSiteRecord → MutexFieldKey → List Reason
  unfolding format_requirement_reasons
  reasons_of ctx cs mfk =
      if ctx.verbose then format_requirement_reasons ctx cs.callee mfk max_chains else []

  unfoldable pub report_missing_lock_at_call_site :
      PassContext → CallSiteRecord → MutexFieldKey → PassContext
  unfolding is_suppressed mutex_field_key_name reportf reasons_of
  report_missing_lock_at_call_site ctx cs mfk =
      if is_suppressed prog ctx cs.caller cs.pos
      then ctx
      else (let name = mutex_field_key_name prog mfk in
          if name == ""
          then ctx
          else reportf ctx cs.pos
              (Message.missing_lock_at_call name (func cs.callee).fn_name (reasons_of ctx cs mfk)))

  unfoldable pub report_double_lock_at_call_site :
      PassContext → CallSiteRecord → MutexFieldKey → PassContext
  unfolding is_suppressed mutex_field_key_name reportf
  report_double_lock_at_call_site ctx cs mfk =
      if is_suppressed prog ctx cs.caller cs.pos
      then ctx
      else (let name = mutex_field_key_name prog mfk in
          if name == ""
          then ctx
          else reportf ctx cs.pos (Message.double_lock_at_call name (func cs.callee).fn_name))

  -- The body of the loop over what the callee requires.
  unfoldable pub check_required : CallSiteRecord → PassContext → MutexFieldKey → PassContext
  unfolding caller_holds_mutex should_suppress_direct_violation is_pre_publication_constructor_call
      report_missing_lock_at_call_site
  check_required cs ctx mfk =
      if caller_holds_mutex cs mfk
        || should_suppress_direct_violation ctx cs.caller mfk
        || is_pre_publication_constructor_call prog cs
      then ctx
      else report_missing_lock_at_call_site ctx cs mfk

  -- The body of the loop over what the callee acquires.
  unfoldable pub check_acquired : CallSiteRecord → PassContext → MutexFieldKey → PassContext
  unfolding caller_holds_mutex report_double_lock_at_call_site
  check_acquired cs ctx mfk =
      if caller_holds_mutex cs mfk then report_double_lock_at_call_site ctx cs mfk else ctx

  unfoldable pub check_call_site : PassContext → CallSiteRecord → PassContext
  unfolding is_concurrent check_required check_acquired
  check_call_site ctx cs =
      if not (is_concurrent ctx cs.caller) then ctx else elim (lookup cs.callee ctx.func_facts) [
        | none ↦ ctx
        | some facts ↦
            fold (check_acquired cs) (fold (check_required cs) ctx facts.requires)
              facts.acquires_transitive
      ]

  unfoldable pub check_interprocedural_violations : PassContext → PassContext
  unfolding check_call_site
  check_interprocedural_violations ctx = fold check_call_site ctx ctx.call_sites
