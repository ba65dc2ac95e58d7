-- ===== src/Interproc.antt =====
-- pkg/analyzer/interprocedural.go: lock requirements and acquisitions across calls.
pub mod Requires
pub mod Least
use golintmu.Base.{
  ℕ, zero, suc, Bool, true, false, not, ◌&&◌, ◌||◌, ◌++◌, Option, none, some, List, [], ◌∷◌, ◌==◌,
  if◌then◌else◌, nat_eq, Map, lookup, lookup_list, insert, append_at, contains, add, fold, any,
  keep, keys, ltb,
}
use golintmu.Base.Fixpoint.{repeat}
use golintmu.Types.{Ty}
use golintmu.Ssa.{Program, Value, alloc, Instr, Op, store, map_update, is_valid}
use golintmu.Resolver.{elem_of, named_of}
use golintmu.Pass.{
  PassContext, FieldKey, GuardInfo, Observation, MutexFieldKey, CallSiteRecord, FuncLockFacts,
  RequirementOrigin,
}
use golintmu.Pass.Keys.{FieldKey_eq, MutexFieldKey_eq}
use golintmu.FuncFacts.{func_facts_of, update_func_facts, add_requires, add_acquires_transitive}
use golintmu.Inference.{is_constructor_like}
use golintmu.LockOrder.{add_edge}

unfoldable pub caller_holds_mutex : CallSiteRecord → MutexFieldKey → Bool
caller_holds_mutex cs mfk =
    any (λ hr. hr.field_index == mfk.field_index)
      (lookup_list mfk.struct_type cs.held_by_struct_type)

unfoldable pub has_callers : PassContext → ℕ → Bool
has_callers ctx fn = any (λ cs. cs.callee == fn) ctx.call_sites

-- `maxIterations`
abbrev pub max_iterations : ℕ
max_iterations = 1000

-- `existing.ViaCallee == origin.ViaCallee`
is_via : Option ℕ → ℕ → Bool
is_via none callee = false
is_via (some fn) callee = fn == callee

-- The origin that verbose mode records, unless the same call is recorded.
unfoldable pub add_origin : MutexFieldKey → ℕ → ℕ → FuncLockFacts → FuncLockFacts
unfolding is_via
add_origin mfk callee pos f =
    let origin : RequirementOrigin = record {
      field_key = record { struct_type = 0; field_index = 0 };
      access_pos = 0;
      is_read = false;
      via_callee = some callee;
      via_call_pos = pos;
    } in
    if any (λ existing. is_via existing.via_callee callee && existing.via_call_pos == pos)
      (lookup_list mfk f.requires_origin)
    then f
    else record f { requires_origin = append_at mfk origin f.requires_origin }

module _ (prog : Program) where
  open prog use {func, block, value_of}

  unfoldable pub is_local_alloc : ℕ → Bool
  is_local_alloc v = elim (value_of v) [ alloc heap ↦ not heap | _ ↦ false ]

  -- An instruction before the call stores the receiver where others can reach it.
  publishes : ℕ → ℕ → Instr → Bool
  unfolding is_local_alloc
  publishes receiver call_pos instr = is_valid instr.pos && elim instr.op [
    | map_update v ↦ v == receiver && ltb instr.pos call_pos
    | store addr v ↦
        v == receiver
        && not (addr == receiver)
        && ltb instr.pos call_pos
        && not (is_local_alloc addr)
    | _ ↦ false
  ]

  -- The receiver's named struct type, of a method with a pointer receiver.
  receiver_type : ℕ → Option ℕ
  unfolding elem_of named_of
  receiver_type fn = elim (func fn).recv [
    | none ↦ none
    | some t ↦ elim (elem_of t) [ none ↦ none | some e ↦ named_of e ]
  ]

  unfoldable pub is_pre_publication_constructor_call : CallSiteRecord → Bool
  unfolding receiver_type publishes
  is_pre_publication_constructor_call cs = elim (receiver_type cs.callee) [
    | none ↦ false
    | some named ↦ is_constructor_like prog cs.caller named && elim cs.receiver_value [
      | none ↦ false
      | some receiver ↦
          is_valid cs.pos
          && not
              (any (λ b. any (publishes receiver cs.pos) (block b).instrs) (func cs.caller).blocks)
    ]
  ]

  -- The loop over the observations of a guarded field.
  derive_from : FieldKey → GuardInfo → PassContext → Observation → PassContext
  unfolding update_func_facts
  derive_from key guard ctx obs =
      if is_constructor_like prog obs.fn key.struct_type
        || any (λ hmf. hmf.field_index == guard.mutex_field_index) obs.same_base_mutex_fields
      then ctx
      else (let mfk : MutexFieldKey = record {
        struct_type = key.struct_type;
        field_index = guard.mutex_field_index;
      } in
          let origin : RequirementOrigin = record {
            field_key = key;
            access_pos = obs.pos;
            is_read = obs.is_read;
            via_callee = none;
            via_call_pos = 0;
          } in
          update_func_facts ctx obs.fn (λ f.
            if ctx.verbose
            then record f {
              requires = add mfk f.requires;
              requires_origin = append_at mfk origin f.requires_origin;
            }
            else add_requires mfk f))

  unfoldable pub derive_initial_requirements : PassContext → PassContext
  unfolding derive_from
  derive_initial_requirements ctx =
      fold (λ c (key, guard). fold (derive_from key guard) c (lookup_list key c.observations)) ctx
        ctx.guards

  -- The body of the innermost loop: the requirement moves to the caller.
  unfoldable pub propagate_to :
      ℕ → MutexFieldKey → PassContext × Bool → CallSiteRecord → PassContext × Bool
  unfolding add_origin
  propagate_to callee mfk (ctx, changed) cs =
      if caller_holds_mutex cs mfk || is_pre_publication_constructor_call cs
      then (ctx, changed)
      else (
        update_func_facts ctx cs.caller (λ f.
            if ctx.verbose
            then add_origin mfk callee cs.pos (add_requires mfk f)
            else add_requires mfk f),
        not (contains (func_facts_of ctx cs.caller).requires mfk) || changed,
      )

  -- The loops over `facts.Requires` and over the call sites.
  unfoldable pub propagate_from : List CallSiteRecord → PassContext × Bool → ℕ → PassContext × Bool
  propagate_from sites s callee =
      fold (λ t mfk. fold (propagate_to callee mfk) t (keep (λ cs. cs.callee == callee) sites)) s
        (func_facts_of s.0 callee).requires

  -- One iteration: each function that has facts when it starts, with the requirements that it has
  -- when its turn comes.
  unfoldable pub requires_round : List CallSiteRecord → PassContext → PassContext × Bool
  requires_round sites ctx = fold (propagate_from sites) (ctx, false) (keys ctx.func_facts)

  -- One iteration of the second loop.
  unfoldable pub acquires_at : PassContext × Bool → CallSiteRecord → PassContext × Bool
  acquires_at (ctx, changed) cs = elim (lookup cs.callee ctx.func_facts) [
    | none ↦ (ctx, changed)
    | some callee_facts ↦
        fold
          (λ (c, ch) mfk. (
            update_func_facts c cs.caller (add_acquires_transitive mfk),
            not (contains (func_facts_of c cs.caller).acquires_transitive mfk) || ch,
          ))
          (update_func_facts ctx cs.caller (λ f. f), changed) callee_facts.acquires_transitive
  ]

  unfoldable pub acquires_round : List CallSiteRecord → PassContext → PassContext × Bool
  acquires_round sites ctx = fold acquires_at (ctx, false) sites

  -- The direct acquisitions are where the second loop starts.
  unfoldable pub start_transitive : PassContext → PassContext
  start_transitive ctx =
      fold
        (λ c fn. update_func_facts c fn (λ f. record f {
          acquires_transitive = fold (λ l k. add k l) f.acquires_transitive f.acquires;
        }))
        ctx (keys ctx.func_facts)

  unfoldable pub propagate_requirements : PassContext → PassContext
  propagate_requirements ctx =
      let required = (repeat max_iterations (requires_round ctx.call_sites) (ctx, true)).0 in
      (repeat max_iterations (acquires_round ctx.call_sites) (start_transitive required, true)).0

  -- `collectInterproceduralLockOrderEdges`, at one call site.
  call_site_edges : PassContext → CallSiteRecord → PassContext
  unfolding add_edge
  call_site_edges ctx cs = elim (lookup cs.callee ctx.func_facts) [
    | none ↦ ctx
    | some facts ↦
        fold
          (λ c (struct_type, held_refs).
            fold
              (λ c' hr.
                let held_key : MutexFieldKey = record {
                  struct_type = struct_type;
                  field_index = hr.field_index;
                } in
                fold
                  (λ c'' acquired_key. if held_key == acquired_key then c'' else record c'' {
                    lock_order_edges = add_edge c''.lock_order_edges (record {
                      from = held_key;
                      to = acquired_key;
                      pos = cs.pos;
                      fn = cs.caller;
                    });
                  })
                  c' facts.acquires_transitive)
              c held_refs)
          ctx cs.held_by_struct_type
  ]

  unfoldable pub collect_interprocedural_lock_order_edges : PassContext → PassContext
  unfolding call_site_edges
  collect_interprocedural_lock_order_edges ctx = fold call_site_edges ctx ctx.call_sites
