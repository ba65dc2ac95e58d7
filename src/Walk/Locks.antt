-- ===== src/Walk/Locks.antt =====
-- pkg/analyzer/ssawalk.go: lock and unlock calls, deferred calls, returns and call sites.
pub mod Unobserved
pub mod Leaks
use golintmu.Base.{
  ℕ, String, Bool, true, false, not, ◌&&◌, ◌++◌, Option, none, some, List, [], ◌∷◌, ◌==◌,
  if◌then◌else◌, nat_eq, ◌>>=◌, Map, lookup, insert, delete, keys, contains, append_at, fold, add,
}
use golintmu.Ssa.{Program, CallCommon}
use golintmu.LockState.{
  LockRef, LockRef_eq, field_lock, HeldLock, LockState, lock, unlock, defer_unlock,
}
use golintmu.Resolver.{
  resolve_lock_ref, resolve_embedded_mutex_ref, is_mutex_type, elem_of, named_of, underlying,
  is_lock_method, is_lock_acquire, is_exclusive_lock, is_exclusive_unlock,
}
use golintmu.Pass.{PassContext, MutexFieldKey, LockLeakCandidate, HeldMutexRef, CallSiteRecord}
use golintmu.Pass.Keys.{MutexFieldKey_eq, DeferredLockTypoKey_eq}
use golintmu.FuncFacts.{update_func_facts, add_acquires, add_releases}
use golintmu.LockOrder.{add_edge}
use golintmu.Report.{
  resolve_struct_from_base, report_double_lock, report_recursive_rlock, report_lock_upgrade_attempt,
  report_mismatched_unlock, report_deferred_lock_instead_of_unlock,
}

module _ (prog : Program) where
  open prog use {value_type, func}

  unfoldable pub lock_ref_to_mutex_field_key : LockRef → Option MutexFieldKey
  unfolding resolve_struct_from_base
  lock_ref_to_mutex_field_key ref = elim ref.kind [
    | field_lock ↦ resolve_struct_from_base prog ref.base >>= λ (n, _).
        some (record { struct_type = n; field_index = ref.field_index })
  ]

  unfoldable pub record_lock_acquisition : PassContext → ℕ → LockRef → PassContext
  unfolding lock_ref_to_mutex_field_key update_func_facts
  record_lock_acquisition ctx fn ref = elim (lock_ref_to_mutex_field_key ref) [
    | none ↦ ctx
    | some mfk ↦ update_func_facts ctx fn (add_acquires mfk)
  ]

  record_release : PassContext → ℕ → LockRef → PassContext
  unfolding lock_ref_to_mutex_field_key update_func_facts
  record_release ctx fn ref = elim (lock_ref_to_mutex_field_key ref) [
    | none ↦ ctx
    | some mfk ↦ update_func_facts ctx fn (add_releases mfk)
  ]

  -- The diagnostics of a lock that is taken while it is held.
  check_already_held : PassContext → ℕ → ℕ → LockRef → Bool → LockState → PassContext
  unfolding report_double_lock report_recursive_rlock report_lock_upgrade_attempt
  check_already_held ctx fn pos ref exclusive ls = elim (lookup ref ls.held) [
    | none ↦ ctx
    | some existing ↦
        if exclusive && existing.exclusive
        then report_double_lock prog ctx fn pos ref
        else (if not exclusive && not existing.exclusive
            then report_recursive_rlock prog ctx fn pos ref
            else (if exclusive && not existing.exclusive
                then report_lock_upgrade_attempt prog ctx fn pos ref
                else report_double_lock prog ctx fn pos ref))
  ]

  -- An edge from each other lock that is held to the one acquired.
  unfoldable pub record_order_edges : PassContext → ℕ → ℕ → LockRef → LockState → PassContext
  unfolding lock_ref_to_mutex_field_key add_edge
  record_order_edges ctx fn pos ref ls = elim (lock_ref_to_mutex_field_key ref) [
    | none ↦ ctx
    | some acquired ↦
        fold
          (λ c held_ref.
            if held_ref == ref then c else elim (lock_ref_to_mutex_field_key held_ref) [
              | none ↦ c
              | some held ↦ record c {
                lock_order_edges =
                    add_edge c.lock_order_edges
                      (record { from = held; to = acquired; pos = pos; fn = fn });
              }
            ])
          ctx (keys ls.held)
  ]

  unfoldable pub check_and_record_lock_acquire :
      ℕ → ℕ → LockRef → Bool → PassContext × LockState → PassContext × LockState
  unfolding check_already_held record_order_edges record_lock_acquisition lock
  check_and_record_lock_acquire fn pos ref exclusive (ctx, ls) =
      let checked = check_already_held ctx fn pos ref exclusive ls in
      let ordered = record_order_edges checked fn pos ref ls in
      (record_lock_acquisition ordered fn ref, lock ls ref exclusive pos)

  -- The mismatch of an unlock with the mode in which the lock is held.
  check_mismatch : PassContext → ℕ → ℕ → LockRef → HeldLock → Bool → PassContext
  unfolding report_mismatched_unlock
  check_mismatch ctx fn pos ref existing exclusive_unlock =
      if existing.exclusive && not exclusive_unlock
      then report_mismatched_unlock prog ctx fn pos ref true "RUnlock"
      else (if not existing.exclusive && exclusive_unlock
          then report_mismatched_unlock prog ctx fn pos ref false "Unlock"
          else ctx)

  unfoldable pub check_and_record_unlock :
      ℕ → ℕ → LockRef → Bool → PassContext × LockState → PassContext × LockState
  unfolding check_mismatch record_release unlock
  check_and_record_unlock fn pos ref exclusive_unlock (ctx, ls) =
      let checked : PassContext = elim (lookup ref ls.held) [
        | some existing ↦ check_mismatch ctx fn pos ref existing exclusive_unlock
        | none ↦ record ctx {
          unlock_of_unlocked_candidates =
              ctx.unlock_of_unlocked_candidates ++ record { fn = fn; pos = pos; ref = ref } ∷ [];
        }
      ] in
      (record_release checked fn ref, unlock ls ref)

  unfoldable pub is_mutex_receiver : ℕ → Bool
  unfolding elem_of is_mutex_type
  is_mutex_receiver v = elim (elem_of (value_type v)) [
    | none ↦ false
    | some t ↦ is_mutex_type prog t
  ]

  -- The lock of a receiver: the mutex itself, or the one that its struct embeds.
  unfoldable pub receiver_ref : ℕ → String → Option LockRef
  unfolding is_mutex_receiver resolve_lock_ref resolve_embedded_mutex_ref
  receiver_ref recv name =
      if is_mutex_receiver recv
      then resolve_lock_ref prog recv
      else resolve_embedded_mutex_ref prog recv name

  -- `normalizeLockState`
  unfoldable pub normalize_lock_state : LockState → Map ℕ (List HeldMutexRef)
  unfolding elem_of named_of underlying
  normalize_lock_state ls =
      fold
        (λ result (_, hl). elim hl.ref.kind [
          | field_lock ↦ elim (elem_of (underlying prog (value_type hl.ref.base)) >>= named_of) [
            | none ↦ result
            | some n ↦
                append_at n (record { field_index = hl.ref.field_index; exclusive = hl.exclusive })
                  result
          ]
        ])
        [] ls.held

  unfoldable pub record_call_site : PassContext → ℕ → ℕ → ℕ → LockState → Option ℕ → PassContext
  unfolding normalize_lock_state
  record_call_site ctx caller callee pos ls receiver =
      let site : CallSiteRecord = record {
        caller = caller;
        callee = callee;
        pos = pos;
        held_by_struct_type = normalize_lock_state ls;
        receiver_value = receiver;
      } in
      record ctx { call_sites = ctx.call_sites ++ site ∷ [] }

  -- The two arms under `if ref != nil` of `processCall`.
  unfoldable pub lock_or_unlock :
      ℕ → ℕ → LockRef → String → PassContext × LockState → PassContext × LockState
  unfolding check_and_record_lock_acquire check_and_record_unlock is_lock_acquire is_exclusive_lock
      is_exclusive_unlock
  lock_or_unlock fn pos ref name s =
      if is_lock_acquire name
      then check_and_record_lock_acquire fn pos ref (is_exclusive_lock name) s
      else check_and_record_unlock fn pos ref (is_exclusive_unlock name) s

  unfoldable pub process_call :
      ℕ → ℕ → CallCommon → PassContext × LockState → PassContext × LockState
  unfolding lock_or_unlock is_lock_method resolve_lock_ref receiver_ref record_call_site
  process_call fn pos common s =
      if common.is_invoke
      then (elim common.method [
        | none ↦ s
        | some name ↦
            if is_lock_method name
            then (elim (resolve_lock_ref prog common.call_value) [
              | none ↦ s
              | some ref ↦ lock_or_unlock fn pos ref name s
            ])
            else s
      ])
      else (elim common.static_callee [
        | none ↦ s
        | some callee ↦ elim common.args [
          | [] ↦ s
          | recv ∷ _ ↦
              if is_lock_method (func callee).fn_name
              then (elim (receiver_ref recv (func callee).fn_name) [
                | none ↦ s
                | some ref ↦ lock_or_unlock fn pos ref (func callee).fn_name s
              ])
              else (
                record_call_site s.0 fn callee pos s.1
                    (elim (func callee).recv [ none ↦ none | some _ ↦ some recv ]),
                s.1,
              )
        ]
      ])

  -- `resolveDeferredLockRef`; the source's method name beside a nil ref is never read.
  unfoldable pub resolve_deferred_lock_ref : CallCommon → Option (LockRef × String)
  unfolding is_lock_method receiver_ref
  resolve_deferred_lock_ref common =
      let target : Option (String × ℕ) =
        if common.is_invoke
        then (common.method >>= λ name. some (name, common.call_value))
        else common.static_callee >>= λ callee. elim common.args [
          | [] ↦ none
          | recv ∷ _ ↦ some ((func callee).fn_name, recv)
        ] in
      target >>= λ (name, recv).
      if is_lock_method name then (receiver_ref recv name >>= λ ref. some (ref, name)) else none

  unfoldable pub check_deferred_unlock_mismatch :
      PassContext → ℕ → ℕ → CallCommon → LockState → PassContext
  unfolding resolve_deferred_lock_ref is_lock_acquire is_exclusive_unlock check_mismatch
  check_deferred_unlock_mismatch ctx fn pos common ls = elim (resolve_deferred_lock_ref common) [
    | none ↦ ctx
    | some (ref, name) ↦ if is_lock_acquire name then ctx else elim (lookup ref ls.held) [
      | none ↦ ctx
      | some existing ↦ check_mismatch ctx fn pos ref existing (is_exclusive_unlock name)
    ]
  ]

  unfoldable pub check_deferred_lock_instead_of_unlock :
      PassContext → ℕ → ℕ → CallCommon → PassContext
  unfolding resolve_deferred_lock_ref is_lock_acquire report_deferred_lock_instead_of_unlock
  check_deferred_lock_instead_of_unlock ctx fn pos common =
      elim (resolve_deferred_lock_ref common) [
        | none ↦ ctx
        | some (ref, name) ↦
            if not (is_lock_acquire name)
            then ctx
            else (let reported = report_deferred_lock_instead_of_unlock prog ctx fn pos ref name in
                record reported {
                  deferred_lock_typo_reported =
                      add (record { fn = fn; ref = ref }) reported.deferred_lock_typo_reported;
                })
      ]

  -- `d.Parent()` is the function that is walked.
  unfoldable pub record_deferred_unlock :
      ℕ → CallCommon → PassContext × LockState → PassContext × LockState
  unfolding resolve_deferred_lock_ref is_lock_acquire defer_unlock record_release
  record_deferred_unlock fn common (ctx, ls) = elim (resolve_deferred_lock_ref common) [
    | none ↦ (ctx, ls)
    | some (ref, name) ↦
        if is_lock_acquire name then (ctx, ls) else (record_release ctx fn ref, defer_unlock ls ref)
  ]

  -- The loop over `ls.held` of `checkReturnWithHeldLocks`.
  unfoldable pub leak_candidates : ℕ → ℕ → LockState → Map LockRef HeldLock → List LockLeakCandidate
  leak_candidates fn ret_pos ls [] = []
  leak_candidates fn ret_pos ls ((ref, hl) ∷ held) =
      let rest = leak_candidates fn ret_pos ls held in
      if contains ls.deferred_unlocks ref
      then rest
      else record { fn = fn; pos = ret_pos; ref = ref; acquire_pos = hl.pos } ∷ rest

  unfoldable pub check_return_with_held_locks : PassContext → ℕ → ℕ → LockState → PassContext
  unfolding leak_candidates
  check_return_with_held_locks ctx fn ret_pos ls =
      let cleared = delete ret_pos ctx.lock_leak_candidates in
      elim (leak_candidates fn ret_pos ls ls.held) [
        | [] ↦ record ctx { lock_leak_candidates = cleared }
        | c ∷ cs ↦ record ctx { lock_leak_candidates = insert ret_pos (c ∷ cs) cleared }
      ]
