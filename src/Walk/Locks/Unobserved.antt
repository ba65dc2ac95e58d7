-- ===== src/Walk/Locks/Unobserved.antt =====
-- The parts of pkg/analyzer/ssawalk.go that observe no access: calls, deferred calls, returns and
-- merge points.
use golintmu.Base.{
  ℕ, String, ◌≡◌, refl, ap, ◌∙◌, inl, inr, Bool, true, false, none, some, List, [], ◌∷◌, ◌++◌, ◌==◌,
  if◌then◌else◌, nat_eq, string_eq, arith, lookup, keys, fold, Bool-cases, Option-cases, List-cases,
}
use golintmu.Ssa.{Program, CallCommon}
use golintmu.LockState.{LockRef, LockRef_eq, HeldLock, LockState, diff}
use golintmu.Pass.{PassContext, Message, FuncLockFacts}
use golintmu.LockOrder.{add_edge}
use golintmu.FuncFacts.{update_func_facts}
use golintmu.Resolver.{is_lock_method, resolve_lock_ref, is_exclusive_lock, is_exclusive_unlock}
use golintmu.Report.{
  block_pos, report_lock, reportf, report_double_lock, report_recursive_rlock,
  report_lock_upgrade_attempt, report_mismatched_unlock, report_deferred_lock_instead_of_unlock,
  report_inconsistent, report_inconsistent_lock_state,
}
use golintmu.Walk.Locks.{
  receiver_ref, lock_ref_to_mutex_field_key, record_lock_acquisition, record_release,
  check_already_held, record_order_edges, check_and_record_lock_acquire, check_mismatch,
  check_and_record_unlock, record_call_site, lock_or_unlock, process_call,
  check_deferred_unlock_mismatch, check_deferred_lock_instead_of_unlock, record_deferred_unlock,
  check_return_with_held_locks,
}

module _ (prog : Program) where
  -- The step leaves the observations alone.
  abbrev Keeps : PassContext → PassContext → Type 0
  Keeps after before = after.observations ≡ before.observations

  report_lock-Keeps :
      (ctx : PassContext) (fn pos : ℕ) (ref : LockRef) (message : String → Message)
      → Keeps (report_lock prog ctx fn pos ref message) ctx
  unfolding report_lock reportf
  report_lock-Keeps ctx fn pos ref message = ground arith

  update_func_facts-Keeps :
      (ctx : PassContext) (fn : ℕ) (f : FuncLockFacts → FuncLockFacts)
      → Keeps (update_func_facts ctx fn f) ctx
  unfolding update_func_facts
  update_func_facts-Keeps ctx fn f = refl

  record_lock_acquisition-Keeps :
      (ctx : PassContext) (fn : ℕ) (ref : LockRef)
      → Keeps (record_lock_acquisition prog ctx fn ref) ctx
  unfolding record_lock_acquisition update_func_facts
  record_lock_acquisition-Keeps ctx fn ref = ground arith

  record_release-Keeps :
      (ctx : PassContext) (fn : ℕ) (ref : LockRef) → Keeps (record_release prog ctx fn ref) ctx
  unfolding record_release update_func_facts
  record_release-Keeps ctx fn ref = ground arith

  check_already_held-Keeps :
      (ctx : PassContext) (fn pos : ℕ) (ref : LockRef) (exclusive : Bool) (ls : LockState)
      → Keeps (check_already_held prog ctx fn pos ref exclusive ls) ctx
  unfolding check_already_held report_double_lock report_recursive_rlock report_lock_upgrade_attempt
  check_already_held-Keeps ctx fn pos ref exclusive ls = ground (
    arith,
    report_lock-Keeps ctx fn pos ref Message.double_lock,
    report_lock-Keeps ctx fn pos ref Message.recursive_rlock,
    report_lock-Keeps ctx fn pos ref Message.lock_upgrade,
  )

  check_mismatch-Keeps :
      (ctx : PassContext) (fn pos : ℕ) (ref : LockRef) (existing : HeldLock) (exclusive : Bool)
      → Keeps (check_mismatch prog ctx fn pos ref existing exclusive) ctx
  unfolding check_mismatch report_mismatched_unlock
  check_mismatch-Keeps ctx fn pos ref existing exclusive = ground (
    arith,
    report_lock-Keeps ctx fn pos ref (λ name. Message.mismatched_unlock name true "RUnlock"),
    report_lock-Keeps ctx fn pos ref (λ name. Message.mismatched_unlock name false "Unlock"),
  )

  fold-Keeps :
      {A : Type 0} (f : PassContext → A → PassContext)
      → ((c : PassContext) (a : A) → Keeps (f c a) c)
      → (ctx : PassContext) (l : List A) → Keeps (fold f ctx l) ctx
  fold-Keeps f step ctx [] = refl
  fold-Keeps f step ctx (a ∷ l) = fold-Keeps f step (f ctx a) l ∙ step ctx a

  record_order_edges-Keeps :
      (ctx : PassContext) (fn pos : ℕ) (ref : LockRef) (ls : LockState)
      → Keeps (record_order_edges prog ctx fn pos ref ls) ctx
  unfolding record_order_edges
  record_order_edges-Keeps ctx fn pos ref ls =
      elim (Option-cases (lock_ref_to_mutex_field_key prog ref)) [
        | inl unknown ↦ ground (arith, unknown)
        | inr (acquired, known) ↦
            let order : PassContext → LockRef → PassContext = λ c held_ref.
              if held_ref == ref then c else (elim (lock_ref_to_mutex_field_key prog held_ref) [
                | none ↦ c
                | some held ↦ record c {
                  lock_order_edges =
                      add_edge c.lock_order_edges
                        (record { from = held; to = acquired; pos = pos; fn = fn });
                }
              ]) in
            let same : record_order_edges prog ctx fn pos ref ls ≡ fold order ctx (keys ls.held) =
              rw (record_order_edges, known) refl in
            ap (λ c. c.observations) same
            ∙ fold-Keeps order (λ c held. ground arith) ctx (keys ls.held)
      ]

  check_and_record_lock_acquire-Keeps :
      (fn pos : ℕ) (ref : LockRef) (exclusive : Bool) (s : PassContext × LockState)
      → Keeps (check_and_record_lock_acquire prog fn pos ref exclusive s).0 s.0
  unfolding check_and_record_lock_acquire
  check_and_record_lock_acquire-Keeps fn pos ref exclusive (ctx, ls) =
      let checked = check_already_held prog ctx fn pos ref exclusive ls in
      let ordered = record_order_edges prog checked fn pos ref ls in
      record_lock_acquisition-Keeps ordered fn ref
      ∙ record_order_edges-Keeps checked fn pos ref ls
      ∙ check_already_held-Keeps ctx fn pos ref exclusive ls

  check_and_record_unlock-Keeps :
      (fn pos : ℕ) (ref : LockRef) (exclusive : Bool) (s : PassContext × LockState)
      → Keeps (check_and_record_unlock prog fn pos ref exclusive s).0 s.0
  unfolding check_and_record_unlock
  check_and_record_unlock-Keeps fn pos ref exclusive (ctx, ls) =
      elim (Option-cases (lookup ref ls.held)) [
        | inl free ↦ ground (
          arith,
          free,
          record_release-Keeps
              (record ctx {
                unlock_of_unlocked_candidates =
                    ctx.unlock_of_unlocked_candidates
                    ++ record { fn = fn; pos = pos; ref = ref } ∷ [];
              })
              fn ref,
        )
        | inr (existing, held) ↦ ground (
          arith,
          held,
          record_release-Keeps (check_mismatch prog ctx fn pos ref existing exclusive) fn ref,
          check_mismatch-Keeps ctx fn pos ref existing exclusive,
        )
      ]

  lock_or_unlock-Keeps :
      (fn pos : ℕ) (ref : LockRef) (name : String) (s : PassContext × LockState)
      → Keeps (lock_or_unlock prog fn pos ref name s).0 s.0
  unfolding lock_or_unlock
  lock_or_unlock-Keeps fn pos ref name s = ground (
    arith,
    check_and_record_lock_acquire-Keeps fn pos ref (is_exclusive_lock name) s,
    check_and_record_unlock-Keeps fn pos ref (is_exclusive_unlock name) s,
  )

  pub process_call-Keeps :
      (fn pos : ℕ) (common : CallCommon) (s : PassContext × LockState)
      → Keeps (process_call prog fn pos common s).0 s.0
  unfolding process_call record_call_site
  process_call-Keeps fn pos common s = elim (Bool-cases common.is_invoke) [
    | inl invoked ↦ elim (Option-cases common.method) [
      | inl no_name ↦ ground (arith, invoked, no_name)
      | inr (name, named) ↦ elim (Option-cases (resolve_lock_ref prog common.call_value)) [
        | inl no_lock ↦ ground (arith, invoked, named, no_lock)
        | inr (ref, found) ↦
            ground (arith, invoked, named, found, lock_or_unlock-Keeps fn pos ref name s)
      ]
    ]
    | inr static ↦ elim (Option-cases common.static_callee) [
      | inl dynamic ↦ ground (arith, static, dynamic)
      | inr (callee, known) ↦ elim (List-cases common.args) [
        | inl no_args ↦ ground (arith, static, known, no_args)
        | inr (recv, rest, args) ↦
            let name = (prog.func callee).fn_name in
            elim (Bool-cases (is_lock_method name)) [
              | inr other ↦ ground (arith, static, known, args, other)
              | inl locks ↦ elim (Option-cases (receiver_ref prog recv name)) [
                | inl no_lock ↦ ground (arith, static, known, args, locks, no_lock)
                | inr (ref, found) ↦ ground (
                  arith,
                  static,
                  known,
                  args,
                  locks,
                  found,
                  lock_or_unlock-Keeps fn pos ref name s,
                )
              ]
            ]
      ]
    ]
  ]

  pub check_deferred_unlock_mismatch-Keeps :
      (ctx : PassContext) (fn pos : ℕ) (common : CallCommon) (ls : LockState)
      → Keeps (check_deferred_unlock_mismatch prog ctx fn pos common ls) ctx
  unfolding check_deferred_unlock_mismatch
  check_deferred_unlock_mismatch-Keeps ctx fn pos common ls =
      ground (arith, check_mismatch-Keeps ctx fn pos)

  pub check_deferred_lock-Keeps :
      (ctx : PassContext) (fn pos : ℕ) (common : CallCommon)
      → Keeps (check_deferred_lock_instead_of_unlock prog ctx fn pos common) ctx
  unfolding check_deferred_lock_instead_of_unlock report_deferred_lock_instead_of_unlock
  check_deferred_lock-Keeps ctx fn pos common = ground (arith, report_lock-Keeps ctx fn pos)

  pub record_deferred_unlock-Keeps :
      (fn : ℕ) (common : CallCommon) (s : PassContext × LockState)
      → Keeps (record_deferred_unlock prog fn common s).0 s.0
  unfolding record_deferred_unlock
  record_deferred_unlock-Keeps fn common (ctx, ls) = ground (arith, record_release-Keeps ctx fn)

  pub check_return-Keeps :
      (ctx : PassContext) (fn pos : ℕ) (ls : LockState)
      → Keeps (check_return_with_held_locks prog ctx fn pos ls) ctx
  unfolding check_return_with_held_locks
  check_return-Keeps ctx fn pos ls = ground arith

  report_inconsistent-Keeps :
      (pos : ℕ) (s : PassContext × List LockRef) (refs : List LockRef)
      → Keeps (fold (report_inconsistent prog pos) s refs).0 s.0
  unfolding report_inconsistent reportf
  report_inconsistent-Keeps pos s [] = refl
  report_inconsistent-Keeps pos s (ref ∷ refs) =
      report_inconsistent-Keeps pos (report_inconsistent prog pos s ref) refs ∙ ground arith

  pub report_inconsistent_lock_state-Keeps :
      (ctx : PassContext) (fn b : ℕ) (before ls : LockState)
      → Keeps (report_inconsistent_lock_state prog ctx fn b before ls) ctx
  unfolding report_inconsistent_lock_state
  report_inconsistent_lock_state-Keeps ctx fn b before ls =
      let pos = block_pos prog b in
      let first = fold (report_inconsistent prog pos) (ctx, []) (diff before ls).0 in
      ground (
        arith,
        report_inconsistent-Keeps pos first (diff before ls).1,
        report_inconsistent-Keeps pos (ctx, []) (diff before ls).0,
      )
