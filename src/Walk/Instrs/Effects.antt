-- ===== src/Walk/Instrs/Effects.antt =====
-- What an instruction does to the lock state, apart from what it records and reports.
use golintmu.Base.{
  ℕ, String, ◌≡◌, refl, ap, Bool, ◌∙◌, Option, none, some, List, [], ◌∷◌, arith, if◌then◌else◌,
  ◌>>=◌,
}
use golintmu.Ssa.{Program, Instr, CallCommon, Op, call, defer}
use golintmu.LockState.{LockRef, LockState, lock, unlock, defer_unlock}
use golintmu.LockState.Order.{
  IsValid, Below, lock-IsValid, unlock-IsValid, defer_unlock-IsValid, lock-Below, unlock-Below,
  defer_unlock-Below,
}
use golintmu.Resolver.{resolve_lock_ref, is_lock_method, is_lock_acquire, is_exclusive_lock}
use golintmu.Pass.{PassContext}
use golintmu.Walk.Locks.{
  receiver_ref, resolve_deferred_lock_ref, lock_or_unlock, process_call, record_deferred_unlock,
}
use golintmu.Walk.Instrs.{process_instruction, process_block}

pub data Effect : Type 0 where
  acquires : LockRef → Bool → Effect
  releases : LockRef → Effect
  defers : LockRef → Effect
  neutral : Effect

unfoldable pub apply : Effect → ℕ → LockState → LockState
apply (acquires ref exclusive) pos ls = lock ls ref exclusive pos
apply (releases ref) pos ls = unlock ls ref
apply (defers ref) pos ls = defer_unlock ls ref
apply neutral pos ls = ls

pub apply-IsValid :
    (eff : Effect) (pos : ℕ) (ls : LockState) → IsValid ls → IsValid (apply eff pos ls)
unfolding apply
apply-IsValid (acquires ref x) pos ls v = lock-IsValid ls ref x pos v
apply-IsValid (releases ref) pos ls v = unlock-IsValid ls ref v
apply-IsValid (defers ref) pos ls v = defer_unlock-IsValid ls ref v
apply-IsValid neutral pos ls v = v

apply-Below :
    (eff : Effect) (pos : ℕ) {a b : LockState}
    → Below a b
    → Below (apply eff pos a) (apply eff pos b)
unfolding apply
apply-Below (acquires ref x) pos h = lock-Below ref h x x pos pos
apply-Below (releases ref) pos h = unlock-Below ref h
apply-Below (defers ref) pos h = defer_unlock-Below ref h
apply-Below neutral pos h = h

lock_effect : Option LockRef → String → Effect
lock_effect none name = neutral
lock_effect (some ref) name =
    if is_lock_acquire name then acquires ref (is_exclusive_lock name) else releases ref

module _ (prog : Program) where
  open prog use {func}

  -- The lock call that a call is, if it is one.
  called : CallCommon → Option (String × Option LockRef)
  called common =
      if common.is_invoke
      then (common.method >>= λ name. some (name, resolve_lock_ref prog common.call_value))
      else common.static_callee >>= λ callee. elim common.args [
        | [] ↦ none
        | recv ∷ _ ↦ some ((func callee).fn_name, receiver_ref prog recv (func callee).fn_name)
      ]

  call_effect : Option (String × Option LockRef) → Effect
  unfolding lock_effect
  call_effect none = neutral
  call_effect (some (name, ref)) = if is_lock_method name then lock_effect ref name else neutral

  defer_effect : Option (LockRef × String) → Effect
  defer_effect none = neutral
  defer_effect (some (ref, name)) = if is_lock_acquire name then neutral else defers ref

  unfoldable pub effect_of : Op → Effect
  unfolding called call_effect defer_effect
  effect_of (call common) = call_effect (called common)
  effect_of (defer common) = defer_effect (resolve_deferred_lock_ref prog common)
  effect_of op = neutral

  lock_or_unlock-effect :
      (fn pos : ℕ) (ref : LockRef) (name : String) (s : PassContext × LockState)
      → (lock_or_unlock prog fn pos ref name s).1 ≡ apply (lock_effect (some ref) name) pos s.1
  unfolding lock_or_unlock apply lock_effect
  lock_or_unlock-effect fn pos ref name (ctx, ls) = ground arith

  process_call-effect :
      (fn pos : ℕ) (common : CallCommon) (s : PassContext × LockState)
      → (process_call prog fn pos common s).1 ≡ apply (effect_of (call common)) pos s.1
  unfolding process_call effect_of apply
  process_call-effect fn pos common (ctx, ls) = ground arith

  record_deferred_unlock-effect :
      (fn pos : ℕ) (common : CallCommon) (s : PassContext × LockState)
      → (record_deferred_unlock prog fn common s).1 ≡ apply (effect_of (defer common)) pos s.1
  unfolding record_deferred_unlock effect_of apply
  record_deferred_unlock-effect fn pos common (ctx, ls) = ground arith

  process_instruction-effect :
      (fn : ℕ) (s : PassContext × LockState) (instr : Instr)
      → (process_instruction prog fn s instr).1 ≡ apply (effect_of instr.op) instr.pos s.1
  unfolding process_instruction effect_of apply
  process_instruction-effect fn (ctx, ls) instr = by_op instr.op refl
    where
      by_op :
          (op : Op)
          → instr.op ≡ op
          → (process_instruction prog fn (ctx, ls) instr).1
            ≡ apply (effect_of instr.op) instr.pos ls
      by_op (call common) e =
          rw (e, process_instruction, effect_of) (process_call-effect fn instr.pos common (ctx, ls))
      by_op (defer common) e =
          rw (e, process_instruction, effect_of)
            (record_deferred_unlock-effect fn instr.pos common (_, ls))
      by_op _ e = rw (e, process_instruction, effect_of)

  -- The lock state after the instructions of a block.
  unfoldable pub run_locks : List Instr → LockState → LockState
  unfolding effect_of apply
  run_locks [] ls = ls
  run_locks (instr ∷ instrs) ls = run_locks instrs (apply (effect_of instr.op) instr.pos ls)

  -- The walk of a block leaves the locks that its calls and deferred calls leave, whatever it has
  -- recorded before.
  pub process_block-locks :
      (fn : ℕ) (instrs : List Instr) (s : PassContext × LockState)
      → (process_block prog fn instrs s).1 ≡ run_locks instrs s.1
  unfolding process_block run_locks
  process_block-locks fn [] s = refl
  process_block-locks fn (instr ∷ instrs) s =
      process_block-locks fn instrs (process_instruction prog fn s instr)
      ∙ ap (run_locks instrs) (process_instruction-effect fn s instr)

  pub run_locks-IsValid :
      (instrs : List Instr) (ls : LockState) → IsValid ls → IsValid (run_locks instrs ls)
  unfolding run_locks
  run_locks-IsValid [] ls v = v
  run_locks-IsValid (instr ∷ instrs) ls v =
      run_locks-IsValid instrs _ (apply-IsValid (effect_of instr.op) instr.pos ls v)

  -- With fewer locks at the entry of a block there are no more at its exit.
  pub run_locks-Below :
      (instrs : List Instr) {a b : LockState}
      → Below a b
      → Below (run_locks instrs a) (run_locks instrs b)
  unfolding run_locks
  run_locks-Below [] h = h
  run_locks-Below (instr ∷ instrs) h =
      run_locks-Below instrs (apply-Below (effect_of instr.op) instr.pos h)
