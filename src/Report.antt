-- ===== src/Report.antt =====
-- pkg/analyzer/reporter.go: the names in diagnostics, and the reports of one function's walk.
-- `isSuppressed` is of annotations.go.
pub mod Adds
pub mod Paths
use golintmu.Base.{
  ℕ, zero, suc, String, Bool, false, not, ◌&&◌, ◌++◌, ◌||◌, Option, none, some, List, [], ◌∷◌, ◌==◌,
  if◌then◌else◌, nat_eq, string_eq, ◌>>=◌, contains, get_elem?, fold, add, lookup_list,
}
use golintmu.Types.{Ty, StructField, field_label}
use golintmu.Ssa.{Program, Instr, phi_node, is_valid}
use golintmu.LockState.{LockRef, LockRef_eq, LockState, diff}
use golintmu.Resolver.{underlying, elem_of, fields_of, named_of}
use golintmu.Pass.{PassContext, Message, MutexFieldKey}

-- `ctx.pass.Reportf`
unfoldable pub reportf : PassContext → ℕ → Message → PassContext
reportf ctx pos message = record ctx {
  diagnostics = ctx.diagnostics ++ record { pos = pos; message = message } ∷ [];
}

module _ (prog : Program) where
  open prog use {value_type, type_name, block, position, type_underlying}

  -- `resolveStructFromBase`: the loop peels at most `depth` pointers.
  unfoldable pub struct_from : ℕ → Ty → Option (ℕ × List StructField)
  unfolding underlying elem_of fields_of named_of
  struct_from zero t = none
  struct_from (suc depth) t = elem_of (underlying prog t) >>= λ elem. elim (named_of elem) [
    | none ↦ struct_from depth elem
    | some n ↦ fields_of prog (type_underlying n) >>= λ fields. some (n, fields)
  ]

  unfoldable pub resolve_struct_from_base : ℕ → Option (ℕ × List StructField)
  unfolding struct_from
  resolve_struct_from_base base = struct_from 4 (value_type base)

  -- "StructName.fieldName", or the empty text.
  unfoldable pub lock_ref_name : LockRef → String
  unfolding resolve_struct_from_base field_label
  lock_ref_name ref =
      elim (do
        (n, fields) ← resolve_struct_from_base ref.base
        field ← get_elem? fields ref.field_index
        some (field_label (type_name n) field.field_name)) [ none ↦ "" | some name ↦ name ]

  unfoldable pub mutex_field_key_name : MutexFieldKey → String
  unfolding fields_of field_label
  mutex_field_key_name mfk =
      elim (do
        fields ← fields_of prog (type_underlying mfk.struct_type)
        field ← get_elem? fields mfk.field_index
        some (field_label (type_name mfk.struct_type) field.field_name)) [
          | none ↦ ""
          | some name ↦ name
        ]

  -- `isSuppressed`: the function is ignored, or the line is not linted.
  unfoldable pub is_suppressed : PassContext → ℕ → ℕ → Bool
  is_suppressed ctx fn pos = elim ctx.annotations [
    | none ↦ false
    | some ann ↦
        contains ann.ignored fn
        || (is_valid pos
            && contains (lookup_list (position pos).filename ann.nolint) (position pos).line)
  ]

  -- What the reports about one lock share.
  unfoldable pub report_lock : PassContext → ℕ → ℕ → LockRef → (String → Message) → PassContext
  unfolding is_suppressed lock_ref_name reportf
  report_lock ctx fn pos ref message =
      if is_suppressed ctx fn pos
      then ctx
      else (let name = lock_ref_name ref in
          if name == "" then ctx else reportf ctx pos (message name))

  unfoldable pub report_double_lock : PassContext → ℕ → ℕ → LockRef → PassContext
  unfolding report_lock
  report_double_lock ctx fn pos ref = report_lock ctx fn pos ref Message.double_lock

  unfoldable pub report_recursive_rlock : PassContext → ℕ → ℕ → LockRef → PassContext
  unfolding report_lock
  report_recursive_rlock ctx fn pos ref = report_lock ctx fn pos ref Message.recursive_rlock

  unfoldable pub report_lock_upgrade_attempt : PassContext → ℕ → ℕ → LockRef → PassContext
  unfolding report_lock
  report_lock_upgrade_attempt ctx fn pos ref = report_lock ctx fn pos ref Message.lock_upgrade

  unfoldable pub report_mismatched_unlock :
      PassContext → ℕ → ℕ → LockRef → Bool → String → PassContext
  unfolding report_lock
  report_mismatched_unlock ctx fn pos ref was_exclusive unlock_method =
      report_lock ctx fn pos ref
        (λ name. Message.mismatched_unlock name was_exclusive unlock_method)

  unfoldable pub report_deferred_lock_instead_of_unlock :
      PassContext → ℕ → ℕ → LockRef → String → PassContext
  unfolding report_lock
  report_deferred_lock_instead_of_unlock ctx fn pos ref method =
      let suggestion = if method == "RLock" then "RUnlock" else "Unlock" in
      report_lock ctx fn pos ref (λ name. Message.deferred_lock name method suggestion)

  -- `blockPos`: the first valid position of an instruction that is no phi.
  first_pos : List Instr → ℕ
  first_pos [] = 0
  first_pos (instr ∷ instrs) =
      let rest = first_pos instrs in
      elim instr.op [ phi_node ↦ rest | _ ↦ if is_valid instr.pos then instr.pos else rest ]

  unfoldable pub block_pos : ℕ → ℕ
  unfolding first_pos
  block_pos b = first_pos (block b).instrs

  -- The inner loop of `reportInconsistentLockState`: one report for each lock not seen yet.
  unfoldable pub report_inconsistent :
      ℕ → PassContext × List LockRef → LockRef → PassContext × List LockRef
  unfolding lock_ref_name reportf
  report_inconsistent pos (ctx, seen) ref =
      if contains seen ref
      then (ctx, seen)
      else (let name = lock_ref_name ref in
          if name == ""
          then (ctx, add ref seen)
          else (reportf ctx pos (Message.inconsistent_lock_state name), add ref seen))

  unfoldable pub report_inconsistent_lock_state :
      PassContext → ℕ → ℕ → LockState → LockState → PassContext
  unfolding block_pos is_suppressed report_inconsistent diff
  report_inconsistent_lock_state ctx fn b state_a state_b =
      let pos = block_pos b in
      if not (is_valid pos)
      then ctx
      else (if is_suppressed ctx fn pos
          then ctx
          else (let (only_a, only_b) = diff state_a state_b in
              (fold (report_inconsistent pos) (fold (report_inconsistent pos) (ctx, []) only_a)
                only_b).0))
