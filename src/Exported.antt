-- ===== src/Exported.antt =====
-- pkg/analyzer/reporter.go: `checkExportedGuardedFields`, the exported fields that are guarded.
pub mod Reported
use golintmu.Base.{
  ℕ, Bool, false, not, Option, none, some, ◌==◌, if◌then◌else◌, nat_eq, get_elem?, fold,
}
use golintmu.Types.{StructField, field_label}
use golintmu.Ssa.{Program}
use golintmu.Resolver.{fields_of}
use golintmu.Pass.{PassContext, FieldKey, GuardInfo, Message}
use golintmu.Report.{reportf}
use golintmu.Inference.{is_local_type}

module _ (prog : Program) where
  open prog use {pass_pkg, type_pkg, type_name, type_underlying}

  unfoldable pub report_exported_guarded_field :
      PassContext → FieldKey → GuardInfo → StructField → PassContext
  unfolding fields_of field_label reportf
  report_exported_guarded_field ctx key guard field =
      elim (fields_of prog (type_underlying key.struct_type)) [
        | none ↦ ctx
        | some st ↦ elim (get_elem? st guard.mutex_field_index) [
          | none ↦ ctx
          | some mutex ↦ reportf ctx field.field_pos (
              Message.exported_guarded (field_label (type_name key.struct_type) field.field_name)
                (field_label (type_name key.struct_type) mutex.field_name))
        ]
      ]

  -- The body of the loop.
  unfoldable pub check_exported : PassContext → FieldKey × GuardInfo → PassContext
  unfolding is_local_type fields_of report_exported_guarded_field
  check_exported ctx (key, guard) =
      if not (is_local_type prog key.struct_type)
      then ctx
      else elim (fields_of prog (type_underlying key.struct_type)) [
        | none ↦ ctx
        | some st ↦ elim (get_elem? st key.field_index) [
          | none ↦ ctx
          | some field ↦
              if not field.exported then ctx else report_exported_guarded_field ctx key guard field
        ]
      ]

  unfoldable pub check_exported_guarded_fields : PassContext → PassContext
  unfolding check_exported
  check_exported_guarded_fields ctx = fold check_exported ctx ctx.guards
