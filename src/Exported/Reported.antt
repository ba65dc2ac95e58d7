-- ===== src/Exported/Reported.antt =====
-- Which fields `checkExportedGuardedFields` of pkg/analyzer/reporter.go warns about.
use mathlib.Core.List.{Memᴰ}
use golintmu.Base.{
  ◌≡◌, refl, ◌↔◌, true, inl, inr, some, List, ◌++◌, arith, Bool-cases, Option-cases, get_elem?,
}
use golintmu.Types.{StructField, field_label}
use golintmu.Ssa.{Program}
use golintmu.Resolver.{fields_of}
use golintmu.Pass.{PassContext, FieldKey, GuardInfo, Message, Diagnostic}
use golintmu.Report.{reportf}
use golintmu.Report.Adds.{reporting, Adds, nothing, one, fold-Adds}
use golintmu.Inference.{is_local_type}
use golintmu.Exported.{report_exported_guarded_field, check_exported, check_exported_guarded_fields}

module _ (prog : Program) (ctx : PassContext) where
  open prog use {type_name, type_underlying}

  -- A guarded field of the package's own types that other packages can reach.
  pub record IsExposed (g : FieldKey × GuardInfo) (d : Diagnostic) : Type 0 where
    pub fields : List StructField
    pub field : StructField
    pub mutex : StructField
    pub of_package : is_local_type prog (g.0).struct_type ≡ true
    pub of_struct : fields_of prog (type_underlying (g.0).struct_type) ≡ some fields
    pub of_field : get_elem? fields (g.0).field_index ≡ some field
    pub of_mutex : get_elem? fields (g.1).mutex_field_index ≡ some mutex
    pub is_exported : field.exported ≡ true
    pub reported : d ≡ record {
      pos = field.field_pos;
      message =
          Message.exported_guarded
            (field_label (type_name (g.0).struct_type) field.field_name)
            (field_label (type_name (g.0).struct_type) mutex.field_name);
    }

  module _ (g : FieldKey × GuardInfo) (ds : List Diagnostic) where
    abbrev checked : PassContext
    checked = check_exported prog (reporting ctx ds) g

    quiet :
        checked ≡ reporting ctx ds
        → ((d : Diagnostic) → ¬ (IsExposed g d))
        → Adds ctx (IsExposed g) ds checked
    quiet e h = nothing ctx (IsExposed g) ds checked e h

    check_exported-Adds : Adds ctx (IsExposed g) ds checked
    unfolding check_exported report_exported_guarded_field reportf
    check_exported-Adds = elim (Bool-cases (is_local_type prog (g.0).struct_type)) [
      | inr imported ↦ quiet (ground (arith, imported)) (λ d p. cc (imported, p.of_package))
      | inl own ↦ elim (Option-cases (fields_of prog (type_underlying (g.0).struct_type))) [
        | inl no_struct ↦
            quiet (ground (arith, own, no_struct)) (λ d p. cc (no_struct, p.of_struct))
        | inr (fields, st) ↦ elim (Option-cases (get_elem? fields (g.0).field_index)) [
          | inl no_field ↦
              quiet (ground (arith, own, st, no_field))
                (λ d p. cc (no_field, st, p.of_struct, p.of_field))
          | inr (field, at) ↦ elim (Bool-cases field.exported) [
            | inr hidden ↦
                quiet (ground (arith, own, st, at, hidden))
                  (λ d p. cc (hidden, at, st, p.of_struct, p.of_field, p.is_exported))
            | inl open_field ↦ elim (Option-cases (get_elem? fields (g.1).mutex_field_index)) [
              | inl no_mutex ↦
                  quiet (ground (arith, own, st, at, open_field, no_mutex))
                    (λ d p. cc (no_mutex, st, p.of_struct, p.of_mutex))
              | inr (mutex, guarded) ↦
                  one ctx (IsExposed g) ds checked
                    (record {
                      pos = field.field_pos;
                      message =
                          Message.exported_guarded
                            (field_label (type_name (g.0).struct_type) field.field_name)
                            (field_label (type_name (g.0).struct_type) mutex.field_name);
                    })
                    (ground (arith, own, st, at, open_field, guarded))
                    (record {
                      fields = fields;
                      field = field;
                      mutex = mutex;
                      of_package = own;
                      of_struct = st;
                      of_field = at;
                      of_mutex = guarded;
                      is_exported = open_field;
                      reported = refl;
                    })
                    (λ d p. cc (p.reported, st, at, guarded, p.of_struct, p.of_field, p.of_mutex))
            ]
          ]
        ]
      ]
    ]

  abbrev pub IsReported : Diagnostic → Type 0
  IsReported d = (g : FieldKey × GuardInfo) × Memᴰ g ctx.guards × IsExposed g d

  pub check_exported_guarded_fields-Adds :
      (ds : List Diagnostic)
      → Adds ctx IsReported ds (check_exported_guarded_fields prog (reporting ctx ds))
  unfolding check_exported_guarded_fields
  check_exported_guarded_fields-Adds =
      fold-Adds ctx (check_exported prog) IsExposed ctx.guards check_exported-Adds

-- The diagnostics that `checkExportedGuardedFields` appends, and no other part of the pass
-- changes: one, at its declaration, for each guarded field that is exported and belongs to a
-- struct type of the analyzed package that has the field and the mutex.
pub check_exported_guarded_fields_lem :
    (prog : Program) (ctx : PassContext)
    → (new : List Diagnostic) × (check_exported_guarded_fields prog ctx
        ≡ record ctx { diagnostics = ctx.diagnostics ++ new })
      × ((d : Diagnostic)
          → Memᴰ d new ↔ ((g : FieldKey × GuardInfo) × Memᴰ g ctx.guards × IsExposed prog ctx g d))
check_exported_guarded_fields_lem prog ctx =
    check_exported_guarded_fields-Adds prog ctx ctx.diagnostics
