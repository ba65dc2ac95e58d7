-- ===== src/Violations/Reports.antt =====
-- Which diagnostics `checkViolations` of pkg/analyzer/reporter.go adds.
use mathlib.Core.List.{Memᴰ}
use golintmu.Base.{◌≡◌, ◌↔◌, List, ◌++◌, lookup_list, fold}
use golintmu.Ssa.{Program}
use golintmu.Pass.{PassContext, FieldKey, GuardInfo, Observation, Diagnostic}
use golintmu.Pass.Keys.{FieldKey_eq, MutexFieldKey_eq}
use golintmu.Violations.{check_observation, check_violations}
use golintmu.Violations.Steps.{Violates, check_observation-Adds}
use golintmu.Report.Adds.{reporting, Adds, fold-Adds}

module _ (prog : Program) (ctx : PassContext) where
  abbrev pub IsReported : Diagnostic → Type 0
  IsReported d =
      (g : FieldKey × GuardInfo) × Memᴰ g ctx.guards
      × ((obs : Observation) × Memᴰ obs (lookup_list g.0 ctx.observations)
          × Violates prog ctx g.0 g.1 obs d)

  pub check_violations-Adds :
      (ds : List Diagnostic) → Adds ctx IsReported ds (check_violations prog (reporting ctx ds))
  unfolding check_violations
  check_violations-Adds =
      fold-Adds ctx
        (λ c (key, guard).
          fold (check_observation prog key guard) c (lookup_list key c.observations))
        (λ g d.
          (obs : Observation) × Memᴰ obs (lookup_list g.0 ctx.observations)
          × Violates prog ctx g.0 g.1 obs d)
        ctx.guards
        (λ (key, guard).
          fold-Adds ctx (check_observation prog key guard) (Violates prog ctx key guard)
            (lookup_list key ctx.observations) (check_observation-Adds prog ctx key guard))

-- The diagnostics that `checkViolations` appends, and no other part of the pass changes: one for
-- an access and its guard exactly if both fields are in the struct, and the access is outside of
-- the constructors of its type, in a concurrent function, not suppressed, and either made without
-- the guard, where the requirement is not left to the callers, or a write under a shared hold of
-- the guard.
pub check_violations_lem :
    (prog : Program) (ctx : PassContext)
    → (new : List Diagnostic) × (check_violations prog ctx
        ≡ record ctx { diagnostics = ctx.diagnostics ++ new })
      × ((d : Diagnostic)
          → Memᴰ d new ↔ (
              (g : FieldKey × GuardInfo) × Memᴰ g ctx.guards
              × ((obs : Observation) × Memᴰ obs (lookup_list g.0 ctx.observations)
                  × Violates prog ctx g.0 g.1 obs d)))
check_violations_lem prog ctx = check_violations-Adds prog ctx ctx.diagnostics
