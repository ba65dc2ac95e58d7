-- ===== src/Tests/Reporter.antt =====
-- The theorems on the reports after the walk: the sample's method returns with `mu`, and its
-- callers do not release it.
use mathlib.Core.List.{Memᴰ}
use golintmu.Base.{
  ℕ, ℕ_discrete, false, ◌*◌, ◌≤◌, ◌≡◌, refl, ◌↔◌, ◌⊎◌, true, none, some, List, [], ◌∷◌, ◌++◌, arith,
  Map, nat_eq, contains, length,
}
use golintmu.Pass.{
  PassContext, new_pass_context, CallSiteRecord, MutexFieldKey, FieldKey, GuardInfo, FuncLockFacts,
  LockLeakCandidate, RequirementOrigin, Diagnostic,
}
use golintmu.Pass.Keys.{MutexFieldKey_eq}
use golintmu.FuncFacts.{new_func_lock_facts, func_facts_of, add_requires}
use golintmu.Report.Paths.{base_name}
use golintmu.Calls.{check_interprocedural_violations, format_requirement_reasons}
use golintmu.Calls.Reported.{IsReported, check_interprocedural_violations_lem}
use golintmu.Calls.Reasons.{Chains, format_requirement_reasons_lem}
use golintmu.Leaks.{compute_returns_holding, report_deferred_lock_leaks}
use golintmu.Leaks.Counts.{returns_of}
use golintmu.Leaks.Positions.{leaks_at}
use golintmu.Leaks.Holding.{returns_holding, LeaksAtEveryReturn, compute_returns_holding_lem}
use golintmu.Leaks.Leaked.{IsLeaked, report_deferred_lock_leaks_lem}
use golintmu.Exported.{check_exported_guarded_fields}
use golintmu.Exported.Reported.{IsExposed, check_exported_guarded_fields_lem}
use golintmu.AcquireHelpers.{check_callers_of_acquire_helpers}
use golintmu.AcquireHelpers.Unreleased.{OfHelper, OfCaller, check_callers_of_acquire_helpers_lem}
use golintmu.Tests.States.{mu}
use golintmu.Tests.Sample.{sample}

base_name_test : base_name "/home/me/pkg//counter.go/" ≡ "counter.go"
unfolding base_name golintmu.Base.dec_of_iff
base_name_test = refl

abbrev mu_key : MutexFieldKey
mu_key = record { struct_type = 0; field_index = 0 }

abbrev n_key : FieldKey
n_key = record { struct_type = 0; field_index = 1 }

abbrev write_of_n : RequirementOrigin
write_of_n = record {
  field_key = n_key;
  access_pos = 40;
  is_read = false;
  via_callee = none;
  via_call_pos = 0;
}

-- 4 calls the method 0, which returns with `mu`, and 5 calls 3, which requires `mu`.
abbrev pub reporting_on : PassContext
reporting_on = record (new_pass_context true) {
  guards = (n_key, record { mutex_field_index = 0; needs_exclusive = true }) ∷ [];
  call_sites =
      record { caller = 4; callee = 0; pos = 60; held_by_struct_type = []; receiver_value = none }
      ∷ record { caller = 5; callee = 3; pos = 70; held_by_struct_type = []; receiver_value = none }
      ∷ [];
  func_facts =
      (
        3,
        record (add_requires mu_key new_func_lock_facts) {
          requires_origin = (mu_key, write_of_n ∷ []) ∷ [];
        },
      )
      ∷ [];
  lock_leak_candidates = (50, record { fn = 0; pos = 50; ref = mu; acquire_pos = 10 } ∷ []) ∷ [];
}

check_interprocedural_violations_lem_example :
    (new : List Diagnostic) × (check_interprocedural_violations sample reporting_on
      ≡ record reporting_on { diagnostics = reporting_on.diagnostics ++ new })
    × ((d : Diagnostic)
        → Memᴰ d new ↔ (
            (cs : CallSiteRecord) × Memᴰ cs reporting_on.call_sites
            × IsReported sample reporting_on cs d))
check_interprocedural_violations_lem_example =
    check_interprocedural_violations_lem sample reporting_on

format_requirement_reasons_lem_example :
    Chains sample reporting_on mu_key 3 (format_requirement_reasons sample reporting_on 3 mu_key 3)
    × (length (format_requirement_reasons sample reporting_on 3 mu_key 3) ≤ 3 * 6)
format_requirement_reasons_lem_example =
    format_requirement_reasons_lem sample reporting_on 3 mu_key 3

within :
    (p : ℕ)
    → leaks_at sample 0 mu_key reporting_on p ≡ true
    → contains (returns_of sample 0) p ≡ true
within p leaked = ground (arith, leaked)

compute_returns_holding_lem_example :
    (returns_holding sample 0 mu_key (compute_returns_holding sample reporting_on) ≡ true) ↔ (
      (returns_holding sample 0 mu_key reporting_on ≡ true)
      ⊎ LeaksAtEveryReturn sample 0 mu_key reporting_on)
unfolding ℕ_discrete
compute_returns_holding_lem_example =
    compute_returns_holding_lem sample reporting_on 0 mu_key (refl, tt) refl (refl, tt) within

report_deferred_lock_leaks_lem_example :
    (new : List Diagnostic) × (report_deferred_lock_leaks sample reporting_on
      ≡ record reporting_on { diagnostics = reporting_on.diagnostics ++ new })
    × ((d : Diagnostic)
        → Memᴰ d new ↔ (
            (entry : ℕ × List LockLeakCandidate) × Memᴰ entry reporting_on.lock_leak_candidates
            × ((c : LockLeakCandidate) × Memᴰ c entry.1 × IsLeaked sample reporting_on c d)))
report_deferred_lock_leaks_lem_example = report_deferred_lock_leaks_lem sample reporting_on

check_exported_guarded_fields_lem_example :
    (new : List Diagnostic) × (check_exported_guarded_fields sample reporting_on
      ≡ record reporting_on { diagnostics = reporting_on.diagnostics ++ new })
    × ((d : Diagnostic)
        → Memᴰ d new ↔ (
            (g : FieldKey × GuardInfo) × Memᴰ g reporting_on.guards
            × IsExposed sample reporting_on g d))
check_exported_guarded_fields_lem_example = check_exported_guarded_fields_lem sample reporting_on

-- The pass after `computeReturnsHolding`.
abbrev holding : PassContext
holding = compute_returns_holding sample reporting_on

check_callers_of_acquire_helpers_lem_example :
    (new : List Diagnostic) × (fs : Map ℕ FuncLockFacts) × (check_callers_of_acquire_helpers sample
        holding
      ≡ record holding { func_facts = fs; diagnostics = holding.diagnostics ++ new })
    × ((g : ℕ)
        → func_facts_of (check_callers_of_acquire_helpers sample holding) g
          ≡ func_facts_of holding g)
    × ((d : Diagnostic) → Memᴰ d new ↔ (OfHelper sample holding d ⊎ OfCaller sample holding d))
check_callers_of_acquire_helpers_lem_example = check_callers_of_acquire_helpers_lem sample holding
