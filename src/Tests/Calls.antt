-- ===== src/Tests/Calls.antt =====
-- The theorems on chains of calls, for a function that the sample's method requires a lock of.
use golintmu.Base.{
  ℕ, ◌≡◌, refl, ◌↔◌, ◌⊎◌, true, false, none, some, List, [], ◌∷◌, arith, ℕ_discrete, nat_eq,
  pair_eq, contains,
}
use golintmu.Base.Fixpoint.{given, derived}
use golintmu.Pass.{PassContext, new_pass_context, CallSiteRecord, MutexFieldKey}
use golintmu.Pass.Keys.{MutexFieldKey_eq, MutexFieldKey_discrete}
use golintmu.FuncFacts.{new_func_lock_facts, func_facts_of, add_requires}
use golintmu.Interproc.{
  propagate_requirements, caller_holds_mutex, is_pre_publication_constructor_call,
}
use golintmu.Interproc.Requires.{requires, asks}
use golintmu.Interproc.Least.{
  IsAskedFor, propagate_requirements_sound, propagate_requirements_least,
}
use golintmu.Concurrency.{compute_concurrent_context, is_concurrent, detect_concurrent_entrypoints}
use golintmu.Concurrency.Reachable.{Reach, compute_concurrent_context_lem}
use mathlib.Core.List.{Memᴰ, ◌++◌}
use golintmu.Pass.{UnlockOfUnlockedCandidate, Diagnostic}
use golintmu.Unlocks.{report_deferred_unlock_of_unlocked}
use golintmu.Unlocks.Unmatched.{IsUnmatched, report_deferred_unlock_of_unlocked_lem}
use golintmu.Tests.States.{mu}
use golintmu.Tests.Sample.{sample}

abbrev mu_key : MutexFieldKey
mu_key = record { struct_type = 0; field_index = 0 }

abbrev call_site : ℕ → ℕ → CallSiteRecord
call_site caller callee = record {
  caller = caller;
  callee = callee;
  pos = 60;
  held_by_struct_type = [];
  receiver_value = none;
}

-- 4 calls 3, which requires `mu`, and 5 calls 4.
abbrev calling : PassContext
calling = record (new_pass_context false) {
  call_sites = call_site 4 3 ∷ call_site 5 4 ∷ [];
  func_facts = (3, add_requires mu_key new_func_lock_facts) ∷ [];
}

abbrev universe : List (ℕ × MutexFieldKey)
universe = (3, mu_key) ∷ (4, mu_key) ∷ (5, mu_key) ∷ []

in_universe : (x : ℕ × MutexFieldKey) → IsAskedFor sample calling x → contains universe x ≡ true
unfolding requires func_facts_of
in_universe x (given m) = ground (arith, m)
in_universe y (derived {x} d r) = ground (arith, in_universe x d, r)

propagate_requirements_least_example :
    (requires (propagate_requirements sample calling) (5, mu_key) ≡ true)
    ↔ IsAskedFor sample calling (5, mu_key)
propagate_requirements_least_example =
    propagate_requirements_least sample calling universe in_universe (omega arith) (5, mu_key)

holds : requires calling (3, mu_key) ≡ true
unfolding requires func_facts_of ℕ_discrete MutexFieldKey_discrete
holds = refl

to_four : asks sample calling.call_sites (3, mu_key) (4, mu_key) ≡ true
unfolding caller_holds_mutex is_pre_publication_constructor_call ℕ_discrete MutexFieldKey_discrete
to_four = refl

to_five : asks sample calling.call_sites (4, mu_key) (5, mu_key) ≡ true
unfolding caller_holds_mutex is_pre_publication_constructor_call ℕ_discrete MutexFieldKey_discrete
to_five = refl

required : requires (propagate_requirements sample calling) (5, mu_key) ≡ true
required =
    (propagate_requirements_least sample calling universe in_universe (omega arith) (5, mu_key)).1
      (derived (derived (given holds) to_four) to_five)

propagate_requirements_sound_example : IsAskedFor sample calling (5, mu_key)
propagate_requirements_sound_example =
    propagate_requirements_sound sample calling (5, mu_key) required

compute_concurrent_context_lem_example :
    (ctx' : PassContext) × (compute_concurrent_context sample calling ≡ some ctx')
    × ((f : ℕ)
        → (is_concurrent ctx' f ≡ true) ↔ (
            (detect_concurrent_entrypoints sample calling ≡ [])
            ⊎ Reach (detect_concurrent_entrypoints sample calling) calling.call_sites f))
compute_concurrent_context_lem_example = compute_concurrent_context_lem sample calling

-- 5 unlocks `mu`, which it has not locked.
abbrev unlocking : PassContext
unlocking = record calling {
  unlock_of_unlocked_candidates = record { fn = 5; pos = 80; ref = mu } ∷ [];
}

report_deferred_unlock_of_unlocked_lem_example :
    (new : List Diagnostic) × (report_deferred_unlock_of_unlocked sample unlocking
      ≡ record unlocking { diagnostics = unlocking.diagnostics ++ new })
    × ((d : Diagnostic)
        → Memᴰ d new ↔ (
            (c : UnlockOfUnlockedCandidate) × Memᴰ c unlocking.unlock_of_unlocked_candidates
            × IsUnmatched sample unlocking c d))
report_deferred_unlock_of_unlocked_lem_example =
    report_deferred_unlock_of_unlocked_lem sample unlocking
