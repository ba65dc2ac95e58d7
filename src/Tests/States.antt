-- ===== src/Tests/States.antt =====
-- The theorems on lock states and on resolved values, at states and values of the sample.
use golintmu.Base.{
  ℕ, ◌≡◌, ◌↔◌, true, false, not, ◌&&◌, ◌||◌, some, List, [], arith, ◌==◌, if◌then◌else◌, nat_eq,
  has, lookup, contains,
}
use golintmu.LockState.{
  LockRef, LockRef_eq, field_lock, LockState, new_lock_state, lock, defer_unlock, equal_held,
  intersect, diff,
}
use golintmu.LockState.Order.{
  IsValid, Below, new_lock_state-IsValid, lock-IsValid, defer_unlock-IsValid, equal_held_iff,
}
use golintmu.LockState.Merge.{agreed, intersect_lem}
use golintmu.LockState.Diff.{diff_lem, IsSorted}
use golintmu.Resolver.{unwrap_visited, unwrap_fuel, unwrap_ssa_value, canonicalize_from}
use golintmu.Resolver.Fuel.{IsListed, unwrap_total, canonicalize_total}
use golintmu.Resolver.Phi.{IsRun, unwrap_ssa_value-same}
use golintmu.Tests.Sample.{sample}

abbrev pub mu : LockRef
mu = record { kind = field_lock; base = 1; field_index = 0 }

abbrev other_mu : LockRef
other_mu = record { kind = field_lock; base = 9; field_index = 2 }

-- `mu` held for writing, and both held with a deferred unlock of `mu`.
abbrev one_held : LockState
one_held = lock new_lock_state mu true 10

abbrev both_held : LockState
both_held = defer_unlock (lock (lock new_lock_state mu true 12) other_mu false 13) mu

one_held-IsValid : IsValid one_held
one_held-IsValid = lock-IsValid new_lock_state mu true 10 new_lock_state-IsValid

both_held-IsValid : IsValid both_held
both_held-IsValid =
    defer_unlock-IsValid (lock (lock new_lock_state mu true 12) other_mu false 13) mu (
      lock-IsValid (lock new_lock_state mu true 12) other_mu false 13
        (lock-IsValid new_lock_state mu true 12 new_lock_state-IsValid))

equal_held_iff_example :
    (equal_held one_held both_held ≡ true) ↔ (Below one_held both_held × Below both_held one_held)
equal_held_iff_example = equal_held_iff one_held both_held one_held-IsValid both_held-IsValid

intersect_lem_example :
    (lookup mu (intersect both_held one_held).held
      ≡ agreed (lookup mu both_held.held) (lookup mu one_held.held))
    × (contains (intersect both_held one_held).deferred_unlocks mu
        ≡ (contains both_held.deferred_unlocks mu && contains one_held.deferred_unlocks mu))
intersect_lem_example = intersect_lem both_held one_held mu both_held-IsValid

diff_lem_example :
    (contains (diff both_held one_held).0 other_mu
      ≡ (has other_mu both_held.held && not (has other_mu one_held.held)))
    × (contains (diff both_held one_held).1 other_mu
        ≡ (has other_mu one_held.held && not (has other_mu both_held.held)))
    × IsSorted (diff both_held one_held).0
    × IsSorted (diff both_held one_held).1
diff_lem_example = diff_lem both_held one_held other_mu

sample-IsListed : IsListed sample
sample-IsListed = record {
  listed_phi = λ v edges h. ground (arith, h);
  listed_unop = λ v op x h. ground (arith, h);
}

unwrap_total_example : (r : ℕ × List ℕ) × (unwrap_visited sample (unwrap_fuel sample) 7 [] ≡ some r)
unwrap_total_example = unwrap_total sample sample-IsListed 7

canonicalize_total_example : (w : ℕ) × (canonicalize_from sample (unwrap_fuel sample) 5 [] ≡ some w)
canonicalize_total_example = canonicalize_total sample sample-IsListed 5

-- Each name of the receiver has its value.
abbrev run : ℕ → ℕ
run v = if v == 1 || v == 4 || v == 7 then 100 else v

sample-IsRun : IsRun sample run
sample-IsRun v edges h = (1, ground (arith, h), ground (arith, h))

unwrap_ssa_value-same_example : run 7 ≡ run (unwrap_ssa_value sample 7)
unwrap_ssa_value-same_example = unwrap_ssa_value-same run sample sample-IsRun 7
