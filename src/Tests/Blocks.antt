-- ===== src/Tests/Blocks.antt =====
-- The theorems on the walk, for the method of the sample.
use golintmu.Base.{ℕ, ◌≡◌, refl, true, false, none, some, [], ◌∷◌, ℕ_discrete, nat_eq, contains}
use golintmu.LockState.{LockState, new_lock_state, lock}
use golintmu.LockState.Order.{Below-refl}
use golintmu.Pass.{PassContext, new_pass_context}
use golintmu.Walk.Instrs.{process_block}
use golintmu.Walk.Instrs.Effects.{run_locks, process_block-locks}
use golintmu.Walk.Blocks.{
  WalkContext, new_walk_context, walk_block, walk_fuel, collect_observations,
}
use golintmu.Walk.Blocks.Total.{collect_observations-total}
use golintmu.Tests.Graphs.{
  straight, straight-AllTame, balanced, balanced-AllTame, balanced-IsClosed, balanced-IsConsistent,
  entered_with,
}
use golintmu.Walk.Observed.{IsObserved}
use golintmu.Walk.Observed.Blocks.{collect_observations-IsObserved}
use golintmu.Directives.{parse_annotations}
use golintmu.Walk.Blocks.Once.{Same}
use golintmu.Walk.Blocks.Sound.{At, at_entry, at_succ, walk_sound}
use golintmu.Base.{lookup, lookup_list, has, not, ◌&&◌, if◌then◌else◌, nat_eq, ◌==◌}
use golintmu.LockState.{LockRef_eq}
use golintmu.Walk.Locks.{check_return_with_held_locks}
use golintmu.Walk.Locks.Leaks.{names, check_return_with_held_locks_lem}
use golintmu.Tests.Sample.{sample}
use golintmu.Tests.States.{mu}

abbrev start : PassContext
start = new_pass_context true

path_to_branch : At balanced 0 1 (run_locks balanced (balanced.block 0).instrs new_lock_state)
unfolding ℕ_discrete
path_to_branch = at_succ at_entry refl

path_locks : Same (entered_with 1) (run_locks balanced (balanced.block 0).instrs new_lock_state)
path_locks = (Below-refl (entered_with 1), Below-refl (entered_with 1))

walk_sound_example :
    (s : PassContext × WalkContext) × (walk_block balanced
        (walk_fuel balanced 0)
        0
        0
        none
        new_lock_state
        (start, new_walk_context)
      ≡ some s)
    × (s.1.inconsistent_lock_reported ≡ [])
    × ((b : ℕ) (ls : LockState)
        → At balanced 0 b ls
        → (e : LockState) × (lookup b s.1.entry_states ≡ some e) × Same e ls)
unfolding ℕ_discrete
walk_sound_example =
    walk_sound balanced 0 0 (1 ∷ 2 ∷ 3 ∷ 4 ∷ []) start entered_with refl balanced-IsClosed
      balanced-IsConsistent

collect_observations-total_example :
    (ctx' : PassContext) × (collect_observations straight start ≡ some ctx')
collect_observations-total_example = collect_observations-total straight start straight-AllTame

collect_observations-IsObserved_example :
    (ctx : PassContext) × (collect_observations balanced
        (parse_annotations balanced [] (new_pass_context false))
      ≡ some ctx)
    × IsObserved balanced ctx.observations
collect_observations-IsObserved_example =
    collect_observations-IsObserved balanced [] false balanced-AllTame

process_block-locks_example :
    (process_block sample 0 (sample.block 0).instrs (start, new_lock_state)).1
    ≡ run_locks sample (sample.block 0).instrs new_lock_state
process_block-locks_example =
    process_block-locks sample 0 (sample.block 0).instrs (start, new_lock_state)

-- The state at a return with `mu` held.
abbrev held : LockState
held = lock new_lock_state mu true 10

check_return_with_held_locks_lem_example :
    (names mu
        (lookup_list 50 (check_return_with_held_locks sample start 0 50 held).lock_leak_candidates)
      ≡ (has mu held.held && not (contains held.deferred_unlocks mu)))
    × ((pos : ℕ)
        → lookup pos (check_return_with_held_locks sample start 0 50 held).lock_leak_candidates ≡ (
            if 50 == pos
            then lookup 50
                (check_return_with_held_locks sample start 0 50 held).lock_leak_candidates
            else lookup pos start.lock_leak_candidates))
check_return_with_held_locks_lem_example =
    check_return_with_held_locks_lem sample start 0 50 held mu
