-- ===== src/Walk/Blocks.antt =====
-- pkg/analyzer/ssawalk.go: `walkBlock`, `walkFunction` and `collectObservations`.
pub mod Enter
pub mod Potential
pub mod Rounds
pub mod Ends
pub mod Endless
pub mod Visits
pub mod Once
pub mod Sound
pub mod Total
use golintmu.Base.{
  ℕ, zero, suc, ◌+◌, ◌*◌, Bool, true, false, not, ◌&&◌, Option, none, some, List, [], ◌∷◌,
  if◌then◌else◌, nat_eq, ◌>>=◌, Map, lookup, insert, contains, add, length, ltb, has,
}
use golintmu.Ssa.{Program}
use golintmu.LockState.{LockState, new_lock_state, fork, equal_held, intersect}
use golintmu.Pass.{PassContext}
use golintmu.Report.{report_inconsistent_lock_state}
use golintmu.Walk.Instrs.{process_block}
use golintmu.Walk.Universe.{lock_refs}

-- `walkContext`; its function is the argument `fn`.
pub record WalkContext : Type 0 where
  pub entry_states : Map ℕ LockState
  pub exit_states : Map ℕ LockState
  pub inconsistent_lock_reported : List ℕ

abbrev pub new_walk_context : WalkContext
new_walk_context = record { entry_states = []; exit_states = []; inconsistent_lock_reported = [] }

-- The loop over `block.Succs`. `walk` is the recursive call.
unfoldable pub walk_succs :
    (ℕ → Option ℕ → LockState → PassContext × WalkContext → Option (PassContext × WalkContext))
    → ℕ
    → LockState
    → List ℕ
    → PassContext × WalkContext
    → Option (PassContext × WalkContext)
walk_succs walk b ls [] s = some s
walk_succs walk b ls (succ ∷ succs) s =
    walk succ (some b) (fork ls) s >>= walk_succs walk b ls succs

module _ (prog : Program) where
  open prog use {func, block, dominates, src_funcs}

  unfoldable pub is_back_edge : ℕ → ℕ → Bool
  is_back_edge from to = dominates to from

  -- The condition under which a merge point is reported.
  is_reportable : WalkContext → ℕ → Option ℕ → Bool
  unfolding is_back_edge
  is_reportable w b none = false
  is_reportable w b (some from) =
      not (contains w.inconsistent_lock_reported b)
      && ltb 1 (block b).preds
      && not (is_back_edge from b)

  -- The head of `walkBlock`, where the block was visited with state `prev_entry` before. The
  -- state is the one to walk the block with; `none` is an early return.
  unfoldable pub revisit :
      ℕ
      → ℕ
      → Option ℕ
      → LockState
      → LockState
      → PassContext × WalkContext
      → (PassContext × WalkContext) × Option LockState
  unfolding equal_held intersect is_reportable report_inconsistent_lock_state
  revisit fn b from prev_entry ls (ctx, w) =
      if equal_held ls prev_entry
      then ((ctx, w), none)
      else (let merged = intersect prev_entry ls in
          let reported : PassContext × WalkContext =
            if is_reportable w b from
            then (
              report_inconsistent_lock_state prog ctx fn b prev_entry ls,
              record w { inconsistent_lock_reported = add b w.inconsistent_lock_reported },
            )
            else (ctx, w) in
          if equal_held merged prev_entry then (reported, none) else (
            (
              reported.0,
              record reported.1 { entry_states = insert b merged reported.1.entry_states },
            ),
            some merged,
          ))

  unfoldable pub enter_block :
      ℕ
      → ℕ
      → Option ℕ
      → LockState
      → PassContext × WalkContext
      → (PassContext × WalkContext) × Option LockState
  unfolding revisit
  enter_block fn b from ls (ctx, w) = elim (lookup b w.entry_states) [
    | some prev_entry ↦ revisit fn b from prev_entry ls (ctx, w)
    | none ↦ ((ctx, record w { entry_states = insert b (fork ls) w.entry_states }), some ls)
  ]

  -- The instructions of the block, and the state at its exit. They change `ls` in place. A block
  -- that was visited before is walked with the very state that `entryStates` holds for it, where
  -- the first visit holds a copy: with `shared`, the change shows in the recorded entry state.
  unfoldable pub run_block :
      ℕ → ℕ → Bool → LockState → PassContext × WalkContext → (PassContext × WalkContext) × LockState
  unfolding process_block
  run_block fn b shared ls (ctx, w) =
      let (ctx', exit) = process_block prog fn (block b).instrs (ctx, ls) in
      (
        (
          ctx',
          record w {
            entry_states = if shared then insert b exit w.entry_states else w.entry_states;
            exit_states = insert b (fork exit) w.exit_states;
          },
        ),
        exit,
      )

  -- `walkBlock`. `none`: the fuel, which bounds the depth of the recursion, ran out.
  unfoldable pub walk_block :
      ℕ
      → ℕ
      → ℕ
      → Option ℕ
      → LockState
      → PassContext × WalkContext
      → Option (PassContext × WalkContext)
  unfolding enter_block run_block walk_succs
  walk_block zero fn b from ls s = none
  walk_block (suc fuel) fn b from ls s =
      let (entered, walked) = enter_block fn b from ls s in
      elim walked [
        | none ↦ some entered
        | some ls' ↦
            let visited = has b s.1.entry_states in
            let (ran, exit) = run_block fn b visited ls' entered in
            walk_succs (walk_block fuel fn) b exit (block b).succs ran
      ]

  -- The recursion can be endless, where Go's stack overflows. The fuel is enough for the functions
  -- of Ends and Sound.
  unfoldable pub walk_fuel : ℕ → ℕ
  unfolding lock_refs
  walk_fuel fn =
      let n = length (lock_refs prog (func fn).blocks) in
      suc (length (func fn).blocks * suc (suc (n + n)))

  unfoldable pub walk_function : PassContext → ℕ → Option PassContext
  unfolding walk_block walk_fuel
  walk_function ctx fn = elim (func fn).blocks [
    | [] ↦ some ctx
    | entry ∷ _ ↦
        walk_block (walk_fuel fn) fn entry none new_lock_state (ctx, new_walk_context)
        >>= λ (ctx', _). some ctx'
  ]

  unfoldable pub walk_functions : List ℕ → PassContext → Option PassContext
  unfolding walk_function
  walk_functions [] ctx = some ctx
  walk_functions (fn ∷ fns) ctx = walk_function ctx fn >>= walk_functions fns

  unfoldable pub collect_observations : PassContext → Option PassContext
  unfolding walk_functions
  collect_observations ctx = walk_functions src_funcs ctx
