-- ===== src/Walk/Blocks/Endless.antt =====
-- Loops of two blocks that the walk of pkg/analyzer/ssawalk.go does not leave, since a later visit
-- of a block turns its recorded entry state into its exit state.
use golintmu.Base.{
  ℕ, zero, suc, ◌≡◌, refl, ◌∙◌, true, false, Option, none, some, [], ◌∷◌, arith, ◌==◌, nat_eq,
  ◌>>=◌, lookup, insert, has, has_of_lookup, lookup-insert,
}
use golintmu.Ssa.{Program}
use golintmu.LockState.{LockState, equal_held, intersect}
use golintmu.Pass.{PassContext}
use golintmu.Walk.Instrs.Effects.{run_locks}
use golintmu.Walk.Blocks.{WalkContext, revisit, enter_block, run_block, walk_succs, walk_block}
use golintmu.Walk.Blocks.Enter.{run_block_lem, walk_block-walked}

-- A visit of a block whose recorded state falls.
module _ (prog : Program) (fn b : ℕ) (from : Option ℕ) (ls prev : LockState) (ctx : PassContext)
    (w : WalkContext) (at : lookup b w.entry_states ≡ some prev)
    (differs : equal_held ls prev ≡ false)
    (falls : equal_held (intersect prev ls) prev ≡ false) where
  enter-merged : (enter_block prog fn b from ls (ctx, w)).1 ≡ some (intersect prev ls)
  unfolding enter_block revisit
  enter-merged = ground (arith, at, differs, falls)

  enter-recorded :
      (enter_block prog fn b from ls (ctx, w)).0.1.entry_states
      ≡ insert b (intersect prev ls) w.entry_states
  unfolding enter_block revisit
  enter-recorded = ground (arith, at, differs, falls)

-- What the block at `b` makes of the locks that `mine` and `other` share is `mine` again, and they
-- share less than `mine`.
pub record Restores (prog : Program) (b : ℕ) (mine other : LockState) : Type 0 where
  pub differs : equal_held other mine ≡ false
  pub falls : equal_held (intersect mine other) mine ≡ false
  pub restored : run_locks prog (prog.block b).instrs (intersect mine other) ≡ mine

-- After a visit of block `b` that arrives with `other`, `mine` is recorded for it again, and is
-- handed to its one successor.
lap :
    (prog : Program) (fuel fn b c : ℕ) (from : Option ℕ) (mine other : LockState)
    (ctx : PassContext) (w : WalkContext)
    → Restores prog b mine other
    → (prog.block b).succs ≡ c ∷ []
    → (b == c) ≡ false
    → lookup b w.entry_states ≡ some mine
    → lookup c w.entry_states ≡ some other
    → (s : PassContext × WalkContext) × (walk_block prog (suc fuel) fn b from other (ctx, w) ≡ (
        walk_block prog fuel fn c (some b) mine s
        >>= walk_succs (walk_block prog fuel fn) b mine []))
      × (lookup b s.1.entry_states ≡ some mine)
      × (lookup c s.1.entry_states ≡ some other)
unfolding walk_succs
lap prog fuel fn b c from mine other ctx w r succs apart at at' =
    let merged = intersect mine other in
    let entered = (enter_block prog fn b from other (ctx, w)).0 in
    let visited : has b w.entry_states ≡ true = has_of_lookup b mine w.entry_states at in
    let (changed, exit) = run_block_lem prog fn b true merged entered.0 entered.1 in
    let ran = run_block prog fn b true merged entered in
    let left : ran.1 ≡ mine = exit ∙ r.restored in
    let recorded : ran.0.1.entry_states ≡ insert b mine (insert b merged w.entry_states) =
      changed
      ∙ rw (r.restored, enter-recorded prog fn b from other mine ctx w at r.differs r.falls) refl in
    let walked =
      walk_block-walked prog fuel fn b from other (ctx, w) merged
        (enter-merged prog fn b from other mine ctx w at r.differs r.falls) in
    (
      ran.0,
      walked ∙ rw (visited, succs, left) refl,
      rw recorded (ground (arith, lookup-insert b b mine (insert b merged w.entry_states))),
      rw recorded (
          ground (
            arith,
            lookup-insert b c mine (insert b merged w.entry_states),
            lookup-insert b c merged w.entry_states,
          )),
    )

-- Two blocks are each other's only successor, and each turns what the two states have in common
-- into its own state, which is more. Once these states are recorded for them, a walk that arrives
-- at one block with the other's state returns at no depth of the recursion.
pub walk_block-endless :
    (prog : Program) (fn b c : ℕ) (mine other : LockState)
    → (prog.block b).succs ≡ c ∷ []
    → (prog.block c).succs ≡ b ∷ []
    → (b == c) ≡ false
    → Restores prog b mine other
    → Restores prog c other mine
    → (fuel : ℕ) (from : Option ℕ) (ctx : PassContext) (w : WalkContext)
    → lookup b w.entry_states ≡ some mine
    → lookup c w.entry_states ≡ some other
    → walk_block prog fuel fn b from other (ctx, w) ≡ none
unfolding walk_block
walk_block-endless prog fn b c mine other to back apart r r' zero from ctx w at at' = refl
walk_block-endless prog fn b c mine other to back apart r r' (suc fuel) from ctx w at at' =
    let (s, step, here, there) = lap prog fuel fn b c from mine other ctx w r to apart at at' in
    let next =
      walk_block-endless prog fn c b other mine back to (ground (arith, apart)) r' r fuel (some b)
        s.0 s.1 there here in
    step ∙ rw (next, ◌>>=◌) refl
