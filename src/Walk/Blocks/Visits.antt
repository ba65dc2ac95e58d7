-- ===== src/Walk/Blocks/Visits.antt =====
-- The first visit of a block, and one that brings nothing new: `walkBlock` of
-- pkg/analyzer/ssawalk.go.
use golintmu.Base.{
  ℕ, suc, ◌+◌, ◌≤◌, ◌<◌, ◌≡◌, refl, ap, ◌∙◌, true, false, Option, none, some, List, [], ◌∷◌, arith,
  nat_eq, lookup, insert, has, contains, has-insert, length, Map, if◌then◌else◌,
}
use golintmu.Ssa.{Program}
use golintmu.LockState.{LockState, equal_held}
use golintmu.Pass.{PassContext}
use golintmu.Walk.Blocks.{WalkContext, revisit, enter_block, run_block, walk_succs, walk_block}
use golintmu.Walk.Blocks.Enter.{walk_block-returned, walk_block-walked}

abbrev pub Entries : Type 0
Entries = Map ℕ LockState

-- How many of the blocks are not visited.
unfoldable pub fresh : List ℕ → Entries → ℕ
fresh [] m = 0
fresh (b ∷ bs) m = (if has b m then 0 else 1) + fresh bs m

pub fresh-le : (bs : List ℕ) (m : Entries) → fresh bs m ≤ length bs
unfolding fresh
fresh-le [] m = omega arith
fresh-le (b ∷ bs) m = ground (arith, fresh-le bs m)

module _ (b : ℕ) (e : LockState) (m : Entries) where
  pub fresh-insert-le : (bs : List ℕ) → fresh bs (insert b e m) ≤ fresh bs m
  unfolding fresh
  fresh-insert-le [] = omega arith
  fresh-insert-le (x ∷ bs) = ground (arith, has-insert b x e m, fresh-insert-le bs)

  pub fresh-insert-lt :
      (bs : List ℕ) → contains bs b ≡ true → has b m ≡ false → fresh bs (insert b e m) < fresh bs m
  unfolding fresh
  fresh-insert-lt [] h new = absurd (cc)
  fresh-insert-lt (x ∷ bs) h new =
      ground (arith, has-insert b x e m, fresh-insert-le bs, fresh-insert-lt bs)

-- A round of a block whose recorded state holds the same locks, and one of a block without.
module _ (prog : Program) (fuel fn b : ℕ) (from : Option ℕ) (ls : LockState) (ctx : PassContext)
    (w : WalkContext) where
  pub walk_block-again :
      (e : LockState)
      → lookup b w.entry_states ≡ some e
      → equal_held ls e ≡ true
      → walk_block prog (suc fuel) fn b from ls (ctx, w) ≡ some (ctx, w)
  unfolding enter_block revisit
  walk_block-again e at same =
      let entered : enter_block prog fn b from ls (ctx, w) ≡ ((ctx, w), none) =
        rw (at, enter_block, same) refl in
      walk_block-returned prog fuel fn b from ls (ctx, w) (ap (λ r. r.1) entered)
      ∙ ap (λ r. some r.0) entered

  abbrev pub begun : PassContext × WalkContext
  begun =
      (run_block prog fn b false ls (ctx, record w { entry_states = insert b ls w.entry_states })).0

  pub walk_block-first :
      lookup b w.entry_states ≡ none
      → has b w.entry_states ≡ false
      → walk_block prog (suc fuel) fn b from ls (ctx, w)
        ≡ walk_succs
            (walk_block prog fuel fn)
            b
            (run_block prog fn b false ls
              (ctx, record w { entry_states = insert b ls w.entry_states })).1
            (prog.block b).succs
            begun
  unfolding enter_block
  walk_block-first at new =
      let entered : enter_block prog fn b from ls (ctx, w)
          ≡ ((ctx, record w { entry_states = insert b ls w.entry_states }), some ls) =
        rw (at, enter_block) refl in
      walk_block-walked prog fuel fn b from ls (ctx, w) ls (ap (λ r. r.1) entered)
      ∙ rw (entered, new) refl

  pub begun-entries : begun.1.entry_states ≡ insert b ls w.entry_states
  unfolding run_block
  begun-entries = refl

  pub begun-reported : begun.1.inconsistent_lock_reported ≡ w.inconsistent_lock_reported
  unfolding run_block
  begun-reported = refl
