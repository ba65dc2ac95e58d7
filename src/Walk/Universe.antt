-- ===== src/Walk/Universe.antt =====
-- The locks that the code of a function can take, release or defer, and how they bound a state.
use golintmu.Base.{
  ℕ, ◌+◌, ◌≤◌, ◌≡◌, true, List, [], ◌∷◌, ◌++◌, arith, contains, keys, contains-append, IsSubset,
  length, length-keys, length-le_of_subset, has-insert, has-delete, contains-add, nat_eq,
}
use golintmu.Ssa.{Program, Instr}
use golintmu.LockState.{LockRef, LockRef_eq, LockState, lock, unlock, defer_unlock}
use golintmu.LockState.Order.{IsValid, size}
use golintmu.Walk.Instrs.Effects.{
  Effect, acquires, releases, defers, neutral, effect_of, apply, run_locks, apply-IsValid,
}

abbrev effect_ref : Effect → List LockRef
effect_ref (acquires ref _) = ref ∷ []
effect_ref (releases ref) = []
effect_ref (defers ref) = ref ∷ []
effect_ref neutral = []

module _ (prog : Program) where
  open prog use {block}

  unfoldable pub instr_refs : List Instr → List LockRef
  instr_refs [] = []
  instr_refs (instr ∷ instrs) = effect_ref (effect_of prog instr.op) ++ instr_refs instrs

  unfoldable pub lock_refs : List ℕ → List LockRef
  unfolding instr_refs
  lock_refs [] = []
  lock_refs (b ∷ bs) = instr_refs (block b).instrs ++ lock_refs bs

-- A state whose locks are all in `refs`.
pub record IsWithin (refs : List LockRef) (ls : LockState) : Type 0 where
  pub valid : IsValid ls
  pub within_held : IsSubset (keys ls.held) refs
  pub within_deferred : IsSubset ls.deferred_unlocks refs

pub size-le :
    (refs : List LockRef) (ls : LockState) → IsWithin refs ls → size ls ≤ length refs + length refs
size-le refs ls h = omega (
  arith,
  length-keys ls.held,
  length-le_of_subset (keys ls.held) refs h.valid.distinct_held h.within_held,
  length-le_of_subset ls.deferred_unlocks refs h.valid.distinct_deferred h.within_deferred,
)

apply-IsWithin :
    (refs : List LockRef) (eff : Effect) (pos : ℕ) (ls : LockState)
    → IsSubset (effect_ref eff) refs
    → IsWithin refs ls
    → IsWithin refs (apply eff pos ls)
unfolding apply lock unlock defer_unlock
apply-IsWithin refs (acquires ref x) pos ls s h = record {
  valid = apply-IsValid (acquires ref x) pos ls h.valid;
  within_held = λ k m. ground (
    arith,
    has-insert ref k (record { ref = ref; exclusive = x; pos = pos }) ls.held,
    h.within_held k,
    s k,
  );
  within_deferred = h.within_deferred;
}
apply-IsWithin refs (releases ref) pos ls s h = record {
  valid = apply-IsValid (releases ref) pos ls h.valid;
  within_held = λ k m. ground (arith, has-delete ref k ls.held, h.within_held k);
  within_deferred = h.within_deferred;
}
apply-IsWithin refs (defers ref) pos ls s h = record {
  valid = apply-IsValid (defers ref) pos ls h.valid;
  within_held = h.within_held;
  within_deferred =
      λ k m. ground (arith, contains-add ref k ls.deferred_unlocks, h.within_deferred k, s k);
}
apply-IsWithin refs neutral pos ls s h = h

module _ (prog : Program) where
  pub run_locks-IsWithin :
      (refs : List LockRef) (instrs : List Instr) (ls : LockState)
      → IsSubset (instr_refs prog instrs) refs
      → IsWithin refs ls
      → IsWithin refs (run_locks prog instrs ls)
  unfolding run_locks instr_refs
  run_locks-IsWithin refs [] ls s h = h
  run_locks-IsWithin refs (instr ∷ instrs) ls s h =
      let part = contains-append (effect_ref (effect_of prog instr.op)) (instr_refs prog instrs) in
      run_locks-IsWithin refs instrs _ (λ k m. s k (ground (arith, part k)))
        (apply-IsWithin refs (effect_of prog instr.op) instr.pos ls
          (λ k m. s k (ground (arith, part k))) h)

  -- The locks of a block are among those of the function's blocks.
  pub instr_refs-lock_refs :
      (bs : List ℕ) (b : ℕ)
      → contains bs b ≡ true
      → IsSubset (instr_refs prog (prog.block b).instrs) (lock_refs prog bs)
  unfolding lock_refs
  instr_refs-lock_refs [] b h k m = absurd (cc)
  instr_refs-lock_refs (x ∷ bs) b h k m = ground (
    arith,
    contains-append (instr_refs prog (prog.block x).instrs) (lock_refs prog bs) k,
    instr_refs-lock_refs bs b,
    λ (p : contains bs b ≡ true). instr_refs-lock_refs bs b p k m,
  )
