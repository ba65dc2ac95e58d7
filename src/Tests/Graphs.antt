-- ===== src/Tests/Graphs.antt =====
-- Methods of the sample's type, by their blocks: two for which the walk is known to end, and two
-- for which the walk goes wrong.
use golintmu.Base.{
  ℕ, zero, suc, ◌≡◌, refl, true, false, inl, inr, Option, none, some, List, [], ◌∷◌, arith, ◌==◌,
  ltb, leb, if◌then◌else◌, nat_eq, ◌>>=◌, Bool, Bool-cases, all, contains, length, lookup, keys,
  subst, ℕ_discrete, dec_of_iff, Bool_discrete,
}
use golintmu.Ssa.{Program, call, return, store, Block, Instr}
use golintmu.LockState.{
  LockRef, LockRef_eq, LockRef_discrete, field_lock, LockState, lock, unlock, new_lock_state,
  equal_held, intersect,
}
use golintmu.LockState.Order.{IsValid, Below, Below-refl, new_lock_state-IsValid, equal_held_iff}
use golintmu.Pass.{new_pass_context}
use golintmu.Resolver.{is_lock_method, is_lock_acquire, is_exclusive_lock}
use golintmu.Walk.Locks.{receiver_ref}
use golintmu.Walk.Instrs.Effects.{effect_of, run_locks, run_locks-IsValid}
use golintmu.Walk.Blocks.{WalkContext, new_walk_context, walk_block, walk_fuel, walk_function}
use golintmu.Walk.Blocks.Rounds.{IsClosed, IsRanked}
use golintmu.Walk.Blocks.Once.{IsConsistent}
use golintmu.Walk.Blocks.Endless.{Restores, walk_block-endless}
use golintmu.Walk.Blocks.Total.{IsTame, AllTame}
use golintmu.Tests.Sample.{sample_of, call_on, at, all-at, IsClosed-of_test}

abbrev pub five : List ℕ
five = 0 ∷ 1 ∷ 2 ∷ 3 ∷ 4 ∷ []

abbrev pub lock_on : ℕ → ℕ → Instr
lock_on pos v = at pos (call (call_on 1 (v ∷ [])))

abbrev pub unlock_on : ℕ → ℕ → Instr
unlock_on pos v = at pos (call (call_on 2 (v ∷ [])))

abbrev block_of : List Instr → List ℕ → ℕ → Block
block_of instrs succs preds = record { instrs = instrs; succs = succs; preds = preds }

-- 0 locks and branches to 1, which unlocks, and to 2; both go on to 3, which writes `c.n` in a
-- loop, and then to the return.
abbrev pub straight : Program
straight = sample_of (
    (0, block_of (lock_on 10 2 ∷ []) (1 ∷ 2 ∷ []) 0)
    ∷ (1, block_of (unlock_on 20 2 ∷ []) (3 ∷ []) 1)
    ∷ (2, block_of [] (3 ∷ []) 1)
    ∷ (3, block_of (at 40 (store 3 8) ∷ []) (3 ∷ 4 ∷ []) 3)
    ∷ (4, block_of (at 50 return ∷ []) [] 1)
    ∷ [])

-- 0 locks, 1 and 2 write `c.n`, 1 in a loop, and 3 unlocks.
abbrev pub balanced : Program
balanced = sample_of (
    (0, block_of (lock_on 10 2 ∷ []) (1 ∷ 2 ∷ []) 0)
    ∷ (1, block_of (at 20 (store 3 8) ∷ []) (1 ∷ 3 ∷ []) 2)
    ∷ (2, block_of (at 30 (store 3 8) ∷ []) (3 ∷ []) 1)
    ∷ (3, block_of (unlock_on 40 2 ∷ []) (4 ∷ []) 2)
    ∷ (4, block_of (at 50 return ∷ []) [] 1)
    ∷ [])

pub straight-IsClosed : IsClosed straight five
unfolding ℕ_discrete
straight-IsClosed = IsClosed-of_test straight five refl

pub balanced-IsClosed : IsClosed balanced five
unfolding ℕ_discrete
balanced-IsClosed = IsClosed-of_test balanced five refl

abbrev loops : ℕ → Bool
loops b = b == 3

abbrev ranks : ℕ → ℕ
ranks b = elim b [
  | zero ↦ 3
  | suc c ↦ elim c [
    | zero ↦ 2
    | suc d ↦ elim d [ zero ↦ 2 | suc e ↦ elim e [ zero ↦ 1 | suc _ ↦ 0 ] ]
  ]
]

-- An edge falls, or is level after a steady block.
edge_falls : (ℕ → Bool) → (ℕ → ℕ) → ℕ → ℕ → Bool
edge_falls steady rank b s = if steady b then leb (rank s) (rank b) else ltb (rank s) (rank b)

-- Ranks are decided by a test, but for what the instructions do to the locks.
IsRanked-of_test :
    (prog : Program) (bs : List ℕ) (steady : ℕ → Bool) (rank : ℕ → ℕ)
    → all (λ b. leb (rank b) (length bs)) bs ≡ true
    → all (λ b. all (edge_falls steady rank b) (prog.block b).succs) bs ≡ true
    → ((b : ℕ)
        → contains bs b ≡ true
        → steady b ≡ true
        → (ls : LockState) → IsValid ls
        → Below (run_locks prog (prog.block b).instrs ls) ls)
    → IsRanked prog bs steady rank
unfolding edge_falls
IsRanked-of_test prog bs steady rank low falls loses =
    let edge : (b s : ℕ)
        → contains bs b ≡ true
        → contains (prog.block b).succs s ≡ true
        → edge_falls steady rank b s ≡ true =
      λ b s m k.
        all-at (edge_falls steady rank b) (prog.block b).succs s
          (all-at (λ c. all (edge_falls steady rank c) (prog.block c).succs) bs b falls m) k in
    record {
      bounded = λ b m. let h = all-at (λ c. leb (rank c) (length bs)) bs b low m in ground arith;
      never_up = λ b s m k. let h = edge b s m k in ground arith;
      down = λ b s m un k. let h = edge b s m k in ground arith;
      loses = loses;
    }

straight-IsRanked : IsRanked straight five loops ranks
unfolding ℕ_discrete edge_falls run_locks
straight-IsRanked = IsRanked-of_test straight five loops ranks refl refl λ b m st ls v.
    let e : 3 ≡ b = ground arith in
    subst (λ (c : ℕ). Below (run_locks straight (straight.block c).instrs ls) ls) e (Below-refl ls)

straight-IsTame : IsTame straight 0
unfolding ℕ_discrete
straight-IsTame = record {
  closed = straight-IsClosed;
  tame = inl (loops, ranks, straight-IsRanked);
}

-- The states that the blocks of `balanced` are entered with.
abbrev locked : LockState
locked = run_locks balanced (balanced.block 0).instrs new_lock_state

abbrev pub entered_with : ℕ → LockState
entered_with b = elim b [
  | zero ↦ new_lock_state
  | suc c ↦ if ltb c 3 then locked else run_locks balanced (balanced.block 3).instrs locked
]

locked-IsValid : IsValid locked
locked-IsValid =
    run_locks-IsValid balanced (balanced.block 0).instrs new_lock_state new_lock_state-IsValid

entered_with-IsValid : (b : ℕ) → IsValid (entered_with b)
entered_with-IsValid zero = new_lock_state-IsValid
entered_with-IsValid (suc c) = elim (Bool-cases (ltb c 3)) [
  | inl early ↦ rw early locked-IsValid
  | inr late ↦ rw late (run_locks-IsValid balanced (balanced.block 3).instrs locked locked-IsValid)
]

abbrev arrives : ℕ → ℕ → Bool
arrives b s =
    equal_held (run_locks balanced (balanced.block b).instrs (entered_with b)) (entered_with s)

pub balanced-IsConsistent : IsConsistent balanced five 0 entered_with
unfolding ℕ_discrete LockRef_discrete equal_held run_locks is_lock_method dec_of_iff receiver_ref
    is_lock_acquire lock unlock
balanced-IsConsistent = record {
  start = (Below-refl new_lock_state, Below-refl new_lock_state);
  step = λ b s m k.
      (equal_held_iff (run_locks balanced (balanced.block b).instrs (entered_with b))
          (entered_with s)
          (run_locks-IsValid balanced (balanced.block b).instrs (entered_with b)
            (entered_with-IsValid b))
          (entered_with-IsValid s)).0
        (all-at (arrives b) (balanced.block b).succs s
          (all-at (λ c. all (arrives c) (balanced.block c).succs) five b refl m) k);
}

all-tame : (prog : Program) → prog.src_funcs ≡ 0 ∷ [] → IsTame prog 0 → AllTame prog
all-tame prog only t fn m =
    let m' : contains (0 ∷ []) fn ≡ true = subst (λ l. contains l fn ≡ true) only m in
    let e : 0 ≡ fn = ground arith in subst (λ (f : ℕ). IsTame prog f) e t

pub straight-AllTame : AllTame straight
straight-AllTame = all-tame straight refl straight-IsTame

pub balanced-AllTame : AllTame balanced
unfolding ℕ_discrete
balanced-AllTame = all-tame balanced refl (record {
  closed = balanced-IsClosed;
  tame = inr (
    entered_with,
    λ entry rest e.
        let same : 0 ≡ entry = ground arith in
        subst (λ (b : ℕ). IsConsistent balanced five b entered_with) same balanced-IsConsistent,
  );
})

-- 1 locks `mu`, 2 does not, and both go on to 3, which locks the one at 13.
abbrev pub one_branch : Program
one_branch = sample_of (
    (0, block_of [] (1 ∷ 2 ∷ []) 0)
    ∷ (1, block_of (lock_on 10 2 ∷ []) (3 ∷ []) 1)
    ∷ (2, block_of [] (3 ∷ []) 1)
    ∷ (3, block_of (lock_on 20 13 ∷ []) (4 ∷ []) 2)
    ∷ (4, block_of (at 50 return ∷ []) [] 1)
    ∷ [])

-- 1 and 2 are a loop, in which each releases what the other takes, and 2 also what 0 took.
abbrev pub swapping : Program
swapping = sample_of (
    (0, block_of (lock_on 10 2 ∷ lock_on 11 14 ∷ []) (1 ∷ []) 0)
    ∷ (1, block_of (unlock_on 20 2 ∷ lock_on 21 13 ∷ []) (2 ∷ []) 2)
    ∷ (2, block_of (unlock_on 30 13 ∷ lock_on 31 2 ∷ unlock_on 32 14 ∷ []) (1 ∷ []) 1)
    ∷ [])

abbrev pub refs_at : Program → ℕ → Option (List LockRef)
refs_at prog b =
    walk_block prog (walk_fuel prog 0) 0 0 none new_lock_state
      (new_pass_context false, new_walk_context)
    >>= λ (_, w). lookup b w.entry_states >>= λ e. some (keys e.held)

abbrev second : LockRef
second = record { kind = field_lock; base = 11; field_index = 0 }

-- No path has the lock at 13 when it enters block 3; the walk ends with it recorded there.
one_branch_recorded : refs_at one_branch 3 ≡ some (second ∷ [])
unfolding ℕ_discrete walk_block walk_fuel effect_of dec_of_iff LockRef_discrete Bool_discrete
one_branch_recorded = refl

-- The walk is still going on after its fuel.
swapping_walk : walk_function swapping (new_pass_context false) 0 ≡ none
unfolding ℕ_discrete walk_function effect_of dec_of_iff new_pass_context LockRef_discrete
    Bool_discrete
swapping_walk = refl

abbrev first : LockRef
first = record { kind = field_lock; base = 1; field_index = 0 }

-- What blocks 1 and 2 of `swapping` hand to each other.
abbrev with_second : LockState
with_second = lock new_lock_state second true 21

abbrev with_first : LockState
with_first = lock new_lock_state first true 31

Restores-second : Restores swapping 1 with_second with_first
unfolding ℕ_discrete LockRef_discrete Bool_discrete equal_held intersect run_locks effect_of
    is_lock_method is_lock_acquire is_exclusive_lock receiver_ref dec_of_iff lock unlock
Restores-second = record { differs = refl; falls = refl; restored = refl }

Restores-first : Restores swapping 2 with_first with_second
unfolding ℕ_discrete LockRef_discrete Bool_discrete equal_held intersect run_locks effect_of
    is_lock_method is_lock_acquire is_exclusive_lock receiver_ref dec_of_iff lock unlock
Restores-first = record { differs = refl; falls = refl; restored = refl }

abbrev swapping_context : WalkContext
swapping_context = record new_walk_context {
  entry_states = (1, with_second) ∷ (2, with_first) ∷ [];
}

walk_block-endless_example :
    walk_block swapping 100 0 1 (some 2) with_first (new_pass_context false, swapping_context)
    ≡ none
unfolding ℕ_discrete
walk_block-endless_example =
    walk_block-endless swapping 0 1 2 with_second with_first refl refl refl Restores-second
      Restores-first 100 (some 2) (new_pass_context false) swapping_context refl refl
