-- ===== src/Walk/Blocks/Rounds.antt =====
-- What one round of a block does to the recorded entry states, in the walk of
-- pkg/analyzer/ssawalk.go.
use golintmu.Base.{
  ℕ, ◌+◌, ◌≤◌, ◌<◌, ◌≡◌, ◌∙◌, Bool, true, false, inl, inr, some, List, arith, ◌==◌, nat_eq,
  Bool-cases, Option-cases, lookup, insert, Map, contains, length, lookup-insert, IsSubset,
  if◌then◌else◌, keep, contains-keep,
}
use golintmu.Ssa.{Program}
use golintmu.LockState.{LockRef, LockRef_eq, LockState}
use golintmu.LockState.Order.{IsValid, Below, size}
use golintmu.Walk.Instrs.Effects.{run_locks}
use golintmu.Walk.Universe.{IsWithin, size-le, lock_refs}
use golintmu.Walk.Blocks.{WalkContext}
use golintmu.Walk.Blocks.Potential.{
  weight, potential, potential-insert-absent, potential-insert-le, potential-insert-lt, size-Below,
}

-- The successors of a function's blocks are blocks of the function.
abbrev pub IsClosed : Program → List ℕ → Type 0
IsClosed prog bs = (b : ℕ) → contains bs b ≡ true → IsSubset (prog.block b).succs bs

-- Ranks that no edge raises and that fall after each block that is not steady; a steady block
-- leaves no lock and no deferred unlock that there was not before. A block that takes a lock and
-- keeps it, or defers an unlock, is then on no loop.
pub record IsRanked (prog : Program) (bs : List ℕ) (steady : ℕ → Bool) (rank : ℕ → ℕ) : Type 0 where
  pub bounded : (b : ℕ) → contains bs b ≡ true → rank b ≤ length bs
  pub never_up :
      (b s : ℕ) → contains bs b ≡ true → contains (prog.block b).succs s ≡ true → rank s ≤ rank b
  pub down :
      (b s : ℕ)
      → contains bs b ≡ true
      → steady b ≡ false
      → contains (prog.block b).succs s ≡ true
      → rank s < rank b
  pub loses :
      (b : ℕ)
      → contains bs b ≡ true
      → steady b ≡ true
      → (ls : LockState) → IsValid ls
      → Below (run_locks prog (prog.block b).instrs ls) ls

module _ (prog : Program) (bs : List ℕ) (steady : ℕ → Bool) (rank : ℕ → ℕ)
    (ranked : IsRanked prog bs steady rank) where
  abbrev pub refs : List LockRef
  refs = lock_refs prog bs

  abbrev pub left_of : Map ℕ LockState → ℕ
  left_of m = potential (length refs) (keep steady bs) m

  abbrev pub AllIn : Map ℕ LockState → Type 0
  AllIn m = (b : ℕ) (e : LockState) → lookup b m ≡ some e → IsWithin refs e

  insert-AllIn :
      (b : ℕ) (e : LockState) (m : Map ℕ LockState)
      → IsWithin refs e
      → AllIn m
      → AllIn (insert b e m)
  insert-AllIn b e m h all c x k = elim (Bool-cases (b == c)) [
    | inl same ↦ let p : e ≡ x = ground (arith, lookup-insert b c e m) in rw (← p) h
    | inr other ↦ all c x (ground (arith, lookup-insert b c e m))
  ]

  pub Below-IsWithin :
      {ls ls' : LockState} → IsValid ls' → Below ls' ls → IsWithin refs ls → IsWithin refs ls'
  Below-IsWithin v below h = record {
    valid = v;
    within_held = λ k m. h.within_held k (below.below_held k m);
    within_deferred = λ k m. h.within_deferred k (below.below_deferred k m);
  }

  -- A state that is walked with weighs less than what the block had recorded.
  pub walked-lt-weight :
      (b : ℕ) (ls' : LockState) (w : WalkContext)
      → IsWithin refs ls'
      → ((prev : LockState)
          → lookup b w.entry_states ≡ some prev
          → Below ls' prev × (size ls' < size prev))
      → size ls' < weight (length refs) (lookup b w.entry_states)
  unfolding weight
  walked-lt-weight b ls' w h less = elim (Option-cases (lookup b w.entry_states)) [
    | inl fresh ↦ rw (fresh, weight) (omega (arith, size-le refs ls' h))
    | inr (prev, e) ↦ rw (e, weight) (less prev e).1
  ]

  -- What a round of block `b` leaves recorded: the state walked with, or the exit state.
  abbrev pub recorded : ℕ → Bool → LockState → Map ℕ LockState → Map ℕ LockState
  recorded b shared ls' m =
      if shared
      then insert b (run_locks prog (prog.block b).instrs ls') (insert b ls' m)
      else insert b ls' m

  pub recorded-AllIn :
      (b : ℕ) (shared : Bool) (ls' : LockState) (m : Map ℕ LockState)
      → IsWithin refs ls'
      → IsWithin refs (run_locks prog (prog.block b).instrs ls')
      → AllIn m
      → AllIn (recorded b shared ls' m)
  recorded-AllIn b true ls' m h h' all = insert-AllIn b _ _ h' (insert-AllIn b ls' m h all)
  recorded-AllIn b false ls' m h h' all = insert-AllIn b ls' m h all

  -- A round of a block that is not steady changes nothing that counts.
  recorded-absent :
      (b : ℕ) (shared : Bool) (ls' : LockState) (m : Map ℕ LockState)
      → steady b ≡ false
      → left_of (recorded b shared ls' m) ≡ left_of m
  recorded-absent b true ls' m h =
      let out : contains (keep steady bs) b ≡ false = ground (arith, contains-keep steady bs b) in
      potential-insert-absent (length refs) b (run_locks prog (prog.block b).instrs ls')
        (insert b ls' m) (keep steady bs) out
      ∙ potential-insert-absent (length refs) b ls' m (keep steady bs) out
  recorded-absent b false ls' m h =
      potential-insert-absent (length refs) b ls' m (keep steady bs)
        (ground (arith, contains-keep steady bs b))

  recorded-lt :
      (b : ℕ) (shared : Bool) (ls' : LockState) (m : Map ℕ LockState)
      → contains bs b ≡ true
      → steady b ≡ true
      → IsValid (run_locks prog (prog.block b).instrs ls')
      → IsValid ls'
      → size ls' < weight (length refs) (lookup b m)
      → left_of (recorded b shared ls' m) < left_of m
  unfolding weight
  recorded-lt b shared ls' m is_block st ve v lt =
      let n = length refs in
      let inside : contains (keep steady bs) b ≡ true = ground (arith, contains-keep steady bs b) in
      let first = potential-insert-lt n b ls' m lt (keep steady bs) inside in
      let again : lookup b (insert b ls' m) ≡ some ls' = ground (arith, lookup-insert b b ls' m) in
      let le : size (run_locks prog (prog.block b).instrs ls')
          ≤ weight n (lookup b (insert b ls' m)) =
        rw (again, weight) (size-Below ve (ranked.loses b is_block st ls' v)) in
      let second =
        potential-insert-le n b (run_locks prog (prog.block b).instrs ls') (insert b ls' m) le
          (keep steady bs) in
      elim shared as (λ k. left_of (recorded b k ls' m) < left_of m) [
        | true ↦ omega arith
        | false ↦ first
      ]

  -- What is left after a round leaves room for the successors.
  pub recorded-succs :
      (b s : ℕ) (shared : Bool) (ls' : LockState) (m : Map ℕ LockState)
      → contains bs b ≡ true
      → contains (prog.block b).succs s ≡ true
      → IsValid (run_locks prog (prog.block b).instrs ls')
      → IsValid ls'
      → size ls' < weight (length refs) (lookup b m)
      → (left_of (recorded b shared ls' m) ≤ left_of m)
        × (left_of (recorded b shared ls' m) + rank s < left_of m + rank b)
  recorded-succs b s shared ls' m is_block is_succ ve v lt = elim (Bool-cases (steady b)) [
    | inl st ↦
        let less = recorded-lt b shared ls' m is_block st ve v lt in
        let up = ranked.never_up b s is_block is_succ in (omega arith, omega arith)
    | inr un ↦
        let same = recorded-absent b shared ls' m un in
        let down = ranked.down b s is_block un is_succ in (omega arith, omega arith)
  ]

  pub recorded-le :
      (b : ℕ) (shared : Bool) (ls' : LockState) (m : Map ℕ LockState)
      → contains bs b ≡ true
      → IsValid (run_locks prog (prog.block b).instrs ls')
      → IsValid ls'
      → size ls' < weight (length refs) (lookup b m)
      → left_of (recorded b shared ls' m) ≤ left_of m
  recorded-le b shared ls' m is_block ve v lt = elim (Bool-cases (steady b)) [
    | inl st ↦ let less = recorded-lt b shared ls' m is_block st ve v lt in omega arith
    | inr un ↦ let same = recorded-absent b shared ls' m un in omega arith
  ]
