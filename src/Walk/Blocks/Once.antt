-- ===== src/Walk/Blocks/Once.antt =====
-- The walk of pkg/analyzer/ssawalk.go where each visit of a block arrives with the same locks.
use golintmu.Base.{
  ℕ, zero, suc, ◌≤◌, ◌<◌, ◌≡◌, refl, ◌∙◌, true, false, ◌⊎◌, inl, inr, Option, some, List, [], ◌∷◌,
  arith, ◌==◌, nat_eq, ◌>>=◌, Bool-cases, lookup, insert, has, contains, lookup-insert, has-insert,
  lookup_of_not-has, lookup_of_has, IsSubset,
}
use golintmu.Ssa.{Program}
use golintmu.LockState.{LockState, new_lock_state}
use golintmu.LockState.Order.{IsValid, Below, Below-trans, equal_held_iff}
use golintmu.Pass.{PassContext}
use golintmu.Walk.Instrs.Effects.{run_locks, run_locks-IsValid, run_locks-Below}
use golintmu.Walk.Blocks.{WalkContext, walk_succs, walk_block}
use golintmu.Walk.Blocks.Enter.{run_block_lem}
use golintmu.Walk.Blocks.Rounds.{IsClosed}
use golintmu.Walk.Blocks.Visits.{
  Entries, fresh, fresh-insert-le, fresh-insert-lt, walk_block-again, walk_block-first, begun,
  begun-entries, begun-reported,
}

-- The two states hold the same locks and defer the same unlocks.
abbrev pub Same : LockState → LockState → Type 0
Same a b = Below a b × Below b a

pub Same-sym : {a b : LockState} → Same a b → Same b a
Same-sym (p, q) = (q, p)

pub Same-trans : {a b c : LockState} → Same a b → Same b c → Same a c
Same-trans (p, q) (p', q') = (Below-trans p p', Below-trans q' q)

-- The locks that each block is entered with: none at the entry, and those that the instructions of
-- a block leave at each of its successors.
pub record IsConsistent (prog : Program) (bs : List ℕ) (entry : ℕ) (expected : ℕ → LockState)
    : Type 0 where
  pub start : Same new_lock_state (expected entry)
  pub step :
      (b s : ℕ)
      → contains bs b ≡ true
      → contains (prog.block b).succs s ≡ true
      → Same (run_locks prog (prog.block b).instrs (expected b)) (expected s)

module _ (prog : Program) (bs : List ℕ) (entry : ℕ) (expected : ℕ → LockState)
    (closed : IsClosed prog bs) (consistent : IsConsistent prog bs entry expected) where
  -- What is recorded is as expected.
  abbrev pub Expected : Entries → Type 0
  Expected m = (b : ℕ) (e : LockState) → lookup b m ≡ some e → IsValid e × Same e (expected b)

  -- What a walk that returns has done.
  pub record Post (w w' : WalkContext) : Type 0 where
    pub as_expected : Expected w'.entry_states
    pub fewer : fresh bs w'.entry_states ≤ fresh bs w.entry_states
    pub stays : (b : ℕ) → has b w.entry_states ≡ true → has b w'.entry_states ≡ true
    pub silent : w'.inconsistent_lock_reported ≡ w.inconsistent_lock_reported
    pub settled :
        (b s : ℕ)
        → has b w'.entry_states ≡ true
        → contains (prog.block b).succs s ≡ true
        → (has b w.entry_states ≡ true) ⊎ (has s w'.entry_states ≡ true)

  Post-refl : (w : WalkContext) → Expected w.entry_states → Post w w
  Post-refl w x = record {
    as_expected = x;
    fewer = omega arith;
    stays = λ b h. h;
    silent = refl;
    settled = λ b s h k. inl h;
  }

  Post-trans : {w w' w'' : WalkContext} → Post w w' → Post w' w'' → Post w w''
  Post-trans p q = record {
    as_expected = q.as_expected;
    fewer = omega (arith, p.fewer, q.fewer);
    stays = λ b h. q.stays b (p.stays b h);
    silent = q.silent ∙ p.silent;
    settled = λ b s h k. elim (q.settled b s h k) [
      | inr done ↦ inr done
      | inl old ↦ elim (p.settled b s old k) [
        | inl older ↦ inl older
        | inr done ↦ inr (q.stays s done)
      ]
    ];
  }

  abbrev pub Walks : WalkContext → List ℕ → Option (PassContext × WalkContext) → Type 0
  Walks w visited r =
      (s : PassContext × WalkContext) × (r ≡ some s)
      × Post w s.1
      × ((b : ℕ) → contains visited b ≡ true → has b s.1.entry_states ≡ true)

  abbrev pub WalkOnce : ℕ → ℕ → Type 0
  WalkOnce fuel fn =
      (b : ℕ) (from : Option ℕ) (ls : LockState) (ctx : PassContext) (w : WalkContext)
      → contains bs b ≡ true
      → Expected w.entry_states
      → IsValid ls
      → Same ls (expected b)
      → fresh bs w.entry_states < fuel
      → Walks w (b ∷ []) (walk_block prog fuel fn b from ls (ctx, w))

  walk_succs-Walks :
      (fuel fn b : ℕ) (ls : LockState)
      → WalkOnce fuel fn
      → IsValid ls
      → (succs : List ℕ) (ctx : PassContext) (w : WalkContext) → IsSubset succs bs
      → ((s : ℕ) → contains succs s ≡ true → Same ls (expected s))
      → Expected w.entry_states
      → fresh bs w.entry_states < fuel
      → Walks w succs (walk_succs (walk_block prog fuel fn) b ls succs (ctx, w))
  unfolding walk_succs
  walk_succs-Walks fuel fn b ls ih v [] ctx w sub same x less =
      ((ctx, w), refl, Post-refl w x, λ c k. absurd (cc))
  walk_succs-Walks fuel fn b ls ih v (s ∷ succs) ctx w sub same x less =
      let ((ctx', w'), first, p, here) =
        ih s (some b) ls ctx w (sub s (ground arith)) x v (same s (ground arith)) less in
      let (r, rest, q, others) =
        walk_succs-Walks fuel fn b ls ih v succs ctx' w' (λ c k. sub c (ground arith))
          (λ c k. same c (ground arith)) p.as_expected (omega (arith, p.fewer)) in
      (
        r,
        rw (first, ◌>>=◌) rest,
        Post-trans p q,
        λ c k. ground (arith, here s, q.stays s, others c),
      )

  insert-Expected :
      (b : ℕ) (ls : LockState) (m : Entries)
      → IsValid ls
      → Same ls (expected b)
      → Expected m
      → Expected (insert b ls m)
  insert-Expected b ls m v same x c e at = elim (Bool-cases (b == c)) [
    | inl here ↦
        let k : b ≡ c = ground arith in
        let k' : ls ≡ e = ground (arith, lookup-insert b c ls m) in rw (← k', ← k) (v, same)
    | inr other ↦ x c e (ground (arith, lookup-insert b c ls m))
  ]

  -- The first round of a block, with the walks of its successors.
  Post-first :
      (b : ℕ) (ls : LockState) (w mid w' : WalkContext)
      → mid.entry_states ≡ insert b ls w.entry_states
      → mid.inconsistent_lock_reported ≡ w.inconsistent_lock_reported
      → Post mid w'
      → ((s : ℕ) → contains (prog.block b).succs s ≡ true → has s w'.entry_states ≡ true)
      → Post w w'
  Post-first b ls w mid w' ins quiet p done = record {
    as_expected = p.as_expected;
    fewer =
        let le : fresh bs mid.entry_states ≤ fresh bs w.entry_states =
          rw ins (fresh-insert-le b ls w.entry_states bs) in
        omega (arith, p.fewer);
    stays = λ c h. p.stays c (rw ins (ground (arith, has-insert b c ls w.entry_states)));
    silent = p.silent ∙ quiet;
    settled = λ c s h k. elim (p.settled c s h k) [
      | inr after ↦ inr after
      | inl before ↦
          let before' : has c (insert b ls w.entry_states) ≡ true = rw (← ins) before in
          elim (Bool-cases (b == c)) [
            | inl here ↦ let e : b ≡ c = ground arith in inr (done s (rw e k))
            | inr other ↦ inl (ground (arith, has-insert b c ls w.entry_states))
          ]
    ];
  }

  pub walk_block-once : (fuel fn : ℕ) → WalkOnce fuel fn
  walk_block-once zero fn b from ls ctx w is_block x v same less = absurd (omega arith)
  walk_block-once (suc fuel) fn b from ls ctx w is_block x v same less =
      elim (Bool-cases (has b w.entry_states)) [
        | inl old ↦
            let (e, at) = lookup_of_has b w.entry_states old in
            let (ve, same_e) = x b e at in
            (
              (ctx, w),
              walk_block-again prog fuel fn b from ls ctx w e at
                  ((equal_held_iff ls e v ve).1 (Same-trans same (Same-sym same_e))),
              Post-refl w x,
              λ c k. let here : b ≡ c = ground arith in rw (← here) old,
            )
        | inr new ↦
            let at = lookup_of_not-has b w.entry_states new in
            let ran = begun prog fuel fn b from ls ctx w in
            let ins = begun-entries prog fuel fn b from ls ctx w in
            let exit =
              (run_block_lem prog fn b false ls ctx
                (record w { entry_states = insert b ls w.entry_states })).1 in
            let (r, rest, p, done) =
              walk_succs-Walks fuel fn b _ (walk_block-once fuel fn)
                (rw exit (run_locks-IsValid prog (prog.block b).instrs ls v)) (prog.block b).succs
                ran.0 ran.1 (closed b is_block)
                (λ s k. rw exit (
                  Same-trans
                    (
                      run_locks-Below prog (prog.block b).instrs same.0,
                      run_locks-Below prog (prog.block b).instrs same.1,
                    )
                    (consistent.step b s is_block k)))
                (rw ins (insert-Expected b ls w.entry_states v same x))
                (rw ins (omega (arith, fresh-insert-lt b ls w.entry_states bs is_block new))) in
            (
              r,
              walk_block-first prog fuel fn b from ls ctx w at new ∙ rest,
              Post-first b ls w ran.1 r.1 ins (begun-reported prog fuel fn b from ls ctx w) p done,
              λ c k.
                  let here : b ≡ c = ground arith in
                  let now : has b ran.1.entry_states ≡ true =
                    rw ins (ground (arith, has-insert b b ls w.entry_states)) in
                  rw (← here) (p.stays b now),
            )
      ]
