-- ===== src/LockState/Order.antt =====
-- The states of pkg/analyzer/lockstate.go, ordered by the locks that they hold.
use golintmu.Base.{
  ℕ, ◌+◌, ◌≡◌, refl, ◌↔◌, Bool, true, List, [], ◌∷◌, arith, all, length, contains, keys, IsDistinct,
  IsSubset, length-keys, insert-IsDistinct, delete-IsDistinct, IsDistinct-add, has-insert,
  has-delete, contains-add, subset_of_length-eq, Eq, length-le_of_subset, nat_eq,
}
use golintmu.LockState.{
  LockRef, LockRef_eq, LockState, new_lock_state, lock, unlock, defer_unlock, equal_held,
}

-- The maps of Go hold a key once.
pub record IsValid (ls : LockState) : Type 0 where
  pub distinct_held : IsDistinct (keys ls.held)
  pub distinct_deferred : IsDistinct ls.deferred_unlocks

-- `a` holds no lock, and defers no unlock, that `b` does not.
pub record Below (a b : LockState) : Type 0 where
  pub below_held : IsSubset (keys a.held) (keys b.held)
  pub below_deferred : IsSubset a.deferred_unlocks b.deferred_unlocks

pub Below-refl : (a : LockState) → Below a a
Below-refl a = record { below_held = λ k h. h; below_deferred = λ k h. h }

pub Below-trans : {a b c : LockState} → Below a b → Below b c → Below a c
Below-trans p q = record {
  below_held = λ k h. q.below_held k (p.below_held k h);
  below_deferred = λ k h. q.below_deferred k (p.below_deferred k h);
}

abbrev pub size : LockState → ℕ
size ls = length ls.held + length ls.deferred_unlocks

pub new_lock_state-IsValid : IsValid new_lock_state
new_lock_state-IsValid = record { distinct_held = tt; distinct_deferred = tt }

module _ (ls : LockState) (r : LockRef) where
  pub lock-IsValid : (x : Bool) (p : ℕ) → IsValid ls → IsValid (lock ls r x p)
  unfolding lock
  lock-IsValid x p v = record {
    distinct_held = insert-IsDistinct r _ ls.held v.distinct_held;
    distinct_deferred = v.distinct_deferred;
  }

  pub unlock-IsValid : IsValid ls → IsValid (unlock ls r)
  unfolding unlock
  unlock-IsValid v = record {
    distinct_held = delete-IsDistinct r ls.held v.distinct_held;
    distinct_deferred = v.distinct_deferred;
  }

  pub defer_unlock-IsValid : IsValid ls → IsValid (defer_unlock ls r)
  unfolding defer_unlock
  defer_unlock-IsValid v = record {
    distinct_held = v.distinct_held;
    distinct_deferred = IsDistinct-add r ls.deferred_unlocks v.distinct_deferred;
  }

-- Each operation is monotone, whatever the modes and positions.
module _ {a b : LockState} (r : LockRef) (h : Below a b) where
  pub lock-Below : (x y : Bool) (p q : ℕ) → Below (lock a r x p) (lock b r y q)
  unfolding lock
  lock-Below x y p q = record {
    below_held = λ k. ground (
      arith,
      has-insert r k (record { ref = r; exclusive = x; pos = p }) a.held,
      has-insert r k (record { ref = r; exclusive = y; pos = q }) b.held,
      h.below_held k,
    );
    below_deferred = h.below_deferred;
  }

  pub unlock-Below : Below (unlock a r) (unlock b r)
  unfolding unlock
  unlock-Below = record {
    below_held = λ k. ground (arith, has-delete r k a.held, has-delete r k b.held, h.below_held k);
    below_deferred = h.below_deferred;
  }

  pub defer_unlock-Below : Below (defer_unlock a r) (defer_unlock b r)
  unfolding defer_unlock
  defer_unlock-Below = record {
    below_held = h.below_held;
    below_deferred = λ k. ground (
      arith,
      contains-add r k a.deferred_unlocks,
      contains-add r k b.deferred_unlocks,
      h.below_deferred k,
    );
  }

pub all-contains {ℓ} :
    {A : Type ℓ} ⦃e : Eq A⦄ (xs ys : List A) → (all (contains ys) xs ≡ true) ↔ IsSubset xs ys
all-contains [] ys = (λ _ a h. absurd (cc), λ _. refl)
all-contains (x ∷ xs) ys = (
  λ h a m. ground (arith, (all-contains xs ys).0, (all-contains xs ys).0 (ground arith) a),
  λ s. ground (arith, s x, (all-contains xs ys).1 (λ a m. s a (ground arith))),
)

pub equal_held_parts :
    (a b : LockState)
    → (equal_held a b ≡ true) ↔ (
        (length (keys a.held) ≡ length (keys b.held))
        × IsSubset (keys a.held) (keys b.held)
        × (length a.deferred_unlocks ≡ length b.deferred_unlocks)
        × IsSubset a.deferred_unlocks b.deferred_unlocks)
unfolding equal_held
equal_held_parts a b = ground (
  arith,
  length-keys a.held,
  length-keys b.held,
  all-contains (keys a.held) (keys b.held),
  all-contains a.deferred_unlocks b.deferred_unlocks,
)

-- For two states that list no lock twice, `equalHeld` says whether they hold the same locks and
-- defer the same unlocks. It does not read the modes.
pub equal_held_iff :
    (a b : LockState) → IsValid a → IsValid b → (equal_held a b ≡ true) ↔ (Below a b × Below b a)
equal_held_iff a b va vb = (
  λ h.
      let (n, s, m, t) = (equal_held_parts a b).0 h in
      (
        record { below_held = s; below_deferred = t },
        record {
          below_held = subset_of_length-eq _ _ va.distinct_held s n;
          below_deferred = subset_of_length-eq _ _ va.distinct_deferred t m;
        },
      ),
  λ (p, q). (equal_held_parts a b).1 (
      (
        omega (
          arith,
          length-le_of_subset _ _ va.distinct_held p.below_held,
          length-le_of_subset _ _ vb.distinct_held q.below_held,
        ),
        p.below_held,
        omega (
          arith,
          length-le_of_subset _ _ va.distinct_deferred p.below_deferred,
          length-le_of_subset _ _ vb.distinct_deferred q.below_deferred,
        ),
        p.below_deferred,
      )),
)
