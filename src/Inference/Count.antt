-- ===== src/Inference/Count.antt =====
-- The counts of `pickMostFrequentMutex`, and what they count.
use golintmu.Base.{
  ℕ, suc, ◌+◌, ◌<◌, ◌≤◌, ◌≡◌, refl, Bool, true, false, ◌&&◌, not, none, some, List, [], ◌∷◌, arith,
  if◌then◌else◌, ◌==◌, nat_eq, Bool-cases, inl, inr, Map, lookup, insert, keys, IsDistinct,
  lookup-insert, insert-IsDistinct,
}
use golintmu.Pass.{FieldKey, Observation, HeldMutexField}
use golintmu.Inference.{count_fields, count_mutexes}
use golintmu.Inference.Best.{IsPositive}

-- How often mutex `j` is in the list; a field does not vote for itself.
abbrev pub votes_fields : ℕ → List HeldMutexField → ℕ → ℕ
votes_fields self [] j = 0
votes_fields self (hmf ∷ fields) j =
    let rest = votes_fields self fields j in
    if hmf.field_index == j && not (j == self) then suc rest else rest

votes_fields_self : (self : ℕ) (fields : List HeldMutexField) → votes_fields self fields self ≡ 0
votes_fields_self self [] = refl
votes_fields_self self (hmf ∷ fields) = ground (arith, votes_fields_self self fields)

-- How often mutex `j` was held at the observations, or at the writes among them.
abbrev pub votes : FieldKey → Bool → List Observation → ℕ → ℕ
votes key writes_only [] j = 0
votes key writes_only (obs ∷ observations) j =
    (if writes_only && obs.is_read
      then 0
      else votes_fields key.field_index obs.same_base_mutex_fields j)
    + votes key writes_only observations j

abbrev pub count_of : ℕ → Map ℕ ℕ → ℕ
count_of j m = elim (lookup j m) [ none ↦ 0 | some c ↦ c ]

-- The map holds a key once, and no count of 0.
pub record IsCount (m : Map ℕ ℕ) : Type 0 where
  pub distinct : IsDistinct (keys m)
  pub positive : IsPositive m

insert-IsPositive : (k c : ℕ) (m : Map ℕ ℕ) → 0 < c → IsPositive m → IsPositive (insert k c m)
insert-IsPositive k c [] h p = (h, tt)
insert-IsPositive k c ((j, d) ∷ m) h p = ground (arith, insert-IsPositive k c m h p.1)

abbrev bump : ℕ → Map ℕ ℕ → Map ℕ ℕ
bump k m = insert k (elim (lookup k m) [ none ↦ 1 | some c ↦ c + 1 ]) m

bump-IsCount : (k : ℕ) (m : Map ℕ ℕ) → IsCount m → IsCount (bump k m)
bump-IsCount k m h = record {
  distinct = insert-IsDistinct k _ m h.distinct;
  positive = insert-IsPositive k _ m (ground arith) h.positive;
}

count_of-bump :
    (k j : ℕ) (m : Map ℕ ℕ)
    → count_of j (bump k m) ≡ (if k == j then suc (count_of j m) else count_of j m)
count_of-bump k j m =
    ground (arith, lookup-insert k j (elim (lookup k m) [ none ↦ 1 | some c ↦ c + 1 ]) m)

count_fields-IsCount :
    (self : ℕ) (fields : List HeldMutexField) (m : Map ℕ ℕ)
    → IsCount m
    → IsCount (count_fields self fields m)
unfolding count_fields
count_fields-IsCount self [] m h = h
count_fields-IsCount self (hmf ∷ fields) m h = elim (Bool-cases (hmf.field_index == self)) [
  | inl own ↦ rw own (count_fields-IsCount self fields m h)
  | inr other ↦
      rw other (count_fields-IsCount self fields (bump hmf.field_index m) (bump-IsCount _ m h))
]

count_of-count_fields :
    (self j : ℕ) (fields : List HeldMutexField) (m : Map ℕ ℕ)
    → count_of j (count_fields self fields m) ≡ count_of j m + votes_fields self fields j
unfolding count_fields
count_of-count_fields self j [] m = omega arith
count_of-count_fields self j (hmf ∷ fields) m = elim (Bool-cases (hmf.field_index == self)) [
  | inl own ↦ rw own (ground (arith, count_of-count_fields self j fields m))
  | inr other ↦ rw other (
      ground (
        arith,
        count_of-count_fields self j fields (bump hmf.field_index m),
        count_of-bump hmf.field_index j m,
      ))
]

module _ (key : FieldKey) (writes_only : Bool) where
  pub count_mutexes-IsCount :
      (observations : List Observation) (m : Map ℕ ℕ)
      → IsCount m
      → IsCount (count_mutexes key writes_only observations m)
  unfolding count_mutexes
  count_mutexes-IsCount [] m h = h
  count_mutexes-IsCount (obs ∷ observations) m h = elim (Bool-cases (writes_only && obs.is_read)) [
    | inl skip ↦ rw skip (count_mutexes-IsCount observations m h)
    | inr count ↦ rw count (
        count_mutexes-IsCount observations _
          (count_fields-IsCount key.field_index obs.same_base_mutex_fields m h))
  ]

  pub count_of-count_mutexes :
      (observations : List Observation) (m : Map ℕ ℕ) (j : ℕ)
      → count_of j (count_mutexes key writes_only observations m)
        ≡ count_of j m + votes key writes_only observations j
  unfolding count_mutexes
  count_of-count_mutexes [] m j = omega arith
  count_of-count_mutexes (obs ∷ observations) m j = elim (Bool-cases (writes_only && obs.is_read)) [
    | inl skip ↦ rw skip (omega (arith, count_of-count_mutexes observations m j))
    | inr count ↦ rw count (
        omega (
          arith,
          count_of-count_mutexes observations
              (count_fields key.field_index obs.same_base_mutex_fields m) j,
          count_of-count_fields key.field_index j obs.same_base_mutex_fields m,
        ))
  ]

  -- A mutex field does not count as its own guard.
  pub votes_self :
      (observations : List Observation) → votes key writes_only observations key.field_index ≡ 0
  votes_self [] = refl
  votes_self (obs ∷ observations) =
      ground (
        arith,
        votes_fields_self key.field_index obs.same_base_mutex_fields,
        votes_self observations,
      )

pub votes-writes-le :
    (key : FieldKey) (observations : List Observation) (j : ℕ)
    → votes key true observations j ≤ votes key false observations j
votes-writes-le key [] j = omega arith
votes-writes-le key (obs ∷ observations) j = ground (arith, votes-writes-le key observations j)
