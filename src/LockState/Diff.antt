-- ===== src/LockState/Diff.antt =====
-- `diff` of pkg/analyzer/lockstate.go: the locks that one state holds and the other does not.
use golintmu.Base.{
  ◌≤◌, ◌≡◌, refl, ◌∙◌, not, ◌&&◌, ◌||◌, List, [], ◌∷◌, arith, ◌==◌, contains, has, keys,
  contains-keep, keep,
}
use golintmu.LockState.{LockRef, LockRef_eq, LockState, diff, sort_by_field, insert_by_field}

-- The field indices do not fall along the list.
abbrev pub IsSorted : List LockRef → Type 0
IsSorted [] = Unit
IsSorted (r ∷ []) = Unit
IsSorted (r ∷ s ∷ l) = (r.field_index ≤ s.field_index) × IsSorted (s ∷ l)

insert_by_field-IsSorted :
    (r : LockRef) (l : List LockRef) → IsSorted l → IsSorted (insert_by_field r l)
unfolding insert_by_field
insert_by_field-IsSorted r [] h = tt
insert_by_field-IsSorted r (s ∷ []) h = ground arith
insert_by_field-IsSorted r (s ∷ t ∷ l) h = ground (arith, insert_by_field-IsSorted r (t ∷ l) h.1)

sort_by_field-IsSorted : (l : List LockRef) → IsSorted (sort_by_field l)
unfolding sort_by_field
sort_by_field-IsSorted [] = tt
sort_by_field-IsSorted (r ∷ l) = insert_by_field-IsSorted r _ (sort_by_field-IsSorted l)

contains-insert_by_field :
    (r k : LockRef) (l : List LockRef) → contains (insert_by_field r l) k ≡ (r == k || contains l k)
unfolding insert_by_field
contains-insert_by_field r k [] = refl
contains-insert_by_field r k (s ∷ l) = ground (arith, contains-insert_by_field r k l)

contains-sort_by_field :
    (k : LockRef) (l : List LockRef) → contains (sort_by_field l) k ≡ contains l k
unfolding sort_by_field
contains-sort_by_field k [] = refl
contains-sort_by_field k (r ∷ l) =
    ground (arith, contains-sort_by_field k l, contains-insert_by_field r k (sort_by_field l))

-- The two lists of `diff` are the locks held on one side only, and both are in order of the field
-- index.
pub diff_lem :
    (a b : LockState) (k : LockRef)
    → (contains (diff a b).0 k ≡ (has k a.held && not (has k b.held)))
      × (contains (diff a b).1 k ≡ (has k b.held && not (has k a.held)))
      × IsSorted (diff a b).0
      × IsSorted (diff a b).1
unfolding diff
diff_lem a b k = (
  contains-sort_by_field k _ ∙ contains-keep (λ j. not (has j b.held)) (keys a.held) k,
  contains-sort_by_field k _ ∙ contains-keep (λ j. not (has j a.held)) (keys b.held) k,
  sort_by_field-IsSorted (keep (λ j. not (has j b.held)) (keys a.held)),
  sort_by_field-IsSorted (keep (λ j. not (has j a.held)) (keys b.held)),
)
