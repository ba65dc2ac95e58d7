-- ===== src/LockState.antt =====
-- pkg/analyzer/lockstate.go: the locks that are held at a program point.
pub mod Order
pub mod Merge
pub mod Diff
use golintmu.Base.{
  ℕ, Bool, true, false, not, ◌&&◌, Option, none, some, List, [], ◌∷◌, ◌++◌, Eq, ◌==◌, ltb,
  if◌then◌else◌, ℕ_discrete, nat_eq, bool_eq, Map, lookup, insert, delete, has, keys, contains, add,
  length, all, keep,
}

pub data LockRefKind : Type 0 where
  field_lock : LockRefKind

pub record LockRef : Type 0 where
  pub kind : LockRefKind
  pub base : ℕ
  pub field_index : ℕ

LockRef_dec : Discrete LockRef
LockRef_dec = hlevel ℕ_discrete

unfoldable pub LockRef_discrete : Discrete LockRef
unfolding LockRef_dec ℕ_discrete
LockRef_discrete a b = LockRef_dec a b

instance abbrev pub LockRef_eq : Eq LockRef
LockRef_eq = record { dec = LockRef_discrete }

pub record HeldLock : Type 0 where
  pub ref : LockRef
  pub exclusive : Bool
  pub pos : ℕ

pub record LockState : Type 0 where
  pub held : Map LockRef HeldLock
  pub deferred_unlocks : List LockRef

abbrev pub new_lock_state : LockState
new_lock_state = record { held = []; deferred_unlocks = [] }

unfoldable pub lock : LockState → LockRef → Bool → ℕ → LockState
lock ls ref exclusive pos = record ls {
  held = insert ref (record { ref = ref; exclusive = exclusive; pos = pos }) ls.held;
}

unfoldable pub unlock : LockState → LockRef → LockState
unlock ls ref = record ls { held = delete ref ls.held }

-- The copy has its own maps: here a state is a value, and is its own copy.
abbrev pub fork : LockState → LockState
fork ls = record { held = ls.held; deferred_unlocks = ls.deferred_unlocks }

unfoldable pub equal_held : LockState → LockState → Bool
equal_held ls other =
    length ls.held == length other.held
    && all (λ k. has k other.held) (keys ls.held)
    && length ls.deferred_unlocks == length other.deferred_unlocks
    && all (contains other.deferred_unlocks) ls.deferred_unlocks

-- The insertion that `sort.Slice` by `fieldIndex` is here.
insert_by_field : LockRef → List LockRef → List LockRef
insert_by_field r [] = r ∷ []
insert_by_field r (s ∷ l) =
    if ltb r.field_index s.field_index then r ∷ s ∷ l else s ∷ insert_by_field r l

unfoldable pub sort_by_field : List LockRef → List LockRef
unfolding insert_by_field
sort_by_field [] = []
sort_by_field (r ∷ l) = insert_by_field r (sort_by_field l)

unfoldable pub diff : LockState → LockState → List LockRef × List LockRef
unfolding sort_by_field
diff ls other = (
  sort_by_field (keep (λ k. not (has k other.held)) (keys ls.held)),
  sort_by_field (keep (λ k. not (has k ls.held)) (keys other.held)),
)

-- The loop over `ls.held`: what both hold in the same mode.
unfoldable pub intersect_held : Map LockRef HeldLock → Map LockRef HeldLock → Map LockRef HeldLock
intersect_held [] other = []
intersect_held ((k, v) ∷ m) other =
    let rest = intersect_held m other in
    elim (lookup k other) [
      | none ↦ rest
      | some w ↦ if v.exclusive == w.exclusive then (k, v) ∷ rest else rest
    ]

unfoldable pub intersect : LockState → LockState → LockState
unfolding intersect_held
intersect ls other = record {
  held = intersect_held ls.held other.held;
  deferred_unlocks = keep (contains other.deferred_unlocks) ls.deferred_unlocks;
}

unfoldable pub defer_unlock : LockState → LockRef → LockState
defer_unlock ls ref = record ls { deferred_unlocks = add ref ls.deferred_unlocks }
