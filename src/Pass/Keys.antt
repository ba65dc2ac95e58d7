-- ===== src/Pass/Keys.antt =====
-- The keys of the maps of pkg/analyzer/golintmu.go. Go compares them field by field.
use golintmu.Base.{ℕ, Bool, Eq, ℕ_discrete, Bool_discrete}
use golintmu.LockState.{LockRef, LockRef_discrete}

pub record FieldKey : Type 0 where
  pub struct_type : ℕ
  pub field_index : ℕ

-- The same two fields, of the mutex itself.
pub record MutexFieldKey : Type 0 where
  pub struct_type : ℕ
  pub field_index : ℕ

pub record ObsKey : Type 0 where
  pub field : FieldKey
  pub pos : ℕ
  pub is_read : Bool

pub record DeferredLockTypoKey : Type 0 where
  pub fn : ℕ
  pub ref : LockRef

FieldKey_dec : Discrete FieldKey
FieldKey_dec = hlevel ℕ_discrete

unfoldable pub FieldKey_discrete : Discrete FieldKey
unfolding FieldKey_dec ℕ_discrete
FieldKey_discrete a b = FieldKey_dec a b

instance abbrev pub FieldKey_eq : Eq FieldKey
FieldKey_eq = record { dec = FieldKey_discrete }

MutexFieldKey_dec : Discrete MutexFieldKey
MutexFieldKey_dec = hlevel ℕ_discrete

unfoldable pub MutexFieldKey_discrete : Discrete MutexFieldKey
unfolding MutexFieldKey_dec ℕ_discrete
MutexFieldKey_discrete a b = MutexFieldKey_dec a b

instance abbrev pub MutexFieldKey_eq : Eq MutexFieldKey
MutexFieldKey_eq = record { dec = MutexFieldKey_discrete }

ObsKey_dec : Discrete ObsKey
ObsKey_dec = hlevel (FieldKey_discrete, ℕ_discrete, Bool_discrete)

unfoldable pub ObsKey_discrete : Discrete ObsKey
unfolding ObsKey_dec FieldKey_discrete ℕ_discrete Bool_discrete
ObsKey_discrete a b = ObsKey_dec a b

instance abbrev pub ObsKey_eq : Eq ObsKey
ObsKey_eq = record { dec = ObsKey_discrete }

DeferredLockTypoKey_dec : Discrete DeferredLockTypoKey
DeferredLockTypoKey_dec = hlevel (LockRef_discrete, ℕ_discrete)

unfoldable pub DeferredLockTypoKey_discrete : Discrete DeferredLockTypoKey
unfolding DeferredLockTypoKey_dec LockRef_discrete ℕ_discrete
DeferredLockTypoKey_discrete a b = DeferredLockTypoKey_dec a b

instance abbrev pub DeferredLockTypoKey_eq : Eq DeferredLockTypoKey
DeferredLockTypoKey_eq = record { dec = DeferredLockTypoKey_discrete }
