-- ===== src/Pass.antt =====
-- The state of one pass: pkg/analyzer/golintmu.go, with the records of interprocedural.go,
-- lockorder.go, annotations.go and the diagnostics of reporter.go. Functions, named types and
-- values are numbers, as in `Ssa`; a set is a list without repetition.
pub mod Keys
pub use Keys.{FieldKey, MutexFieldKey, ObsKey, DeferredLockTypoKey}
use golintmu.Base.{ℕ, String, Bool, true, false, Option, none, List, [], Map}
use golintmu.LockState.{LockRef}

pub record HeldMutexField : Type 0 where
  pub field_index : ℕ
  pub exclusive : Bool

pub record Observation : Type 0 where
  pub same_base_mutex_fields : List HeldMutexField
  pub is_read : Bool
  pub fn : ℕ
  pub pos : ℕ

pub record GuardInfo : Type 0 where
  pub mutex_field_index : ℕ
  pub needs_exclusive : Bool

pub record UnlockOfUnlockedCandidate : Type 0 where
  pub fn : ℕ
  pub pos : ℕ
  pub ref : LockRef

pub record LockLeakCandidate : Type 0 where
  pub fn : ℕ
  pub pos : ℕ
  pub ref : LockRef
  pub acquire_pos : ℕ

pub record HeldMutexRef : Type 0 where
  pub field_index : ℕ
  pub exclusive : Bool

-- `via_callee` is `none` for a direct requirement.
pub record RequirementOrigin : Type 0 where
  pub field_key : FieldKey
  pub access_pos : ℕ
  pub is_read : Bool
  pub via_callee : Option ℕ
  pub via_call_pos : ℕ

pub record CallSiteRecord : Type 0 where
  pub caller : ℕ
  pub callee : ℕ
  pub pos : ℕ
  pub held_by_struct_type : Map ℕ (List HeldMutexRef)
  pub receiver_value : Option ℕ

pub record FuncLockFacts : Type 0 where
  pub requires : List MutexFieldKey
  pub requires_origin : Map MutexFieldKey (List RequirementOrigin)
  pub acquires : List MutexFieldKey
  pub acquires_transitive : List MutexFieldKey
  pub returns_holding : List MutexFieldKey
  pub releases : List MutexFieldKey

pub record LockOrderEdge : Type 0 where
  pub from : MutexFieldKey
  pub to : MutexFieldKey
  pub pos : ℕ
  pub fn : ℕ

pub record Annotations : Type 0 where
  pub concurrent : List ℕ
  pub ignored : List ℕ
  pub nolint : Map String (List ℕ)

-- A line of the explanation that verbose mode adds, by its format string, or the empty line.
pub data Reason : Type 0 where
  calls : String → String → String → ℕ → ℕ → Reason
  accesses : String → String → String → String → ℕ → ℕ → Reason
  blank : Reason

-- One constructor for each format string of reporter.go, with its arguments in order.
pub data Message : Type 0 where
  field_unguarded : String → String → Message
  write_under_shared_lock : String → String → Message
  double_lock : String → Message
  recursive_rlock : String → Message
  lock_upgrade : String → Message
  mismatched_unlock : String → Bool → String → Message
  deferred_lock : String → String → String → Message
  acquire_helper : String → String → Message
  caller_missing_unlock : String → String → String → Message
  lock_leak : String → String → ℕ → ℕ → Message
  unlock_of_unlocked : String → Message
  order_cycle_self : String → Message
  order_cycle : String → String → Message
  exported_guarded : String → String → Message
  missing_lock_at_call : String → String → List Reason → Message
  double_lock_at_call : String → String → Message
  inconsistent_lock_state : String → Message

pub record Diagnostic : Type 0 where
  pub pos : ℕ
  pub message : Message

-- `passContext`; the program itself is the parameter `Program`. `diagnostics` is what `Reportf`
-- has emitted. `concurrent_funcs` is `none` where the source has nil.
pub record PassContext : Type 0 where
  pub observations : Map FieldKey (List Observation)
  pub guards : Map FieldKey GuardInfo
  pub observed_at : List ObsKey
  pub verbose : Bool
  pub call_sites : List CallSiteRecord
  pub func_facts : Map ℕ FuncLockFacts
  pub unlock_of_unlocked_candidates : List UnlockOfUnlockedCandidate
  pub lock_leak_candidates : Map ℕ (List LockLeakCandidate)
  pub deferred_lock_typo_reported : List DeferredLockTypoKey
  pub lock_order_edges : Map MutexFieldKey (List LockOrderEdge)
  pub concurrent_funcs : Option (List ℕ)
  pub annotations : Option Annotations
  pub diagnostics : List Diagnostic

-- What `run` starts from.
unfoldable pub new_pass_context : Bool → PassContext
new_pass_context v = record {
  observations = [];
  guards = [];
  observed_at = [];
  verbose = v;
  call_sites = [];
  func_facts = [];
  unlock_of_unlocked_candidates = [];
  lock_leak_candidates = [];
  deferred_lock_typo_reported = [];
  lock_order_edges = [];
  concurrent_funcs = none;
  annotations = none;
  diagnostics = [];
}
