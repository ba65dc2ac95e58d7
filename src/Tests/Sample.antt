-- ===== src/Tests/Sample.antt =====
-- A program with a struct `counter { mu sync.Mutex; n int }`, a method that locks `mu` in a loop
-- and defers an unlock, and its caller.
use golintmu.Base.{
  ℕ, zero, suc, String, Bool, true, false, Option, none, some, List, [], ◌∷◌, nat_eq, Map, lookup,
  all, contains, ◌≡◌, arith, inl, inr, ◌==◌, Bool-cases, subst,
}
use golintmu.Types.{Ty, named, pointer, struct, other_type, StructField}
use golintmu.Ssa.{
  Program, Value, mul, phi, field_addr, unop, other_value, CallCommon, Op, call, defer, return,
  store, Instr, Block, Function,
}
use golintmu.LockState.Order.{all-contains}
use golintmu.Walk.Blocks.Rounds.{IsClosed}

abbrev pub or_default : {A : Type 0} → A → Option A → A
or_default d none = d
or_default d (some v) = v

abbrev lock_field : StructField
lock_field = record {
  field_name = "mu";
  field_type = named 1;
  anonymous = false;
  exported = false;
  field_pos = 3;
}

abbrev n_field : StructField
n_field = record {
  field_name = "n";
  field_type = other_type 0;
  anonymous = false;
  exported = false;
  field_pos = 4;
}

-- The receiver is 1, `&c.mu` is 2 and `&c.n` is 3; 4 and 7 merge the receiver with itself, and 5
-- loads it from the cell 6. 13 and 14 are the locks of two more counters, 11 and 12.
abbrev sample_values : Map ℕ Value
sample_values =
    (2, field_addr 1 0)
    ∷ (3, field_addr 1 1)
    ∷ (4, phi (1 ∷ 1 ∷ []))
    ∷ (5, unop mul 6)
    ∷ (7, phi (4 ∷ 1 ∷ []))
    ∷ (13, field_addr 11 0)
    ∷ (14, field_addr 12 0)
    ∷ []

abbrev sample_types : Map ℕ Ty
sample_types =
    (1, pointer (named 0))
    ∷ (6, pointer (pointer (named 0)))
    ∷ (11, pointer (named 0))
    ∷ (12, pointer (named 0))
    ∷ (2, pointer (named 1))
    ∷ (13, pointer (named 1))
    ∷ (14, pointer (named 1))
    ∷ []

abbrev pub call_on : ℕ → List ℕ → CallCommon
call_on callee args = record {
  is_invoke = false;
  method = none;
  static_callee = some callee;
  call_value = 0;
  args = args;
}

abbrev pub at : ℕ → Op → Instr
at p op = record { pos = p; op = op }

-- 0 locks and branches to 1, which defers the unlock, and to 2, which unlocks; both go on to 3,
-- which writes `c.n` and goes back to 0 or ends.
abbrev sample_blocks : Map ℕ Block
sample_blocks =
    (0, record { instrs = at 10 (call (call_on 1 (2 ∷ []))) ∷ []; succs = 1 ∷ 2 ∷ []; preds = 1 })
    ∷ (1, record { instrs = at 20 (defer (call_on 2 (2 ∷ []))) ∷ []; succs = 3 ∷ []; preds = 1 })
    ∷ (2, record { instrs = at 30 (call (call_on 2 (2 ∷ []))) ∷ []; succs = 3 ∷ []; preds = 1 })
    ∷ (3, record { instrs = at 40 (store 3 8) ∷ []; succs = 0 ∷ 4 ∷ []; preds = 2 })
    ∷ (4, record { instrs = at 50 return ∷ []; succs = []; preds = 1 })
    ∷ []

abbrev function_of : String → Option Ty → List ℕ → Function
function_of name recv blocks = record {
  fn_name = name;
  fn_pos = 1;
  params = [];
  results = [];
  recv = recv;
  blocks = blocks;
  fn_pkg = some 0;
  object = none;
}

abbrev sample_functions : Map ℕ Function
sample_functions =
    (0, function_of "work" (some (pointer (named 0))) (0 ∷ 1 ∷ 2 ∷ 3 ∷ 4 ∷ []))
    ∷ (1, function_of "Lock" (some (pointer (named 1))) [])
    ∷ (2, function_of "Unlock" (some (pointer (named 1))) [])
    ∷ []

-- The program with other blocks for the method.
abbrev pub sample_of : Map ℕ Block → Program
sample_of blocks = record {
  pass_pkg = 0;
  pkg_path = λ p. if_sync p;
  type_name = λ t. elim t [ zero ↦ "counter" | suc _ ↦ "Mutex" ];
  type_pkg = λ t. some t;
  type_exported = λ _. false;
  type_underlying = λ t. struct t;
  struct_fields = λ t. elim t [ zero ↦ lock_field ∷ n_field ∷ [] | suc _ ↦ [] ];
  values = 1 ∷ 2 ∷ 3 ∷ 4 ∷ 5 ∷ 6 ∷ 7 ∷ [];
  value_of = λ v. or_default other_value (lookup v sample_values);
  value_type = λ v. or_default (other_type 0) (lookup v sample_types);
  func = λ f. or_default (function_of "other" none []) (lookup f sample_functions);
  block = λ b. or_default (record { instrs = []; succs = []; preds = 0 }) (lookup b blocks);
  dominates = λ a b. a == 0;
  src_funcs = 0 ∷ [];
  position = λ p. record { filename = "counter.go"; line = p; column = 1 };
}
  where
    if_sync : ℕ → String
    if_sync p = elim p [ zero ↦ "example.com/counter" | suc _ ↦ "sync" ]

abbrev pub sample : Program
sample = sample_of sample_blocks

pub all-at :
    (p : ℕ → Bool) (xs : List ℕ) (b : ℕ) → all p xs ≡ true → contains xs b ≡ true → p b ≡ true
all-at p [] b h m = absurd (cc)
all-at p (x ∷ xs) b h m = elim (Bool-cases (x == b)) [
  | inl same ↦ let e : x ≡ b = ground arith in subst (λ (c : ℕ). p c ≡ true) e (ground arith)
  | inr other ↦ all-at p xs b (ground arith) (ground arith)
]

-- Being closed under successors is decided by a test.
pub IsClosed-of_test :
    (prog : Program) (bs : List ℕ)
    → all (λ b. all (contains bs) (prog.block b).succs) bs ≡ true
    → IsClosed prog bs
IsClosed-of_test prog bs h b m =
    (all-contains (prog.block b).succs bs).0
      (all-at (λ c. all (contains bs) (prog.block c).succs) bs b h m)
