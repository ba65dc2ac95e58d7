-- ===== src/Ssa.antt =====
-- The program that a pass is given: what golang.org/x/tools/go/ssa and go/analysis hand to the
-- analyzer. It is a parameter of the model. Values, functions and blocks are compared by identity
-- in Go: here each has a number. A position is a number too, and 0 is `token.NoPos`.
use golintmu.Base.{ℕ, String, Bool, Option, List, ltb}
use golintmu.Types.{Ty, StructField}

pub data Token : Type 0 where
  mul arrow other_token : Token

-- The `ssa.Value`s that the analyzer looks into. `unop` has its operator and operand,
-- `field_addr` the base `X` and the index `Field`, `alloc` the flag `Heap`.
pub data Value : Type 0 where
  phi : List ℕ → Value
  field_addr : ℕ → ℕ → Value
  unop : Token → ℕ → Value
  alloc : Bool → Value
  function : ℕ → Value
  make_closure : ℕ → Value
  other_value : Value

-- `ssa.CallCommon`
pub record CallCommon : Type 0 where
  pub is_invoke : Bool
  pub method : Option String
  pub static_callee : Option ℕ
  pub call_value : ℕ
  pub args : List ℕ

-- The `ssa.Instruction`s that the analyzer distinguishes.
pub data Op : Type 0 where
  call : CallCommon → Op
  defer : CallCommon → Op
  go : CallCommon → Op
  return : Op
  store : ℕ → ℕ → Op
  read : Token → ℕ → Op
  map_update : ℕ → Op
  phi_node : Op
  other_op : Op

pub record Instr : Type 0 where
  pub pos : ℕ
  pub op : Op

-- `preds` is `len(block.Preds)`.
pub record Block : Type 0 where
  pub instrs : List Instr
  pub succs : List ℕ
  pub preds : ℕ

-- `types.Object`, as far as it is read
pub record Object : Type 0 where
  pub object_pkg : ℕ
  pub object_exported : Bool

-- `blocks` names the blocks in order, the entry first; `recv` is the type of `Signature.Recv()`.
pub record Function : Type 0 where
  pub fn_name : String
  pub fn_pos : ℕ
  pub params : List Ty
  pub results : List Ty
  pub recv : Option Ty
  pub blocks : List ℕ
  pub fn_pkg : Option ℕ
  pub object : Option Object

-- `token.Position`
pub record Position : Type 0 where
  pub filename : String
  pub line : ℕ
  pub column : ℕ

-- `values` lists the values of the program, which are finitely many.
pub record Program : Type 0 where
  pub pass_pkg : ℕ
  pub pkg_path : ℕ → String
  pub type_name : ℕ → String
  pub type_pkg : ℕ → Option ℕ
  pub type_exported : ℕ → Bool
  pub type_underlying : ℕ → Ty
  pub struct_fields : ℕ → List StructField
  pub values : List ℕ
  pub value_of : ℕ → Value
  pub value_type : ℕ → Ty
  pub func : ℕ → Function
  pub block : ℕ → Block
  pub dominates : ℕ → ℕ → Bool
  pub src_funcs : List ℕ
  pub position : ℕ → Position

-- `pos.IsValid()`
abbrev pub is_valid : ℕ → Bool
is_valid p = ltb 0 p
