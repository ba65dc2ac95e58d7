-- ===== src/Types.antt =====
-- The values of go/types that the analyzer reads. A `*types.Named` and a `*types.Struct` are
-- compared by identity in Go: here each has a number.
use Prim.Native.String.{◌++◌}
use golintmu.Base.{ℕ, String, Bool, Eq, ℕ_discrete}

pub data Ty : Type 0 where
  named : ℕ → Ty
  pointer : Ty → Ty
  struct : ℕ → Ty
  other_type : ℕ → Ty

-- `*types.Var`, as a field of a struct.
pub record StructField : Type 0 where
  pub field_name : String
  pub field_type : Ty
  pub anonymous : Bool
  pub exported : Bool
  pub field_pos : ℕ

unfoldable pub Ty_discrete : Discrete Ty
unfolding ℕ_discrete
Ty_discrete = hlevel ℕ_discrete

-- `types.Identical`, on types whose named parts are equal only if they are identical.
instance abbrev pub Ty_eq : Eq Ty
Ty_eq = record { dec = Ty_discrete }

-- "StructName.fieldName"
unfoldable pub field_label : String → String → String
field_label struct_name field_name = struct_name ++ "." ++ field_name
