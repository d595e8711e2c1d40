-- ===== src/Base/Json.antt =====
-- The values that `json.loads` makes: `dict`, `list` and scalars. A float is kept as its text.
use Prim.Native.String.{String}
use mathlib.Core.Bool.{Bool}
use azure_functions_langgrap.Base.Int.{ℤ}

pub data Scalar : Type 0 where
  null : Scalar
  boolean : Bool → Scalar
  integer : ℤ → Scalar
  decimal : String → Scalar
  text : String → Scalar

mutual
  pub data Value : Type 0 where
    scalar : Scalar → Value
    obj : Fields → Value
    arr : Items → Value

  pub data Fields : Type 0 where
    end : Fields
    field : String → Value → Fields → Fields

  pub data Items : Type 0 where
    nil : Items
    cons : Value → Items → Items
