-- ===== src/Base/Value.antt =====
-- The values that JSON columns and task inputs and outputs hold. A number is kept as its literal:
-- the modelled code stores and compares numbers in these columns, and never computes with them.
use Prim.Native.String.{String}
use mathlib.Core.Bool.{Bool}
use mathlib.Core.Option.{Option, none, some}
use mathlib.Core.List.{List, [], ◌∷◌}
use python_backend_projects.Base.Text.{◌==◌}
use python_backend_projects.Base.Tests.{if◌then◌else◌}

mutual
  pub data Value : Type 0 where
    null : Value
    boolean : Bool → Value
    number : String → Value
    text : String → Value
    array : Items → Value
    object : Fields → Value

  pub data Items : Type 0 where
    nil : Items
    cons : Value → Items → Items

  pub data Fields : Type 0 where
    end : Fields
    field : String → Value → Fields → Fields

-- `d.get(key)`: the last binding of a key is in front.
abbrev pub get_field : Fields → String → Option Value
get_field end key = none
get_field (field k v fs) key = if k == key then some v else get_field fs key

-- `{**under, **over}`: the later dict wins.
abbrev pub merge : Fields → Fields → Fields
merge under end = under
merge under (field k v fs) = field k v (merge under fs)

abbrev pub from_pairs : List (String × Value) → Fields
from_pairs [] = end
from_pairs ((k, v) ∷ rest) = field k v (from_pairs rest)
