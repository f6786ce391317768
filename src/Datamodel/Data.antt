-- ===== src/Datamodel/Data.antt =====
-- `Data` and `SourceCode` of src/datamodel/mod.rs. A value behind a `DataArc` (a mutex) is the value; an
-- `f64` is its bit pattern. A map's entries stand in the order in which the hash map yields them.
use ru_fsm.Common.{ℕ, Bool, true, false, [], ◌∷◌}
use ru_fsm.Common.Int.{ℤ}
use ru_fsm.Common.Str.{Str}

mutual
  pub data Data : Type 0 where
    integer : ℤ → Data
    double : ℕ → Data
    string : Str → Data
    boolean : Bool → Data
    array : Items → Data
    map : Fields → Data
    null : Data
    error : Str → Data
    source : Str → ℕ → Data
    none : Data

  -- `Vec<DataArc>`
  pub data Items : Type 0 where
    nil : Items
    cons : Data → Items → Items

  -- `HashMap<String, DataArc>`
  pub data Fields : Type 0 where
    end : Fields
    field : Str → Data → Fields → Fields

str_is_empty : Str → Bool
str_is_empty [] = true
str_is_empty (c ∷ s) = false

items_is_empty : Items → Bool
items_is_empty nil = true
items_is_empty (cons d ds) = false

fields_is_empty : Fields → Bool
fields_is_empty end = true
fields_is_empty (field k d fs) = false

unfoldable pub is_empty : Data → Bool
unfolding str_is_empty items_is_empty fields_is_empty
is_empty (integer v) = false
is_empty (double v) = false
is_empty (string s) = str_is_empty s
is_empty (boolean b) = false
is_empty (array a) = items_is_empty a
is_empty (map m) = fields_is_empty m
is_empty null = true
is_empty (error s) = true
is_empty (source s id) = str_is_empty s
is_empty none = true
