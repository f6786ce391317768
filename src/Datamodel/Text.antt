-- ===== src/Datamodel/Text.antt =====
-- The texts of values of src/datamodel/mod.rs: `Display` of `Data` and of `DataArc`, `data_to_string` and
-- `data_arc_to_string`. Who prints a cell holds its lock; the fuel is the number of locks that can still be taken.
use ru_fsm.Common.{
  Result, success, failure, ℕ, zero, suc, Bool, true, false, List, [], ◌∷◌, ◌++◌, length,
  if◌then◌else◌,
}
use ru_fsm.Common.Decimal.{show_int}
use ru_fsm.Common.Float.{Float}
use ru_fsm.Common.Str.{Str, codes, contains}
use ru_fsm.Datamodel.Cells.{Heap, Fields, read}
use ru_fsm.Datamodel.Value.{
  DataArc, Value, integer, double, string, boolean, array, map, null, error, source, none,
}

show_bool : Bool → Str
show_bool true = codes "true"
show_bool false = codes "false"

-- the loop of `vec_to_string` behind the first item, with the text of an item
unfoldable pub more_items : (DataArc → Str) → List DataArc → Str
more_items text [] = []
more_items text (a ∷ rest) = b',' ∷ text a ++ more_items text rest

show_items : (DataArc → Str) → List DataArc → Str
unfolding more_items
show_items text [] = codes "[]"
show_items text (a ∷ rest) = b'[' ∷ text a ++ more_items text rest ++ codes "]"

show_field : (DataArc → Str) → Str × DataArc → Str
show_field text (k, a) = b'\'' ∷ k ++ codes "':" ++ text a

unfoldable pub more_fields : (DataArc → Str) → Fields → Str
unfolding show_field
more_fields text [] = []
more_fields text (f ∷ fs) = b',' ∷ show_field text f ++ more_fields text fs

show_fields : (DataArc → Str) → Fields → Str
unfolding show_field more_fields
show_fields text [] = codes "{}"
show_fields text (f ∷ fs) = b'{' ∷ show_field text f ++ more_fields text fs ++ codes "}"

-- `Display` of `Data`, with the text of a reference
unfoldable pub show_value : Float → (DataArc → Str) → Value → Str
unfolding show_bool show_items show_fields
show_value F text (integer v) = show_int v
show_value F text (double v) = F.show v
show_value F text (string v) = v
show_value F text (boolean v) = show_bool v
show_value F text (array a) = show_items text a
show_value F text (map m) = show_fields text m
show_value F text null = codes "null"
show_value F text (error err) = codes "Error " ++ err
show_value F text (source s id) = s
show_value F text none = []

-- `Display` of `DataArc`; the cells in `locked` are locked
unfoldable pub show_arc : ℕ → Float → Heap → List ℕ → DataArc → Str
show_arc zero F h locked a = codes "<locked arc>"
show_arc (suc fuel) F h locked a =
    let text = show_value F (show_arc fuel F h (a.arc ∷ locked)) (read h a) in
    if contains locked a.arc then codes "<locked arc>" else text

-- `data.to_string()` while the cells in `locked` are locked
abbrev pub to_string : Float → Heap → List ℕ → Value → Str
to_string F h locked v = show_value F (show_arc (length h) F h locked) v

separated : Str → Str
separated [] = []
separated (c ∷ v) = (c ∷ v) ++ codes ","

-- the loop of `data_to_string` over the items of an array, and that over the entries of a map
unfoldable pub join_items : (DataArc → Result Str) → Str → List DataArc → Result Str
unfolding separated
join_items text v [] = success v
join_items text v (a ∷ rest) = elim (text a) [
  | failure err ↦ failure err
  | success s ↦ join_items text (separated v ++ s) rest
]

unfoldable pub join_fields : (DataArc → Result Str) → Str → Fields → Result Str
unfolding separated
join_fields text v [] = success v
join_fields text v ((k, a) ∷ rest) = elim (text a) [
  | failure err ↦ failure err
  | success s ↦ join_fields text (separated v ++ k ++ codes ":" ++ s) rest
]

-- `data_to_string`, with the text of a reference
unfoldable pub data_to_string : Float → (DataArc → Result Str) → Value → Result Str
unfolding show_bool
data_to_string F text (error err) = failure err
data_to_string F text none = success (codes "none")
data_to_string F text null = success (codes "null")
data_to_string F text (string s) = success s
data_to_string F text (source s id) = success s
data_to_string F text (integer i) = success (show_int i)
data_to_string F text (double d) = success (F.show d)
data_to_string F text (boolean b) = success (show_bool b)
data_to_string F text (array a) = join_items text [] a
data_to_string F text (map m) = join_fields text [] m

-- `data_arc_to_string` while the cells in `locked` are locked
unfoldable pub data_arc_to_string : ℕ → Float → Heap → List ℕ → DataArc → Result Str
data_arc_to_string zero F h locked a = failure (codes "locked")
data_arc_to_string (suc fuel) F h locked a =
    let text = data_to_string F (data_arc_to_string fuel F h (a.arc ∷ locked)) (read h a) in
    if contains locked a.arc then failure (codes "locked") else text
