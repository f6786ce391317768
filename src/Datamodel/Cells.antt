-- ===== src/Datamodel/Cells.antt =====
-- The heap behind the `DataArc`s and the `DataStore` of src/datamodel/mod.rs. A cell is never freed here.
pub mod Store
use ru_fsm.Common.{
  ℕ, zero, suc, ◌+◌, Bool, true, false, Option, none, some, List, [], ◌∷◌, ◌++◌, get_elem?, length,
  if◌then◌else◌,
}
use ru_fsm.Common.Str.{Str, str_beq}
use ru_fsm.Datamodel.Value
use ru_fsm.Datamodel.Value.{DataArc, Value}

abbrev pub Heap : Type 0
Heap = List Value

-- `create_data_arc`
unfoldable pub create_data_arc : Value → Heap → DataArc × Heap
create_data_arc v h = (record { arc = length h; readonly = false }, h ++ v ∷ [])

unfoldable pub content : Option Value → Value
content none = Value.none
content (some v) = v

-- The value of a cell; every reference is to a cell of the heap.
unfoldable pub read : Heap → DataArc → Value
unfolding content
read h a = content (get_elem? h a.arc)

unfoldable pub write_at : Heap → ℕ → Value → Heap
write_at [] i v = []
write_at (w ∷ h) zero v = v ∷ h
write_at (w ∷ h) (suc i) v = w ∷ write_at h i v

-- `*guard = v`
abbrev pub write : Heap → DataArc → Value → Heap
write h a v = write_at h a.arc v

-- A map from names to references, `HashMap<String, DataArc>`; `find` is `get`.
abbrev pub Fields : Type 0
Fields = List (Str × DataArc)

unfoldable pub find : Str → Fields → Option DataArc
find k [] = none
find k ((n, a) ∷ fs) = let rest = find k fs in if str_beq n k then some a else rest

-- `insert`
unfoldable pub insert : Str → DataArc → Fields → Fields
insert k a [] = (k, a) ∷ []
insert k a ((n, b) ∷ fs) =
    let rest = insert k a fs in if str_beq n k then (n, a) ∷ fs else (n, b) ∷ rest

-- `DataStore::set_arc` on the entry: whether it was set, and the map
unfoldable pub set_entry : Option DataArc → Str → DataArc → Fields → Bool × Fields
set_entry none key a m = (false, m)
set_entry (some old) key a m = if old.readonly then (false, m) else (true, insert key a m)

unfoldable pub set_arc : Str → DataArc → Fields → Bool × Fields
unfolding set_entry
set_arc key a m = set_entry (find key m) key a m

-- `DataStore::set`
unfoldable pub set : Str → Value → Fields → Heap → Bool × Fields × Heap
set key v m h = let (a, g) = create_data_arc v h in let (done, n) = set_arc key a m in (done, n, g)

unfoldable pub set_undefined_entry : Option DataArc → Str → DataArc → Fields → Fields
set_undefined_entry none key a m = insert key a m
set_undefined_entry (some old) key a m = if old.readonly then m else insert key a m

unfoldable pub set_undefined_arc : Str → DataArc → Fields → Fields
unfolding set_undefined_entry
set_undefined_arc key a m = set_undefined_entry (find key m) key a m

-- `DataStore::set_undefined`
unfoldable pub set_undefined : Str → Value → Fields → Heap → Fields × Heap
set_undefined key v m h = let (a, g) = create_data_arc v h in (set_undefined_arc key a m, g)
