-- ===== src/Datamodel/Equality.antt =====
-- `PartialEq` of `Data` and of `DataArc` of src/datamodel/mod.rs. To compare two cells both are locked; who waits for a
-- lock that is held waits for ever.
use ru_fsm.Common.{
  ℕ, zero, suc, Bool, true, false, not, Option, none, some, List, [], ◌∷◌, length, if◌then◌else◌,
  ◌==◌, nat_eq, nat_beq, Run, ok, stuck, ◌>>=◌,
}
use ru_fsm.Common.Int.{ℤ, pos, negsuc}
use ru_fsm.Common.Float.{Float}
use ru_fsm.Common.Str.{str_beq, contains}
use ru_fsm.Datamodel.Cells.{Heap, Fields, find, read}
use ru_fsm.Datamodel.Value.{
  DataArc, Value, integer, double, string, boolean, array, map, null, error, source,
}

int_beq : ℤ → ℤ → Bool
int_beq (pos a) (pos b) = nat_beq a b
int_beq (negsuc a) (negsuc b) = nat_beq a b
int_beq _ _ = false

bool_beq : Bool → Bool → Bool
bool_beq true b = b
bool_beq false b = not b

-- `&&` with a right side that may not return
unfoldable pub both : Run Bool → Run Bool → Run Bool
both m n = do b ← m; if b then n else ok false

-- the loop over the indexes of two arrays of one length
unfoldable pub eq_items : (DataArc → DataArc → Run Bool) → List DataArc → List DataArc → Run Bool
eq_items eq (a ∷ xs) (b ∷ ys) = both (eq a b) (eq_items eq xs ys)
eq_items eq _ _ = ok true

eq_found : (DataArc → DataArc → Run Bool) → DataArc → Option DataArc → Run Bool
eq_found eq a none = ok false
eq_found eq a (some b) = eq a b

-- the loop over the entries of the first map
unfoldable pub eq_fields : (DataArc → DataArc → Run Bool) → Fields → Fields → Run Bool
unfolding eq_found
eq_fields eq [] n = ok true
eq_fields eq ((k, a) ∷ m) n = both (eq_found eq a (find k n)) (eq_fields eq m n)

-- `Data::eq`, with the comparison of references
unfoldable pub value_eq : Float → (DataArc → DataArc → Run Bool) → Value → Value → Run Bool
unfolding int_beq bool_beq
value_eq F eq (integer a) (double b) = ok (F.eq (F.of_int a) b)
value_eq F eq (integer a) (integer b) = ok (int_beq a b)
value_eq F eq (double a) (double b) = ok (F.eq a b)
value_eq F eq (double a) (integer b) = ok (F.eq a (F.of_int b))
value_eq F eq (string a) (string b) = ok (str_beq a b)
value_eq F eq (boolean a) (boolean b) = ok (bool_beq a b)
value_eq F eq (array a) (array b) = if length a == length b then eq_items eq a b else ok false
value_eq F eq (map a) (map b) = if length a == length b then eq_fields eq a b else ok false
value_eq F eq null null = ok true
value_eq F eq (error a) (error b) = ok (str_beq a b)
value_eq F eq (source a i) (source b j) = ok (str_beq a b)
value_eq F eq Value.none Value.none = ok true
value_eq F eq _ _ = ok false

-- `DataArc::eq` while the cells in `locked` are locked
unfoldable pub arc_eq : ℕ → Float → Heap → List ℕ → DataArc → DataArc → Run Bool
arc_eq zero F h locked a b = if a.arc == b.arc then ok true else stuck
arc_eq (suc fuel) F h locked a b =
    let deep = value_eq F (arc_eq fuel F h (a.arc ∷ b.arc ∷ locked)) (read h a) (read h b) in
    if a.arc == b.arc
    then ok true
    else if contains locked a.arc
    then stuck
    else if contains locked b.arc
    then stuck
    else deep

-- `operation_equal` and `operation_not_equal`
unfoldable pub operation_equal : Float → Heap → List ℕ → Value → Value → Run Value
operation_equal F h locked l r = do
  same ← value_eq F (arc_eq (length h) F h locked) l r
  ok (boolean same)

unfoldable pub operation_not_equal : Float → Heap → List ℕ → Value → Value → Run Value
operation_not_equal F h locked l r = do
  same ← value_eq F (arc_eq (length h) F h locked) l r
  ok (boolean (not same))
