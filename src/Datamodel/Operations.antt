-- ===== src/Datamodel/Operations.antt =====
-- The operations of src/datamodel/mod.rs on values: `operation_plus` to `operation_greater_equal`, and the conversions
-- they use. An `f64` is left to the machine; `a > b` is `b < a`.
pub mod Bounds
use ru_fsm.Common.{
  ℕ, zero, suc, ◌+◌, Bool, true, false, ◌&&◌, ◌||◌, not, Option, none, some, List, [], ◌∷◌, ◌++◌,
  length, ltb, if◌then◌else◌, ◌==◌, nat_eq, Run, ok, ◌>>=◌,
}
use ru_fsm.Common.Int.{ℤ, pos, saturating_add, saturating_sub, saturating_mul, checked_rem}
use ru_fsm.Common.Float.{Float}
use ru_fsm.Common.Str.{Str, codes, str_beq}
use ru_fsm.Datamodel.Cells.{Heap, Fields, create_data_arc, insert}
use ru_fsm.Datamodel.Text.{to_string}
use ru_fsm.Datamodel.Value as V
use ru_fsm.Datamodel.Value.{
  DataArc, Value, integer, double, string, boolean, array, map, null, error, source,
}

unfoldable pub is_numeric : Value → Bool
is_numeric (integer v) = true
is_numeric (double v) = true
is_numeric null = true
is_numeric _ = false

parsed_or_0 : Float → Option ℕ → ℕ
parsed_or_0 F Option.none = F.of_nat 0
parsed_or_0 F (some v) = v

unfoldable pub as_number : Float → Value → ℕ
unfolding parsed_or_0
as_number F (integer v) = F.of_int v
as_number F (double v) = v
as_number F (string s) = parsed_or_0 F (F.parse s)
as_number F (boolean b) = if b then F.of_nat 1 else F.of_nat 0
as_number F (array a) = F.of_nat (length a)
as_number F (map m) = F.of_nat (length m)
as_number F null = F.of_nat 0
as_number F (error err) = F.of_nat 0
as_number F (source s id) = parsed_or_0 F (F.parse s)
as_number F Value.none = F.of_nat 0

unfoldable pub numeric_to_integer : Float → Value → Option ℤ
numeric_to_integer F (integer v) = some v
numeric_to_integer F (double v) = if F.is_whole v then some (F.to_int v) else Option.none
numeric_to_integer F _ = Option.none

-- the arithmetic of two numbers, on integers and on floats; `null` is a number without arithmetic
unfoldable pub numeric : Float → Str → (ℤ → ℤ → Run ℤ) → (ℕ → ℕ → ℕ) → Value → Value → Run Value
numeric F why on_int on_float (double a) (double b) = ok (double (on_float a b))
numeric F why on_int on_float (integer a) (double b) = ok (double (on_float (F.of_int a) b))
numeric F why on_int on_float (double a) (integer b) = ok (double (on_float a (F.of_int b)))
numeric F why on_int on_float (integer a) (integer b) = do r ← on_int a b; ok (integer r)
numeric F why on_int on_float a b = ok (error why)

internal : Str → Str
internal op = codes "Internal Error in '" ++ op ++ codes "' operation"

wrong : Str → Str
wrong op = codes "Wrong argument types for '" ++ op ++ codes "'"

-- `-`, `*` and `%`: both sides are numbers
unfoldable pub arithmetic : Float → Str → (ℤ → ℤ → Run ℤ) → (ℕ → ℕ → ℕ) → Value → Value → Run Value
unfolding internal wrong
arithmetic F op on_int on_float l r =
    if is_numeric l && is_numeric r
    then numeric F (internal op) on_int on_float l r
    else ok (error (wrong op))

unfoldable pub operation_minus : Float → Value → Value → Run Value
unfolding arithmetic
operation_minus F l r = arithmetic F (codes "-") (λ a b. ok (saturating_sub a b)) F.sub l r

unfoldable pub operation_multiply : Float → Value → Value → Run Value
unfolding arithmetic
operation_multiply F l r = arithmetic F (codes "*") (λ a b. ok (saturating_mul a b)) F.mul l r

unfoldable pub operation_modulus : Float → Value → Value → Run Value
unfolding arithmetic
operation_modulus F l r = arithmetic F (codes "%") checked_rem F.rem l r

unfoldable pub operation_divide : Float → Value → Value → Value
unfolding wrong
operation_divide F l r =
    let q = F.div (as_number F l) (as_number F r) in
    if is_numeric l && is_numeric r
    then if F.is_nan q then error (codes "Result of '/' is NaN") else double q
    else error (wrong (codes "/"))

-- the entries of the second map over those of the first
unfoldable pub extend : Fields → Fields → Fields
extend m [] = m
extend m ((k, a) ∷ fs) = extend (insert k a m) fs

unfoldable pub pushed : List DataArc → DataArc × Heap → Value × Heap
pushed items (a, h) = (array (items ++ a ∷ []), h)

-- `+` where a side is no number: the first match of the source's arms
unfoldable pub joined : Float → Heap → List ℕ → Value → Value → Value × Heap
unfolding wrong pushed
joined F h locked l (error err) = (error err, h)
joined F h locked (error err) r = (error err, h)
joined F h locked (string s) r = (string (s ++ to_string F h locked r), h)
joined F h locked (source s id) r = (source (s ++ to_string F h locked r) 0, h)
joined F h locked (array a) (array b) = (array (a ++ b), h)
joined F h locked (array a) r = pushed a (create_data_arc r h)
joined F h locked l (string s) = (string (to_string F h locked l ++ s), h)
joined F h locked l (source s id) = (source (to_string F h locked l ++ s) 0, h)
joined F h locked (map m) (map n) = (map (extend m n), h)
joined F h locked (boolean a) (boolean b) = (boolean (a && b), h)
joined F h locked l r = (error (wrong (codes "+")), h)

unfoldable pub with_heap : Heap → Run Value → Run (Value × Heap)
with_heap h m = do v ← m; ok (v, h)

-- `+`, while the cells in `locked` are locked
unfoldable pub operation_plus : Float → Heap → List ℕ → Value → Value → Run (Value × Heap)
unfolding internal with_heap
operation_plus F h locked l r =
    if is_numeric l && is_numeric r
    then with_heap h (numeric F (internal (codes "+")) (λ a b. ok (saturating_add a b)) F.add l r)
    else ok (joined F h locked l r)

unfoldable pub operation_and : Value → Value → Value
unfolding wrong
operation_and l (error err) = error err
operation_and (error err) r = error err
operation_and (boolean a) (boolean b) = boolean (a && b)
operation_and l r = error (wrong (codes "&"))

unfoldable pub operation_or : Value → Value → Value
unfolding wrong
operation_or l (error err) = error err
operation_or (error err) r = error err
operation_or (boolean a) (boolean b) = boolean (a || b)
operation_or l r = error (wrong (codes "|"))

-- The order of strings is that of their code points.
unfoldable pub str_lt : Str → Str → Bool
str_lt s [] = false
str_lt [] (d ∷ t) = true
str_lt (c ∷ s) (d ∷ t) = ltb c d || (c == d && str_lt s t)

abbrev pub str_le : Str → Str → Bool
str_le s t = not (str_lt t s)

-- the text of a string or of a source
abbrev text_of : Value → Option Str
text_of (string s) = some s
text_of (source s id) = some s
text_of _ = Option.none

texts : (Str → Str → Bool) → Value → Option Str → Option Str → Value
texts test other (some s) (some t) = boolean (test s t)
texts test other _ _ = other

-- the comparisons, with the result for other types
unfoldable pub comparison :
    Float → (ℕ → ℕ → Bool) → (Str → Str → Bool) → Value → Value → Value → Value
unfolding texts
comparison F on_float on_text other l r =
    if is_numeric l && is_numeric r
    then boolean (on_float (as_number F l) (as_number F r))
    else texts on_text other (text_of l) (text_of r)

unfoldable pub operation_less : Float → Value → Value → Value
operation_less F = comparison F F.lt str_lt (boolean false)

unfoldable pub operation_less_equal : Float → Value → Value → Value
operation_less_equal F = comparison F F.le str_le (boolean false)

unfoldable pub operation_greater : Float → Value → Value → Value
operation_greater F =
    comparison F (λ a b. F.lt b a) (λ s t. str_lt t s)
      (error (codes "'>' supports only numeric or string types"))

unfoldable pub operation_greater_equal : Float → Value → Value → Value
operation_greater_equal F = comparison F (λ a b. F.le b a) (λ s t. str_le t s) (boolean false)
