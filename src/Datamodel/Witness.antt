-- ===== src/Datamodel/Witness.antt =====
-- The theorems on values and variables at concrete inputs.
use ru_fsm.Common.{
  ok, ◌+◌, ◌*◌, ℕ, Bool, ◌^◌, ◌-◌, ◌≡◌, ◌↔◌, ◌⊎◌, refl, true, false, some, [], ◌∷◌, panic,
}
use ru_fsm.Common.Float.{idle}
use ru_fsm.Common.Int.{ℤ, pos, negsuc}
use ru_fsm.Common.Str.{codes, str_beq}
use ru_fsm.Datamodel.Cells.{Fields, find, set_arc, set_undefined_arc}
use ru_fsm.Datamodel.Cells.Store.{Sets, set_arc-Sets, set-ReadOnly}
use ru_fsm.Datamodel.Operations.{
  operation_plus, operation_minus, operation_multiply, operation_modulus,
}
use ru_fsm.Datamodel.Operations.Bounds.{Nearest, arithmetic-Nearest, operation_modulus_panics}
use ru_fsm.Datamodel.Value.{DataArc, integer}

abbrev cell : ℕ → Bool → DataArc
cell n b = record { arc = n; readonly = b }

abbrev greatest_integer : ℤ
greatest_integer = pos (2 ^ 63 - 1)

abbrev variables : Fields
variables = (codes "x", cell 0 false) ∷ (codes "_event", cell 1 true) ∷ []

event_found : find (codes "_event") variables ≡ some (cell 1 true)
unfolding find str_beq
event_found = refl

set-ReadOnly_example :
    (find (codes "_event") (set_arc (codes "_event") (cell 2 false) variables).1
      ≡ some (cell 1 true))
    × (find (codes "_event") (set_undefined_arc (codes "_event") (cell 2 false) variables)
        ≡ some (cell 1 true))
set-ReadOnly_example =
    set-ReadOnly (codes "_event") (cell 1 true) (codes "_event") (cell 2 false) variables
      event_found refl

set_arc-Sets_example :
    Sets (codes "x") (cell 2 false) variables true (set_arc (codes "x") (cell 2 false) variables)
unfolding find str_beq
set_arc-Sets_example = set_arc-Sets (codes "x") (cell 2 false) variables

arithmetic-Nearest_example :
    ((i : ℤ) × (operation_plus idle [] [] (integer greatest_integer) (integer (negsuc 2))
        ≡ ok (integer i, []))
      × Nearest (2 ^ 63 - 1) 3 i)
    × ((i : ℤ) × (operation_minus idle (integer greatest_integer) (integer (negsuc 2))
          ≡ ok (integer i))
        × Nearest (2 ^ 63 - 1 + 3) 0 i)
    × ((i : ℤ) × (operation_multiply idle (integer greatest_integer) (integer (negsuc 2))
          ≡ ok (integer i))
        × Nearest 0 ((2 ^ 63 - 1) * 3) i)
arithmetic-Nearest_example = arithmetic-Nearest idle [] [] greatest_integer (negsuc 2)

operation_modulus_panics_example :
    (operation_modulus idle (integer (pos 5)) (integer (pos 0)) ≡ panic) ↔ (
      (a : ℤ) × (b : ℤ) × (integer (pos 5) ≡ integer a)
      × (integer (pos 0) ≡ integer b)
      × ((b ≡ pos 0) ⊎ ((a ≡ negsuc (2 ^ 63 - 1)) × (b ≡ negsuc 0))))
operation_modulus_panics_example = operation_modulus_panics idle (integer (pos 5)) (integer (pos 0))
