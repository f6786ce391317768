-- ===== src/Expression/Syntax.antt =====
-- The expressions of src/expression_engine/expressions.rs: a constructor for each `struct` that implements the trait
-- `Expression`, its methods `is_assignable` and `get_copy`.
use ru_fsm.Common.{Bool, true, false}
use ru_fsm.Common.Str.{Str}
use ru_fsm.Datamodel.Value.{Value}
use ru_fsm.Expression.Token.{Operator}

mutual
  pub data Expression : Type 0 where
    constant : Value → Expression
    variable : Str → Expression
    array : Expressions → Expression
    map : Members → Expression
    method : Str → Expressions → Expression
    index : Expression → Expression → Expression
    member_access : Expression → Str → Expression
    assign : Expression → Expression → Expression
    assign_undefined : Expression → Expression → Expression
    operation : Operator → Expression → Expression → Expression
    negation : Expression → Expression
    sequence : Expressions → Expression

  -- `Vec<Box<dyn Expression>>`
  pub data Expressions : Type 0 where
    nil : Expressions
    cons : Expression → Expressions → Expressions

  -- `Vec<(Box<dyn Expression>, Box<dyn Expression>)>`
  pub data Members : Type 0 where
    end : Members
    member : Expression → Expression → Members → Members

unfoldable pub is_assignable : Expression → Bool
is_assignable (variable name) = true
is_assignable (index left i) = true
is_assignable (member_access left name) = true
is_assignable _ = false

unfoldable mutual
  pub get_copy : Expression → Expression
  get_copy (constant data_) = constant data_
  get_copy (variable name) = variable name
  get_copy (array items) = array (copies items)
  get_copy (map members) = map (member_copies members)
  get_copy (method name arguments) = method name (copies arguments)
  get_copy (index left i) = index (get_copy left) (get_copy i)
  get_copy (member_access left name) = member_access (get_copy left) name
  get_copy (assign left right) = assign (get_copy left) (get_copy right)
  get_copy (assign_undefined left right) = assign_undefined (get_copy left) (get_copy right)
  get_copy (operation op left right) = operation op (get_copy left) (get_copy right)
  get_copy (negation right) = negation (get_copy right)
  get_copy (sequence es) = sequence (copies es)

  pub copies : Expressions → Expressions
  copies nil = nil
  copies (cons e es) = cons (get_copy e) (copies es)

  pub member_copies : Members → Members
  member_copies end = end
  member_copies (member k v ms) = member (get_copy k) (get_copy v) (member_copies ms)

-- `push`
unfoldable pub push : Expressions → Expression → Expressions
push nil e = cons e nil
push (cons d ds) e = cons d (push ds e)

unfoldable pub push_member : Members → Expression → Expression → Members
push_member end k v = member k v end
push_member (member a b ms) k v = member a b (push_member ms k v)
