-- ===== src/Expression/Parser/Shrinks.antt =====
-- The stack of the parser of src/expression_engine/parser.rs gets smaller with every expression that is made of it.
use ru_fsm.Common.{
  Result, success, failure, ℕ, zero, suc, ◌+◌, ◌-◌, ◌≤◌, ◌<◌, ◌≡◌, refl, ap, arith, inl, inr, Bool,
  true, false, ◌&&◌, Bool-cases, Option, none, some, List, [], ◌∷◌, ◌++◌, get_elem?, take, drop,
  length, All, ltb, leb, if◌then◌else◌, ◌==◌, nat_eq, ltb→lt, ok,
}
use ru_fsm.Common.Loop.{Returns, ok-Returns, if-Returns, bind-Returns, weaken-Returns}
use ru_fsm.Common.Str.{Str}
use ru_fsm.Expression.Lexer.Moves.{le-get_elem?, lt-get_elem?}
use ru_fsm.Expression.Parser.Stack.{
  Item, token, expression, priority, Best, visit, visit_all, combine, replaced, fold_stack_at,
  negated, fold_not, select_member, fold_operator, Fold, refold, refused, found, folded, fold_at,
  fold_best, first_of, stack_to_expression,
}
use ru_fsm.Expression.Syntax.{Expression, negation}
use ru_fsm.Expression.Token.{Operator, identifier, separator, operator}

-- The tokens that the parser puts on its stack.
abbrev pub is_plain : Item → Bool
is_plain (expression e) = true
is_plain (token (identifier name)) = true
is_plain (token (operator op)) = true
is_plain (token (separator c)) = c == b'.'
is_plain (token t) = false

abbrev pub Plain : List Item → Type 0
Plain = All (λ i. is_plain i ≡ true)

module _ {ℓ κ} {A : Type ℓ} (P : A → Type κ) where
  pub All-append : (xs ys : List A) → All P xs → All P ys → All P (xs ++ ys)
  All-append [] ys a b = b
  All-append (x ∷ xs) ys (p, a) b = (p, All-append xs ys a b)

  All-take : (n : ℕ) (xs : List A) → All P xs → All P (take n xs)
  All-take zero xs a = tt
  All-take (suc n) [] a = tt
  All-take (suc n) (x ∷ xs) (p, a) = (p, All-take n xs a)

  All-drop : (n : ℕ) (xs : List A) → All P xs → All P (drop n xs)
  All-drop zero xs a = a
  All-drop (suc n) [] a = tt
  All-drop (suc n) (x ∷ xs) (p, a) = All-drop n xs a

length-drop {ℓ} : {A : Type ℓ} (n : ℕ) (xs : List A) → length (drop n xs) ≡ length xs - n
length-drop zero xs = omega arith
length-drop (suc n) [] = omega arith
length-drop (suc n) (x ∷ xs) = omega (arith, length-drop n xs)

-- One element in place of those from `k` to `d`.
length-replace {ℓ} :
    {A : Type ℓ} (k d : ℕ) (x : A) (xs : List A)
    → k ≤ d
    → d ≤ length xs
    → length (take k xs ++ x ∷ drop d xs) + d ≡ length xs + 1 + k
length-replace zero d x xs le h = omega (arith, length-drop d xs)
length-replace (suc k) zero x xs le h = absurd (omega arith)
length-replace (suc k) (suc d) x [] le h = absurd (omega arith)
length-replace (suc k) (suc d) x (y ∷ xs) le h =
    omega (arith, length-replace k d x xs (omega arith) (omega arith))

-- A smaller stack of the parser.
abbrev pub Smaller : ℕ → List Item → Type 0
Smaller n stack = (length stack < n) × Plain stack

if-both {ℓ κ} :
    {A : Type ℓ} (P : A → Type κ) (b : Bool) {x y : A} → P x → P y → P (if b then x else y)
if-both P true p q = p
if-both P false p q = q

abbrev Chosen : ℕ → Best → Type 0
Chosen n best = best.prio < 0xff → best.idx < n

-- The loop leaves an item for each, and chooses one of them.
abbrev Seen : ℕ → ℕ → List Item × Best → Type 0
Seen si n r = (length r.0 ≡ n) × Plain r.0 × Chosen (si + n) r.1

visit-Returns :
    (si : ℕ) (i : Item) (best : Best)
    → is_plain i ≡ true
    → Chosen si best
    → Returns (λ r. (is_plain r.0 ≡ true) × Chosen (suc si) r.1) (visit si i best)
unfolding visit
visit-Returns si (expression e) best p h =
    ok-Returns (expression e, best) (refl, λ lt. omega (arith, h lt))
visit-Returns si (token (identifier name)) best p h = ok-Returns _ (refl, λ lt. omega (arith, h lt))
visit-Returns si (token (operator op)) best p h = ok-Returns _ (
  refl,
  if-both (Chosen (suc si)) (leb (priority op) best.prio)
      {x = record { idx = si; prio = priority op }} (λ _. omega arith) (λ lt. omega (arith, h lt)),
)
visit-Returns si (token (separator c)) best p h =
    if-Returns (c == b'.')
      (λ _. ok-Returns _ (
        p,
        if-both (Chosen (suc si)) (ltb 2 best.prio) {x = record { idx = si; prio = 2 }}
            (λ _. omega arith) (λ lt. omega (arith, h lt)),
      ))
      (λ n. absurd (cc))
visit-Returns si (token _) best p h = cc

visit_all-Returns :
    (si : ℕ) (stack : List Item) (best : Best)
    → Plain stack
    → Chosen si best
    → Returns (Seen si (length stack)) (visit_all si stack best)
unfolding visit_all
visit_all-Returns si [] best p h = ok-Returns ([], best) (refl, tt, λ lt. omega (arith, h lt))
visit_all-Returns si (i ∷ is) best (p, ps) h =
    bind-Returns _ (visit-Returns si i best p h) λ here (q, k).
      bind-Returns _ (visit_all-Returns (si + 1) is here.1 ps (λ lt. omega (arith, k lt)))
        λ rest (e, qs, m). ok-Returns _ (ap suc e, (q, qs), λ lt. omega (arith, m lt))

-- A fold leaves a smaller stack.
abbrev Folds : ℕ → Fold → Type 0
Folds n (refold stack) = Smaller n stack
Folds n (refused why) = Unit
Folds n (found e stack) = Smaller n stack

abbrev SmallerIf : ℕ → Option (List Item) → Type 0
SmallerIf n none = Unit
SmallerIf n (some stack) = Smaller n stack

replaced-Smaller :
    (stack : List Item) (idx : ℕ) (o : Option Expression)
    → Plain stack
    → 0 < idx
    → idx + 1 < length stack
    → SmallerIf (length stack) (replaced idx stack o)
unfolding replaced
replaced-Smaller stack idx none p lo hi = tt
replaced-Smaller stack idx (some e) p lo hi = (
  omega
      (arith, length-replace (idx - 1) (idx + 2) (expression e) stack (omega arith) (omega arith)),
  All-append _ (take (idx - 1) stack) _ (All-take _ (idx - 1) stack p)
      (refl, All-drop _ (idx + 2) stack p),
)

fold_stack_at-Smaller :
    (stack : List Item) (idx : ℕ) (f : Expression → Expression → Option Expression)
    → Plain stack
    → SmallerIf (length stack) (fold_stack_at stack idx f)
unfolding fold_stack_at
fold_stack_at-Smaller stack idx f p =
    elim (Bool-cases (ltb 0 idx && ltb (idx + 1) (length stack))) [
      | inl y ↦ rw y (
          replaced-Smaller stack idx
            (combine f (get_elem? stack (idx - 1)) (get_elem? stack (idx + 1))) p (ground arith)
            (ground arith))
      | inr n ↦ rw n tt
    ]

negated-Smaller :
    (stack : List Item) (idx : ℕ) (o : Option Item)
    → Plain stack
    → get_elem? stack (idx + 1) ≡ o
    → SmallerIf (length stack) (negated idx stack o)
unfolding negated
negated-Smaller stack idx none p e = tt
negated-Smaller stack idx (some (token t)) p e = tt
negated-Smaller stack idx (some (expression re)) p e =
    let less = lt-get_elem? stack (idx + 1) e in
    (
      omega (
        arith,
        length-replace idx (idx + 2) (expression (negation re)) stack (omega arith) (omega arith),
      ),
      All-append _ (take idx stack) _ (All-take _ idx stack p) (refl, All-drop _ (idx + 2) stack p),
    )

fold_operator-Smaller :
    (op : Operator) (stack : List Item) (idx : ℕ)
    → Plain stack
    → SmallerIf (length stack) (fold_operator op stack idx)
unfolding fold_operator fold_not
fold_operator-Smaller Operator.not stack idx p =
    negated-Smaller stack idx (get_elem? stack (idx + 1)) p refl
fold_operator-Smaller _ stack idx p = fold_stack_at-Smaller stack idx _ p

folded-Folds : (n : ℕ) (why : Str) (o : Option (List Item)) → SmallerIf n o → Folds n (folded why o)
unfolding folded
folded-Folds n why none s = tt
folded-Folds n why (some stack) s = s

fold_at-Returns :
    (stack : List Item) (idx : ℕ) (o : Option Item)
    → Plain stack
    → get_elem? stack idx ≡ o
    → idx < length stack
    → Returns (Folds (length stack)) (fold_at stack idx o)
unfolding fold_at
fold_at-Returns stack idx none p e less = absurd (omega (arith, le-get_elem? stack idx e))
fold_at-Returns stack idx (some (token (operator op))) p e less = ok-Returns _ (
    folded-Folds (length stack) _ (fold_operator op stack idx)
      (fold_operator-Smaller op stack idx p))
fold_at-Returns stack idx (some (token (separator c))) p e less = ok-Returns _ (
    folded-Folds (length stack) _ (fold_stack_at stack idx select_member)
      (fold_stack_at-Smaller stack idx select_member p))
fold_at-Returns stack idx (some _) p e less = ok-Returns _ tt

first_of-Returns :
    (stack : List Item)
    → Plain stack
    → 0 < length stack
    → Returns (Folds (length stack)) (first_of stack)
unfolding first_of
first_of-Returns [] p h = absurd (omega arith)
first_of-Returns (expression e ∷ stack) (_, p) h = ok-Returns _ (omega arith, p)
first_of-Returns (token t ∷ stack) p h = ok-Returns _ tt

fold_best-Returns :
    (stack : List Item) (best : Best)
    → Plain stack
    → 0 < length stack
    → Chosen (length stack) best
    → Returns (Folds (length stack)) (fold_best stack best)
unfolding fold_best
fold_best-Returns stack best p h c =
    if-Returns (ltb best.prio 0xff)
      (λ y.
        fold_at-Returns stack best.idx (get_elem? stack best.idx) p refl
          (c (ltb→lt best.prio 0xff y)))
      (λ _. first_of-Returns stack p h)

-- What is left is smaller, if there was something.
abbrev pub Rest : ℕ → Result (Option Expression × List Item) → Type 0
Rest n (failure why) = Unit
Rest n (success r) = (length r.1 ≤ n) × Plain r.1

pub stack_to_expression-Returns :
    (fuel : ℕ) (stack : List Item)
    → Plain stack
    → length stack < fuel
    → Returns (Rest (length stack)) (stack_to_expression fuel stack)
unfolding stack_to_expression
stack_to_expression-Returns zero stack p h = absurd (omega arith)
stack_to_expression-Returns (suc fuel) [] p h = ok-Returns _ (omega arith, tt)
stack_to_expression-Returns (suc fuel) (i ∷ is) p h =
    bind-Returns _
      (visit_all-Returns 0 (i ∷ is) (record { idx = 0; prio = 0xff }) p (λ lt. omega arith))
      λ seen (e, q, c).
        bind-Returns
          (λ fold. elim fold [
            | refold stack ↦ stack_to_expression fuel stack
            | refused why ↦ ok (failure why)
            | found e stack ↦ ok (success (some e, stack))
          ])
          (fold_best-Returns seen.0 seen.1 q (omega (arith, e)) (λ lt. omega (arith, e, c lt)))
          (elim [
            | refold stack ↦ λ (less, r).
                weaken-Returns (stack_to_expression-Returns fuel stack r (omega (arith, e))) (elim [
                  | failure why ↦ λ _. tt
                  | success r ↦ λ (k, m). (omega (arith, e, less), m)
                ])
            | refused why ↦ λ _. ok-Returns _ tt
            | found x stack ↦ λ (less, r). ok-Returns _ (omega (arith, e, less), r)
          ])
