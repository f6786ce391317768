-- ===== src/Fsm/Entry.antt =====
-- `computeEntrySet`, `addDescendantStatesToEnter` and `addAncestorStatesToEnter` of src/fsm.rs. The three
-- containers that these change are one record. `n` bounds the loops, as in `Tree`, and `d` the depth of
-- the recursion.
pub mod Stable
pub mod Contents
use ru_fsm.Common.{
  ℕ, zero, suc, ◌+◌, ◌-◌, ◌<◌, ◌≤◌, Bool, true, false, not, ◌&&◌, ◌||◌, List, [], ◌∷◌, ◌++◌, Run,
  ok, panic, stuck, ◌>>=◌, if◌then◌else◌, PartialEq, nat_eq, ◌==◌, ◌≡◌, ◌≢◌, ◌⊎◌, ◌↔◌, inl, inr,
  refl, sym, ◌∙◌, ap, subst, arith, Bool-cases, >>=-eq-ok, nat_beq_iff, Option, none, some,
  Option-cases, length, get_elem?, All, append-nil, append_assoc, map, ltb, leb, unwrap, take, drop,
  length-append, ◌*◌, ◌/◌, ◌%◌, ◌^◌, min, ltb→lt, lt→ltb,
}
use ru_fsm.Fsm.Collections.Sequence.{head, some_run}
use ru_fsm.Fsm.Collections.OrderedSet.{OrderedSet, add}
use ru_fsm.Fsm.Collections.HashTable.{HashTable, lookup, put}
use ru_fsm.Fsm.Model.{Id32, State, Transition, Fsm, get_state_by_id, get_transition_by_id}
use ru_fsm.Fsm.Tree.{
  is_descendant, get_proper_ancestors, is_parallel_state, is_compound_state, is_history_state,
  get_child_states,
}
use ru_fsm.Fsm.Domain.{HistoryTable, get_effective_target_states, get_transition_domain}

pub record Entry : Type 0 where
  pub to_enter : OrderedSet Id32
  pub default_entry : OrderedSet Id32
  pub history_content : HashTable Id32 Id32

unfoldable pub enter : Id32 → Entry → Entry
enter s e = record e { to_enter = add e.to_enter s }

unfoldable pub enter_default : Id32 → Entry → Entry
enter_default s e = record e { default_entry = add e.default_entry s }

unfoldable pub put_content : Id32 → Id32 → Entry → Entry
put_content parent content e = record e { history_content = put e.history_content parent content }

-- A loop whose body changes the containers.
unfoldable pub for_each : (Id32 → Entry → Run Entry) → List Id32 → Entry → Run Entry
for_each body [] e = ok e
for_each body (s ∷ l) e = body s e >>= λ e'. for_each body l e'

-- The loop over the children of a parallel state; `rec` is `addDescendantStatesToEnter`.
unfoldable pub fill_child : (Id32 → Entry → Run Entry) → ℕ → Fsm → Id32 → Entry → Run Entry
fill_child rec n f child e = some_run (λ s. is_descendant n f s child) e.to_enter >>= λ filled.
    elim filled [ true ↦ ok e | false ↦ rec child e ]

unfoldable pub fill_children : (Id32 → Entry → Run Entry) → ℕ → Fsm → Id32 → Entry → Run Entry
unfolding fill_child for_each
fill_children rec n f s e = do
  children ← get_child_states f s
  for_each (fill_child rec n f) children e

unfoldable pub enter_ancestor : (Id32 → Entry → Run Entry) → ℕ → Fsm → Id32 → Entry → Run Entry
unfolding enter
enter_ancestor rec n f anc e = is_parallel_state f anc >>= λ parallel. elim parallel [
  | true ↦ fill_children rec n f anc (enter anc e)
  | false ↦ ok (enter anc e)
]

unfoldable pub add_ancestor_states_to_enter :
    (Id32 → Entry → Run Entry) → ℕ → Fsm → Id32 → Id32 → Entry → Run Entry
unfolding for_each
add_ancestor_states_to_enter rec n f ancestor state e = do
  ancs ← get_proper_ancestors n f state ancestor
  for_each (enter_ancestor rec n f) ancs e

-- The two loops that follow each other wherever a state stands for others: the descendants of all
-- targets, then the ancestors of all targets up to the given one.
unfoldable pub enter_targets :
    (Id32 → Entry → Run Entry) → ℕ → Fsm → Id32 → List Id32 → Entry → Run Entry
unfolding for_each
enter_targets rec n f ancestor targets e = do
  e' ← for_each rec targets e
  for_each (add_ancestor_states_to_enter rec n f ancestor) targets e'

-- The branch for a history state.
unfoldable pub enter_history :
    (Id32 → Entry → Run Entry) → ℕ → Fsm → HistoryTable → Id32 → State → Entry → Run Entry
unfolding enter_targets put_content
enter_history rec n f history sid state e = elim (lookup history sid) [
  | some value ↦ enter_targets rec n f state.parent value e
  | none ↦ do
    tid ← head state.transitions
    t ← get_transition_by_id f tid
    enter_targets rec n f state.parent t.target (put_content state.parent t.content e)
]

-- The branch for a compound state, which has been added to the states to enter.
unfoldable pub enter_initial :
    (Id32 → Entry → Run Entry) → ℕ → Fsm → Id32 → State → Entry → Run Entry
unfolding enter_targets
enter_initial rec n f sid state e = elim (state.initial == 0) [
  | true ↦ ok e
  | false ↦ do t ← get_transition_by_id f state.initial; enter_targets rec n f sid t.target e
]

-- The branch for the other states.
unfoldable pub enter_state : (Id32 → Entry → Run Entry) → ℕ → Fsm → Id32 → State → Entry → Run Entry
unfolding enter_initial enter_default fill_children enter
enter_state rec n f sid state e = do
  compound ← is_compound_state f sid
  parallel ← is_parallel_state f sid
  elim compound [
    | true ↦ enter_initial rec n f sid state (enter_default sid (enter sid e))
    | false ↦ elim parallel [
      | true ↦ fill_children rec n f sid (enter sid e)
      | false ↦ ok (enter sid e)
    ]
  ]

unfoldable pub add_descendant_body :
    (Id32 → Entry → Run Entry) → ℕ → Fsm → HistoryTable → Id32 → Entry → Run Entry
unfolding enter_history enter_state
add_descendant_body rec n f history sid e = do
  state ← get_state_by_id f sid
  is_history ← is_history_state f sid
  elim is_history [
    | true ↦ enter_history rec n f history sid state e
    | false ↦ enter_state rec n f sid state e
  ]

unfoldable pub add_descendant_states_to_enter :
    ℕ → ℕ → Fsm → HistoryTable → Id32 → Entry → Run Entry
unfolding add_descendant_body
add_descendant_states_to_enter zero n f history sid e = stuck
add_descendant_states_to_enter (suc d) n f history sid e =
    add_descendant_body (add_descendant_states_to_enter d n f history) n f history sid e

-- One round of `computeEntrySet`.
unfoldable pub enter_transition : ℕ → ℕ → Fsm → HistoryTable → Id32 → Entry → Run Entry
unfolding add_descendant_states_to_enter for_each
enter_transition d n f history tid e = do
  t ← get_transition_by_id f tid
  e' ← for_each (add_descendant_states_to_enter d n f history) t.target e
  ancestor ← get_transition_domain n f history t
  targets ← get_effective_target_states n f history t
  for_each
      (add_ancestor_states_to_enter (add_descendant_states_to_enter d n f history) n f ancestor)
      targets e'

unfoldable pub nothing_to_enter : Entry
nothing_to_enter = record { to_enter = []; default_entry = []; history_content = [] }

unfoldable pub compute_entry_set : ℕ → ℕ → Fsm → HistoryTable → List Id32 → Run Entry
unfolding enter_transition for_each nothing_to_enter
compute_entry_set d n f history transitions =
    for_each (enter_transition d n f history) transitions nothing_to_enter
