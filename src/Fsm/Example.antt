-- ===== src/Fsm/Example.antt =====
-- A small document, on which the theorems about src/fsm.rs are applied: the root 1 has the compound state 2,
-- with the atomic states 3 and 4, and the atomic state 5.
use ru_fsm.Common.{
  zero, suc, ◌<◌, ◌≤◌, true, false, List, [], ◌∷◌, ok, nat_eq, ◌≡◌, ◌⊎◌, inl, inr, refl, subst,
  arith, none, some,
}
use ru_fsm.Datamodel.Data.{Data, Fields}
use ru_fsm.Fsm.Model.{
  Id32, State, Transition, TransitionType, Fsm, BindingType, HistoryType, get_state_by_id,
}
use ru_fsm.Fsm.Tree.Ancestry.{up, further, Ancestor, IsTree, Exists}
use ru_fsm.Fsm.Global.{Global, Datamodel, IsQuiet, Keeps-refl}

abbrev pub node : Id32 → Id32 → List Id32 → List Id32 → State
node id parent states transitions = record {
  id = id;
  doc_id = id;
  name = [];
  initial = 0;
  states = states;
  is_parallel = false;
  is_final = false;
  history_type = HistoryType.none;
  onentry = [];
  onexit = [];
  transitions = transitions;
  invoke = [];
  history = [];
  data_values = Fields.end;
  is_first_entry = true;
  parent = parent;
  donedata = none;
}

abbrev pub arrow : Id32 → Id32 → List Id32 → Transition
arrow id source target = record {
  id = id;
  doc_id = id;
  events = (b'a' ∷ []) ∷ [];
  wildcard = false;
  cond = Data.none;
  source = source;
  target = target;
  transition_type = TransitionType.external;
  content = 0;
}

-- Transition 1 leads from 3 to 4, transition 2 from 2 to 5, transition 3 of state 2 nowhere, transition 4
-- from 5 to 2, and transition 5, which has no event, from 4 to 3.
abbrev pub example_fsm : Fsm
example_fsm = record {
  datamodel = [];
  binding = BindingType.early;
  executable_content = [];
  name = [];
  pseudo_root = 1;
  states =
      node 1 0 (2 ∷ 5 ∷ []) []
      ∷ node 2 1 (3 ∷ 4 ∷ []) (2 ∷ 3 ∷ [])
      ∷ node 3 2 [] (1 ∷ [])
      ∷ node 4 2 [] (5 ∷ [])
      ∷ node 5 1 [] (4 ∷ [])
      ∷ [];
  transitions =
      (1, arrow 1 3 (4 ∷ []))
      ∷ (2, arrow 2 2 (5 ∷ []))
      ∷ (3, arrow 3 2 [])
      ∷ (4, arrow 4 5 (2 ∷ []))
      ∷ (5, record (arrow 5 4 (3 ∷ [])) { events = [] })
      ∷ [];
  script = 0;
}

example-numbered : (i : Id32) (s : State) → get_state_by_id example_fsm i ≡ ok s → s.doc_id ≤ 5
unfolding get_state_by_id
example-numbered zero s h = cc
example-numbered (suc zero) s h =
    let e : node 1 0 (2 ∷ 5 ∷ []) [] ≡ s = ground arith in
    subst (λ (u : State). u.doc_id ≤ 5) e (omega arith)
example-numbered (suc (suc zero)) s h =
    let e : node 2 1 (3 ∷ 4 ∷ []) (2 ∷ 3 ∷ []) ≡ s = ground arith in
    subst (λ (u : State). u.doc_id ≤ 5) e (omega arith)
example-numbered (suc (suc (suc zero))) s h =
    let e : node 3 2 [] (1 ∷ []) ≡ s = ground arith in
    subst (λ (u : State). u.doc_id ≤ 5) e (omega arith)
example-numbered (suc (suc (suc (suc zero)))) s h =
    let e : node 4 2 [] (5 ∷ []) ≡ s = ground arith in
    subst (λ (u : State). u.doc_id ≤ 5) e (omega arith)
example-numbered (suc (suc (suc (suc (suc zero))))) s h =
    let e : node 5 1 [] (4 ∷ []) ≡ s = ground arith in
    subst (λ (u : State). u.doc_id ≤ 5) e (omega arith)
example-numbered (suc (suc (suc (suc (suc (suc i)))))) s h = cc

-- The parent of a state, as in the definition of a tree.
abbrev HasParent : State → Type 0
HasParent s =
    (s.parent ≡ 0)
    ⊎ ((t : State) × (get_state_by_id example_fsm s.parent ≡ ok t) × (t.doc_id < s.doc_id))

example-parents : (i : Id32) (s : State) → get_state_by_id example_fsm i ≡ ok s → HasParent s
unfolding get_state_by_id
example-parents zero s h = cc
example-parents (suc zero) s h =
    let e : node 1 0 (2 ∷ 5 ∷ []) [] ≡ s = ground arith in subst HasParent e (inl refl)
example-parents (suc (suc zero)) s h =
    let e : node 2 1 (3 ∷ 4 ∷ []) (2 ∷ 3 ∷ []) ≡ s = ground arith in
    subst HasParent e (inr (node 1 0 (2 ∷ 5 ∷ []) [], refl, omega arith))
example-parents (suc (suc (suc zero))) s h =
    let e : node 3 2 [] (1 ∷ []) ≡ s = ground arith in
    subst HasParent e (inr (node 2 1 (3 ∷ 4 ∷ []) (2 ∷ 3 ∷ []), refl, omega arith))
example-parents (suc (suc (suc (suc zero)))) s h =
    let e : node 4 2 [] (5 ∷ []) ≡ s = ground arith in
    subst HasParent e (inr (node 2 1 (3 ∷ 4 ∷ []) (2 ∷ 3 ∷ []), refl, omega arith))
example-parents (suc (suc (suc (suc (suc zero))))) s h =
    let e : node 5 1 [] (4 ∷ []) ≡ s = ground arith in
    subst HasParent e (inr (node 1 0 (2 ∷ 5 ∷ []) [], refl, omega arith))
example-parents (suc (suc (suc (suc (suc (suc i)))))) s h = cc

pub example-IsTree : IsTree 5 example_fsm
example-IsTree = record { numbered = example-numbered; parents = example-parents }

pub Exists-1 : Exists example_fsm 1
unfolding get_state_by_id
Exists-1 = (_, refl)

pub Exists-2 : Exists example_fsm 2
unfolding get_state_by_id
Exists-2 = (_, refl)

pub Exists-3 : Exists example_fsm 3
unfolding get_state_by_id
Exists-3 = (_, refl)

pub Exists-4 : Exists example_fsm 4
unfolding get_state_by_id
Exists-4 = (_, refl)

pub Exists-5 : Exists example_fsm 5
unfolding get_state_by_id
Exists-5 = (_, refl)

pub root_above_2 : Ancestor example_fsm 1 2
unfolding get_state_by_id
root_above_2 = up refl refl (λ h. cc)

pub root_above_3 : Ancestor example_fsm 1 3
unfolding get_state_by_id
root_above_3 = further refl refl root_above_2

pub root_above_4 : Ancestor example_fsm 1 4
unfolding get_state_by_id
root_above_4 = further refl refl root_above_2

pub root_above_5 : Ancestor example_fsm 1 5
unfolding get_state_by_id
root_above_5 = up refl refl (λ h. cc)

-- A datamodel whose every call succeeds and changes nothing.
abbrev pub example_datamodel : Datamodel
example_datamodel = record {
  Own = Unit;
  execute_condition = λ c g. (some true, g);
  execute_content = λ f c g. g;
  initialize_data_model = λ f s b g. g;
  evaluate_params = λ p g. ([], g);
  evaluate_content = λ c g. (none, g);
  send_cancel = λ i g. g;
}

pub example-IsQuiet : IsQuiet example_datamodel
example-IsQuiet = record {
  condition_Keeps = λ c g. Keeps-refl g;
  content_Keeps = λ f c g. Keeps-refl g;
  initialize_Keeps = λ f s b g. Keeps-refl g;
  params_Keeps = λ p g. Keeps-refl g;
  done_content_Keeps = λ c g. Keeps-refl g;
  cancel_Keeps = λ i g. Keeps-refl g;
}

-- The states 1, 2 and 3 are active.
abbrev pub example_global : Global Unit
example_global = record {
  configuration = 1 ∷ 2 ∷ 3 ∷ [];
  states_to_invoke = [];
  history_value = [];
  running = true;
  internal_queue = [];
  child_sessions = [];
  caller_invoke_id = none;
  parent_session_id = none;
  session_id = 1;
  final_configuration = none;
  own = tt;
}
