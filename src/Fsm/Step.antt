-- ===== src/Fsm/Step.antt =====
-- `microstep`, `exitStates`, `executeTransitionContent`, `enterStates` and `isInFinalState` of src/fsm.rs.
-- `enterStates` writes `isFirstEntry` of a state, so it returns the changed `Fsm` too. `n` bounds the loops,
-- as in `Tree`, and `d` the depth of the recursions.
pub mod Quiet
pub mod Exit
pub mod Enter
pub mod Micro
use ru_fsm.Common.{
  ℕ, zero, suc, ◌+◌, ◌-◌, ◌<◌, ◌≤◌, Bool, true, false, not, ◌&&◌, ◌||◌, List, [], ◌∷◌, ◌++◌, Run,
  ok, panic, stuck, ◌>>=◌, if◌then◌else◌, PartialEq, nat_eq, ◌==◌, ◌≡◌, ◌≢◌, ◌⊎◌, ◌↔◌, inl, inr,
  refl, sym, ◌∙◌, ap, subst, arith, Bool-cases, >>=-eq-ok, nat_beq_iff, Option, none, some,
  Option-cases, length, get_elem?, All, append-nil, append_assoc, map, ltb, leb, unwrap, take, drop,
  length-append, ◌*◌, ◌/◌, ◌%◌, ◌^◌, min, ltb→lt, lt→ltb,
}
use ru_fsm.Common.Str.{Str, str_beq}
use ru_fsm.Datamodel.Data.{Data}
use ru_fsm.Fsm.Collections.Sequence.{contains, filter_by, filter_run, some_run, every_run}
use ru_fsm.Fsm.Collections.Sorting.{sort}
use ru_fsm.Fsm.Collections.OrderedSet.{OrderedSet, is_member, add, delete, add_all, to_set}
use ru_fsm.Fsm.Collections.HashTable.{HashTable, lookup, put, put_all}
use ru_fsm.Fsm.Model.{
  Id32, State, Transition, Fsm, BindingType, HistoryType, DoneData, Invoke, get_state_by_id,
  get_transition_by_id,
}
use ru_fsm.Fsm.Tree.{
  is_descendant, is_parallel_state, is_scxml_element, is_final_state_id, is_atomic_state,
  is_compound_state, get_child_states,
}
use ru_fsm.Fsm.Domain.{HistoryTable, compute_exit_set}
use ru_fsm.Fsm.Global.{Global, Session, Datamodel, Event, EventType, new_event, enqueue_internal}
use ru_fsm.Fsm.Select.{state_document_order, state_exit_order}
use ru_fsm.Fsm.Entry.{Entry, compute_entry_set}

unfoldable pub set_to_state_list : Fsm → List Id32 → Run (List State)
set_to_state_list f [] = ok []
set_to_state_list f (s ∷ l) = do
  state ← get_state_by_id f s
  rest ← set_to_state_list f l
  ok (state ∷ rest)

unfoldable pub state_list_to_id_set : List State → OrderedSet Id32
unfolding to_set
state_list_to_id_set l = to_set (map (λ (s : State). s.id) l)

abbrev is_deep : HistoryType → Bool
is_deep HistoryType.deep = true
is_deep _ = false

-- The value of the history state `h` of `s`: its active atomic descendants, or its active children.
unfoldable pub recorded :
    ℕ → Fsm → OrderedSet Id32 → List State → State → State → Run (OrderedSet Id32)
unfolding state_list_to_id_set
recorded n f configuration states s h = elim (is_deep h.history_type) [
  | true ↦
      filter_run
        (λ (s0 : State). if is_atomic_state s0 then is_descendant n f s0.id s.id else ok false)
        states
      >>= λ l. ok (state_list_to_id_set l)
  | false ↦
      filter_run (λ s0. get_state_by_id f s0 >>= λ t. ok (t.parent == s.id)) configuration >>= λ l.
      ok (to_set l)
]

unfoldable pub record_histories :
    ℕ → Fsm → OrderedSet Id32 → List State → State → List Id32 → HistoryTable → Run HistoryTable
unfolding recorded
record_histories n f configuration states s [] table = ok table
record_histories n f configuration states s (hid ∷ hids) table = do
  h ← get_state_by_id f hid
  value ← recorded n f configuration states s h
  record_histories n f configuration states s hids (put table h.id value)

-- The loop that fills `ahistory`.
unfoldable pub record_all :
    ℕ → Fsm → OrderedSet Id32 → List State → List Id32 → HistoryTable → Run HistoryTable
unfolding record_histories
record_all n f configuration states [] table = ok table
record_all n f configuration states (sid ∷ sids) table = do
  s ← get_state_by_id f sid
  table' ← record_histories n f configuration states s s.history table
  record_all n f configuration states sids table'

unfoldable pub delete_each : OrderedSet Id32 → List Id32 → OrderedSet Id32
unfolding delete
delete_each set [] = set
delete_each set (s ∷ l) = delete_each (delete set s) l

-- The first round that enters a state under late binding clears the state's flag.
unfoldable pub enters_late : Fsm → State → Bool
enters_late f s =
    let late : Bool = (elim f.binding [ BindingType.late ↦ true | BindingType.early ↦ false ]) in
    late && s.is_first_entry

unfoldable pub clear_flag : ℕ → List State → List State
clear_flag i [] = []
clear_flag zero (s ∷ l) = record s { is_first_entry = false } ∷ l
clear_flag (suc i) (s ∷ l) = s ∷ clear_flag i l

-- `get_state_by_id_mut(s).isFirstEntry = false`
unfoldable pub clear_first_entry : Id32 → Fsm → Fsm
unfolding clear_flag
clear_first_entry s f = record f { states = clear_flag (s - 1) f.states }

-- "done.state."
abbrev done_state_prefix : Str
done_state_prefix = 100 ∷ 111 ∷ 110 ∷ 101 ∷ 46 ∷ 115 ∷ 116 ∷ 97 ∷ 116 ∷ 101 ∷ 46 ∷ []

unfoldable pub done_state : Str → Option (List (Str × Data)) → Option Data → Event
unfolding new_event
done_state name params content = new_event done_state_prefix name params content EventType.external

-- `isInFinalState`
unfoldable pub is_in_final_state : ℕ → Fsm → OrderedSet Id32 → Id32 → Run Bool
is_in_final_state zero f configuration s = stuck
is_in_final_state (suc d) f configuration s = do
  compound ← is_compound_state f s
  parallel ← is_parallel_state f s
  elim compound [
    | true ↦ get_child_states f s >>= λ children.
        some_run
          (λ cs. is_final_state_id f cs >>= λ final. ok (final && is_member configuration cs))
          children
    | false ↦ elim parallel [
      | true ↦ get_child_states f s >>= λ children.
          every_run (is_in_final_state d f configuration) children
      | false ↦ ok false
    ]
  ]

-- The ids of the contents that `enterStates` runs for a state: on entry, of the initial transition on a
-- default entry, and of a history's default transition.
unfoldable pub entry_contents : Fsm → Entry → State → Id32 → Run (List Id32)
entry_contents f e state s = do
  initial ← elim (is_member e.default_entry s && ltb 0 state.initial) [
    | true ↦ get_transition_by_id f state.initial >>= λ t. ok (t.content ∷ [])
    | false ↦ ok []
  ]
  let history : List Id32 = elim (lookup e.history_content s) [ some c ↦ c ∷ [] | none ↦ [] ]
  ok (state.onentry ++ initial ++ history)

-- `isParallelState(s) && getChildStates(s).every(isInFinalState)`
unfoldable pub has_finished : ℕ → Fsm → OrderedSet Id32 → Id32 → Run Bool
unfolding is_in_final_state
has_finished d f configuration s = is_parallel_state f s >>= λ parallel. elim parallel [
  | true ↦
      get_child_states f s >>= λ children. every_run (is_in_final_state d f configuration) children
  | false ↦ ok false
]

-- The started sessions of the invokes of a state.
unfoldable pub sessions_of : State → List (Str × Session) → List (Str × Session)
sessions_of s sessions =
    let doc_ids = map (λ (i : Invoke). i.doc_id) s.invoke in
    filter_by (λ (k, session). contains doc_ids session.invoke_doc_id) sessions

module _ (dm : Datamodel) where
  -- `executeContent`: the id 0 stands for "none".
  unfoldable pub execute_content : Fsm → Id32 → Global dm.Own → Global dm.Own
  execute_content f content g = if content == 0 then g else dm.execute_content f content g

  unfoldable pub execute_contents : Fsm → List Id32 → Global dm.Own → Global dm.Own
  unfolding execute_content
  execute_contents f [] g = g
  execute_contents f (c ∷ cs) g = execute_contents f cs (execute_content f c g)

  -- `cancelInvoke`
  unfoldable pub cancel_invoke : Str → ℕ → Global dm.Own → Global dm.Own
  cancel_invoke invoke_id session_id g = dm.send_cancel session_id (record g {
    child_sessions = filter_by (λ (k, s). not (str_beq k invoke_id)) g.child_sessions;
  })

  unfoldable pub cancel_each : List (Str × Session) → Global dm.Own → Global dm.Own
  unfolding cancel_invoke
  cancel_each [] g = g
  cancel_each ((invoke_id, session) ∷ l) g =
      cancel_each l (cancel_invoke invoke_id session.session_id g)

  -- Cancels the sessions that the invokes of the state have started.
  unfoldable pub cancel_sessions : State → Global dm.Own → Global dm.Own
  unfolding cancel_each sessions_of
  cancel_sessions s g = cancel_each (sessions_of s g.child_sessions) g

  unfoldable pub exit_state : Fsm → Id32 → Global dm.Own → Run (Global dm.Own)
  unfolding cancel_sessions execute_contents
  exit_state f sid g = get_state_by_id f sid >>= λ s.
      let g' = execute_contents f s.onexit (cancel_sessions s g) in
      ok (record g' { configuration = delete g'.configuration sid })

  unfoldable pub exit_each : Fsm → List Id32 → Global dm.Own → Run (Global dm.Own)
  unfolding exit_state
  exit_each f [] g = ok g
  exit_each f (sid ∷ sids) g = exit_state f sid g >>= λ g'. exit_each f sids g'

  unfoldable pub exit_states : ℕ → Fsm → List Id32 → Global dm.Own → Run (Global dm.Own)
  unfolding delete_each set_to_state_list record_all exit_each
  exit_states n f transitions g = do
    states_to_exit ← compute_exit_set n f g.configuration g.history_value transitions
    let sorted : List Id32 = sort (state_exit_order f) states_to_exit
    states ← set_to_state_list f g.configuration
    ahistory ← record_all n f g.configuration states sorted []
    exit_each f sorted (record g {
      states_to_invoke = delete_each g.states_to_invoke states_to_exit;
      history_value = put_all g.history_value ahistory;
    })

  unfoldable pub execute_transition_content : Fsm → List Id32 → Global dm.Own → Run (Global dm.Own)
  unfolding execute_content
  execute_transition_content f [] g = ok g
  execute_transition_content f (tid ∷ tids) g = get_transition_by_id f tid >>= λ t.
      execute_transition_content f tids (execute_content f t.content g)

  -- The event of the state's parent, with the parameters and the content of its `donedata`.
  unfoldable pub done_event : Option DoneData → Str → Global dm.Own → Event × Global dm.Own
  unfolding done_state
  done_event none name g = (done_state name none none, g)
  done_event (some done_data) name g =
      let (values, g1) = dm.evaluate_params done_data.params g in
      let (content, g2) = dm.evaluate_content done_data.content g1 in
      let params : Option (List (Str × Data)) = (elim values [
        | [] ↦ none
        | v ∷ vs ↦ some (v ∷ vs)
      ]) in
      (done_state name params content, g2)

  -- The event of a parallel state, once all its children are in a final state.
  unfoldable pub finish_parallel : ℕ → Fsm → Id32 → Global dm.Own → Run (Global dm.Own)
  unfolding has_finished done_state
  finish_parallel d f grandparent g = do
    finished ← has_finished d f g.configuration grandparent
    elim finished [
      | true ↦ get_state_by_id f grandparent >>= λ s.
          ok (enqueue_internal (done_state s.name none none) g)
      | false ↦ ok g
    ]

  -- What entering a final state does.
  unfoldable pub enter_final : ℕ → Fsm → State → Global dm.Own → Run (Global dm.Own)
  unfolding finish_parallel done_event
  enter_final d f s g = elim (is_scxml_element f s.parent) [
    | true ↦ ok (record g { running = false })
    | false ↦ get_state_by_id f s.parent >>= λ parent.
        let (event, g') = done_event s.donedata parent.name g in
        finish_parallel d f parent.parent (enqueue_internal event g')
  ]

  -- The part for a final state.
  unfoldable pub enter_last : ℕ → Fsm → State → Global dm.Own → Run (Global dm.Own)
  unfolding enter_final
  enter_last d f s g = elim s.is_final [ true ↦ enter_final d f s g | false ↦ ok g ]

  -- Entering a state up to its contents.
  unfoldable pub enter_begin : Fsm → Id32 → Global dm.Own → Run (Fsm × Global dm.Own)
  unfolding enters_late clear_first_entry
  enter_begin f s g = get_state_by_id f s >>= λ state.
      let g' = record g {
        configuration = add g.configuration s;
        states_to_invoke = add g.states_to_invoke s;
      } in
      elim (enters_late f state) [
        | true ↦ let f' = clear_first_entry s f in ok (f', dm.initialize_data_model f' s true g')
        | false ↦ ok (f, g')
      ]

  unfoldable pub enter_one : ℕ → Entry → Id32 → Fsm × Global dm.Own → Run (Fsm × Global dm.Own)
  unfolding enter_begin entry_contents execute_contents enter_last
  enter_one d e s (f, g) = do
    (f', g1) ← enter_begin f s g
    state ← get_state_by_id f' s
    contents ← entry_contents f' e state s
    let g2 = execute_contents f' contents g1
    g3 ← enter_last d f' state g2
    ok (f', g3)

  unfoldable pub enter_each :
      ℕ → Entry → List Id32 → Fsm × Global dm.Own → Run (Fsm × Global dm.Own)
  unfolding enter_one
  enter_each d e [] m = ok m
  enter_each d e (s ∷ l) m = enter_one d e s m >>= λ m'. enter_each d e l m'

  unfoldable pub enter_states : ℕ → ℕ → Fsm → List Id32 → Global dm.Own → Run (Fsm × Global dm.Own)
  unfolding enter_each
  enter_states n d f transitions g = do
    e ← compute_entry_set d n f g.history_value transitions
    enter_each d e (sort (state_document_order f) e.to_enter) (f, g)

  unfoldable pub microstep : ℕ → ℕ → Fsm → List Id32 → Global dm.Own → Run (Fsm × Global dm.Own)
  unfolding exit_states execute_transition_content enter_states
  microstep n d f transitions g = do
    g1 ← exit_states n f transitions g
    g2 ← execute_transition_content f transitions g1
    enter_states n d f transitions g2
