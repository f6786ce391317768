-- ===== src/Serializer/Machine/Stored.antt =====
-- What the binary format can hold of a machine, and what of it comes back.
use ru_fsm.Common.{
  ℕ, ◌<◌, ◌≤◌, true, false, List, [], ◌∷◌, if◌then◌else◌, nat_eq, ◌≡◌, Option, none, some, length,
  All, map, ◌^◌,
}
use ru_fsm.Datamodel.Data.{Data, is_empty, null}
use ru_fsm.Fsm.Collections.HashTable.{HashTable, has}
use ru_fsm.Fsm.Content.{
  SendParameters, conditional, expression, script, log, for_each, send, raise, cancel, assign,
}
use ru_fsm.Fsm.Model.{
  Id32, Parameter, CommonContent, ExecutableContent, Invoke, DoneData, State, Transition, Fsm,
}
use ru_fsm.Serializer.Steps.Carries.{Fits, FitsOption}
use ru_fsm.Serializer.Values.{fields_len}
use ru_fsm.Serializer.Values.RoundTrip.{Storable, StorableFields, depth, fields_depth}
use ru_fsm.Serializer.Machine.Write.{vec_is_empty}

-- No parameters are the same as an empty list of them.
unfoldable pub stored_parameters : Option (List Parameter) → Option (List Parameter)
stored_parameters none = none
stored_parameters (some ps) = if vec_is_empty ps then none else some ps

unfoldable pub stored_done_data : DoneData → DoneData
stored_done_data d = record d { params = stored_parameters d.params }

unfoldable pub stored_optional_done_data : Option DoneData → Option DoneData
stored_optional_done_data none = none
stored_optional_done_data (some d) = some (stored_done_data d)

-- The name of the parent state comes back only without an invoke id.
unfoldable pub stored_invoke : Invoke → Invoke
stored_invoke i = record i {
  parent_state_name = if vec_is_empty i.invoke_id then i.parent_state_name else [];
  params = stored_parameters i.params;
}

-- An empty condition comes back as null.
unfoldable pub stored_transition : Transition → Transition
stored_transition t = record t { cond = if is_empty t.cond then null else t.cond }

-- The initial transition comes back only of a state with children, and the state is as if never entered.
unfoldable pub stored_state : State → State
stored_state s = record s {
  initial = if vec_is_empty s.states then 0 else s.initial;
  invoke = map stored_invoke s.invoke;
  is_first_entry = true;
  donedata = stored_optional_done_data s.donedata;
}

-- The name of the parent state of a `send` does not come back.
unfoldable pub stored_content : ExecutableContent → ExecutableContent
stored_content (send p) =
    send (record p { parent_state_name = []; params = stored_parameters p.params })
stored_content (conditional c t e) = conditional c t e
stored_content (expression c) = expression c
stored_content (script ids) = script ids
stored_content (log l e) = log l e
stored_content (for_each a it i c) = for_each a it i c
stored_content (raise e) = raise e
stored_content (cancel i e) = cancel i e
stored_content (assign l e) = assign l e

unfoldable pub stored_fsm : Fsm → Fsm
stored_fsm f = record f {
  executable_content = map (λ (i, content). (i, map stored_content content)) f.executable_content;
  states = map stored_state f.states;
  transitions = map (λ (i, t). (i, stored_transition t)) f.transitions;
}

-- Not too many elements, each with the property.
abbrev pub Each : {A : Type 0} → (A → Type 0) → List A → Type 0
Each P xs = (length xs < 2 ^ 60) × All P xs

abbrev pub IsU32 : ℕ → Type 0
IsU32 x = x < 2 ^ 32

abbrev pub StorableCommonContent : CommonContent → Type 0
StorableCommonContent c = FitsOption c.content × FitsOption c.content_expr

abbrev pub StorableOption : {A : Type 0} → (A → Type 0) → Option A → Type 0
StorableOption P none = Unit
StorableOption P (some a) = P a

abbrev pub StorableParameter : Parameter → Type 0
StorableParameter p = Fits p.name × Fits p.expr × Fits p.location

abbrev pub StorableParameters : Option (List Parameter) → Type 0
StorableParameters ps = StorableOption (Each StorableParameter) ps

abbrev pub StorableDoneData : DoneData → Type 0
StorableDoneData d = StorableOption StorableCommonContent d.content × StorableParameters d.params

-- The keys of a table are different.
unfoldable pub DistinctKeys : {A : Type 0} → HashTable Id32 A → Type 0
unfolding has
DistinctKeys [] = Unit
DistinctKeys ((i, v) ∷ table) = (has table i ≡ false) × DistinctKeys table

-- With values that are nested at most `d` deep.
module _ (d : ℕ) where
  abbrev pub StorableValue : Data → Type 0
  StorableValue v = Storable v × (depth v ≤ d)

  pub record StorableInvoke (i : Invoke) : Type 0 where
    pub ids : IsU32 i.doc_id × IsU32 i.finalize
    pub texts : Fits i.invoke_id × Fits i.parent_state_name × Fits i.external_id_location
    pub values :
        StorableValue i.src
        × StorableValue i.src_expr
        × StorableValue i.type_name
        × StorableValue i.type_expr
    pub names : Each Fits i.name_list
    pub content : StorableOption StorableCommonContent i.content
    pub parameters : StorableParameters i.params

  pub record StorableTransition (t : Transition) : Type 0 where
    pub ids : IsU32 t.id × IsU32 t.doc_id × IsU32 t.source × IsU32 t.content
    pub targets : Each IsU32 t.target
    pub events : Each Fits t.events
    pub cond : StorableValue t.cond

  pub record StorableState (s : State) : Type 0 where
    pub ids : IsU32 s.id × IsU32 s.doc_id × IsU32 s.initial × IsU32 s.parent
    pub name : Fits s.name
    pub states : Each IsU32 s.states
    pub onentry : Each IsU32 s.onentry
    pub onexit : Each IsU32 s.onexit
    pub transitions : Each IsU32 s.transitions
    pub invoke : Each StorableInvoke s.invoke
    pub history : Each IsU32 s.history
    pub data_values :
        (fields_len s.data_values < 2 ^ 60)
        × StorableFields s.data_values
        × (fields_depth s.data_values ≤ d)
    pub donedata : StorableOption StorableDoneData s.donedata

  pub record StorableSend (p : SendParameters) : Type 0 where
    pub texts : Fits p.name × Fits p.name_location
    pub targets : StorableValue p.target × StorableValue p.target_expr
    pub events : StorableValue p.event × StorableValue p.event_expr
    pub types : StorableValue p.type_value × StorableValue p.type_expr
    pub delay : (p.delay_ms < 2 ^ 60) × StorableValue p.delay_expr
    pub names : Each Fits p.name_list
    pub content : StorableOption StorableCommonContent p.content
    pub parameters : StorableParameters p.params

  abbrev pub StorableContent : ExecutableContent → Type 0
  StorableContent (conditional c t e) = StorableValue c × IsU32 t × IsU32 e
  StorableContent (expression c) = StorableValue c
  StorableContent (script ids) = Each IsU32 ids
  StorableContent (log l e) = Fits l × StorableValue e
  StorableContent (for_each a it i c) = StorableValue a × Fits it × Fits i × IsU32 c
  StorableContent (send p) = StorableSend p
  StorableContent (raise e) = Fits e
  StorableContent (cancel i e) = Fits i × StorableValue e
  StorableContent (assign l e) = StorableValue l × StorableValue e

  pub record StorableFsm (f : Fsm) : Type 0 where
    pub ids : IsU32 f.pseudo_root × IsU32 f.script
    pub texts : Fits f.name × Fits f.datamodel
    pub states : Each StorableState f.states
    pub transitions : Each (λ (key, t). (key ≡ t.id) × StorableTransition t) f.transitions
    pub blocks :
        Each (λ (key, content). IsU32 key × Each StorableContent content) f.executable_content
    pub transition_keys : DistinctKeys f.transitions
    pub block_keys : DistinctKeys f.executable_content
