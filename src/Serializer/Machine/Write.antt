-- ===== src/Serializer/Machine/Write.antt =====
-- `FsmWriter` of src/serializer/fsm_writer.rs. Sums stand for the source's `|`, since no two flags share a bit. An order
-- in which a hash map yields its entries is the order of the association list.
use ru_fsm.Common.{
  ℕ, ◌+◌, Bool, true, false, not, List, [], ◌∷◌, if◌then◌else◌, nat_eq, ◌==◌, Option, none, some,
}
use ru_fsm.Common.Str.{Str}
use ru_fsm.Datamodel.Data.{Fields, is_empty, end, field}
use ru_fsm.Fsm.Content.{
  SendParameters, conditional, expression, script, log, for_each, send, raise, cancel, assign,
}
use ru_fsm.Fsm.Model.{
  Id32, Parameter, CommonContent, ExecutableContent, BindingType, HistoryType, TransitionType,
  early, late, shallow, deep, internal, external, Invoke, DoneData, State, Transition, Fsm,
}
use ru_fsm.Serializer.Steps.{
  Encoding, Write, skip, ◌>>◌, when, put_uint, put_boolean, put_str, put_option_str, put_list,
}
use ru_fsm.Serializer.Values.{fields_len, write_data, write_fields}

-- FSM_PROTOCOL_WRITER_VERSION
abbrev pub fsm_version : Str
fsm_version = b'f' ∷ b's' ∷ b'm' ∷ b'W' ∷ b'1' ∷ b'.' ∷ b'1' ∷ []

unfoldable pub binding_ordinal : BindingType → ℕ
binding_ordinal early = 1
binding_ordinal late = 2

unfoldable pub history_ordinal : HistoryType → ℕ
history_ordinal shallow = 1
history_ordinal deep = 2
history_ordinal HistoryType.none = 0

unfoldable pub transition_ordinal : TransitionType → ℕ
transition_ordinal internal = 0
transition_ordinal external = 1

-- `if b {v} else {0}`
abbrev pub flag_if : Bool → ℕ → ℕ
flag_if b v = if b then v else 0

abbrev pub write_state_id : Id32 → Write
write_state_id value = put_uint value

abbrev pub write_doc_id : Id32 → Write
write_doc_id value = put_uint value

abbrev pub write_transition_id : Id32 → Write
write_transition_id value = put_uint value

abbrev pub write_executable_content_id : Id32 → Write
write_executable_content_id value = put_uint value

-- `Vec::is_empty`
unfoldable pub vec_is_empty {ℓ} : {A : Type ℓ} → List A → Bool
vec_is_empty [] = true
vec_is_empty (x ∷ xs) = false

unfoldable pub map_is_empty : Fields → Bool
map_is_empty end = true
map_is_empty (field k v fs) = false

unfoldable pub is_some {ℓ} : {A : Type ℓ} → Option A → Bool
is_some none = false
is_some (some a) = true

unfoldable pub transition_flags : Transition → ℕ
unfolding transition_ordinal
transition_flags t =
    transition_ordinal t.transition_type
    + flag_if t.wildcard 2
    + flag_if (not (is_empty t.cond)) 4
    + flag_if (not (t.content == 0)) 8

unfoldable pub state_flags : State → ℕ
unfolding history_ordinal
state_flags s =
    history_ordinal s.history_type
    + flag_if (not (vec_is_empty s.onentry)) 0x04
    + flag_if (not (vec_is_empty s.onexit)) 0x08
    + flag_if (not (vec_is_empty s.states)) 0x10
    + flag_if s.is_final 0x20
    + flag_if s.is_parallel 0x40
    + flag_if (is_some s.donedata) 0x80
    + flag_if (not (vec_is_empty s.invoke)) 0x100
    + flag_if (not (map_is_empty s.data_values)) 0x200
    + flag_if (not (vec_is_empty s.history)) 0x400

module _ (enc : Encoding) where
  unfoldable pub write_data_map : Fields → Write
  write_data_map value = put_uint (fields_len value) >> write_fields enc value

  unfoldable pub write_common_content : CommonContent → Write
  write_common_content value =
      put_option_str enc value.content >> put_option_str enc value.content_expr

  -- Whether there is a content, and the content.
  unfoldable pub write_optional_content : Option CommonContent → Write
  write_optional_content none = put_boolean false
  write_optional_content (some cc) = put_boolean true >> write_common_content cc

  unfoldable pub write_parameter : Parameter → Write
  write_parameter value =
      put_str enc value.name >> put_str enc value.expr >> put_str enc value.location

  unfoldable pub write_parameters : Option (List Parameter) → Write
  write_parameters (some params) = put_list enc write_parameter params
  write_parameters none = put_uint 0

  unfoldable pub write_done_data : DoneData → Write
  write_done_data value = write_optional_content value.content >> write_parameters value.params

  unfoldable pub write_string_list : List Str → Write
  write_string_list strings = put_list enc (put_str enc) strings

  unfoldable pub write_invoke : Invoke → Write
  write_invoke invoke =
      put_str enc invoke.invoke_id
      >> when (vec_is_empty invoke.invoke_id) (put_str enc invoke.parent_state_name)
      >> write_doc_id invoke.doc_id
      >> write_data enc invoke.src_expr
      >> write_data enc invoke.src
      >> write_data enc invoke.type_expr
      >> write_data enc invoke.type_name
      >> put_str enc invoke.external_id_location
      >> put_boolean invoke.autoforward
      >> write_executable_content_id invoke.finalize
      >> write_optional_content invoke.content
      >> write_parameters invoke.params
      >> write_string_list invoke.name_list

  unfoldable pub write_transition : Transition → Write
  write_transition transition =
      write_transition_id transition.id
      >> write_doc_id transition.doc_id
      >> write_state_id transition.source
      >> put_list enc write_state_id transition.target
      >> put_list enc (put_str enc) transition.events
      >> put_uint (transition_flags transition)
      >> when (not (is_empty transition.cond)) (write_data enc transition.cond)
      >> when (not (transition.content == 0)) (write_executable_content_id transition.content)

  unfoldable pub write_optional_done_data : Option DoneData → Write
  write_optional_done_data none = skip
  write_optional_done_data (some donedata) = write_done_data donedata

  unfoldable pub write_state : State → Write
  write_state state =
      write_state_id state.id
      >> write_doc_id state.doc_id
      >> put_str enc state.name
      >> put_uint (state_flags state)
      >> when (not (vec_is_empty state.states))
          (write_transition_id state.initial >> put_list enc write_state_id state.states)
      >> when (not (vec_is_empty state.onentry))
          (put_list enc write_executable_content_id state.onentry)
      >> when (not (vec_is_empty state.onexit))
          (put_list enc write_executable_content_id state.onexit)
      >> put_list enc write_transition_id state.transitions
      >> when (not (vec_is_empty state.invoke)) (put_list enc write_invoke state.invoke)
      >> when (not (vec_is_empty state.history)) (put_list enc write_state_id state.history)
      >> when (not (map_is_empty state.data_values)) (write_data_map state.data_values)
      >> write_state_id state.parent
      >> write_optional_done_data state.donedata

  unfoldable pub write_executable_content_send : SendParameters → Write
  write_executable_content_send parameters =
      put_str enc parameters.name
      >> write_data enc parameters.target
      >> write_data enc parameters.target_expr
      >> write_optional_content parameters.content
      >> write_string_list parameters.name_list
      >> put_str enc parameters.name_location
      >> write_parameters parameters.params
      >> write_data enc parameters.event
      >> write_data enc parameters.event_expr
      >> write_data enc parameters.type_value
      >> write_data enc parameters.type_expr
      >> put_uint parameters.delay_ms
      >> write_data enc parameters.delay_expr

  -- `get_type`, and the function for the type.
  unfoldable pub write_executable_content : ExecutableContent → Write
  write_executable_content (conditional condition content else_content) =
      put_uint 0
      >> write_data enc condition
      >> write_executable_content_id content
      >> write_executable_content_id else_content
  write_executable_content (expression content) = put_uint 1 >> write_data enc content
  write_executable_content (script content) =
      put_uint 2 >> put_list enc write_executable_content_id content
  write_executable_content (log label message) =
      put_uint 3 >> put_str enc label >> write_data enc message
  write_executable_content (for_each items item index content) =
      put_uint 4
      >> write_executable_content_id content
      >> put_str enc index
      >> write_data enc items
      >> put_str enc item
  write_executable_content (send parameters) =
      put_uint 5 >> write_executable_content_send parameters
  write_executable_content (raise event) = put_uint 6 >> put_str enc event
  write_executable_content (cancel send_id send_id_expr) =
      put_uint 7 >> put_str enc send_id >> write_data enc send_id_expr
  write_executable_content (assign location expr) =
      put_uint 8 >> write_data enc expr >> write_data enc location

  -- An entry of `executableContent`.
  unfoldable pub write_content_block : Id32 × List ExecutableContent → Write
  write_content_block (content_id, content) =
      write_executable_content_id content_id >> put_list enc write_executable_content content

  -- What `write` writes behind the version.
  unfoldable pub write_body : Fsm → Write
  write_body fsm =
      put_str enc fsm.name
      >> put_str enc fsm.datamodel
      >> put_uint (binding_ordinal fsm.binding)
      >> write_state_id fsm.pseudo_root
      >> write_executable_content_id fsm.script
      >> put_list enc write_state fsm.states
      >> put_list enc (λ (key, transition). write_transition transition) fsm.transitions
      >> put_list enc write_content_block fsm.executable_content

  -- `FsmWriter::write`
  unfoldable pub write_fsm : Fsm → Write
  write_fsm fsm = put_str enc fsm_version >> write_body fsm
