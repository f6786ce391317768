-- ===== src/Serializer/Machine/Read.antt =====
-- `FsmReader` of src/serializer/fsm_reader.rs. An id is read as `read_uint() as u32`, and `flags & 2 ^ k != 0` is
-- `flags / 2 ^ k % 2 == 1`. `depth` bounds how deep values are followed (see `read_data`).
use ru_fsm.Common.{
  ℕ, Bool, true, List, [], ◌∷◌, Run, ok, panic, if◌then◌else◌, nat_eq, ◌==◌, Option, none, some,
  ◌/◌, ◌%◌, ◌^◌,
}
use ru_fsm.Common.Str.{Str, str_beq}
use ru_fsm.Datamodel.Data.{Data, null, end}
use ru_fsm.Fsm.Content.{conditional, expression, script, log, for_each, send, raise, cancel, assign}
use ru_fsm.Fsm.Collections.HashTable.{HashTable, put, put_all}
use ru_fsm.Fsm.Model.{
  Id32, Parameter, CommonContent, ExecutableContent, BindingType, HistoryType, TransitionType,
  early, late, shallow, deep, internal, external, Invoke, DoneData, State, Transition, Fsm,
}
use ru_fsm.Serializer.Reader.{has_error}
use ru_fsm.Serializer.Steps.{
  Encoding, Read, ret, ◌>>=◌, read_if, from_run, get_boolean, get_uint, get_bits, get_str,
  get_option_str, get_list,
}
use ru_fsm.Serializer.Values.{read_fields, read_data}
use ru_fsm.Serializer.Machine.Write.{vec_is_empty, fsm_version}

-- The flag `2 ^ k`
abbrev pub bit : ℕ → ℕ → Bool
bit k flags = flags / 2 ^ k % 2 == 1

unfoldable pub binding_from_ordinal : ℕ → Run BindingType
binding_from_ordinal ordinal =
    if ordinal == 1 then ok early else if ordinal == 2 then ok late else panic

unfoldable pub history_from_ordinal : ℕ → HistoryType
history_from_ordinal v = if v == 1 then shallow else if v == 2 then deep else HistoryType.none

unfoldable pub transition_from_ordinal : ℕ → Run TransitionType
transition_from_ordinal ordinal =
    if ordinal == 0 then ok internal else if ordinal == 1 then ok external else panic

-- The results of `read`: the machine, or one of the two errors.
pub data Outcome : Type 0 where
  loaded : Fsm → Outcome
  unreadable : Outcome
  version_mismatch : Str → Outcome

-- The transitions that are inserted under their ids.
unfoldable pub insert_transitions :
    HashTable Id32 Transition → List Transition → HashTable Id32 Transition
unfolding put
insert_transitions table [] = table
insert_transitions table (t ∷ ts) = insert_transitions (put table t.id t) ts

module _ (enc : Encoding) where
  abbrev pub read_id : Read Id32
  read_id = get_bits enc 32

  unfoldable pub read_common_content : Read CommonContent
  read_common_content = get_option_str enc >>= λ c.
      get_option_str enc >>= λ e. ret (record { content = c; content_expr = e })

  -- Whether there is a content, and the content.
  unfoldable pub read_optional_content : Read (Option CommonContent)
  read_optional_content =
      get_boolean >>= λ flag. read_if flag (read_common_content >>= λ cc. ret (some cc)) none

  unfoldable pub read_parameter : Read Parameter
  read_parameter = get_str enc >>= λ n.
      get_str enc >>= λ e. get_str enc >>= λ l. ret (record { name = n; expr = e; location = l })

  unfoldable pub read_parameters : Read (Option (List Parameter))
  read_parameters =
      get_list enc read_parameter >>= λ pvec. ret (if vec_is_empty pvec then none else some pvec)

  unfoldable pub read_done_data : Read DoneData
  read_done_data = read_optional_content >>= λ c.
      read_parameters >>= λ ps. ret (record { content = c; params = ps })

  abbrev pub read_string_list : Read (List Str)
  read_string_list = get_list enc (get_str enc)

  module _ (depth : ℕ) where
    abbrev pub read_value : Read Data
    read_value = read_data enc depth

    unfoldable pub read_invoke : Read Invoke
    read_invoke = get_str enc >>= λ id. read_if (vec_is_empty id) (get_str enc) [] >>= λ parent.
        read_id >>= λ doc. read_value >>= λ se. read_value >>= λ s. read_value >>= λ te.
        read_value >>= λ tn. get_str enc >>= λ eil. get_boolean >>= λ af. read_id >>= λ fin.
        read_optional_content >>= λ cc. read_parameters >>= λ ps. read_string_list >>= λ nl.
        ret (record {
          doc_id = doc;
          external_id_location = eil;
          type_name = tn;
          type_expr = te;
          name_list = nl;
          src = s;
          src_expr = se;
          autoforward = af;
          finalize = fin;
          invoke_id = id;
          parent_state_name = parent;
          params = ps;
          content = cc;
        })

    unfoldable pub read_transition : Read Transition
    read_transition = read_id >>= λ i. read_id >>= λ doc. read_id >>= λ s.
        get_list enc read_id >>= λ ts. read_string_list >>= λ es. get_bits enc 8 >>= λ flags.
        from_run (transition_from_ordinal (flags % 2)) >>= λ type.
        read_if (bit 2 flags) read_value null >>= λ c. read_if (bit 3 flags) read_id 0 >>= λ ec.
        ret (record {
          id = i;
          doc_id = doc;
          events = es;
          wildcard = bit 1 flags;
          cond = c;
          source = s;
          target = ts;
          transition_type = type;
          content = ec;
        })

    unfoldable pub read_state : Read State
    read_state = read_id >>= λ i. read_id >>= λ doc. get_str enc >>= λ n.
        get_bits enc 16 >>= λ flags.
        read_if (bit 4 flags) (read_id >>= λ t. get_list enc read_id >>= λ l. ret (t, l)) (0, [])
        >>= λ (t, children). read_if (bit 2 flags) (get_list enc read_id) [] >>= λ entry.
            read_if (bit 3 flags) (get_list enc read_id) [] >>= λ leave.
            get_list enc read_id >>= λ ts.
            read_if (bit 8 flags) (get_list enc read_invoke) [] >>= λ invs.
            read_if (bit 10 flags) (get_list enc read_id) [] >>= λ hs.
            read_if (bit 9 flags) (read_fields enc read_value) end >>= λ dvs. read_id >>= λ p.
            read_if (bit 7 flags) (read_done_data >>= λ d. ret (some d)) none >>= λ dd.
            ret (record {
              id = i;
              doc_id = doc;
              name = n;
              initial = t;
              states = children;
              is_parallel = bit 6 flags;
              is_final = bit 5 flags;
              history_type = history_from_ordinal (flags % 4);
              onentry = entry;
              onexit = leave;
              transitions = ts;
              invoke = invs;
              history = hs;
              data_values = dvs;
              is_first_entry = true;
              parent = p;
              donedata = dd;
            })

    unfoldable pub read_executable_content_if : Read ExecutableContent
    read_executable_content_if =
        read_value >>= λ c. read_id >>= λ t. read_id >>= λ e. ret (conditional c t e)

    unfoldable pub read_executable_content_expression : Read ExecutableContent
    read_executable_content_expression = read_value >>= λ c. ret (expression c)

    unfoldable pub read_executable_content_script : Read ExecutableContent
    read_executable_content_script = get_list enc read_id >>= λ ids. ret (script ids)

    unfoldable pub read_executable_content_log : Read ExecutableContent
    read_executable_content_log = get_str enc >>= λ l. read_value >>= λ e. ret (log l e)

    unfoldable pub read_executable_content_for_each : Read ExecutableContent
    read_executable_content_for_each = read_id >>= λ c.
        get_str enc >>= λ i. read_value >>= λ a. get_str enc >>= λ it. ret (for_each a it i c)

    unfoldable pub read_executable_content_send : Read ExecutableContent
    read_executable_content_send = get_str enc >>= λ n. read_value >>= λ t. read_value >>= λ te.
        read_optional_content >>= λ cc. read_string_list >>= λ nl. get_str enc >>= λ loc.
        read_parameters >>= λ ps. read_value >>= λ e. read_value >>= λ ee. read_value >>= λ tv.
        read_value >>= λ tx. get_uint enc >>= λ d. read_value >>= λ de. ret (
          send (record {
            name_location = loc;
            name = n;
            parent_state_name = [];
            event = e;
            event_expr = ee;
            target = t;
            target_expr = te;
            type_value = tv;
            type_expr = tx;
            delay_ms = d;
            delay_expr = de;
            name_list = nl;
            params = ps;
            content = cc;
          }))

    unfoldable pub read_executable_content_raise : Read ExecutableContent
    read_executable_content_raise = get_str enc >>= λ e. ret (raise e)

    unfoldable pub read_executable_content_cancel : Read ExecutableContent
    read_executable_content_cancel = get_str enc >>= λ i. read_value >>= λ e. ret (cancel i e)

    unfoldable pub read_executable_content_assign : Read ExecutableContent
    read_executable_content_assign = read_value >>= λ e. read_value >>= λ l. ret (assign l e)

    -- The function for the type.
    unfoldable pub read_content_of_type : ℕ → Read ExecutableContent
    read_content_of_type ec_type =
        if ec_type == 0
        then read_executable_content_if
        else if ec_type == 1
        then read_executable_content_expression
        else if ec_type == 2
        then read_executable_content_script
        else if ec_type == 3
        then read_executable_content_log
        else if ec_type == 4
        then read_executable_content_for_each
        else if ec_type == 5
        then read_executable_content_send
        else if ec_type == 6
        then read_executable_content_raise
        else if ec_type == 7
        then read_executable_content_cancel
        else if ec_type == 8
        then read_executable_content_assign
        else from_run panic

    unfoldable pub read_executable_content : Read ExecutableContent
    read_executable_content = get_bits enc 8 >>= λ ec_type. read_content_of_type ec_type

    -- An entry of `executableContent`.
    unfoldable pub read_content_block : Read (Id32 × List ExecutableContent)
    read_content_block =
        read_id >>= λ i. get_list enc read_executable_content >>= λ content. ret (i, content)

    -- What `read` does behind the right version.
    unfoldable pub read_body : Read Fsm
    unfolding put_all
    read_body = get_str enc >>= λ n. get_str enc >>= λ dm. get_bits enc 8 >>= λ ordinal.
        from_run (binding_from_ordinal ordinal) >>= λ b. read_id >>= λ root. read_id >>= λ s.
        get_list enc read_state >>= λ states. get_list enc read_transition >>= λ ts.
        get_list enc read_content_block >>= λ blocks. ret (record {
          datamodel = dm;
          binding = b;
          executable_content = put_all [] blocks;
          name = n;
          pseudo_root = root;
          states = states;
          transitions = insert_transitions [] ts;
          script = s;
        })

    -- `FsmReader::read`
    unfoldable pub read_fsm : Read Outcome
    read_fsm = get_str enc >>= λ version. (λ r.
        if str_beq version fsm_version
        then (read_body >>= λ f. ret (loaded f)) r
        else if has_error r
        then ok (unreadable, r)
        else ok (version_mismatch version, r))
