-- ===== src/Serializer/Machine/Witness.antt =====
-- The theorems about whole machines at a machine with one state, one transition and one block of content.
use ru_fsm.Common.{
  ◌^◌, ◌⊎◌, panic, ◌%◌, ◌*◌, ◌<◌, ◌-◌, ℕ, ◌≤◌, true, false, List, [], ◌∷◌, ◌++◌, ok, nat_eq, ◌≡◌,
  inl, refl, arith, none, length,
}
use ru_fsm.Common.Int.{negsuc}
use ru_fsm.Common.Str.{Str, len, str_beq}
use ru_fsm.Datamodel.Data.{
  is_empty, Data, integer, string, boolean, array, null, nil, cons, end, field,
}
use ru_fsm.Fsm.Content.{log}
use ru_fsm.Fsm.Model.{late, deep, internal, State, Transition, Fsm}
use ru_fsm.Serializer.Writer.{
  Writer, write_str, write_uint, write_boolean, write_type_and_value, put_u8, put_rest, eval_result,
  write_bytes, is_char_boundary,
}
use ru_fsm.Serializer.Reader.{read_uint, Reader}
use ru_fsm.Serializer.Example.{
  example_text, print_signed, print_digits, zeros, example_bytes, example_encoding,
  example_encoding-IsEncoding,
}
use ru_fsm.Serializer.Machine.Write.{
  write_fsm, write_body, write_state, write_transition, write_content_block,
  write_executable_content, transition_flags, state_flags, transition_ordinal, history_ordinal,
  binding_ordinal, write_optional_done_data, write_data_map, vec_is_empty, map_is_empty, is_some,
  write_parameters,
}
use ru_fsm.Serializer.Values.{fields_len, items_len, read_data, write_data}
use ru_fsm.Serializer.Values.Returns.{IsTail, Overflows, read_data_ends}
use ru_fsm.Serializer.Values.RoundTrip.{read_data_of_written, Storable, depth, NotIn}
use ru_fsm.Serializer.Steps.{put_list, write_each, put_str, put_uint, put_boolean, when, skip, ◌>>◌}
use ru_fsm.Serializer.Steps.Carries.{Fits}
use ru_fsm.Serializer.Machine.RoundTrip.{
  write_fsm_returns, read_fsm_of_written, read_fsm_of_other_version,
}
use ru_fsm.Fsm.Collections.HashTable.{has, lookup}
use ru_fsm.Serializer.Machine.Read.{read_fsm, loaded, version_mismatch}
use ru_fsm.Serializer.Machine.Stored.{
  stored_fsm, DistinctKeys, StorableState, StorableTransition, StorableFsm,
}

abbrev label : Str
label = b'h' ∷ b'i' ∷ []

abbrev state : State
state = record {
  id = 1;
  doc_id = 300;
  name = label;
  initial = 7;
  states = [];
  is_parallel = false;
  is_final = true;
  history_type = deep;
  onentry = 1 ∷ [];
  onexit = [];
  transitions = 5 ∷ [];
  invoke = [];
  history = [];
  data_values = field label (array (cons (boolean true) nil)) end;
  is_first_entry = false;
  parent = 0;
  donedata = none;
}

abbrev transition : Transition
transition = record {
  id = 5;
  doc_id = 301;
  events = label ∷ [];
  wildcard = true;
  cond = string label;
  source = 1;
  target = [];
  transition_type = internal;
  content = 0;
}

abbrev machine : Fsm
machine = record {
  datamodel = label;
  binding = late;
  executable_content = (1, log label null ∷ []) ∷ [];
  name = [];
  pseudo_root = 1;
  states = state ∷ [];
  transitions = (5, transition) ∷ [];
  script = 0;
}

abbrev writer : Writer
writer = record { written = 9 ∷ []; room = 100; ok = true }

abbrev bytes : List ℕ
bytes =
    199 ∷ 102 ∷ 115 ∷ 109 ∷ 87 ∷ 49 ∷ 46 ∷ 49 ∷ 192 ∷ 194 ∷ 104 ∷ 105 ∷ 50 ∷ 49 ∷ 48 ∷ 49 ∷ 49 ∷ 65
    ∷ 44 ∷ 194 ∷ 104 ∷ 105 ∷ 66 ∷ 38 ∷ 49 ∷ 49 ∷ 49 ∷ 53 ∷ 49 ∷ 194 ∷ 104 ∷ 105 ∷ 53 ∷ 49 ∷ 52 ∷ 31
    ∷ 48 ∷ 49 ∷ 53 ∷ 65 ∷ 45 ∷ 49 ∷ 48 ∷ 49 ∷ 194 ∷ 104 ∷ 105 ∷ 54 ∷ 51 ∷ 194 ∷ 104 ∷ 105 ∷ 49 ∷ 49
    ∷ 49 ∷ 51 ∷ 194 ∷ 104 ∷ 105 ∷ 48 ∷ []

abbrev writer' : Writer
writer' = record { written = 9 ∷ bytes; room = 40; ok = true }

abbrev reader_of : List ℕ → Reader
reader_of bytes = record { input = bytes; ok = true; type_id = 0; number = 0; string = [] }

abbrev reader : Reader
reader = reader_of (bytes ++ (7 ∷ []))

write_fsm-machine : write_fsm example_encoding machine writer ≡ ok writer'
unfolding write_fsm write_body write_state write_transition write_content_block
    write_executable_content transition_flags state_flags transition_ordinal history_ordinal
    binding_ordinal write_optional_done_data write_data_map vec_is_empty map_is_empty is_some
    fields_len items_len write_data is_empty write_parameters put_list write_each put_str put_uint
    put_boolean when skip ◌>>◌ write_str write_uint write_boolean write_type_and_value put_u8
    put_rest eval_result write_bytes is_char_boundary len example_bytes zeros
write_fsm-machine = refl

label-Fits : Fits label
label-Fits = ((inl (omega arith), (inl (omega arith), tt)), unfold len in omega arith)

empty-Fits : Fits []
empty-Fits = (tt, unfold len in omega arith)

state-StorableState : StorableState 2 state
unfolding Storable depth NotIn fields_len items_len
state-StorableState = record {
  ids = (omega arith, omega arith, omega arith, omega arith);
  name = label-Fits;
  states = (omega arith, tt);
  onentry = (omega arith, (omega arith, tt));
  onexit = (omega arith, tt);
  transitions = (omega arith, (omega arith, tt));
  invoke = (omega arith, tt);
  history = (omega arith, tt);
  data_values = (omega arith, (label-Fits, (omega arith, (tt, tt)), tt, tt), omega arith);
  donedata = tt;
}

transition-StorableTransition : StorableTransition 2 transition
unfolding Storable depth
transition-StorableTransition = record {
  ids = (omega arith, omega arith, omega arith, omega arith);
  targets = (omega arith, tt);
  events = (omega arith, (label-Fits, tt));
  cond = (label-Fits, omega arith);
}

machine-StorableFsm : StorableFsm 2 machine
unfolding Storable depth DistinctKeys has lookup
machine-StorableFsm = record {
  ids = (omega arith, omega arith);
  texts = (empty-Fits, label-Fits);
  states = (omega arith, (state-StorableState, tt));
  transitions = (omega arith, ((refl, transition-StorableTransition), tt));
  blocks = (omega arith, ((omega arith, (omega arith, ((label-Fits, (tt, omega arith)), tt))), tt));
  transition_keys = (refl, tt);
  block_keys = (refl, tt);
}

write_fsm_returns_example :
    (w' : Writer) × (write_fsm example_encoding machine writer ≡ ok w') × (w'.room ≤ 100)
write_fsm_returns_example =
    write_fsm_returns example_encoding example_encoding-IsEncoding 2 machine writer
      machine-StorableFsm

read_fsm_of_written_example :
    (true ≡ true)
    × ((r' : Reader) × (read_fsm example_encoding 2 reader ≡ ok (loaded (stored_fsm machine), r'))
        × (r'.ok ≡ true)
        × (r'.input ≡ 7 ∷ []))
read_fsm_of_written_example =
    read_fsm_of_written example_encoding example_encoding-IsEncoding 2 machine writer writer' reader
      (7 ∷ []) machine-StorableFsm refl write_fsm-machine (omega arith) refl refl

abbrev old_version : Str
old_version = b'f' ∷ b's' ∷ b'm' ∷ b'W' ∷ b'1' ∷ b'.' ∷ b'0' ∷ []

old_version-Fits : Fits old_version
old_version-Fits = (
  (
    inl (omega arith),
    (
      inl (omega arith),
      (
        inl (omega arith),
        (inl (omega arith), (inl (omega arith), (inl (omega arith), (inl (omega arith), tt)))),
      ),
    ),
  ),
  unfold len in omega arith,
)

abbrev old_bytes : List ℕ
old_bytes = 199 ∷ old_version

write_str-old_version :
    put_str example_encoding old_version writer
    ≡ ok (record { written = 9 ∷ old_bytes; room = 92; ok = true })
unfolding put_str write_str write_type_and_value put_u8 put_rest eval_result write_bytes
    is_char_boundary len example_bytes zeros
write_str-old_version = refl

abbrev old_reader : Reader
old_reader = reader_of (old_bytes ++ (7 ∷ []))

read_fsm_of_other_version_example :
    (r' : Reader) × (read_fsm example_encoding 2 old_reader ≡ ok (version_mismatch old_version, r'))
    × (r'.ok ≡ true)
    × (r'.input ≡ 7 ∷ [])
read_fsm_of_other_version_example =
    read_fsm_of_other_version example_encoding example_encoding-IsEncoding 2 old_version writer _
      old_reader (7 ∷ []) old_version-Fits (unfold str_beq in refl) refl write_str-old_version
      (omega arith) refl refl

abbrev value : Data
value = array (cons (integer (negsuc 4)) (cons (Data.map (field label null end)) nil))

value-Storable : Storable value
unfolding Storable NotIn fields_len items_len
value-Storable = (omega arith, (omega arith, ((omega arith, (label-Fits, tt, tt, tt)), tt)))

abbrev value_bytes : List ℕ
value_bytes = 53 ∷ 50 ∷ 49 ∷ 198 ∷ 45 ∷ 0 ∷ 0 ∷ 0 ∷ 0 ∷ 4 ∷ 54 ∷ 49 ∷ 194 ∷ 104 ∷ 105 ∷ 48 ∷ []

write_data-value :
    write_data example_encoding value writer
    ≡ ok (record { written = 9 ∷ value_bytes; room = 84; ok = true })
unfolding fields_len items_len write_data put_str put_uint put_boolean skip ◌>>◌ write_str
    write_uint write_boolean write_type_and_value put_u8 put_rest eval_result write_bytes
    is_char_boundary len example_bytes zeros print_signed print_digits
write_data-value = refl

read_data_of_written_example :
    (true ≡ true)
    × ((r' : Reader) × (read_data example_encoding 5 (reader_of (value_bytes ++ (7 ∷ [])))
          ≡ ok (value, r'))
        × (r'.ok ≡ true)
        × (r'.input ≡ 7 ∷ []))
read_data_of_written_example =
    read_data_of_written example_encoding example_encoding-IsEncoding value 5 writer _
      (reader_of (value_bytes ++ (7 ∷ []))) (7 ∷ []) value-Storable (unfold depth in omega arith)
      refl write_data-value (omega arith) refl refl

-- An array of 2 ^ 59 items is announced.
abbrev hostile_input : Reader
hostile_input = reader_of (0x35 ∷ 0xA8 ∷ 0 ∷ 0 ∷ 0 ∷ 0 ∷ 0 ∷ 0 ∷ 0 ∷ [])

read_data_ends_example :
    (((v : Data) × (r' : Reader) × (read_data example_encoding 10 hostile_input ≡ ok (v, r'))
        × (length r'.input ≤ 9)
        × IsTail hostile_input r')
      ⊎ ((s : Reader) × IsTail hostile_input s
          × Overflows example_encoding s
          × (read_data example_encoding 10 hostile_input ≡ panic)))
    × ((read_uint example_text hostile_input).0 % 2 ^ 8 ≡ 5
        → 2 ^ 59 - 1 < (read_uint example_text (read_uint example_text hostile_input).1).0
        → read_data example_encoding 10 hostile_input ≡ panic)
    × ((read_uint example_text hostile_input).0 % 2 ^ 8 ≡ 6
        → 7 * 2 ^ 54 < (read_uint example_text (read_uint example_text hostile_input).1).0
        → read_data example_encoding 10 hostile_input ≡ panic)
read_data_ends_example = read_data_ends example_encoding 10 hostile_input (omega arith)
