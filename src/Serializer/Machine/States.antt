-- ===== src/Serializer/Machine/States.antt =====
-- `read_transition` and `read_state` behind `write_transition` and `write_state`.
use ru_fsm.Common.{
  ℕ, ◌+◌, ◌<◌, ◌≤◌, Bool, true, false, not, List, [], ◌∷◌, ok, if◌then◌else◌, nat_eq, ◌==◌, ◌≡◌,
  refl, ◌∙◌, ap, arith, Option, none, some, map, ◌*◌, ◌/◌, ◌%◌, ◌^◌,
}
use ru_fsm.Datamodel.Data.{Data, Fields, is_empty, null, end, field}
use ru_fsm.Fsm.Model.{
  Id32, HistoryType, TransitionType, shallow, deep, internal, external, State, Transition, DoneData,
  Invoke,
}
use ru_fsm.Serializer.Steps.{
  Encoding, ◌>>◌, ret, ◌>>=◌, when, read_if, put_uint, put_list, get_list,
}
use ru_fsm.Serializer.Steps.Carries.{
  Carries, Carries-skip, Carries-then, Carries-last, Carries-when, Carries-run, IsEncoding, ◌$◌,
  All-map, Carries-bits, Carries-str, Carries-list,
}
use ru_fsm.Serializer.Values.{fields_len, read_fields, write_data}
use ru_fsm.Serializer.Values.RoundTrip.{StorableFields, fields_depth, Carries-map}
use ru_fsm.Serializer.Machine.Write.{
  vec_is_empty, map_is_empty, is_some, flag_if, transition_ordinal, history_ordinal,
  transition_flags, state_flags, write_invoke, write_transition, write_state, write_data_map,
  write_optional_done_data, write_string_list,
}
use ru_fsm.Serializer.Machine.Read.{
  bit, read_value, transition_from_ordinal, history_from_ordinal, read_id, read_done_data,
  read_invoke, read_transition, read_state,
}
use ru_fsm.Serializer.Machine.Stored.{
  stored_transition, stored_state, stored_optional_done_data, stored_invoke, Each,
  StorableTransition, StorableValue, StorableState, StorableInvoke, StorableOption,
  StorableDoneData, IsU32,
}
use ru_fsm.Serializer.Machine.Parts.{Carries-id, Carries-ids, Carries-strings, Carries-done_data}
use ru_fsm.Serializer.Machine.Contents.{Carries-value, Carries-invoke}

-- A flag as a digit.
digit : Bool → ℕ
digit b = if b then 1 else 0

flag-digit : (b : Bool) (v : ℕ) → flag_if b v ≡ v * digit b
unfolding digit
flag-digit b v = ground arith

digit-bit : (b : Bool) (n : ℕ) → n ≡ digit b → (n == 1) ≡ b
unfolding digit
digit-bit b n e = ground arith

digit-small : (b : Bool) → digit b ≤ 1
unfolding digit
digit-small b = ground arith

transition_ordinal-small : (t : TransitionType) → transition_ordinal t ≤ 1
unfolding transition_ordinal
transition_ordinal-small internal = omega arith
transition_ordinal-small external = omega arith

transition_from_ordinal_lem :
    (t : TransitionType) → transition_from_ordinal (transition_ordinal t) ≡ ok t
unfolding transition_ordinal transition_from_ordinal
transition_from_ordinal_lem internal = refl
transition_from_ordinal_lem external = refl

history_ordinal-small : (h : HistoryType) → history_ordinal h ≤ 2
unfolding history_ordinal
history_ordinal-small shallow = omega arith
history_ordinal-small deep = omega arith
history_ordinal-small HistoryType.none = omega arith

history_from_ordinal_lem : (h : HistoryType) → history_from_ordinal (history_ordinal h) ≡ h
unfolding history_ordinal history_from_ordinal
history_from_ordinal_lem shallow = refl
history_from_ordinal_lem deep = refl
history_from_ordinal_lem HistoryType.none = refl

-- The flags of a transition, as digits.
record TransitionBits (t : Transition) : Type 0 where
  small : transition_flags t < 2 ^ 8
  ordinal : transition_flags t % 2 ≡ transition_ordinal t.transition_type
  wildcard : bit 1 (transition_flags t) ≡ t.wildcard
  cond : bit 2 (transition_flags t) ≡ not (is_empty t.cond)
  content : bit 3 (transition_flags t) ≡ not (t.content == 0)

transition_bits : (t : Transition) → TransitionBits t
unfolding transition_flags
transition_bits t =
    let o = transition_ordinal t.transition_type in
    let x1 = digit t.wildcard in
    let x2 = digit (not (is_empty t.cond)) in
    let x3 = digit (not (t.content == 0)) in
    let e : transition_flags t ≡ o + 2 * x1 + 4 * x2 + 8 * x3 = rw (
      flag-digit t.wildcard 2,
      flag-digit (not (is_empty t.cond)) 4,
      flag-digit (not (t.content == 0)) 8,
    ) in
    let s0 = transition_ordinal-small t.transition_type in
    let s1 = digit-small t.wildcard in
    let s2 = digit-small (not (is_empty t.cond)) in
    let s3 = digit-small (not (t.content == 0)) in
    record {
      small = omega arith;
      ordinal = omega arith;
      wildcard = digit-bit t.wildcard _ (omega arith);
      cond = digit-bit (not (is_empty t.cond)) _ (omega arith);
      content = digit-bit (not (t.content == 0)) _ (omega arith);
    }

-- The flags of a state, as digits.
record StateBits (s : State) : Type 0 where
  small : state_flags s < 2 ^ 16
  ordinal : state_flags s % 4 ≡ history_ordinal s.history_type
  onentry : bit 2 (state_flags s) ≡ not (vec_is_empty s.onentry)
  onexit : bit 3 (state_flags s) ≡ not (vec_is_empty s.onexit)
  states : bit 4 (state_flags s) ≡ not (vec_is_empty s.states)
  is_final : bit 5 (state_flags s) ≡ s.is_final
  is_parallel : bit 6 (state_flags s) ≡ s.is_parallel
  donedata : bit 7 (state_flags s) ≡ is_some s.donedata
  invoke : bit 8 (state_flags s) ≡ not (vec_is_empty s.invoke)
  data_values : bit 9 (state_flags s) ≡ not (map_is_empty s.data_values)
  history : bit 10 (state_flags s) ≡ not (vec_is_empty s.history)

-- Nine digits behind a number below 4.
ten_bits :
    (o x2 x3 x4 x5 x6 x7 x8 x9 x10 : ℕ)
    → ((o ≤ 2)
        × (x2 ≤ 1)
        × (x3 ≤ 1)
        × (x4 ≤ 1)
        × (x5 ≤ 1)
        × (x6 ≤ 1)
        × (x7 ≤ 1)
        × (x8 ≤ 1)
        × (x9 ≤ 1)
        × (x10 ≤ 1))
    → (n : ℕ)
    → n
      ≡ o
        + 0x04 * x2
        + 0x08 * x3
        + 0x10 * x4
        + 0x20 * x5
        + 0x40 * x6
        + 0x80 * x7
        + 0x100 * x8
        + 0x200 * x9
        + 0x400 * x10
    → (n < 2 ^ 16)
      × (n % 4 ≡ o)
      × (n / 2 ^ 2 % 2 ≡ x2)
      × (n / 2 ^ 3 % 2 ≡ x3)
      × (n / 2 ^ 4 % 2 ≡ x4)
      × (n / 2 ^ 5 % 2 ≡ x5)
      × (n / 2 ^ 6 % 2 ≡ x6)
      × (n / 2 ^ 7 % 2 ≡ x7)
      × (n / 2 ^ 8 % 2 ≡ x8)
      × (n / 2 ^ 9 % 2 ≡ x9)
      × (n / 2 ^ 10 % 2 ≡ x10)
ten_bits o x2 x3 x4 x5 x6 x7 x8 x9 x10 (h, h2, h3, h4, h5, h6, h7, h8, h9, h10) n e = (
  omega arith,
  omega arith,
  omega arith,
  omega arith,
  omega arith,
  omega arith,
  omega arith,
  omega arith,
  omega arith,
  omega arith,
  omega arith,
)

state_bits : (s : State) → StateBits s
unfolding state_flags
state_bits s =
    let b2 = not (vec_is_empty s.onentry) in
    let b3 = not (vec_is_empty s.onexit) in
    let b4 = not (vec_is_empty s.states) in
    let b7 = is_some s.donedata in
    let b8 = not (vec_is_empty s.invoke) in
    let b9 = not (map_is_empty s.data_values) in
    let b10 = not (vec_is_empty s.history) in
    let (small, o, e2, e3, e4, e5, e6, e7, e8, e9, e10) =
      ten_bits (history_ordinal s.history_type) (digit b2) (digit b3) (digit b4) (digit s.is_final)
        (digit s.is_parallel) (digit b7) (digit b8) (digit b9) (digit b10)
        (
          history_ordinal-small s.history_type,
          digit-small b2,
          digit-small b3,
          digit-small b4,
          digit-small s.is_final,
          digit-small s.is_parallel,
          digit-small b7,
          digit-small b8,
          digit-small b9,
          digit-small b10,
        )
        (state_flags s)
        (rw (
          flag-digit b2 0x04,
          flag-digit b3 0x08,
          flag-digit b4 0x10,
          flag-digit s.is_final 0x20,
          flag-digit s.is_parallel 0x40,
          flag-digit b7 0x80,
          flag-digit b8 0x100,
          flag-digit b9 0x200,
          flag-digit b10 0x400,
        )) in
    record {
      small = small;
      ordinal = o;
      onentry = digit-bit b2 _ e2;
      onexit = digit-bit b3 _ e3;
      states = digit-bit b4 _ e4;
      is_final = digit-bit s.is_final _ e5;
      is_parallel = digit-bit s.is_parallel _ e6;
      donedata = digit-bit b7 _ e7;
      invoke = digit-bit b8 _ e8;
      data_values = digit-bit b9 _ e9;
      history = digit-bit b10 _ e10;
    }

vec_is_empty-nil : {A : Type 0} (xs : List A) → not (vec_is_empty xs) ≡ false → xs ≡ []
unfolding vec_is_empty
vec_is_empty-nil [] h = refl
vec_is_empty-nil (x ∷ xs) h = cc

map_is_empty-end : (fs : Fields) → not (map_is_empty fs) ≡ false → fs ≡ end
unfolding map_is_empty
map_is_empty-end end h = refl
map_is_empty-end (field k v fs) h = cc

module _ (enc : Encoding) (laws : IsEncoding enc) (d : ℕ) where
  Carries-cond :
      (c : Data) (b : Bool)
      → StorableValue d c
      → b ≡ not (is_empty c)
      → Carries
          (when (not (is_empty c)) (write_data enc c))
          (read_if b (read_value enc d) null)
          (if is_empty c then null else c)
  Carries-cond c b s e =
      Carries-when _ b e
        (λ h.
          let full : is_empty c ≡ false = ground arith in rw full (Carries-value enc laws d c s))
        (λ h. ground arith)

  pub Carries-transition :
      (t : Transition)
      → StorableTransition d t
      → Carries (write_transition enc t) (read_transition enc d) (stored_transition t)
  unfolding write_transition read_transition stored_transition write_string_list
  Carries-transition t s =
      let (id, doc, source, content) = s.ids in
      let bits = transition_bits t in
      Carries-then _ (Carries-id enc laws t.id id)
      $ Carries-then _ (Carries-id enc laws t.doc_id doc)
      $ Carries-then _ (Carries-id enc laws t.source source)
      $ Carries-then _ (Carries-ids enc laws t.target s.targets)
      $ Carries-then _ (Carries-strings enc laws t.events s.events)
      $ Carries-then _
          (Carries-bits enc laws 8 (transition_flags t) bits.small (omega (arith, bits.small)))
      $ Carries-run _
          (ap transition_from_ordinal bits.ordinal ∙ transition_from_ordinal_lem t.transition_type)
      $ Carries-then _ (Carries-cond t.cond _ s.cond bits.cond)
      $ Carries-last _
          (Carries-when _ _ bits.content (λ e. Carries-id enc laws t.content content)
            (λ e. ground arith))
          (rw bits.wildcard)

  Carries-optional_done_data :
      (o : Option DoneData) (b : Bool)
      → StorableOption StorableDoneData o
      → b ≡ is_some o
      → Carries
          (write_optional_done_data enc o)
          (read_if b (read_done_data enc >>= λ dd. ret (some dd)) none)
          (stored_optional_done_data o)
  unfolding write_optional_done_data stored_optional_done_data is_some read_if
  Carries-optional_done_data none b s e = rw e (Carries-skip none)
  Carries-optional_done_data (some dd) b s e =
      rw e (Carries-last _ (Carries-done_data enc laws dd s) refl)

  -- A list that is there only if it is not empty.
  Carries-flagged_ids :
      (xs : List Id32) (b : Bool)
      → Each IsU32 xs
      → b ≡ not (vec_is_empty xs)
      → Carries
          (when (not (vec_is_empty xs)) (put_list enc (λ x. put_uint x) xs))
          (read_if b (get_list enc (read_id enc)) [])
          xs
  Carries-flagged_ids xs b s e =
      Carries-when _ b e (λ h. Carries-ids enc laws xs s) (vec_is_empty-nil xs)

  Carries-invokes :
      (xs : List Invoke) (b : Bool)
      → Each (StorableInvoke d) xs
      → b ≡ not (vec_is_empty xs)
      → Carries
          (when (not (vec_is_empty xs)) (put_list enc (write_invoke enc) xs))
          (read_if b (get_list enc (read_invoke enc d)) [])
          (map stored_invoke xs)
  Carries-invokes xs b (h, s) e =
      Carries-when _ b e
        (λ _.
          Carries-list enc laws _ _ stored_invoke xs h (All-map (Carries-invoke enc laws d) xs s))
        (λ g. ap (map stored_invoke) (vec_is_empty-nil xs g))

  Carries-children :
      (t : Id32) (xs : List Id32) (b : Bool)
      → IsU32 t
      → Each IsU32 xs
      → b ≡ not (vec_is_empty xs)
      → Carries {A = Id32 × List Id32}
          (when (not (vec_is_empty xs)) (put_uint t >> put_list enc (λ x. put_uint x) xs))
          (read_if {A = Id32 × List Id32} b
            (read_id enc >>= λ i. get_list enc (read_id enc) >>= λ l. ret (i, l))
            (0, []))
          (if vec_is_empty xs then 0 else t, xs)
  Carries-children t xs b id s e =
      Carries-when _ b e
        (λ h.
          let full : vec_is_empty xs ≡ false = ground arith in
          rw full (
            Carries-then _ (Carries-id enc laws t id)
              (Carries-last _ (Carries-ids enc laws xs s) refl)))
        (λ h.
          let none_left : vec_is_empty xs ≡ true = ground arith in
          rw (none_left, vec_is_empty-nil xs h))

  Carries-data_map :
      (fs : Fields) (b : Bool)
      → (fields_len fs < 2 ^ 60) × StorableFields fs × (fields_depth fs ≤ d)
      → b ≡ not (map_is_empty fs)
      → Carries
          (when (not (map_is_empty fs)) (write_data_map enc fs))
          (read_if b (read_fields enc (read_value enc d)) end)
          fs
  unfolding write_data_map
  Carries-data_map fs b (short, s, h) e =
      Carries-when _ b e (λ _. Carries-map enc laws fs d short s h) (map_is_empty-end fs)

  pub Carries-state :
      (s : State)
      → StorableState d s
      → Carries (write_state enc s) (read_state enc d) (stored_state s)
  unfolding write_state read_state stored_state
  Carries-state s h =
      let (id, doc, initial, parent) = h.ids in
      let bits = state_bits s in
      Carries-then _ (Carries-id enc laws s.id id)
      $ Carries-then _ (Carries-id enc laws s.doc_id doc)
      $ Carries-then _ (Carries-str enc laws s.name h.name)
      $ Carries-then _
          (Carries-bits enc laws 16 (state_flags s) bits.small (omega (arith, bits.small)))
      $ Carries-then _ (Carries-children s.initial s.states _ initial h.states bits.states)
      $ Carries-then _ (Carries-flagged_ids s.onentry _ h.onentry bits.onentry)
      $ Carries-then _ (Carries-flagged_ids s.onexit _ h.onexit bits.onexit)
      $ Carries-then _ (Carries-ids enc laws s.transitions h.transitions)
      $ Carries-then _ (Carries-invokes s.invoke _ h.invoke bits.invoke)
      $ Carries-then _ (Carries-flagged_ids s.history _ h.history bits.history)
      $ Carries-then _ (Carries-data_map s.data_values _ h.data_values bits.data_values)
      $ Carries-then _ (Carries-id enc laws s.parent parent)
      $ Carries-last _ (Carries-optional_done_data s.donedata _ h.donedata bits.donedata) (
          rw (
            bits.is_parallel,
            bits.is_final,
            bits.ordinal,
            history_from_ordinal_lem s.history_type,
          ))
