-- ===== src/Serializer/Machine/RoundTrip.antt =====
-- `FsmReader::read` behind `FsmWriter::write`.
use ru_fsm.Common.{
  append-appended, ℕ, ◌<◌, ◌≤◌, true, false, List, [], ◌++◌, ok, nat_eq, ◌≡◌, ◌⊎◌, inl, inr, refl,
  arith, Bool-cases, map, ◌^◌,
}
use ru_fsm.Common.Str.{Str, len, str_beq}
use ru_fsm.Fsm.Model.{Id32, BindingType, early, late, Transition, State, ExecutableContent, Fsm}
use ru_fsm.Fsm.Collections.HashTable.{HashTable}
use ru_fsm.Serializer.Writer.{Writer}
use ru_fsm.Serializer.Reader.{
  Reader, has_error, read_string, verify_string_type, read_type_and_size, error,
}
use ru_fsm.Serializer.Steps.{Encoding, ◌>>=◌, put_list, get_list, put_str, get_str}
use ru_fsm.Serializer.Steps.Carries.{
  Carries, Carries-then, Carries-last, Carries-run, IsEncoding, Fits, ◌$◌, All-map, Carries-bits,
  Carries-str, Carries-list,
}
use ru_fsm.Serializer.Machine.Write.{
  write_state, write_content_block, write_body, fsm_version, binding_ordinal, write_transition,
  write_fsm,
}
use ru_fsm.Serializer.Machine.Read.{
  read_state, read_content_block, binding_from_ordinal, read_transition, read_body, read_fsm,
  loaded, unreadable, version_mismatch,
}
use ru_fsm.Serializer.Machine.Stored.{
  Each, IsU32, StorableState, StorableContent, stored_fsm, stored_state, stored_transition,
  stored_content, StorableTransition, StorableFsm,
}
use ru_fsm.Serializer.Machine.Parts.{Carries-id}
use ru_fsm.Serializer.Machine.Contents.{Carries-block}
use ru_fsm.Serializer.Machine.States.{Carries-state, Carries-transition}
use ru_fsm.Serializer.Machine.Tables.{insert_transitions-distinct, put_all-distinct}

binding_ordinal-small : (b : BindingType) → binding_ordinal b < 2 ^ 8
unfolding binding_ordinal
binding_ordinal-small early = omega arith
binding_ordinal-small late = omega arith

binding_from_ordinal_lem : (b : BindingType) → binding_from_ordinal (binding_ordinal b) ≡ ok b
unfolding binding_ordinal binding_from_ordinal
binding_from_ordinal_lem early = refl
binding_from_ordinal_lem late = refl

fsm_version-Fits : Fits fsm_version
fsm_version-Fits = (
  (
    inl (omega arith),
    (
      inl (omega arith),
      (
        inl (omega arith),
        (inl (omega arith), (inl (omega arith), (inl (omega arith), (inl (omega arith), tt)))),
      ),
    ),
  ),
  unfold len in omega arith,
)

read_string-nothing :
    (enc : Encoding) (r : Reader)
    → (r.ok ≡ false ⊎ (r.input ≡ []))
    → (r' : Reader) × (read_string enc.from_utf8 r ≡ ([], r')) × (r'.ok ≡ false)
unfolding read_string verify_string_type read_type_and_size error
read_string-nothing enc r (inl bad) = (r, ground arith, bad)
read_string-nothing enc r (inr empty) = elim (Bool-cases r.ok) [
  | inl good ↦ (error (record r { string = [] }), ground arith, ground arith)
  | inr bad ↦ (r, ground arith, bad)
]

module _ (enc : Encoding) (laws : IsEncoding enc) (d : ℕ) where
  Carries-states :
      (xs : List State)
      → Each (StorableState d) xs
      → Carries
          (put_list enc (write_state enc) xs)
          (get_list enc (read_state enc d))
          (map stored_state xs)
  Carries-states xs (h, s) =
      Carries-list enc laws _ _ stored_state xs h (All-map (Carries-state enc laws d) xs s)

  Carries-transitions :
      (table : HashTable Id32 Transition)
      → Each (λ (key, t). (key ≡ t.id) × StorableTransition d t) table
      → Carries
          (put_list enc (λ (key, t). write_transition enc t) table)
          (get_list enc (read_transition enc d))
          (map (λ (key, t). stored_transition t) table)
  Carries-transitions table (h, s) =
      Carries-list enc laws _ _ _ table h
        (All-map (λ (key, t) (_, c). Carries-transition enc laws d t c) table s)

  Carries-blocks :
      (table : HashTable Id32 (List ExecutableContent))
      → Each (λ (key, content). IsU32 key × Each (StorableContent d) content) table
      → Carries
          (put_list enc (write_content_block enc) table)
          (get_list enc (read_content_block enc d))
          (map (λ (key, content). (key, map stored_content content)) table)
  Carries-blocks table (h, s) =
      Carries-list enc laws _ _ _ table h (All-map (Carries-block enc laws d) table s)

  Carries-body :
      (f : Fsm) → StorableFsm d f → Carries (write_body enc f) (read_body enc d) (stored_fsm f)
  unfolding write_body read_body stored_fsm stored_transition
  Carries-body f s =
      let (root, script) = s.ids in
      let (name, datamodel) = s.texts in
      let small = binding_ordinal-small f.binding in
      let keyed = All-map (λ (key, t) (e, _). e) f.transitions s.transitions.1 in
      Carries-then _ (Carries-str enc laws f.name name)
      $ Carries-then _ (Carries-str enc laws f.datamodel datamodel)
      $ Carries-then _
          (Carries-bits enc laws 8 (binding_ordinal f.binding) small (omega (arith, small)))
      $ Carries-run _ (binding_from_ordinal_lem f.binding)
      $ Carries-then _ (Carries-id enc laws f.pseudo_root root)
      $ Carries-then _ (Carries-id enc laws f.script script)
      $ Carries-then _ (Carries-states f.states s.states)
      $ Carries-then _ (Carries-transitions f.transitions s.transitions)
      $ Carries-last _ (Carries-blocks f.executable_content s.blocks) (
          rw (
            insert_transitions-distinct stored_transition (λ t. refl) f.transitions keyed
                s.transition_keys,
            put_all-distinct (map stored_content) f.executable_content s.block_keys,
          ))

  pub Carries-fsm :
      (f : Fsm)
      → StorableFsm d f
      → Carries (write_fsm enc f) (read_fsm enc d) (loaded (stored_fsm f))
  unfolding write_fsm read_fsm str_beq
  Carries-fsm f s =
      Carries-then _ (Carries-str enc laws fsm_version fsm_version-Fits)
      $ Carries-last _ (Carries-body f s) refl

  -- For machines that the format can hold, `FsmWriter::write` returns, whatever the room and the state of the
  -- writer.
  pub write_fsm_returns :
      (f : Fsm) (w : Writer)
      → StorableFsm d f
      → (w' : Writer) × (write_fsm enc f w ≡ ok w') × (w'.room ≤ w.room)
  write_fsm_returns f w s = (Carries-fsm f s).returns w

  -- For an encoding with the laws of the standard library, and a machine that the format can hold, with values
  -- nested at most `d` deep: if `FsmWriter::write` has left eight free bytes, it has met no error. If the input of
  -- a reader is what it has appended and then `rest`, `FsmReader::read`, following values `d` deep, returns the
  -- machine, up to what `stored_fsm` says is lost, without an error, and leaves `rest`.
  pub read_fsm_of_written :
      (f : Fsm) (w w' : Writer) (r : Reader) (rest : List ℕ)
      → StorableFsm d f
      → w.ok ≡ true
      → write_fsm enc f w ≡ ok w'
      → 8 ≤ w'.room
      → r.ok ≡ true
      → w.written ++ r.input ≡ w'.written ++ rest
      → (w'.ok ≡ true)
        × ((r' : Reader) × (read_fsm enc d r ≡ ok (loaded (stored_fsm f), r'))
            × (r'.ok ≡ true)
            × (r'.input ≡ rest))
  read_fsm_of_written f w w' r rest s good done room fine e =
      let c = Carries-fsm f s in
      let (good', q) = c.writes w w' good done room in
      (good', c.reads r rest fine (append-appended w.written r.input c.bytes rest w'.written q e))

  -- For an encoding with the laws of the standard library: if a reader's input is a text of fewer than 4096 bytes
  -- other than the version, as `write_str` writes it with room for eight more bytes, and then `rest`,
  -- `FsmReader::read` returns the mismatch with that text, without an error of the reader, and leaves `rest`.
  pub read_fsm_of_other_version :
      (v : Str) (w w' : Writer) (r : Reader) (rest : List ℕ)
      → Fits v
      → str_beq v fsm_version ≡ false
      → w.ok ≡ true
      → put_str enc v w ≡ ok w'
      → 8 ≤ w'.room
      → r.ok ≡ true
      → w.written ++ r.input ≡ w'.written ++ rest
      → (r' : Reader) × (read_fsm enc d r ≡ ok (version_mismatch v, r'))
        × (r'.ok ≡ true)
        × (r'.input ≡ rest)
  unfolding read_fsm ◌>>=◌ has_error
  read_fsm_of_other_version v w w' r rest f other good done room fine e =
      let c = Carries-str enc laws v f in
      let (good', q) = c.writes w w' good done room in
      let (r', p, fine', left) =
        c.reads r rest fine (append-appended w.written r.input c.bytes rest w'.written q e) in
      (r', rw (p, other, fine'), fine', left)

  -- If a reader has had an error, or has no input left, `FsmReader::read` returns that it cannot read, and the reader
  -- has an error.
  pub read_fsm_of_nothing :
      (r : Reader)
      → (r.ok ≡ false ⊎ (r.input ≡ []))
      → (r' : Reader) × (read_fsm enc d r ≡ ok (unreadable, r')) × (r'.ok ≡ false)
  unfolding read_fsm ◌>>=◌ has_error get_str str_beq
  read_fsm_of_nothing r h = let (r', p, bad) = read_string-nothing enc r h in (r', rw (p, bad), bad)
