-- ===== src/Fsm/Invoke.antt =====
-- `invoke` of src/fsm.rs: the evaluation of an `Invoke`, and the start of its session.
use ru_fsm.Common.{
  ◌+◌, Bool, true, false, ◌&&◌, ◌||◌, List, [], ◌∷◌, ◌++◌, if◌then◌else◌, nat_eq, Option, none,
  some, leb,
}
use ru_fsm.Common.Str.{Str, len, str_beq, starts_with}
use ru_fsm.Datamodel.Data.{Data, string, is_empty}
use ru_fsm.Fsm.Model.{Id32, Invoke}
use ru_fsm.Fsm.Global.{Global, Session, Datamodel}
use ru_fsm.Fsm.Environment.{Environment}

abbrev scxml_invoke_type : Str
scxml_invoke_type =
    b'h' ∷ b't' ∷ b't' ∷ b'p' ∷ b':' ∷ b'/' ∷ b'/' ∷ b'w' ∷ b'w' ∷ b'w' ∷ b'.' ∷ b'w' ∷ b'3' ∷ b'.'
    ∷ b'o' ∷ b'r' ∷ b'g' ∷ b'/' ∷ b'T' ∷ b'R' ∷ b'/' ∷ b's' ∷ b'c' ∷ b'x' ∷ b'm' ∷ b'l' ∷ []

abbrev scxml_invoke_type_short : Str
scxml_invoke_type_short = b's' ∷ b'c' ∷ b'x' ∷ b'm' ∷ b'l' ∷ []

-- `Str::is_empty`
abbrev no_text : Str → Bool
no_text s = elim s [ [] ↦ true | _ ∷ _ ↦ false ]

-- The types of an invoke that are supported: none, and the one for SCXML with at most one more byte.
unfoldable pub is_supported : Str → Bool
is_supported name =
    let type_name = if str_beq name scxml_invoke_type_short then scxml_invoke_type else name in
    no_text type_name
    || starts_with type_name scxml_invoke_type && leb (len type_name) (len scxml_invoke_type + 1)

-- `child_sessions.insert`
unfoldable pub insert_session : List (Str × Session) → Str → Session → List (Str × Session)
insert_session [] k s = (k, s) ∷ []
insert_session ((j, t) ∷ l) k s = if str_beq j k then (j, s) ∷ l else (j, t) ∷ insert_session l k s

module _ (dm : Datamodel) (env : Environment dm) where
  -- The values of `namelist`; none after an error.
  unfoldable pub name_values : List Str → Global dm.Own → Option (List (Str × Data)) × Global dm.Own
  name_values [] g = (some [], g)
  name_values (name ∷ names) g =
      let (value, g1) = env.get_by_location name g in
      let (rest, g2) = name_values names g1 in
      elim value [
        | some v ↦ elim rest [ some vs ↦ (some ((name, v) ∷ vs), g2) | none ↦ (none, g2) ]
        | none ↦ (none, g1)
      ]

  -- The session of the content, or of the document at `src`.
  unfoldable pub start_session :
      Invoke → Data → List (Str × Data) → Str → Global dm.Own → Option Session × Global dm.Own
  start_session inv src values invoke_id g =
      if is_empty src
      then (let (content, g1) = dm.evaluate_content inv.content g in
          elim content [
            | some c ↦
                env.execute_with_data_from_xml (env.to_string c) values g1.session_id invoke_id g1
            | none ↦ (none, g1)
          ])
      else env.execute_with_data (env.to_string src) values g.session_id invoke_id g

  -- What follows the names: the parameters, the location of the id, and the session.
  unfoldable pub invoke_with :
      Id32 → Invoke → Str → Data → List (Str × Data) → Global dm.Own → Global dm.Own
  unfolding start_session insert_session
  invoke_with state_id inv invoke_id src names g =
      let (params, g1) = dm.evaluate_params inv.params g in
      let g2 =
        if no_text inv.external_id_location
        then g1
        else env.set_location inv.external_id_location (string invoke_id) g1 in
      let (result, g3) = start_session inv src (names ++ params) invoke_id g2 in
      elim result [
        | some session ↦ record g3 {
          child_sessions =
              insert_session g3.child_sessions invoke_id
                (record session { state_id = some state_id; invoke_doc_id = inv.doc_id });
        }
        | none ↦ g3
      ]

  -- The id of the session: generated from the name of the state, if the document has none.
  unfoldable pub invoke_id_of : Invoke → Global dm.Own → Str × Global dm.Own
  invoke_id_of inv g =
      if no_text inv.invoke_id then env.generated_id inv.parent_state_name g else (inv.invoke_id, g)

  unfoldable pub invoke : Id32 → Invoke → Global dm.Own → Global dm.Own
  unfolding invoke_with name_values invoke_id_of is_supported
  invoke state_id inv g =
      let (type_name, g1) = env.expression_alternative_value inv.type_name inv.type_expr g in
      let (invoke_id, g2) = invoke_id_of inv g1 in
      let (src, g3) = env.expression_alternative_value inv.src inv.src_expr g2 in
      let (names, g4) = name_values inv.name_list g3 in
      elim type_name [
        | some t ↦
            if is_supported (env.to_string t)
            then elim src [
              | some s ↦ elim names [
                | some vs ↦ invoke_with state_id inv invoke_id s vs g4
                | none ↦ g4
              ]
              | none ↦ g3
            ]
            else g1
        | none ↦ g1
      ]
