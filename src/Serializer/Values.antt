-- ===== src/Serializer/Values.antt =====
-- Values of the datamodel: `write_data` of src/serializer/default_protocol_writer.rs, and `read_data` with
-- `read_data_value_payload` of src/serializer/default_protocol_reader.rs. `write_data_arc` and `read_data_arc`, which lock
-- the value, are the same here. A call of `read_data` for an item is one level deeper; the levels are the fuel. An
-- announced number of items above the capacity of the collection panics; memory below it is taken to be there.
pub mod RoundTrip
pub mod Returns
pub mod Tails
use ru_fsm.Common.{
  ℕ, zero, suc, ◌+◌, ◌-◌, ◌<◌, ◌≤◌, Bool, true, false, not, ◌&&◌, ◌||◌, List, [], ◌∷◌, ◌++◌, Run,
  ok, panic, stuck, if◌then◌else◌, PartialEq, nat_eq, ◌==◌, ◌≡◌, ◌≢◌, ◌⊎◌, ◌↔◌, inl, inr, refl, sym,
  ◌∙◌, ap, subst, arith, Bool-cases, >>=-eq-ok, nat_beq_iff, Option, none, some, Option-cases,
  length, get_elem?, All, append-nil, append_assoc, ltb, leb, unwrap, take, drop, length-append,
  ◌*◌, ◌/◌, ◌%◌, ◌^◌, min, ltb→lt, lt→ltb,
}
use ru_fsm.Common.Str.{Str, str_beq}
use ru_fsm.Datamodel.Data.{
  Data, Items, Fields, integer, double, string, boolean, array, null, error, source, nil, cons, end,
  field,
}
use ru_fsm.Serializer.Reader.{error as error_reader}
use ru_fsm.Serializer.Steps.{
  Encoding, Write, Read, skip, ◌>>◌, ret, ◌>>=◌, read_times, put_uint, put_boolean, get_boolean,
  put_str, get_uint, get_bits, get_str,
}

-- `Vec::len` and `HashMap::len`
unfoldable pub items_len : Items → ℕ
items_len nil = 0
items_len (cons v vs) = suc (items_len vs)

unfoldable pub fields_len : Fields → ℕ
fields_len end = 0
fields_len (field k v fs) = suc (fields_len fs)

-- `Vec::push` for each of the items
unfoldable pub items_of : List Data → Items
items_of [] = nil
items_of (v ∷ vs) = cons v (items_of vs)

-- `HashMap::insert`
unfoldable pub insert : Fields → Str → Data → Fields
insert end k v = field k v end
insert (field j w fs) k v = if str_beq j k then field j v fs else field j w (insert fs k v)

-- `HashMap::insert` for each of the entries, into a map.
unfoldable pub insert_all : Fields → List (Str × Data) → Fields
insert_all fs [] = fs
insert_all fs ((k, v) ∷ kvs) = insert_all (insert fs k v) kvs

module _ (enc : Encoding) where
  unfoldable mutual
    pub write_data : Data → Write
    write_data (integer v) = put_uint 1 >> put_str enc (enc.print_integer v)
    write_data (double v) = put_uint 2 >> put_str enc (enc.print_double v)
    write_data (string s) = put_uint 3 >> put_str enc s
    write_data (boolean b) = put_uint 4 >> put_boolean b
    write_data (array vs) = put_uint 5 >> put_uint (items_len vs) >> write_items vs
    write_data (Data.map fs) = put_uint 6 >> put_uint (fields_len fs) >> write_fields fs
    write_data (error s) = put_uint 7 >> put_str enc s
    write_data (source s id) = put_uint 8 >> put_str enc s >> put_uint id
    write_data Data.none = put_uint 9
    write_data null = put_uint 0

    pub write_items : Items → Write
    write_items nil = skip
    write_items (cons v vs) = write_data v >> write_items vs

    pub write_fields : Fields → Write
    write_fields end = skip
    write_fields (field k v fs) = (put_str enc k >> write_data v) >> write_fields fs

  -- An entry of a map, its value read by `value`.
  unfoldable pub read_entry : Read Data → Read (Str × Data)
  read_entry value = get_str enc >>= λ k. value >>= λ v. ret (k, v)

  -- `read_data_map`: the number of the entries, and the entries into a map that grows with them.
  unfoldable pub read_fields : Read Data → Read Fields
  read_fields value =
      get_uint enc >>= λ len. read_times len (read_entry value) >>= λ kvs. ret (insert_all end kvs)

  -- `with_capacity(len)`, which panics on a capacity overflow, and what follows it.
  unfoldable pub with_capacity : {A : Type 0} → ℕ → ℕ → Read A → Read A
  with_capacity capacity len next = if leb len capacity then next else λ r. panic

  -- `error`, and the value null.
  unfoldable pub reject : Read Data
  reject r = ok (null, error_reader r)

  -- `read_data_value_payload`, its items read by `item`.
  unfoldable pub read_data_value_payload : Read Data → ℕ → Read Data
  unfolding with_capacity
  read_data_value_payload item what =
      if what == 0
      then ret null
      else if what == 1
      then (get_str enc >>= λ rv. elim (enc.parse_integer rv) [
        | some v ↦ ret (integer v)
        | none ↦ reject
      ])
      else if what == 2
      then (get_str enc >>= λ rv. elim (enc.parse_double rv) [
        | some v ↦ ret (double v)
        | none ↦ reject
      ])
      else if what == 3
      then (get_str enc >>= λ s. ret (string s))
      else if what == 4
      then (get_boolean >>= λ b. ret (boolean b))
      else if what == 5
      then (get_uint enc >>= λ len.
          with_capacity enc.vec_capacity len (read_times len item) >>= λ vs.
          ret (array (items_of vs)))
      else if what == 6
      then (get_uint enc >>= λ len.
          with_capacity enc.map_capacity len (read_times len (read_entry item)) >>= λ kvs.
          ret (Data.map (insert_all end kvs)))
      else if what == 7
      then (get_str enc >>= λ s. ret (error s))
      else if what == 8
      then (get_str enc >>= λ s. get_uint enc >>= λ id. ret (source s id))
      else if what == 9
      then ret Data.none
      else reject

  unfoldable pub read_data : ℕ → Read Data
  read_data zero r = stuck
  read_data (suc depth) r =
      let item = read_data depth in (get_bits enc 8 >>= λ what. read_data_value_payload item what) r
