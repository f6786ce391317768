-- ===== src/Serializer/Values/RoundTrip.antt =====
-- `read_data` behind `write_data`.
use ru_fsm.Common.{
  append-appended, ℕ, zero, suc, ◌<◌, ◌≤◌, true, false, List, [], ◌∷◌, ◌++◌, ok, nat_eq, ◌≡◌, refl,
  sym, ◌∙◌, ap, arith, ◌^◌, leb,
}
use ru_fsm.Common.Str.{Str, str_beq}
use ru_fsm.Datamodel.Data.{
  Data, Items, Fields, integer, double, string, boolean, array, null, error, source, nil, cons, end,
  field,
}
use ru_fsm.Serializer.Writer.{Writer}
use ru_fsm.Serializer.Reader.{Reader}
use ru_fsm.Serializer.Steps.{
  Encoding, Write, Read, ◌>>◌, ret, ◌>>=◌, read_times, put_uint, put_str, get_str,
}
use ru_fsm.Serializer.Steps.Carries.{
  Carries, Carries-skip, Carries-then, Carries-last, Carries-boolean, IsEncoding, IsI64, IsNumber,
  Fits, Carries-uint, Carries-bits, Carries-str,
}
use ru_fsm.Serializer.Values.{
  items_len, fields_len, items_of, insert, insert_all, write_data, write_items, write_fields,
  read_entry, read_fields, with_capacity, read_data_value_payload, read_data,
}
use Prim.Native.Nat.{max}

-- No entry has the key.
unfoldable pub NotIn : Str → Fields → Type 0
NotIn k end = Unit
NotIn k (field j v fs) = (str_beq j k ≡ false) × NotIn k fs

-- What the format can hold: numbers of the machine's types, but no NaN; short texts; arrays and maps of at most 2 ^ 56
-- items, more of which no memory of 64-bit addresses holds; a map's keys are different.
unfoldable mutual
  unfolding NotIn

  pub Storable : Data → Type 0
  Storable (integer v) = IsI64 v
  Storable (double v) = IsNumber v
  Storable (string s) = Fits s
  Storable (boolean b) = Unit
  Storable (array vs) = (items_len vs ≤ 2 ^ 56) × StorableItems vs
  Storable (Data.map fs) = (fields_len fs ≤ 2 ^ 56) × StorableFields fs
  Storable null = Unit
  Storable (error s) = Fits s
  Storable (source s id) = Fits s × (id < 2 ^ 60)
  Storable Data.none = Unit

  pub StorableItems : Items → Type 0
  StorableItems nil = Unit
  StorableItems (cons v vs) = Storable v × StorableItems vs

  pub StorableFields : Fields → Type 0
  StorableFields end = Unit
  StorableFields (field k v fs) = Fits k × Storable v × NotIn k fs × StorableFields fs

-- How deep values are nested in each other.
unfoldable mutual
  pub depth : Data → ℕ
  depth (integer v) = 1
  depth (double v) = 1
  depth (string s) = 1
  depth (boolean b) = 1
  depth (array vs) = suc (items_depth vs)
  depth (Data.map fs) = suc (fields_depth fs)
  depth null = 1
  depth (error s) = 1
  depth (source s id) = 1
  depth Data.none = 1

  pub items_depth : Items → ℕ
  items_depth nil = 0
  items_depth (cons v vs) = max (depth v) (items_depth vs)

  pub fields_depth : Fields → ℕ
  fields_depth end = 0
  fields_depth (field k v fs) = max (depth v) (fields_depth fs)

-- The entries of a map, in their order.
entries : Fields → List (Str × Data)
entries end = []
entries (field k v fs) = (k, v) ∷ entries fs

items : Items → List Data
items nil = []
items (cons v vs) = v ∷ items vs

items_of-items : (vs : Items) → items_of (items vs) ≡ vs
unfolding items items_of
items_of-items nil = refl
items_of-items (cons v vs) = ap (cons v) (items_of-items vs)

-- `fs`, then `gs`
extend : Fields → Fields → Fields
extend end gs = gs
extend (field k v fs) gs = field k v (extend fs gs)

extend-end : (fs : Fields) → extend fs end ≡ fs
unfolding extend
extend-end end = refl
extend-end (field k v fs) = ap (field k v) (extend-end fs)

extend_assoc : (fs gs hs : Fields) → extend (extend fs gs) hs ≡ extend fs (extend gs hs)
unfolding extend
extend_assoc end gs hs = refl
extend_assoc (field k v fs) gs hs = ap (field k v) (extend_assoc fs gs hs)

insert-new :
    (fs : Fields) (k : Str) (v : Data) → NotIn k fs → insert fs k v ≡ extend fs (field k v end)
unfolding NotIn insert extend
insert-new end k v n = refl
insert-new (field j w fs) k v (new, n) = rw (new, insert-new fs k v n)

-- No key of the second map is in the first one.
Apart : Fields → Fields → Type 0
Apart fs end = Unit
Apart fs (field k v gs) = NotIn k fs × Apart fs gs

NotIn-extend : (k : Str) (fs gs : Fields) → NotIn k fs → NotIn k gs → NotIn k (extend fs gs)
unfolding NotIn extend
NotIn-extend k end gs n m = m
NotIn-extend k (field j v fs) gs (new, n) m = (new, NotIn-extend k fs gs n m)

str_beq_sym : (s t : Str) → str_beq s t ≡ str_beq t s
unfolding str_beq
str_beq_sym [] [] = refl
str_beq_sym [] (b ∷ t) = refl
str_beq_sym (a ∷ s) [] = refl
str_beq_sym (a ∷ s) (b ∷ t) = ground (arith, str_beq_sym s t)

Apart-insert :
    (fs gs : Fields) (k : Str) (v : Data)
    → Apart fs gs
    → NotIn k gs
    → Apart (extend fs (field k v end)) gs
unfolding NotIn Apart
Apart-insert fs end k v a n = tt
Apart-insert fs (field j w gs) k v (new, a) (other, n) = (
  NotIn-extend j fs (field k v end) new (str_beq_sym k j ∙ other, tt),
  Apart-insert fs gs k v a n,
)

insert_all-entries :
    (fs gs : Fields) → Apart fs gs → StorableFields gs → insert_all fs (entries gs) ≡ extend fs gs
unfolding insert_all entries extend Apart Storable
insert_all-entries fs end a s = sym (extend-end fs)
insert_all-entries fs (field k v gs) (new, a) (_, _, n, s) =
    ap (λ hs. insert_all hs (entries gs)) (insert-new fs k v new)
    ∙ (insert_all-entries (extend fs (field k v end)) gs (Apart-insert fs gs k v a n) s
        ∙ extend_assoc fs (field k v end) gs)

Apart-end : (gs : Fields) → Apart end gs
unfolding Apart NotIn
Apart-end end = tt
Apart-end (field k v gs) = (tt, Apart-end gs)

entries_into_new : (fs : Fields) → StorableFields fs → insert_all end (entries fs) ≡ fs
unfolding extend
entries_into_new fs s = insert_all-entries end fs (Apart-end fs) s

depth_positive : (v : Data) → 1 ≤ depth v
unfolding depth
depth_positive (integer v) = omega arith
depth_positive (double v) = omega arith
depth_positive (string s) = omega arith
depth_positive (boolean b) = omega arith
depth_positive (array vs) = omega arith
depth_positive (Data.map fs) = omega arith
depth_positive null = omega arith
depth_positive (error s) = omega arith
depth_positive (source s id) = omega arith
depth_positive Data.none = omega arith

module _ (enc : Encoding) (laws : IsEncoding enc) where
  -- The variant, and its payload.
  Carries-variant :
      (what d : ℕ) {m : Write} {v : Data}
      → what < 10
      → Carries m (read_data_value_payload enc (read_data enc d) what) v
      → Carries (put_uint what >> m) (read_data enc (suc d)) v
  unfolding read_data
  Carries-variant what d h c =
      Carries-then (read_data_value_payload enc (read_data enc d))
        (Carries-bits enc laws 8 what (omega arith) (omega arith)) c

  Carries-text_variant :
      (s : Str) {v : Data} (k : Str → Read Data)
      → Fits s
      → k s ≡ ret v
      → Carries (put_str enc s) (get_str enc >>= k) v
  Carries-text_variant s k f e = Carries-last k (Carries-str enc laws s f) e

  -- A variant without a payload.
  Carries-bare :
      (what d : ℕ) {v : Data}
      → what < 10
      → read_data_value_payload enc (read_data enc d) what ≡ ret v
      → Carries (put_uint what) (read_data enc (suc d)) v
  unfolding read_data
  Carries-bare what d h e =
      Carries-last (read_data_value_payload enc (read_data enc d))
        (Carries-bits enc laws 8 what (omega arith) (omega arith)) e

  Carries-within :
      {A : Type 0} (capacity len : ℕ) {m : Write} {k : Read A} {v : A}
      → len ≤ capacity
      → Carries m k v
      → Carries m (with_capacity enc capacity len k) v
  unfolding with_capacity
  Carries-within capacity len h c = let fits : leb len capacity ≡ true = ground arith in rw fits c

  Carries-fields :
      (fs : Fields) (item : Read Data)
      → fields_len fs < 2 ^ 60
      → StorableFields fs
      → Carries
          (write_fields enc fs)
          (read_times (fields_len fs) (read_entry enc item))
          (entries fs)
      → Carries (put_uint (fields_len fs) >> write_fields enc fs) (read_fields enc item) fs
  unfolding read_fields extend
  Carries-fields fs item short s c =
      Carries-then _ (Carries-uint enc laws (fields_len fs) short)
        (Carries-last _ c (ap ret (entries_into_new fs s)))

  mutual
    unfolding items_len fields_len read_times read_entry write_data read_data_value_payload Storable
        depth items entries

    pub Carries-data :
        (v : Data) (d : ℕ)
        → Storable v
        → depth v ≤ d
        → Carries (write_data enc v) (read_data enc d) v
    Carries-data v zero s h = absurd (omega (arith, depth_positive v))
    Carries-data (integer v) (suc d) s h = Carries-variant 1 d (omega arith) (
        Carries-text_variant (enc.print_integer v) _ (laws.print_integer-Fits v s)
          (rw (laws.parse_integer-print_integer v s)))
    Carries-data (double v) (suc d) s h = Carries-variant 2 d (omega arith) (
        Carries-text_variant (enc.print_double v) _ (laws.print_double-Fits v s)
          (rw (laws.parse_double-print_double v s)))
    Carries-data (string t) (suc d) s h =
        Carries-variant 3 d (omega arith) (Carries-text_variant t _ s refl)
    Carries-data (boolean b) (suc d) s h =
        Carries-variant 4 d (omega arith) (Carries-last _ (Carries-boolean b) refl)
    Carries-data (array vs) (suc d) (short, s) h = Carries-variant 5 d (omega arith) (
        Carries-then _ (Carries-uint enc laws (items_len vs) (omega (arith, short))) (
          Carries-last _
            (Carries-within enc.vec_capacity (items_len vs)
              (omega (arith, short, laws.vec_capacity_min)) (Carries-items vs d s (omega arith)))
            (ap (λ us. ret (array us)) (items_of-items vs))))
    Carries-data (Data.map fs) (suc d) (short, s) h = Carries-variant 6 d (omega arith) (
        Carries-then _ (Carries-uint enc laws (fields_len fs) (omega (arith, short))) (
          Carries-last _
            (Carries-within enc.map_capacity (fields_len fs)
              (omega (arith, short, laws.map_capacity_min)) (Carries-entries fs d s (omega arith)))
            (ap (λ gs. ret (Data.map gs)) (entries_into_new fs s))))
    Carries-data null (suc d) s h = Carries-bare 0 d (omega arith) refl
    Carries-data (error t) (suc d) s h =
        Carries-variant 7 d (omega arith) (Carries-text_variant t _ s refl)
    Carries-data (source t id) (suc d) (f, short) h = Carries-variant 8 d (omega arith) (
        Carries-then _ (Carries-str enc laws t f)
          (Carries-last _ (Carries-uint enc laws id short) refl))
    Carries-data Data.none (suc d) s h = Carries-bare 9 d (omega arith) refl

    Carries-items :
        (vs : Items) (d : ℕ)
        → StorableItems vs
        → items_depth vs ≤ d
        → Carries (write_items enc vs) (read_times (items_len vs) (read_data enc d)) (items vs)
    Carries-items nil d s h = Carries-skip []
    Carries-items (cons v vs) d (s, t) h =
        Carries-then _ (Carries-data v d s (omega arith))
          (Carries-last _ (Carries-items vs d t (omega arith)) refl)

    Carries-entries :
        (fs : Fields) (d : ℕ)
        → StorableFields fs
        → fields_depth fs ≤ d
        → Carries
            (write_fields enc fs)
            (read_times (fields_len fs) (read_entry enc (read_data enc d)))
            (entries fs)
    Carries-entries end d s h = Carries-skip []
    Carries-entries (field k v fs) d (f, s, n, t) h =
        let entry : Carries (put_str enc k >> write_data enc v) (read_entry enc (read_data enc d))
            (k, v) =
          Carries-then _ (Carries-str enc laws k f)
            (Carries-last _ (Carries-data v d s (omega arith)) refl) in
        Carries-then _ entry (Carries-last _ (Carries-entries fs d t (omega arith)) refl)

  pub Carries-map :
      (fs : Fields) (d : ℕ)
      → fields_len fs < 2 ^ 60
      → StorableFields fs
      → fields_depth fs ≤ d
      → Carries
          (put_uint (fields_len fs) >> write_fields enc fs)
          (read_fields enc (read_data enc d))
          fs
  Carries-map fs d short s h = Carries-fields fs _ short s (Carries-entries fs d s h)

  -- `write_data` returns for a value that the format can hold, whatever the room and the state of the writer.
  pub write_data_returns :
      (v : Data) (w : Writer)
      → Storable v
      → (w' : Writer) × (write_data enc v w ≡ ok w') × (w'.room ≤ w.room)
  write_data_returns v w s = (Carries-data v (depth v) s (omega arith)).returns w

  -- For an encoding with the laws of the standard library, and a value that the format can hold, nested at most `d`
  -- deep: if `write_data` has left eight free bytes, it has met no error. If the input of a reader is what it has
  -- appended and then `rest`, `read_data`, following values `d` deep, returns the value, without an error, and
  -- leaves `rest`.
  pub read_data_of_written :
      (v : Data) (d : ℕ) (w w' : Writer) (r : Reader) (rest : List ℕ)
      → Storable v
      → depth v ≤ d
      → w.ok ≡ true
      → write_data enc v w ≡ ok w'
      → 8 ≤ w'.room
      → r.ok ≡ true
      → w.written ++ r.input ≡ w'.written ++ rest
      → (w'.ok ≡ true)
        × ((r' : Reader) × (read_data enc d r ≡ ok (v, r')) × (r'.ok ≡ true) × (r'.input ≡ rest))
  read_data_of_written v d w w' r rest s h good done room fine e =
      let c = Carries-data v d s h in
      let (good', q) = c.writes w w' good done room in
      (good', c.reads r rest fine (append-appended w.written r.input c.bytes rest w'.written q e))
