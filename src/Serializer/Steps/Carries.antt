-- ===== src/Serializer/Steps/Carries.antt =====
-- What it means that a reading carries over the value of a writing, and a rule for each way to put both together.
use ru_fsm.Common.{
  ok-eq-ok, ℕ, ◌+◌, ◌-◌, ◌<◌, ◌≤◌, Bool, true, false, List, [], ◌∷◌, ◌++◌, Run, ok, nat_eq, ◌≡◌,
  inl, inr, refl, sym, ◌∙◌, ap, subst, arith, Bool-cases, >>=-eq-ok, Option, none, some, length,
  All, append-nil, append_assoc, map, ltb, ◌%◌, ◌^◌,
}
use ru_fsm.Common.Int.{ℤ, pos, negsuc}
use ru_fsm.Common.Str.{Str, len}
use ru_fsm.Serializer.Writer.{
  Writer, put_u8, eval_result, write_uint, write_boolean, write_option_string,
}
use ru_fsm.Serializer.Reader.{
  Reader, read_typed, read_type_and_size, read_bits, verify_string_type, read_string,
  read_option_string,
}
use ru_fsm.Serializer.Numbers.{
  width, width_fits, encoding, write_uint-encoding, read_uint_lem, read_type_and_size-encoding,
  read_type_and_size_step,
}
use ru_fsm.Serializer.Booleans.{read_boolean-flag, write_boolean-flag, flag}
use ru_fsm.Serializer.Texts.{IsText, header, text_type, write_str-header, read_type_and_size-header}
use native.Mathlib.Nat.{mod-eq_of_lt}
use ru_fsm.Serializer.Protocol.{opt_string_none}
use ru_fsm.Serializer.Steps.Room.{
  write_uint-room, write_boolean-room, write_str-room, write_no_str-room,
}
use ru_fsm.Serializer.Steps.{
  Encoding, Write, Read, skip, ◌>>◌, ret, from_run, ◌>>=◌, when, read_if, write_each, read_times,
  put_uint, put_boolean, get_boolean, put_str, put_option_str, get_uint, get_bits, get_str,
  get_option_str, put_list, get_list,
}

-- The writing returns and takes room away. If it leaves eight free bytes, it has appended `bytes` without an
-- error. From them the reading returns the value without an error, whatever follows them.
pub record Carries {A : Type 0} (m : Write) (k : Read A) (a : A) : Type 0 where
  pub bytes : List ℕ
  pub returns : (w : Writer) → (w' : Writer) × (m w ≡ ok w') × (w'.room ≤ w.room)
  pub writes :
      (w w' : Writer)
      → w.ok ≡ true
      → m w ≡ ok w'
      → 8 ≤ w'.room
      → (w'.ok ≡ true) × (w'.written ≡ w.written ++ bytes)
  pub reads :
      (r : Reader) (rest : List ℕ)
      → r.ok ≡ true
      → r.input ≡ bytes ++ rest
      → (r' : Reader) × (k r ≡ ok (a, r')) × (r'.ok ≡ true) × (r'.input ≡ rest)

pub Carries-skip : {A : Type 0} (a : A) → Carries skip (ret a) a
unfolding skip ret
Carries-skip a = record {
  bytes = [];
  returns = λ w. (w, refl, omega arith);
  writes = λ w w' good e room.
      let same : w ≡ w' = ok-eq-ok e in
      (
        ap (λ (u : Writer). u.ok) (sym same) ∙ good,
        ap (λ (u : Writer). u.written) (sym same) ∙ sym (append-nil w.written),
      );
  reads = λ r rest good e. (r, refl, good, e);
}

pub Carries-then :
    {A B : Type 0} {m1 m2 : Write} {k1 : Read A} {a : A} {b : B} (k2 : A → Read B)
    → Carries m1 k1 a
    → Carries m2 (k2 a) b
    → Carries (m1 >> m2) (k1 >>= k2) b
unfolding ◌>>◌ ◌>>=◌
Carries-then {m1 = m1} {m2 = m2} k2 c1 c2 = record {
  bytes = c1.bytes ++ c2.bytes;
  returns = λ w.
      let (w1, p1, le1) = c1.returns w in
      let (w2, p2, le2) = c2.returns w1 in (w2, rw p1 p2, omega arith);
  writes = λ w w' good e room.
      let (w1, p1, q1) = >>=-eq-ok (m1 w) m2 e in
      let (w2, p2, le2) = c2.returns w1 in
      let same : w2 ≡ w' = ok-eq-ok (sym p2 ∙ q1) in
      let le : w'.room ≤ w1.room = subst (λ (u : Writer). u.room ≤ w1.room) same le2 in
      let (good1, e1) = c1.writes w w1 good p1 (omega arith) in
      let (good2, e2) = c2.writes w1 w' good1 q1 room in
      (good2, e2 ∙ (ap (λ l. l ++ c2.bytes) e1 ∙ append_assoc w.written c1.bytes c2.bytes));
  reads = λ r rest good e.
      let (r1, p1, good1, q1) =
        c1.reads r (c2.bytes ++ rest) good (e ∙ append_assoc c1.bytes c2.bytes rest) in
      let (r2, p2, good2, q2) = c2.reads r1 rest good1 q1 in (r2, rw p1 p2, good2, q2);
}

-- The rest of a chain, without parentheses.
infixr 0 ◌$◌
pub ◌$◌ : {P Q : Type 0} → (P → Q) → P → Q
f $ x = f x

-- The reading goes on with nothing left to read.
pub Carries-last :
    {A B : Type 0} {m : Write} {k1 : Read A} {a : A} {b : B} (k2 : A → Read B)
    → Carries m k1 a
    → k2 a ≡ ret b
    → Carries m (k1 >>= k2) b
unfolding ret ◌>>=◌
Carries-last k2 c e = record {
  bytes = c.bytes;
  returns = c.returns;
  writes = c.writes;
  reads = λ r rest good i.
      let (r1, p1, good1, q1) = c.reads r rest good i in (r1, rw (p1, e), good1, q1);
}

-- A part that is there on both sides or on none.
pub Carries-when :
    {A : Type 0} (b b' : Bool) {m : Write} {k : Read A} {a d : A}
    → b' ≡ b
    → (b ≡ true → Carries m k a)
    → (b ≡ false → a ≡ d)
    → Carries (when b m) (read_if b' k d) a
unfolding when read_if
Carries-when true b' {k = k} {a = a} {d} e c n = rw e (c refl)
Carries-when false b' {k = k} {a = a} {d} e c n = rw (e, n refl) (Carries-skip d)

pub Carries-each :
    {A B : Type 0} (m : A → Write) (k : Read B) (f : A → B) (xs : List A)
    → All (λ x. Carries (m x) k (f x)) xs
    → Carries (write_each m xs) (read_times (length xs) k) (map f xs)
unfolding write_each read_times
Carries-each m k f [] c = Carries-skip []
Carries-each m k f (x ∷ xs) (c, cs) =
    Carries-then _ c (Carries-last _ (Carries-each m k f xs cs) refl)

-- A call that does not read, and returns.
pub Carries-run :
    {A B : Type 0} {m : Write} {x : Run A} {a : A} {b : B} (k : A → Read B)
    → x ≡ ok a
    → Carries m (k a) b
    → Carries m (from_run x >>= k) b
unfolding ◌>>=◌ from_run
Carries-run k e c = record {
  bytes = c.bytes;
  returns = c.returns;
  writes = c.writes;
  reads = λ r rest good i.
      let (r1, p1, good1, q1) = c.reads r rest good i in (r1, rw (e, p1), good1, q1);
}

pub Carries-boolean : (b : Bool) → Carries (put_boolean b) get_boolean b
unfolding put_boolean get_boolean
Carries-boolean b = record {
  bytes = flag b ∷ [];
  returns = λ w. (write_boolean b w, refl, write_boolean-room b w);
  writes = λ w w' good e room.
      let same : write_boolean b w ≡ w' = ok-eq-ok e in
      let left = write_boolean-room b w in
      let done =
        sym same
        ∙ write_boolean-flag b w good
            (omega (arith, subst (λ (u : Writer). u.room ≤ w.room) same left)) in
      (ap (λ (u : Writer). u.ok) done ∙ good, ap (λ (u : Writer). u.written) done);
  reads = λ r rest good e.
      (record r { input = rest }, ap ok (read_boolean-flag b r rest good e), good, refl);
}

-- An `i64`.
abbrev pub IsI64 : ℤ → Type 0
IsI64 (pos n) = n < 2 ^ 63
IsI64 (negsuc n) = n < 2 ^ 63

-- The bit pattern of an `f64` that is a number or infinite.
abbrev pub IsNumber : ℕ → Type 0
IsNumber v = (v < 2 ^ 64) × (v % 2 ^ 63 ≤ 0x7ff0_0000_0000_0000)

-- A text that the format can hold.
abbrev pub Fits : Str → Type 0
Fits s = IsText s × (len s < 2 ^ 12)

-- The laws of the standard library's functions. A collection may take `isize::MAX` bytes; an item of the vector has 16
-- bytes, one of the map 40 and its share of the table.
pub record IsEncoding (enc : Encoding) : Type 0 where
  pub length-as_bytes : (s : Str) → length (enc.as_bytes s) ≡ len s
  pub from_utf8-as_bytes : (s : Str) → IsText s → enc.from_utf8 (enc.as_bytes s) ≡ some s
  pub print_integer-Fits : (v : ℤ) → IsI64 v → Fits (enc.print_integer v)
  pub parse_integer-print_integer :
      (v : ℤ) → IsI64 v → enc.parse_integer (enc.print_integer v) ≡ some v
  pub print_double-Fits : (v : ℕ) → IsNumber v → Fits (enc.print_double v)
  pub parse_double-print_double :
      (v : ℕ) → IsNumber v → enc.parse_double (enc.print_double v) ≡ some v
  pub vec_capacity_min : 2 ^ 56 ≤ enc.vec_capacity
  pub map_capacity_min : 2 ^ 56 ≤ enc.map_capacity

abbrev pub FitsOption : Option Str → Type 0
FitsOption none = Unit
FitsOption (some s) = Fits s

map_same : {A : Type 0} (xs : List A) → map (λ x. x) xs ≡ xs
map_same [] = refl
map_same (x ∷ xs) = ap (λ ys. x ∷ ys) (map_same xs)

pub All-map :
    {A : Type 0} {P Q : A → Type 0} → ((x : A) → P x → Q x) → (xs : List A) → All P xs → All Q xs
All-map f [] ps = tt
All-map f (x ∷ xs) (p, ps) = (f x p, All-map f xs ps)

module _ (enc : Encoding) (laws : IsEncoding enc) where
  open enc use {as_bytes, from_utf8}

  pub Carries-uint : (v : ℕ) → v < 2 ^ 60 → Carries (put_uint v) (get_uint enc) v
  unfolding put_uint get_uint
  Carries-uint v h = record {
    bytes = encoding v;
    returns = λ w. (write_uint v w, refl, write_uint-room v w);
    writes = λ w w' good e room.
        let same : write_uint v w ≡ w' = ok-eq-ok e in
        let left = write_uint-room v w in
        let done =
          sym same
          ∙ write_uint-encoding v w h good
              ((omega (arith, subst (λ (u : Writer). u.room ≤ w.room) same left))) in
        (ap (λ (u : Writer). u.ok) done ∙ good, ap (λ (u : Writer). u.written) done);
    reads = λ r rest good e.
        let back =
          read_uint_lem from_utf8 r (width v) v rest (omega (arith, (width_fits v h).0)) good
            (read_type_and_size-encoding from_utf8 v r rest h good e) in
        (_, ap ok back, good, refl);
  }

  pub Carries-bits :
      (bits v : ℕ) → v < 2 ^ bits → v < 2 ^ 60 → Carries (put_uint v) (get_bits enc bits) v
  unfolding get_uint get_bits read_bits
  Carries-bits bits v small h =
      let c = Carries-uint v h in
      record {
        bytes = c.bytes;
        returns = c.returns;
        writes = c.writes;
        reads = λ r rest good e.
            let (r', p, fine, q) = c.reads r rest good e in
            (r', ground (arith, p, mod-eq_of_lt small), fine, q);
      }

  -- What stands in front of the bytes of a text.
  text_header : Str → List ℕ
  text_header s = header as_bytes from_utf8 laws.length-as_bytes laws.from_utf8-as_bytes s

  -- A text, and a reading that looks at what `read_type_and_size` leaves of it.
  Carries-text :
      {A : Type 0} (k : Read A) (a : A) (s : Str)
      → Fits s
      → ((r : Reader) (rest : List ℕ)
          → r.ok ≡ true
          → read_type_and_size from_utf8 r ≡ record r {
            input = rest;
            type_id = text_type as_bytes from_utf8 laws.length-as_bytes laws.from_utf8-as_bytes s;
            number = 0;
            string = s;
          }
          → k r
            ≡ ok (
              a,
              record r {
                input = rest;
                type_id =
                    text_type as_bytes from_utf8 laws.length-as_bytes laws.from_utf8-as_bytes s;
                number = 0;
                string = s;
              },
            ))
      → Carries (put_str enc s) k a
  unfolding put_str text_header
  Carries-text k a s (text, short) step = record {
    bytes = text_header s ++ as_bytes s;
    returns = λ w.
        let (w', p, le, _) = write_str-room as_bytes laws.length-as_bytes s w short in (w', p, le);
    writes = λ w w' good e room.
        let (w1, p, _, le) = write_str-room as_bytes laws.length-as_bytes s w short in
        let same : w1 ≡ w' = ok-eq-ok (sym p ∙ e) in
        let le' =
          subst (λ (u : Writer). 8 ≤ u.room → u.room + len s ≤ w.room) same (le good) room in
        let (room', _, done) =
          write_str-header as_bytes from_utf8 laws.length-as_bytes laws.from_utf8-as_bytes s w short
            good (omega arith) in
        let whole = ok-eq-ok (sym e ∙ done) in
        (ap (λ (u : Writer). u.ok) whole ∙ good, ap (λ (u : Writer). u.written) whole);
    reads = λ r rest good e.
        let back =
          read_type_and_size-header as_bytes from_utf8 laws.length-as_bytes laws.from_utf8-as_bytes
            s r rest text short good e in
        (_, step r rest good back, good, refl);
  }

  pub Carries-str : (s : Str) → Fits s → Carries (put_str enc s) (get_str enc) s
  unfolding get_str read_string verify_string_type
  Carries-str s f = Carries-text (get_str enc) s s f (λ r rest good back.
      elim (Bool-cases (ltb (len s) (2 ^ 4))) [ inl a ↦ ground arith | inr a ↦ ground arith ])

  Carries-no_str : Carries (put_option_str enc none) (get_option_str enc) none
  unfolding put_option_str get_option_str write_option_string read_option_string read_typed put_u8
      eval_result
  Carries-no_str = record {
    bytes = opt_string_none ∷ [];
    returns = write_no_str-room as_bytes laws.length-as_bytes;
    writes = λ w w' good e room.
        let (w1, p, le) = write_no_str-room as_bytes laws.length-as_bytes w in
        let same : w1 ≡ w' = ok-eq-ok (sym p ∙ e) in
        let le' = subst (λ (u : Writer). u.room ≤ w.room) same le in
        let done : record w { written = w.written ++ (opt_string_none ∷ []); room = w.room - 1 }
            ≡ w' =
          ok-eq-ok (ground (arith, e)) in
        (ap (λ (u : Writer). u.ok) (sym done) ∙ good, ap (λ (u : Writer). u.written) (sym done));
    reads = λ r rest good e.
        let back = read_type_and_size_step from_utf8 r opt_string_none rest good e in
        (
          record r { input = rest; string = []; type_id = opt_string_none },
          ground (arith, back),
          good,
          refl,
        );
  }

  pub Carries-option_str :
      (o : Option Str) → FitsOption o → Carries (put_option_str enc o) (get_option_str enc) o
  unfolding put_str put_option_str get_option_str write_option_string read_option_string
  Carries-option_str none f = Carries-no_str
  Carries-option_str (some s) f =
      Carries-text (get_option_str enc) (some s) s f (λ r rest good back.
        elim (Bool-cases (ltb (len s) (2 ^ 4))) [ inl a ↦ ground arith | inr a ↦ ground arith ])

  -- A length and the elements.
  pub Carries-list :
      {A B : Type 0} (m : A → Write) (k : Read B) (f : A → B) (xs : List A)
      → length xs < 2 ^ 60
      → All (λ x. Carries (m x) k (f x)) xs
      → Carries (put_list enc m xs) (get_list enc k) (map f xs)
  unfolding put_list get_list
  Carries-list m k f xs h c =
      Carries-then (λ n. read_times n k) (Carries-uint (length xs) h) (Carries-each m k f xs c)

  -- The elements come back as they are.
  pub Carries-same_list :
      {A : Type 0} (m : A → Write) (k : Read A) (xs : List A)
      → length xs < 2 ^ 60
      → All (λ x. Carries (m x) k x) xs
      → Carries (put_list enc m xs) (get_list enc k) xs
  Carries-same_list m k xs h c =
      subst (Carries (put_list enc m xs) (get_list enc k)) (map_same xs)
        (Carries-list m k (λ x. x) xs h c)
