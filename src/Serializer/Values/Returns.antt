-- ===== src/Serializer/Values/Returns.antt =====
-- The bytes that the calls of src/serializer/default_protocol_reader.rs take, for the termination of `read_data`.
use ru_fsm.Common.{
  ◌++◌, sym, ◌∙◌, append_assoc, ℕ, zero, suc, ◌+◌, ◌<◌, ◌≤◌, Bool, true, false, List, [], ◌∷◌, ok,
  if◌then◌else◌, nat_eq, ◌==◌, ◌≡◌, ◌⊎◌, inl, inr, refl, ap, arith, Bool-cases, Option, none, some,
  length, drop, Run, panic, leb, ◌*◌, ◌%◌, ◌^◌,
}
use ru_fsm.Common.Str.{Str}
use ru_fsm.Datamodel.Data.{Data}
use ru_fsm.Serializer.Reader.{
  Reader, next_byte, error, read_additional_number_bytes, read_number, read_text, read_typed,
  read_type_and_size, verify_number_type, verify_string_type, read_uint, read_bits, read_string,
  read_boolean,
}
use ru_fsm.Serializer.Protocol.{int_type, string_length_4bit, string_length_12bit}
use ru_fsm.Serializer.Steps.{
  Encoding, Read, ret, ◌>>=◌, read_times, get_uint, get_bits, get_str, get_boolean,
}
use ru_fsm.Serializer.Steps.Carries.{◌$◌}
use ru_fsm.Serializer.Values.Tails.{
  List-cases, kept-error, kept-read_uint, kept-read_string, kept-read_boolean,
}
use ru_fsm.Serializer.Values.{read_entry, with_capacity, reject, read_data_value_payload, read_data}

-- The number of bytes that are left.
abbrev left : Reader → ℕ
left r = length r.input

length-drop : {A : Type 0} (n : ℕ) (xs : List A) → length (drop n xs) ≤ length xs
length-drop zero xs = omega arith
length-drop (suc n) [] = omega arith
length-drop (suc n) (x ∷ xs) = omega (arith, length-drop n xs)

left-error : (r : Reader) → left (error r) ≤ left r
unfolding error
left-error r = ground arith

left-same : (r s : Reader) → s.input ≡ r.input → left s ≤ left r
left-same r s e = omega (arith, ap length e)

-- Both branches keep to the bytes of `r`.
left-if :
    (r : Reader) (b : Bool) (x y : Reader)
    → left x ≤ left r
    → left y ≤ left r
    → left (if b then x else y) ≤ left r
left-if r true x y p q = p
left-if r false x y p q = q

left-additional : (n : ℕ) (r : Reader) → left (read_additional_number_bytes n r) ≤ left r
unfolding read_additional_number_bytes
left-additional zero r = omega arith
left-additional (suc n) r = elim (List-cases r.input) [
  | inl none_left ↦ ground (arith, none_left, left-error r, left-additional n (error r))
  | inr (b, t, e) ↦
      let s = record r { input = t; number = r.number * 256 % 2 ^ 64 + b } in
      ground (arith, e, left-additional n s)
]

module _ (from_utf8 : List ℕ → Option Str) where
  left-read_text : (n : ℕ) (r : Reader) → left (read_text from_utf8 n r) ≤ left r
  unfolding read_text error
  left-read_text n r = ground (arith, length-drop n r.input)

  left-long_text :
      (v : ℕ) (r : Reader)
      → left (elim (next_byte r) [
        | some (value, s) ↦ read_text from_utf8 (v % 16 * 256 + value) s
        | none ↦ error r
      ])
        ≤ left r
  left-long_text v r = elim (List-cases r.input) [
    | inl none_left ↦ ground (arith, none_left, left-error r)
    | inr (b, t, e) ↦
        let s = record r { input = t } in
        let le = left-read_text (v % 16 * 256 + b) s in
        let shrink : left s ≤ left r = ground (arith, e) in rw e (omega (arith, le))
  ]

  left-read_typed : (v : ℕ) (r : Reader) → left (read_typed from_utf8 v r) ≤ left r
  unfolding read_typed read_number
  left-read_typed v r =
      let more =
        λ (k : ℕ). left-additional k (record r { type_id = int_type k; number = v % 16 }) in
      let short = record r { type_id = string_length_4bit; number = 0 } in
      let long = record r { type_id = string_length_12bit; number = 0 } in
      ground (
        arith,
        more 0,
        more 1,
        more 2,
        more 3,
        more 4,
        more 5,
        more 6,
        more 7,
        more 8,
        left-read_text (v % 16) short,
        left-long_text v long,
      )

  left-read_type_and_size : (r : Reader) → left (read_type_and_size from_utf8 r) ≤ left r
  unfolding read_type_and_size
  left-read_type_and_size r = elim (List-cases r.input) [
    | inl none_left ↦ ground (arith, none_left, left-error (record r { string = [] }))
    | inr (b, t, e) ↦ ground (arith, e, left-read_typed b (record r { input = t; string = [] }))
  ]

  -- `read_type_and_size` fails, or takes a byte.
  read_type_and_size_takes :
      (r : Reader)
      → ((read_type_and_size from_utf8 r).ok ≡ false)
        ⊎ (left (read_type_and_size from_utf8 r) < left r)
  unfolding read_type_and_size error
  read_type_and_size_takes r = elim (List-cases r.input) [
    | inl none_left ↦ inl (ground (arith, none_left))
    | inr (b, t, e) ↦ elim (Bool-cases r.ok) [
      | inl good ↦
          inr (ground (arith, e, good, left-read_typed b (record r { input = t; string = [] })))
      | inr bad ↦ inl (ground (arith, bad))
    ]
  ]

  left-read_uint : (r : Reader) → left (read_uint from_utf8 r).1 ≤ left r
  unfolding read_uint verify_number_type
  left-read_uint r =
      let s = read_type_and_size from_utf8 r in
      ground (arith, left-read_type_and_size r, left-error s)

  -- `read_uint` returns 0, or takes a byte.
  read_uint_takes :
      (r : Reader) → ((read_uint from_utf8 r).0 ≡ 0) ⊎ (left (read_uint from_utf8 r).1 < left r)
  unfolding read_uint verify_number_type
  read_uint_takes r =
      let s = read_type_and_size from_utf8 r in
      elim (read_type_and_size_takes r) [
        | inl bad ↦ inl (ground (arith, bad))
        | inr less ↦ inr (ground (arith, less, left-error s))
      ]

  left-read_string : (r : Reader) → left (read_string from_utf8 r).1 ≤ left r
  unfolding read_string verify_string_type
  left-read_string r =
      let s = read_type_and_size from_utf8 r in
      ground (arith, left-read_type_and_size r, left-error s)

left-read_boolean : (r : Reader) → left (read_boolean r).1 ≤ left r
unfolding read_boolean error
left-read_boolean r = elim (List-cases r.input) [
  | inl none_left ↦ ground (arith, none_left)
  | inr (b, t, e) ↦ ground (arith, e)
]

-- The input of the second reader is an end of that of the first.
abbrev pub IsTail : Reader → Reader → Type 0
IsTail r s = (front : List ℕ) × (r.input ≡ front ++ s.input)

-- The length that a reader gives is above the capacity of a vector or of a map.
abbrev pub Overflows : Encoding → Reader → Type 0
Overflows enc s =
    (enc.vec_capacity < (read_uint enc.from_utf8 s).0)
    ⊎ (enc.map_capacity < (read_uint enc.from_utf8 s).0)

-- `P` is a property of inputs that the ends of an input have too.
module _ (enc : Encoding) (P : List ℕ → Type 0)
    (shorter : (b : ℕ) (t : List ℕ) → P (b ∷ t) → P t) where
  -- The outcome of a reading that ends: a value, and no byte given back; or the panic, for a length.
  abbrev Ended : {A : Type 0} → Reader → Run (A × Reader) → Type 0
  Ended {A = A} r o =
      ((a : A) × (r' : Reader) × (o ≡ ok (a, r')) × (left r' ≤ left r) × P r'.input)
      ⊎ ((s : Reader) × P s.input × Overflows enc s × (o ≡ panic))

  -- With at most `n` bytes left, the reading ends.
  record Ends {A : Type 0} (n : ℕ) (k : Read A) : Type 0 where
    run : (r : Reader) → left r ≤ n → P r.input → Ended r (k r)

  Ends-ret : {A : Type 0} (n : ℕ) (a : A) → Ends n (ret a)
  unfolding ret
  Ends-ret n a = record { run = λ r h p. inl (a, r, refl, omega arith, p) }

  Ends-then :
      {A B : Type 0} (n : ℕ) {k : Read A} (next : A → Read B)
      → Ends n k
      → ((a : A) → Ends n (next a))
      → Ends n (k >>= next)
  unfolding ◌>>=◌
  Ends-then n next c d = record {
    run = λ r h p. elim (c.run r h p) [
      | inr (s, t, over, e) ↦ inr (s, t, over, rw e refl)
      | inl (a, r1, e, le, p1) ↦ elim ((d a).run r1 (omega arith) p1) [
        | inr (s, t, over, q) ↦ inr (s, t, over, rw e q)
        | inl (b, r2, q, le2, p2) ↦ inl (b, r2, rw e q, omega arith, p2)
      ]
    ];
  }

  Ends-times : {A : Type 0} (n m : ℕ) {k : Read A} → Ends n k → Ends n (read_times m k)
  unfolding read_times
  Ends-times n zero c = Ends-ret n []
  Ends-times n (suc m) c =
      Ends-then n _ c (λ x. Ends-then n _ (Ends-times n m c) (λ xs. Ends-ret n (x ∷ xs)))

  Ends-str : (n : ℕ) → Ends n (get_str enc)
  unfolding get_str
  Ends-str n = record {
    run = λ r h p. inl (
      _,
      _,
      refl,
      left-read_string enc.from_utf8 r,
      kept-read_string P shorter enc.from_utf8 r p,
    );
  }

  Ends-uint : (n : ℕ) → Ends n (get_uint enc)
  unfolding get_uint
  Ends-uint n = record {
    run = λ r h p.
        inl
          (_, _, refl, left-read_uint enc.from_utf8 r, kept-read_uint P shorter enc.from_utf8 r p);
  }

  Ends-boolean : (n : ℕ) → Ends n get_boolean
  unfolding get_boolean
  Ends-boolean n = record {
    run = λ r h p. inl (_, _, refl, left-read_boolean r, kept-read_boolean P shorter r p);
  }

  Ends-reject : (n : ℕ) → Ends n (reject enc)
  unfolding reject
  Ends-reject n = record { run = λ r h p. inl (_, _, refl, left-error r, kept-error P shorter r p) }

  Ends-if :
      {A : Type 0} (n : ℕ) (b : Bool) {x y : Read A}
      → Ends n x
      → Ends n y
      → Ends n (if b then x else y)
  Ends-if n true c d = c
  Ends-if n false c d = d

  Ends-option :
      {A : Type 0} (n : ℕ) (o : Option A) (k : A → Data)
      → Ends n (elim o [ some v ↦ ret (k v) | none ↦ reject enc ])
  Ends-option n none k = Ends-reject n
  Ends-option n (some v) k = Ends-ret n (k v)

  -- A length, and what is read behind it within a capacity.
  Ends-counted :
      {A B : Type 0} (n capacity : ℕ) {k : ℕ → Read A} (next : A → Read B)
      → ((s : Reader) → capacity < (read_uint enc.from_utf8 s).0 → Overflows enc s)
      → ((len : ℕ) → Ends n (k len))
      → ((a : A) → Ends n (next a))
      → Ends n (get_uint enc >>= λ len. with_capacity enc capacity len (k len) >>= next)
  unfolding with_capacity get_uint ◌>>=◌
  Ends-counted n capacity {k = k} next above c d = record {
    run = λ r h p.
        let (len, s) : ℕ × Reader = read_uint enc.from_utf8 r in
        let le = left-read_uint enc.from_utf8 r in
        let ps = kept-read_uint P shorter enc.from_utf8 r p in
        elim (Bool-cases (leb len capacity)) [
          | inl fits ↦ elim ((Ends-then n next (c len) d).run s (omega arith) ps) [
            | inr (t, pt, over, q) ↦ inr (t, pt, over, rw fits q)
            | inl (b, r2, q, le2, p2) ↦ inl (b, r2, rw fits q, omega arith, p2)
          ]
          | inr over ↦ inr (r, p, above r (ground arith), rw over refl)
        ];
  }

  Ends-payload :
      (n : ℕ) (item : Read Data) (what : ℕ)
      → Ends n item
      → Ends n (read_data_value_payload enc item what)
  unfolding read_data_value_payload read_entry
  Ends-payload n item what c =
      let str = Ends-str n in
      let num = Ends-uint n in
      let entry =
        Ends-then n (λ k. item >>= λ v. ret (k, v)) str
          (λ k. Ends-then n _ c (λ v. Ends-ret n (k, v))) in
      Ends-if n (what == 0) (Ends-ret n Data.null)
      $ Ends-if n (what == 1)
          (Ends-then n _ str (λ rv. Ends-option n (enc.parse_integer rv) Data.integer))
      $ Ends-if n (what == 2)
          (Ends-then n _ str (λ rv. Ends-option n (enc.parse_double rv) Data.double))
      $ Ends-if n (what == 3) (Ends-then n _ str (λ s. Ends-ret n (Data.string s)))
      $ Ends-if n (what == 4) (Ends-then n _ (Ends-boolean n) (λ b. Ends-ret n (Data.boolean b)))
      $ Ends-if n (what == 5) (
          Ends-counted n enc.vec_capacity _ (λ s. inl) (λ len. Ends-times n len c)
            (λ vs. Ends-ret n _))
      $ Ends-if n (what == 6) (
          Ends-counted n enc.map_capacity _ (λ s. inr) (λ len. Ends-times n len entry)
            (λ kvs. Ends-ret n _))
      $ Ends-if n (what == 7) (Ends-then n _ str (λ s. Ends-ret n (Data.error s)))
      $ Ends-if n (what == 8) (Ends-then n _ str (λ s. Ends-then n _ num (λ id. Ends-ret n _)))
      $ Ends-if n (what == 9) (Ends-ret n Data.none) (Ends-reject n)

  read_data-Ended :
      (d : ℕ) (r : Reader) → length r.input < d → P r.input → Ended r (read_data enc d r)
  unfolding read_data ◌>>=◌ get_bits read_bits read_data_value_payload ret
  read_data-Ended zero r h p = absurd (omega (arith, h))
  read_data-Ended (suc d) r h p =
      let (what, s) : ℕ × Reader = read_uint enc.from_utf8 r in
      let item : Read Data = read_data enc d in
      let le = left-read_uint enc.from_utf8 r in
      let ps = kept-read_uint P shorter enc.from_utf8 r p in
      elim (read_uint_takes enc.from_utf8 r) [
        | inl nothing ↦
            inl (
              Data.null,
              s,
              ap (λ x. read_data_value_payload enc item (x % 2 ^ 8) s) nothing,
              le,
              ps,
            )
        | inr less ↦
            let deeper : Ends (left s) item = record {
              run = λ r1 h1 p1. read_data-Ended d r1 (omega (arith, h, less, h1)) p1;
            } in
            elim ((Ends-payload (left s) item (what % 2 ^ 8) deeper).run s (omega arith) ps) [
              | inr over ↦ inr over
              | inl (v, r', q, le2, p') ↦ inl (v, r', q, omega (arith, le, le2), p')
            ]
      ]

module _ (enc : Encoding) where
  -- An announced length above the capacity of the collection panics.
  array_overflows :
      (item : Read Data) (s : Reader)
      → enc.vec_capacity < (read_uint enc.from_utf8 s).0
      → read_data_value_payload enc item 5 s ≡ panic
  unfolding read_data_value_payload with_capacity get_uint ◌>>=◌
  array_overflows item s h =
      let over : leb (read_uint enc.from_utf8 s).0 enc.vec_capacity ≡ false = ground (arith, h) in
      rw over

  map_overflows :
      (item : Read Data) (s : Reader)
      → enc.map_capacity < (read_uint enc.from_utf8 s).0
      → read_data_value_payload enc item 6 s ≡ panic
  unfolding read_data_value_payload with_capacity get_uint ◌>>=◌
  map_overflows item s h =
      let over : leb (read_uint enc.from_utf8 s).0 enc.map_capacity ≡ false = ground (arith, h) in
      rw over

  read_data_payload :
      (d what : ℕ) (r : Reader)
      → length r.input < d
      → ((item : Read Data)
          → read_data_value_payload enc item what (read_uint enc.from_utf8 r).1 ≡ panic)
      → (read_uint enc.from_utf8 r).0 % 2 ^ 8 ≡ what
      → read_data enc d r ≡ panic
  unfolding read_data ◌>>=◌ get_bits read_bits
  read_data_payload zero what r h k e = absurd (omega (arith, h))
  read_data_payload (suc d) what r h k e = rw e (k (read_data enc d))

  -- `read_data`, following values deeper than the input has bytes, ends, whatever the input is. It returns a value and
  -- leaves an end of the input; or it panics, and then the number that `read_uint` reads at some point of the
  -- input is above the capacity of a collection. It does panic if the input begins with the variant of an array
  -- or a map and a length above the capacity of that.
  pub read_data_ends :
      (d : ℕ) (r : Reader)
      → length r.input < d
      → (((v : Data) × (r' : Reader) × (read_data enc d r ≡ ok (v, r'))
            × (length r'.input ≤ length r.input)
            × IsTail r r')
          ⊎ ((s : Reader) × IsTail r s × Overflows enc s × (read_data enc d r ≡ panic)))
        × ((read_uint enc.from_utf8 r).0 % 2 ^ 8 ≡ 5
            → enc.vec_capacity < (read_uint enc.from_utf8 (read_uint enc.from_utf8 r).1).0
            → read_data enc d r ≡ panic)
        × ((read_uint enc.from_utf8 r).0 % 2 ^ 8 ≡ 6
            → enc.map_capacity < (read_uint enc.from_utf8 (read_uint enc.from_utf8 r).1).0
            → read_data enc d r ≡ panic)
  read_data_ends d r h =
      let s = (read_uint enc.from_utf8 r).1 in
      (
        read_data-Ended enc (λ ys. (front : List ℕ) × (r.input ≡ front ++ ys))
            (λ b t (front, e). (front ++ (b ∷ []), e ∙ sym (append_assoc front (b ∷ []) t))) d r h
            ([], refl),
        λ e over. read_data_payload d 5 r h (λ item. array_overflows item s over) e,
        λ e over. read_data_payload d 6 r h (λ item. map_overflows item s over) e,
      )
