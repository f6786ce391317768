-- ===== src/Serializer/Values/Tails.antt =====
-- What the calls of src/serializer/default_protocol_reader.rs leave of the input is an end of it.
use ru_fsm.Common.{
  ℕ, zero, suc, ◌+◌, Bool, true, false, List, [], ◌∷◌, if◌then◌else◌, nat_eq, ◌==◌, ◌≡◌, ◌⊎◌, inl,
  inr, refl, arith, sym, Bool-cases, Option, none, some, drop, ◌*◌, ◌%◌, ◌/◌, ◌^◌, subst, leb,
  length, take,
}
use ru_fsm.Common.Str.{Str}
use ru_fsm.Serializer.Reader.{
  Reader, next_byte, error, read_additional_number_bytes, read_number, read_text, read_typed,
  read_type_and_size, verify_number_type, verify_string_type, read_uint, read_string, read_boolean,
}
use ru_fsm.Serializer.Steps.Carries.{◌$◌}
use ru_fsm.Serializer.Protocol.{int_type, string_length_4bit, string_length_12bit}

pub List-cases : {A : Type 0} (xs : List A) → (xs ≡ []) ⊎ ((x : A) × (ys : List A) × (xs ≡ x ∷ ys))
List-cases [] = inl refl
List-cases (x ∷ ys) = inr (x, ys, refl)

-- A property of inputs that the ends of an input have too.
module _ (P : List ℕ → Type 0) (shorter : (b : ℕ) (t : List ℕ) → P (b ∷ t) → P t) where
  kept-drop : (n : ℕ) (xs : List ℕ) → P xs → P (drop n xs)
  kept-drop zero xs p = p
  kept-drop (suc n) [] p = p
  kept-drop (suc n) (x ∷ xs) p = kept-drop n xs (shorter x xs p)

  kept-if : (b : Bool) (x y : Reader) → P x.input → P y.input → P (if b then x else y).input
  kept-if true x y p q = p
  kept-if false x y p q = q

  pub kept-error : (r : Reader) → P r.input → P (error r).input
  unfolding error
  kept-error r p = kept-if r.ok _ r p p

  kept-nil : (xs : List ℕ) → P xs → P []
  kept-nil [] p = p
  kept-nil (x ∷ xs) p = kept-nil xs (shorter x xs p)

  kept-additional : (n : ℕ) (r : Reader) → P r.input → P (read_additional_number_bytes n r).input
  unfolding read_additional_number_bytes
  kept-additional zero r p = p
  kept-additional (suc n) r p = elim (List-cases r.input) [
    | inl e ↦ rw e (kept-if r.ok _ _ (kept-additional n (error r) (kept-error r p)) (subst P e p))
    | inr (b, t, e) ↦
        let s = record r { input = t; number = r.number * 256 % 2 ^ 64 + b } in
        rw e (kept-if r.ok _ _ (kept-additional n s (shorter b t (subst P e p))) (subst P e p))
  ]

  module _ (from_utf8 : List ℕ → Option Str) where
    abbrev decoded : Reader → Option Str → Reader
    decoded r o = elim o [ some s ↦ record r { string = s } | none ↦ error r ]

    kept-decoded : (r : Reader) (o : Option Str) → P r.input → P (decoded r o).input
    kept-decoded r none p = kept-error r p
    kept-decoded r (some s) p = p

    kept-read_text : (n : ℕ) (r : Reader) → P r.input → P (read_text from_utf8 n r).input
    unfolding read_text error
    kept-read_text n r p =
        let r' = record r { input = drop n r.input } in
        let here : P r'.input = kept-drop n r.input p in
        kept-if (leb n (length r.input)) _ _ (kept-decoded r' (from_utf8 (take n r.input)) here)
          (kept-error (record r { input = [] }) (kept-nil r.input p))

    abbrev long_text : ℕ → Reader → Reader
    long_text v r = elim (next_byte r) [
      | some (value, s) ↦ read_text from_utf8 (v % 16 * 256 + value) s
      | none ↦ error r
    ]

    kept-long : (v : ℕ) (r : Reader) → P r.input → P (long_text v r).input
    kept-long v r p = elim (List-cases r.input) [
      | inl e ↦ rw e (kept-error (record r { input = [] }) (subst P e p))
      | inr (b, t, e) ↦
          rw e
            (kept-read_text (v % 16 * 256 + b) (record r { input = t }) (shorter b t (subst P e p)))
    ]

    kept-read_typed : (v : ℕ) (r : Reader) → P r.input → P (read_typed from_utf8 v r).input
    unfolding read_typed read_number
    kept-read_typed v r p =
        let number =
          λ (k : ℕ). kept-additional k (record r { type_id = int_type k; number = v % 16 }) p in
        let long = record r { type_id = string_length_12bit; number = 0 } in
        kept-if (v / 16 == 1) _ _ p
        $ kept-if (v / 16 == 3) _ _ (number 0)
        $ kept-if (v / 16 == 4) _ _ (number 1)
        $ kept-if (v / 16 == 5) _ _ (number 2)
        $ kept-if (v / 16 == 6) _ _ (number 3)
        $ kept-if (v / 16 == 7) _ _ (number 4)
        $ kept-if (v / 16 == 8) _ _ (number 5)
        $ kept-if (v / 16 == 9) _ _ (number 6)
        $ kept-if (v / 16 == 10) _ _ (number 7)
        $ kept-if (v / 16 == 11) _ _ (number 8)
        $ kept-if (v / 16 == 12) _ _
            (kept-read_text (v % 16) (record r { type_id = string_length_4bit; number = 0 }) p)
        $ kept-if (v / 16 == 13) _ _ (kept-long v long p) p

    kept-read_type_and_size : (r : Reader) → P r.input → P (read_type_and_size from_utf8 r).input
    unfolding read_type_and_size
    kept-read_type_and_size r p = elim (List-cases r.input) [
      | inl e ↦ rw e (kept-if r.ok _ _ (kept-error (record r { string = [] }) p) (subst P e p))
      | inr (b, t, e) ↦ rw e (
          kept-if r.ok _ _
            (kept-read_typed b (record r { input = t; string = [] }) (shorter b t (subst P e p)))
            (subst P e p))
    ]

    pub kept-read_uint : (r : Reader) → P r.input → P (read_uint from_utf8 r).1.input
    unfolding read_uint verify_number_type error
    kept-read_uint r p =
        let same : (read_uint from_utf8 r).1.input ≡ (read_type_and_size from_utf8 r).input =
          ground arith in
        subst P (sym same) (kept-read_type_and_size r p)

    pub kept-read_string : (r : Reader) → P r.input → P (read_string from_utf8 r).1.input
    unfolding read_string verify_string_type error
    kept-read_string r p =
        let same : (read_string from_utf8 r).1.input ≡ (read_type_and_size from_utf8 r).input =
          ground arith in
        subst P (sym same) (kept-read_type_and_size r p)

  pub kept-read_boolean : (r : Reader) → P r.input → P (read_boolean r).1.input
  unfolding read_boolean error
  kept-read_boolean r p = elim (List-cases r.input) [
    | inl e ↦ subst P (ground (arith, e)) p
    | inr (b, t, e) ↦ elim (Bool-cases r.ok) [
      | inl good ↦ subst P (ground (arith, e, good)) (shorter b t (subst P e p))
      | inr bad ↦ subst P (ground (arith, e, bad)) p
    ]
  ]
