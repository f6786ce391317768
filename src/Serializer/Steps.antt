-- ===== src/Serializer/Steps.antt =====
-- How src/serializer/fsm_writer.rs and src/serializer/fsm_reader.rs call the protocol writer and reader: one call after
-- the other. A call may panic.
pub mod Room
pub mod Carries
use ru_fsm.Common.{
  ℕ, zero, suc, ◌+◌, ◌-◌, ◌<◌, ◌≤◌, Bool, true, false, not, ◌&&◌, ◌||◌, List, [], ◌∷◌, ◌++◌, Run,
  ok, panic, stuck, if◌then◌else◌, PartialEq, nat_eq, ◌==◌, ◌≡◌, ◌≢◌, ◌⊎◌, ◌↔◌, inl, inr, refl, sym,
  ◌∙◌, ap, subst, arith, Bool-cases, >>=-eq-ok, nat_beq_iff, Option, none, some, Option-cases,
  length, get_elem?, All, append-nil, append_assoc, map, ltb, leb, unwrap, take, drop,
  length-append, ◌*◌, ◌/◌, ◌%◌, ◌^◌, min, ltb→lt, lt→ltb,
}
use ru_fsm.Common.{◌>>=◌ as bind}
use ru_fsm.Common.Str.{Str}
use ru_fsm.Serializer.Writer.{Writer, write_uint, write_boolean, write_str, write_option_string}
use ru_fsm.Serializer.Reader.{
  Reader, read_uint, read_bits, read_boolean, read_string, read_option_string,
}
use ru_fsm.Common.Int.{ℤ}

-- What the two sides use of the standard library: the bytes of a text, the numbers as texts, and the greatest
-- capacities for which `Vec::<DataArc>::with_capacity` and `HashMap::<String, DataArc>::with_capacity` do not panic.
pub record Encoding : Type 0 where
  pub as_bytes : Str → List ℕ
  pub from_utf8 : List ℕ → Option Str
  pub print_integer : ℤ → Str
  pub parse_integer : Str → Option ℤ
  pub print_double : ℕ → Str
  pub parse_double : Str → Option ℕ
  pub vec_capacity : ℕ
  pub map_capacity : ℕ

abbrev pub Write : Type 0
Write = Writer → Run Writer

abbrev pub Read : Type 0 → Type 0
Read A = Reader → Run (A × Reader)

unfoldable pub skip : Write
skip w = ok w

infixr 5 ◌>>◌
unfoldable pub ◌>>◌ : Write → Write → Write
◌>>◌ m k w = bind (m w) k

unfoldable pub ret : {A : Type 0} → A → Read A
ret a r = ok (a, r)

infixl 5 ◌>>=◌
unfoldable pub ◌>>=◌ : {A B : Type 0} → Read A → (A → Read B) → Read B
◌>>=◌ m k r = bind (m r) (λ (a, s). k a s)

-- A call that does not read.
unfoldable pub from_run : {A : Type 0} → Run A → Read A
from_run m r = bind m (λ a. ok (a, r))

-- `if b { … }`, and `if b { … } else { d }`.
unfoldable pub when : Bool → Write → Write
when b m = if b then m else skip

unfoldable pub read_if : {A : Type 0} → Bool → Read A → A → Read A
read_if b m d = if b then m else ret d

-- The loop over the elements, and the loop `for _idx in 0..len` that pushes what it reads.
unfoldable pub write_each : {A : Type 0} → (A → Write) → List A → Write
write_each m [] = skip
write_each m (x ∷ xs) = m x >> write_each m xs

unfoldable pub read_times : {A : Type 0} → ℕ → Read A → Read (List A)
read_times zero m = ret []
read_times (suc n) m = m >>= λ x. read_times n m >>= λ xs. ret (x ∷ xs)

-- The calls of the protocol.
unfoldable pub put_uint : ℕ → Write
put_uint v w = ok (write_uint v w)

unfoldable pub put_boolean : Bool → Write
put_boolean b w = ok (write_boolean b w)

unfoldable pub get_boolean : Read Bool
get_boolean r = ok (read_boolean r)

module _ (enc : Encoding) where
  open enc use {as_bytes, from_utf8}

  unfoldable pub put_str : Str → Write
  put_str s w = write_str as_bytes s w

  unfoldable pub put_option_str : Option Str → Write
  put_option_str o w = write_option_string as_bytes o w

  unfoldable pub get_uint : Read ℕ
  get_uint r = ok (read_uint from_utf8 r)

  -- `read_u8`, `read_u16`, and `read_uint() as u32`
  unfoldable pub get_bits : ℕ → Read ℕ
  get_bits bits r = ok (read_bits from_utf8 bits r)

  unfoldable pub get_str : Read Str
  get_str r = ok (read_string from_utf8 r)

  unfoldable pub get_option_str : Read (Option Str)
  get_option_str r = ok (read_option_string from_utf8 r)

  -- A length and the elements.
  unfoldable pub put_list : {A : Type 0} → (A → Write) → List A → Write
  unfolding write_each
  put_list m xs = put_uint (length xs) >> write_each m xs

  unfoldable pub get_list : {A : Type 0} → Read A → Read (List A)
  unfolding read_times
  get_list m = get_uint >>= λ n. read_times n m
