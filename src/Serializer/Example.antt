-- ===== src/Serializer/Example.antt =====
-- Concrete functions in the place of those of the standard library, for the witnesses: bytes, and numbers, as texts.
use ru_fsm.Common.{
  ℕ, zero, suc, ◌+◌, ◌-◌, ◌<◌, ◌≤◌, Bool, true, false, List, [], ◌∷◌, ◌++◌, inl, refl, ◌∙◌, ap,
  arith, Option, none, some, length, length-append, ◌*◌, ◌/◌, ◌%◌, ◌^◌, ◌≡◌, if◌then◌else◌, nat_eq,
  ◌==◌,
}
use ru_fsm.Common.Int.{ℤ, pos, negsuc}
use ru_fsm.Common.Str.{Str, char_len, len}
use ru_fsm.Serializer.Texts.{IsText}
use ru_fsm.Serializer.Steps.{Encoding}
use ru_fsm.Serializer.Steps.Carries.{Fits, IsI64, IsEncoding}

-- An encoding of a text as bytes that has the length of UTF-8: a character, filled up with zeros.
unfoldable pub zeros : ℕ → List ℕ
zeros zero = []
zeros (suc n) = 0 ∷ zeros n

unfoldable pub example_bytes : Str → List ℕ
unfolding zeros
example_bytes [] = []
example_bytes (c ∷ s) = c ∷ (zeros (char_len c - 1) ++ example_bytes s)

-- The number of filling bytes that are left, then the bytes.
unfoldable pub skip_zeros : ℕ → List ℕ → Str
skip_zeros k [] = []
skip_zeros zero (c ∷ bytes) = c ∷ skip_zeros (char_len c - 1) bytes
skip_zeros (suc k) (b ∷ bytes) = skip_zeros k bytes

unfoldable pub example_text : List ℕ → Option Str
unfolding skip_zeros
example_text bytes = some (skip_zeros 0 bytes)

length-zeros : (n : ℕ) → length (zeros n) ≡ n
unfolding zeros
length-zeros zero = refl
length-zeros (suc n) = ap suc (length-zeros n)

pub length-example_bytes : (s : Str) → length (example_bytes s) ≡ len s
unfolding example_bytes len
length-example_bytes [] = refl
length-example_bytes (c ∷ s) = ground (
  arith,
  length-append (zeros (char_len c - 1)) (example_bytes s),
  length-zeros (char_len c - 1),
  length-example_bytes s,
)

skip_zeros-zeros : (k : ℕ) (l : List ℕ) → skip_zeros k (zeros k ++ l) ≡ skip_zeros 0 l
unfolding skip_zeros zeros
skip_zeros-zeros zero l = refl
skip_zeros-zeros (suc k) l = skip_zeros-zeros k l

skip_zeros-example_bytes : (s : Str) → skip_zeros 0 (example_bytes s) ≡ s
unfolding skip_zeros example_bytes
skip_zeros-example_bytes [] = refl
skip_zeros-example_bytes (c ∷ s) =
    ap (λ t. c ∷ t)
      (skip_zeros-zeros (char_len c - 1) (example_bytes s) ∙ skip_zeros-example_bytes s)

pub example_text-example_bytes : (s : Str) → IsText s → example_text (example_bytes s) ≡ some s
unfolding example_text
example_text-example_bytes s _ = ap some (skip_zeros-example_bytes s)

-- Five digits of fifteen bits.
unfoldable pub print_digits : ℕ → Str
print_digits n =
    (n / 2 ^ 60)
    ∷ (n / 2 ^ 45 % 2 ^ 15)
    ∷ (n / 2 ^ 30 % 2 ^ 15)
    ∷ (n / 2 ^ 15 % 2 ^ 15)
    ∷ (n % 2 ^ 15)
    ∷ []

unfoldable pub parse_digits : Str → Option ℕ
parse_digits (a ∷ b ∷ c ∷ d ∷ e ∷ []) = some (a * 2 ^ 60 + b * 2 ^ 45 + c * 2 ^ 30 + d * 2 ^ 15 + e)
parse_digits _ = none

unfoldable pub print_signed : ℤ → Str
unfolding print_digits
print_signed (pos n) = 43 ∷ print_digits n
print_signed (negsuc n) = 45 ∷ print_digits n

unfoldable pub signed : Bool → Option ℕ → Option ℤ
signed b (some n) = some (if b then pos n else negsuc n)
signed b none = none

unfoldable pub parse_signed : Str → Option ℤ
unfolding parse_digits signed
parse_signed (sign ∷ s) = signed (sign == 43) (parse_digits s)
parse_signed [] = none

parse_digits-print_digits : (n : ℕ) → parse_digits (print_digits n) ≡ some n
unfolding print_digits parse_digits
parse_digits-print_digits n = ap some (omega arith)

parse_signed-print_signed : (v : ℤ) → IsI64 v → parse_signed (print_signed v) ≡ some v
unfolding print_signed parse_signed signed
parse_signed-print_signed (pos n) h = ap (signed true) (parse_digits-print_digits n)
parse_signed-print_signed (negsuc n) h = ap (signed false) (parse_digits-print_digits n)

char_len-le : (c : ℕ) → char_len c ≤ 4
char_len-le c = ground arith

len-length : (s : Str) → len s ≤ 4 * length s
unfolding len
len-length [] = omega arith
len-length (c ∷ s) = omega (arith, char_len-le c, len-length s)

print_digits-Fits : (n : ℕ) → n < 2 ^ 64 → Fits (print_digits n)
unfolding print_digits
print_digits-Fits n h = (
  (
    inl (omega arith),
    (inl (omega arith), (inl (omega arith), (inl (omega arith), (inl (omega arith), tt)))),
  ),
  omega (arith, len-length (print_digits n)),
)

cons-Fits : (c : ℕ) (s : Str) → c < 0x80 → Fits s → len s < 4000 → Fits (c ∷ s)
unfolding len
cons-Fits c s h (t, short) more = ((inl (omega arith), t), omega (arith, char_len-le c))

print_digits-short : (n : ℕ) → len (print_digits n) < 4000
unfolding print_digits
print_digits-short n = omega (arith, len-length (print_digits n))

print_signed-Fits : (v : ℤ) → IsI64 v → Fits (print_signed v)
unfolding print_signed
print_signed-Fits (pos n) h =
    cons-Fits 43 (print_digits n) (omega arith) (print_digits-Fits n (omega (arith, h)))
      (print_digits-short n)
print_signed-Fits (negsuc n) h =
    cons-Fits 45 (print_digits n) (omega arith) (print_digits-Fits n (omega (arith, h)))
      (print_digits-short n)

abbrev pub example_encoding : Encoding
example_encoding = record {
  as_bytes = example_bytes;
  from_utf8 = example_text;
  print_integer = print_signed;
  parse_integer = parse_signed;
  print_double = print_digits;
  parse_double = parse_digits;
  vec_capacity = 2 ^ 59 - 1;
  map_capacity = 7 * 2 ^ 54;
}

pub example_encoding-IsEncoding : IsEncoding example_encoding
example_encoding-IsEncoding = record {
  length-as_bytes = length-example_bytes;
  from_utf8-as_bytes = example_text-example_bytes;
  print_integer-Fits = print_signed-Fits;
  parse_integer-print_integer = parse_signed-print_signed;
  print_double-Fits = λ v (h, _). print_digits-Fits v h;
  parse_double-print_double = λ v _. parse_digits-print_digits v;
  vec_capacity_min = omega arith;
  map_capacity_min = omega arith;
}
