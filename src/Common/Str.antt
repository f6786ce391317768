-- ===== src/Common/Str.antt =====
-- Rust's `String` and `&str`: the list of the code points. `len` is the length in bytes of UTF-8.
use Prim.Native.Char.{code}
use Prim.Native.Nat.{ℕ, ◌+◌}
use Prim.Native.String.{String}
use mathlib.Core.List.{List, [], ◌∷◌}
use mathlib.Core.Bool.{Bool, true, false, ◌&&◌, ◌||◌}
use ru_fsm.Common.Tests.{ltb, nat_beq, if◌then◌else◌}

abbrev pub Str : Type 0
Str = List ℕ

-- the code points of a literal
abbrev pub codes : String → Str
codes String.[] = []
codes (String.◌∷◌ c s) = code c ∷ codes s

-- `contains` of a slice of characters
unfoldable pub contains : Str → ℕ → Bool
contains [] c = false
contains (d ∷ s) c = nat_beq d c || contains s c

-- `char::len_utf8`
abbrev pub char_len : ℕ → ℕ
char_len c = if ltb c 0x80 then 1 else if ltb c 0x800 then 2 else if ltb c 0x1_0000 then 3 else 4

-- `str::len`
unfoldable pub len : Str → ℕ
len [] = 0
len (c ∷ s) = char_len c + len s

unfoldable pub str_beq : Str → Str → Bool
str_beq [] [] = true
str_beq (a ∷ s) (b ∷ t) = nat_beq a b && str_beq s t
str_beq _ _ = false

-- `str::starts_with`
unfoldable pub starts_with : Str → Str → Bool
starts_with s [] = true
starts_with [] (b ∷ t) = false
starts_with (a ∷ s) (b ∷ t) = nat_beq a b && starts_with s t
