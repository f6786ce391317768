-- ===== src/Serializer/Protocol.antt =====
-- The constants of src/serializer/default_protocol_definitions.rs that writer and reader use.
use ru_fsm.Common.{ℕ, ◌+◌, [], ◌∷◌, nat_eq, ◌*◌}
use ru_fsm.Common.Str.{Str}

abbrev pub protocol_version : Str
protocol_version = 68 ∷ 119 ∷ 80 ∷ 49 ∷ 46 ∷ 49 ∷ []

abbrev pub opt_string_none : ℕ
opt_string_none = 0x10

abbrev pub boolean_true : ℕ
boolean_true = 0x1F

abbrev pub boolean_false : ℕ
boolean_false = 0x10

-- INT_4BIT to INT_68BIT: the type of a number with `k` bytes behind the first one.
abbrev pub int_type : ℕ → ℕ
int_type k = 0x30 + 0x10 * k

abbrev pub string_length_4bit : ℕ
string_length_4bit = 0xC0

abbrev pub string_length_12bit : ℕ
string_length_12bit = 0xD0
