-- ===== src/Fsm/Model/NameMatch.antt =====
-- `Transition::nameMatch` of src/fsm.rs, and event descriptors as prefixes of tokens.
use ru_fsm.Common.{
  ℕ, zero, suc, ◌+◌, ◌<◌, ◌≤◌, Bool, true, false, List, [], ◌∷◌, ◌++◌, if◌then◌else◌, nat_eq, ◌==◌,
  ◌≡◌, ◌⊎◌, ◌↔◌, inl, inr, refl, sym, ◌∙◌, ap, subst, arith, Bool-cases, nat_beq_iff, none, some,
  length, get_elem?, All, append-nil, length-append,
}
use ru_fsm.Common.Str.{Str, len, starts_with}
use ru_fsm.Fsm.Model.{Transition}

-- One round of the loop: does the descriptor `e` match the name?
unfoldable pub descriptor_match : Str → Str → Bool
descriptor_match name e =
    let partial : Bool = elim (get_elem? name (len e)) [ some c ↦ c == b'.' | none ↦ false ] in
    if starts_with name e then (if len name == len e then true else partial) else false

unfoldable pub any_match : Str → List Str → Bool
any_match name [] = false
any_match name (e ∷ es) =
    let rest = any_match name es in if descriptor_match name e then true else rest

unfoldable pub name_match : Transition → Str → Bool
unfolding any_match
name_match t name = let listed = any_match name t.events in if t.wildcard then true else listed

-- The descriptor is the name, or the name goes on behind it with a dot.
abbrev pub TokenPrefix : Str → Str → Type 0
TokenPrefix e name = (name ≡ e) ⊎ ((rest : Str) × (name ≡ e ++ (b'.' ∷ rest)))

abbrev pub IsAscii : Str → Type 0
IsAscii s = All (λ c. c < 0x80) s

len-ascii : (s : Str) → IsAscii s → len s ≡ length s
unfolding len
len-ascii [] h = refl
len-ascii (c ∷ s) (h, hs) = ground (arith, len-ascii s hs)

starts_with-true : (name e : Str) → starts_with name e ≡ true → (rest : Str) × (name ≡ e ++ rest)
unfolding starts_with
starts_with-true name [] h = (name, refl)
starts_with-true [] (b ∷ e) h = cc
starts_with-true (a ∷ name) (b ∷ e) h =
    let (rest, q) = starts_with-true name e (ground arith) in
    (rest, ground (arith, nat_beq_iff a b))

starts_with-append : (e rest : Str) → starts_with (e ++ rest) e ≡ true
unfolding starts_with
starts_with-append [] rest = ground arith
starts_with-append (a ∷ e) rest = ground (arith, starts_with-append e rest)

get_elem?-append : (e : Str) (c : ℕ) (rest : Str) → get_elem? (e ++ (c ∷ rest)) (length e) ≡ some c
get_elem?-append [] c rest = refl
get_elem?-append (a ∷ e) c rest = get_elem?-append e c rest

get_elem?-end : (s : Str) (i : ℕ) → length s ≤ i → get_elem? s i ≡ none
get_elem?-end [] i h = refl
get_elem?-end (a ∷ s) zero h = absurd (omega arith)
get_elem?-end (a ∷ s) (suc i) h = get_elem?-end s i (omega arith)

len-append : (s t : Str) → len (s ++ t) ≡ len s + len t
unfolding len
len-append [] t = omega arith
len-append (a ∷ s) t = omega (arith, len-append s t)

-- A descriptor of ASCII characters matches a name exactly if it is a prefix of its tokens.
pub descriptor_match-TokenPrefix :
    (name e : Str) → IsAscii e → (descriptor_match name e ≡ true) ↔ TokenPrefix e name
unfolding descriptor_match
descriptor_match-TokenPrefix name e ascii = (forth, back)
  where
    behind : (rest : Str) → name ≡ e ++ rest → descriptor_match name e ≡ true → TokenPrefix e name
    behind [] q h = inl (q ∙ append-nil e)
    behind (c ∷ rest) q h =
        let longer : len name ≡ len e + len (c ∷ rest) = ap len q ∙ len-append e (c ∷ rest) in
        let grows : 1 ≤ len (c ∷ rest) = unfold len in ground arith in
        let here : get_elem? name (len e) ≡ some c =
          rw (q, len-ascii e ascii) (get_elem?-append e c rest) in
        let dot : c ≡ b'.' = ground (arith, nat_beq_iff c b'.') in
        inr (rest, q ∙ ap (λ (d : ℕ). e ++ (d ∷ rest)) dot)

    forth : descriptor_match name e ≡ true → TokenPrefix e name
    forth h = elim (Bool-cases (starts_with name e)) [
      | inl y ↦ let (rest, q) = starts_with-true name e y in behind rest q h
      | inr z ↦ cc (rw z at h)
    ]

    back : TokenPrefix e name → descriptor_match name e ≡ true
    back (inl same) =
        let whole : starts_with name e ≡ true =
          subst (λ s. starts_with s e ≡ true) (append-nil e ∙ sym same) (starts_with-append e []) in
        let long = ap len same in ground arith
    back (inr (rest, q)) =
        let whole : starts_with name e ≡ true =
          subst (λ s. starts_with s e ≡ true) (sym q) (starts_with-append e (b'.' ∷ rest)) in
        let here : get_elem? name (len e) ≡ some b'.' =
          rw (q, len-ascii e ascii) (get_elem?-append e b'.' rest) in
        ground arith

-- Some element of the list has the property.
abbrev pub Any : (Str → Type 0) → List Str → Type 0
Any P [] = ⊥
Any P (e ∷ es) = P e ⊎ Any P es

any_match-Any :
    (name : Str) (es : List Str)
    → All IsAscii es
    → (any_match name es ≡ true) ↔ Any (λ e. TokenPrefix e name) es
unfolding any_match
any_match-Any name [] h = (λ m. cc, λ m. absurd m)
any_match-Any name (e ∷ es) (h, hs) =
    let one = descriptor_match-TokenPrefix name e h in
    let rest = any_match-Any name es hs in
    (
      λ m. elim (Bool-cases (descriptor_match name e)) [
        | inl y ↦ inl (one.0 y)
        | inr z ↦ inr (rest.0 (rw z at m))
      ],
      λ m. elim m [
        | inl p ↦ rw (one.1 p)
        | inr p ↦ elim (Bool-cases (descriptor_match name e)) [
          | inl y ↦ rw y
          | inr z ↦ rw z (rest.1 p)
        ]
      ],
    )

-- With descriptors of ASCII characters a transition matches an event name exactly if it has the
-- wildcard, or one of its descriptors is the name or a prefix of its tokens.
pub name_match-TokenPrefix :
    (t : Transition) (name : Str)
    → All IsAscii t.events
    → (name_match t name ≡ true) ↔ ((t.wildcard ≡ true) ⊎ Any (λ e. TokenPrefix e name) t.events)
unfolding name_match
name_match-TokenPrefix t name h =
    let listed = any_match-Any name t.events h in
    elim (Bool-cases t.wildcard) [
      | inl y ↦ (λ _. inl y, λ _. rw y)
      | inr z ↦
          (λ m. inr (listed.0 (rw z at m)), λ m. elim m [ inl w ↦ cc | inr p ↦ rw z (listed.1 p) ])
    ]

-- The character behind the descriptor is looked up at its length in bytes. So a descriptor with other
-- characters misses each name that goes on with a dot and has no more characters than the descriptor has
-- bytes, although it is a prefix of the name's tokens.
pub descriptor_match_misses :
    (e rest : Str)
    → length e + length rest < len e
    → TokenPrefix e (e ++ (b'.' ∷ rest)) × (descriptor_match (e ++ (b'.' ∷ rest)) e ≡ false)
unfolding descriptor_match
descriptor_match_misses e rest h =
    let short : get_elem? (e ++ (b'.' ∷ rest)) (len e) ≡ none =
      get_elem?-end (e ++ (b'.' ∷ rest)) (len e) (omega (arith, length-append e (b'.' ∷ rest))) in
    let longer = len-append e (b'.' ∷ rest) in
    let grows : 1 ≤ len (b'.' ∷ rest) = unfold len in ground arith in
    (inr (rest, refl), ground (arith, starts_with-append e (b'.' ∷ rest)))
