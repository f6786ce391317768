-- ===== src/Datamodel/Cells/Store.antt =====
-- What the calls of `DataStore` of src/datamodel/mod.rs do to the entries.
use ru_fsm.Common.{
  ◌≡◌, ◌≢◌, refl, sym, ap, subst, ◌∙◌, arith, inl, inr, Bool, true, false, not, Bool-cases, Option,
  none, some, [], ◌∷◌, if◌then◌else◌,
}
use ru_fsm.Common.Str.{Str, str_beq}
use ru_fsm.Datamodel.Cells.{
  Fields, find, insert, set_arc, set_entry, set_undefined_arc, set_undefined_entry,
}
use ru_fsm.Datamodel.Value.{DataArc}

pub str_beq_sound : (s t : Str) → str_beq s t ≡ true → s ≡ t
unfolding str_beq
str_beq_sound [] [] h = refl
str_beq_sound (a ∷ s) (b ∷ t) h = ground (arith, str_beq_sound s t)
str_beq_sound [] (b ∷ t) h = cc
str_beq_sound (a ∷ s) [] h = cc

pub str_beq_refl : (s : Str) → str_beq s s ≡ true
unfolding str_beq
str_beq_refl [] = refl
str_beq_refl (a ∷ s) = ground (arith, str_beq_refl s)

differ : (s t : Str) → s ≡ t → str_beq s t ≡ false → ⊥
differ s t e n = cc (sym (str_beq_refl s) ∙ ap (str_beq s) e ∙ n)

str_beq_ne : (s t : Str) → s ≢ t → str_beq s t ≡ false
str_beq_ne s t d = elim (Bool-cases (str_beq s t)) [
  | inl y ↦ absurd (d (str_beq_sound s t y))
  | inr n ↦ n
]

pub find-insert : (k : Str) (a : DataArc) (m : Fields) → find k (insert k a m) ≡ some a
unfolding find insert
find-insert k a [] = rw (str_beq_refl k) refl
find-insert k a ((n, b) ∷ m) = elim (Bool-cases (str_beq n k)) [
  | inl y ↦ rw y (rw y refl)
  | inr other ↦ rw other (rw other (find-insert k a m))
]

pub find-insert_other :
    (k n : Str) (a : DataArc) (m : Fields) → k ≢ n → find k (insert n a m) ≡ find k m
unfolding find insert
find-insert_other k n a [] d = rw (str_beq_ne n k (λ e. d (sym e))) refl
find-insert_other k n a ((l, b) ∷ m) d = elim (Bool-cases (str_beq l n)) [
  | inl y ↦ rw y (rw (str_beq_ne l k (λ e. d (sym e ∙ str_beq_sound l n y))) refl)
  | inr other ↦ rw other (rw (find-insert_other k n a m d) refl)
]

abbrev writable : Option DataArc → Bool
writable none = false
writable (some old) = not old.readonly

-- Whether the entry was set, and the map behind: set to the new reference, or as it was.
pub record Sets (key : Str) (a : DataArc) (m : Fields) (done : Bool) (r : Bool × Fields)
    : Type 0 where
  pub reported : r.0 ≡ done
  pub written : done ≡ true → find key r.1 ≡ some a
  pub refused : done ≡ false → r.1 ≡ m
  pub others : (k : Str) → k ≢ key → find k r.1 ≡ find k m

unchanged-Sets : (key : Str) (a : DataArc) (m : Fields) → Sets key a m false (false, m)
unchanged-Sets key a m = record {
  reported = refl;
  written = λ e. cc;
  refused = λ e. refl;
  others = λ k d. refl;
}

chosen-Sets :
    (b : Bool) (key : Str) (a : DataArc) (m : Fields)
    → Sets key a m (not b) (if b then (false, m) else (true, insert key a m))
chosen-Sets true key a m = unchanged-Sets key a m
chosen-Sets false key a m = record {
  reported = refl;
  written = λ e. find-insert key a m;
  refused = λ e. cc;
  others = λ k d. find-insert_other k key a m d;
}

set_entry-Sets :
    (o : Option DataArc) (key : Str) (a : DataArc) (m : Fields)
    → Sets key a m (writable o) (set_entry o key a m)
unfolding set_entry
set_entry-Sets none key a m = unchanged-Sets key a m
set_entry-Sets (some old) key a m = chosen-Sets old.readonly key a m

-- A variable that is defined and not read-only is set to the new reference, and no other changes; else nothing
-- changes. The result says which.
pub set_arc-Sets :
    (key : Str) (a : DataArc) (m : Fields) → Sets key a m (writable (find key m)) (set_arc key a m)
unfolding set_arc
set_arc-Sets key a m = set_entry-Sets (find key m) key a m

find-set_undefined_entry :
    (o : Option DataArc) (k key : Str) (a : DataArc) (m : Fields)
    → k ≢ key
    → find k (set_undefined_entry o key a m) ≡ find k m
unfolding set_undefined_entry
find-set_undefined_entry none k key a m d = find-insert_other k key a m d
find-set_undefined_entry (some old) k key a m d = elim (Bool-cases old.readonly) [
  | inl y ↦ rw y refl
  | inr n ↦ rw n (find-insert_other k key a m d)
]

kept-if :
    (b : Bool) (key : Str) (a : DataArc) (m : Fields) (k : Str) (old : DataArc)
    → b ≡ true
    → find k m ≡ some old
    → (find k (if◌then◌else◌ {A = Bool × Fields} b (false, m) (true, insert key a m)).1 ≡ some old)
      × (find k (if b then m else insert key a m) ≡ some old)
kept-if true key a m k old r f = (f, f)
kept-if false key a m k old r f = cc

-- An entry that is read-only stays what it is, whatever is set, with and without the need of a definition.
pub set-ReadOnly :
    (k : Str) (old : DataArc) (key : Str) (a : DataArc) (m : Fields)
    → find k m ≡ some old
    → old.readonly ≡ true
    → (find k (set_arc key a m).1 ≡ some old) × (find k (set_undefined_arc key a m) ≡ some old)
unfolding set_arc set_undefined_arc set_entry set_undefined_entry
set-ReadOnly k old key a m f r = elim (Bool-cases (str_beq k key)) [
  | inl y ↦
      let e : find key m ≡ some old = subst (λ n. find n m ≡ some old) (str_beq_sound k key y) f in
      rw e (kept-if old.readonly key a m k old r f)
  | inr n ↦
      let d : k ≢ key = λ e. absurd (differ k key e n) in
      ((set_arc-Sets key a m).others k d ∙ f, find-set_undefined_entry (find key m) k key a m d ∙ f)
]
