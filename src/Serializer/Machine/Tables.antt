-- ===== src/Serializer/Machine/Tables.antt =====
-- A table that is built by inserting entries with different keys holds them in their order.
use ru_fsm.Common.{
  false, ◌||◌, [], ◌∷◌, ◌++◌, nat_eq, ◌==◌, ◌≡◌, refl, sym, ◌∙◌, ap, arith, All, append-nil,
  append_assoc, map,
}
use ru_fsm.Fsm.Collections.HashTable.{HashTable, put, put_all, has, lookup}
use ru_fsm.Fsm.Model.{Id32, Transition}
use ru_fsm.Serializer.Machine.Read.{insert_transitions}
use ru_fsm.Serializer.Machine.Stored.{DistinctKeys}

has-cons :
    {A : Type 0} (i : Id32) (v : A) (table : HashTable Id32 A) (k : Id32)
    → has ((i, v) ∷ table) k ≡ (i == k || has table k)
unfolding has lookup
has-cons i v table k = ground arith

has-append :
    {A : Type 0} (m n : HashTable Id32 A) (k : Id32) → has (m ++ n) k ≡ (has m k || has n k)
unfolding has lookup
has-append [] n k = refl
has-append ((i, v) ∷ m) n k =
    rw (has-cons i v (m ++ n) k, has-cons i v m k, has-append m n k) (ground arith)

put-new :
    {A : Type 0} (m : HashTable Id32 A) (k : Id32) (v : A)
    → has m k ≡ false
    → put m k v ≡ m ++ ((k, v) ∷ [])
unfolding put
put-new [] k v h = refl
put-new ((i, w) ∷ m) k v h =
    let both : (i == k || has m k) ≡ false = sym (has-cons i w m k) ∙ h in
    let other : (i == k) ≡ false = ground arith in
    let rest : has m k ≡ false = ground arith in rw (other, put-new m k v rest)

-- No key of the second table is in the first one.
FreshKeys : {A : Type 0} → HashTable Id32 A → HashTable Id32 A → Type 0
FreshKeys m table = All (λ (k, v). has m k ≡ false) table

fresh-append :
    {A : Type 0} (m : HashTable Id32 A) (i : Id32) (v : A) (table : HashTable Id32 A)
    → FreshKeys m table
    → has table i ≡ false
    → FreshKeys (m ++ ((i, v) ∷ [])) table
unfolding FreshKeys has lookup
fresh-append m i v [] f h = tt
fresh-append m i v ((k, w) ∷ table) (new, f) h =
    let both : (k == i || has table i) ≡ false = sym (has-cons k w table i) ∙ h in
    let other : (k == i) ≡ false = ground arith in
    let rest : has table i ≡ false = ground arith in
    (
      has-append m ((i, v) ∷ []) k ∙ rw (has-cons i v [] k, new) (ground arith),
      fresh-append m i v table f rest,
    )

put_all-fresh :
    {A : Type 0} (m table : HashTable Id32 A)
    → FreshKeys m table
    → DistinctKeys table
    → put_all m table ≡ m ++ table
unfolding put_all FreshKeys DistinctKeys
put_all-fresh m [] f h = sym (append-nil m)
put_all-fresh m ((i, v) ∷ table) (new, f) (h, hs) =
    ap (λ n. put_all n table) (put-new m i v new)
    ∙ (put_all-fresh (m ++ ((i, v) ∷ [])) table (fresh-append m i v table f h) hs
        ∙ append_assoc m ((i, v) ∷ []) table)

fresh-nil : {A : Type 0} (table : HashTable Id32 A) → FreshKeys [] table
unfolding FreshKeys has lookup
fresh-nil [] = tt
fresh-nil ((i, v) ∷ table) = (refl, fresh-nil table)

has-map :
    {A B : Type 0} (f : A → B) (table : HashTable Id32 A) (k : Id32)
    → has (map (λ (i, v). (i, f v)) table) k ≡ has table k
unfolding has lookup
has-map f [] k = refl
has-map f ((i, v) ∷ table) k =
    has-cons i (f v) (map (λ (j, w). (j, f w)) table) k
    ∙ (ap (λ b. i == k || b) (has-map f table k) ∙ sym (has-cons i v table k))

DistinctKeys-map :
    {A B : Type 0} (f : A → B) (table : HashTable Id32 A)
    → DistinctKeys table
    → DistinctKeys (map (λ (i, v). (i, f v)) table)
unfolding DistinctKeys
DistinctKeys-map f [] h = tt
DistinctKeys-map f ((i, v) ∷ table) (h, hs) = (has-map f table i ∙ h, DistinctKeys-map f table hs)

pub put_all-distinct :
    {A B : Type 0} (f : A → B) (table : HashTable Id32 A)
    → DistinctKeys table
    → put_all [] (map (λ (i, v). (i, f v)) table) ≡ map (λ (i, v). (i, f v)) table
put_all-distinct f table h = put_all-fresh [] _ (fresh-nil _) (DistinctKeys-map f table h)

-- Transitions that are inserted under their ids, by a function that keeps the ids.
insert_transitions-put_all :
    (f : Transition → Transition)
    → ((t : Transition) → (f t).id ≡ t.id)
    → (m table : HashTable Id32 Transition) → All (λ (key, t). key ≡ t.id) table
    → insert_transitions m (map (λ (key, t). f t) table)
      ≡ put_all m (map (λ (key, t). (key, f t)) table)
unfolding insert_transitions put_all
insert_transitions-put_all f same m [] k = refl
insert_transitions-put_all f same m ((key, t) ∷ table) (e, k) =
    ap (λ i. insert_transitions (put m i (f t)) (map (λ (key, t). f t) table)) (same t ∙ sym e)
    ∙ insert_transitions-put_all f same (put m key (f t)) table k

pub insert_transitions-distinct :
    (f : Transition → Transition)
    → ((t : Transition) → (f t).id ≡ t.id)
    → (table : HashTable Id32 Transition) → All (λ (key, t). key ≡ t.id) table
    → DistinctKeys table
    → insert_transitions [] (map (λ (key, t). f t) table) ≡ map (λ (key, t). (key, f t)) table
insert_transitions-distinct f same table k h =
    insert_transitions-put_all f same [] table k ∙ put_all-distinct f table h
