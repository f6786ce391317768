-- ===== src/Fsm/Collections/HashTable.antt =====
-- `HashTable<K, T>` of src/fsm.rs: a struct around one `HashMap<K, T>`, as an association list with
-- at most one entry for a key. The order of the entries stands for the map's unspecified one.
use ru_fsm.Common.{
  Bool, true, false, List, [], ◌∷◌, Run, unwrap, Option, none, some, if◌then◌else◌, PartialEq, ◌==◌,
  ◌≡◌, refl, arith,
}

abbrev pub HashTable {ℓ κ} : Type ℓ → Type κ → Type (ℓ ⊔ κ)
HashTable K T = List (K × T)

module _ {ℓ κ} {K : Type ℓ} {T : Type κ} ⦃e : PartialEq K⦄ where
  -- `HashMap::get`
  unfoldable pub lookup : HashTable K T → K → Option T
  lookup [] k = none
  lookup ((j, v) ∷ m) k = if j == k then some v else lookup m k

  -- `put` and `put_move`: `HashMap::insert`
  unfoldable pub put : HashTable K T → K → T → HashTable K T
  put [] k v = (k, v) ∷ []
  put ((j, w) ∷ m) k v = if j == k then (k, v) ∷ m else (j, w) ∷ put m k v

  unfoldable pub put_all : HashTable K T → HashTable K T → HashTable K T
  put_all m [] = m
  put_all m ((k, v) ∷ t) = put_all (put m k v) t

  unfoldable pub has : HashTable K T → K → Bool
  unfolding lookup
  has m k = elim (lookup m k) [ none ↦ false | some v ↦ true ]

  -- `get`, with the panic of `unwrap` on a missing key.
  unfoldable pub get : HashTable K T → K → Run T
  unfolding lookup
  get m k = unwrap (lookup m k)

  pub lookup-put :
      (m : HashTable K T) (k : K) (v : T) (j : K)
      → lookup (put m k v) j ≡ (if k == j then some v else lookup m j)
  unfolding lookup put
  lookup-put [] k v j = refl
  lookup-put ((i, w) ∷ m) k v j =
      ground (arith, e.eq_iff k j, e.eq_iff i k, e.eq_iff i j, lookup-put m k v j)
