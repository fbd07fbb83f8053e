-- ===== src/Go/Map.antt =====
-- Go's `map[string]V` as its entries. The order of the entries stands for the order in which one
-- run iterates over the map, which Go leaves open: what holds for every list holds for each order.
use mergeway_cli.Prelude.{
  String, ◌≡◌, refl, Bool, true, false, Option, none, some, List, [], ◌∷◌, arith, ◌==◌, eq_iff,
  eq_refl, if◌then◌else◌, length, member, ap, suc, In, here, there, sym, subst, inl, inr,
  Bool-cases,
}

abbrev pub Map {ℓ} : Type ℓ → Type ℓ
Map V = List (String × V)

module _ {ℓ} {V : Type ℓ} where
  -- `v, ok := m[k]`
  unfoldable pub get : Map V → String → Option V
  get [] k = none
  get ((j, v) ∷ m) k = if j == k then some v else get m k

  -- `m[k] = v`
  unfoldable pub put : Map V → String → V → Map V
  put [] k v = (k, v) ∷ []
  put ((j, w) ∷ m) k v = if j == k then (k, v) ∷ m else (j, w) ∷ put m k v

  -- `delete(m, k)`
  unfoldable pub remove : Map V → String → Map V
  remove [] k = []
  remove ((j, v) ∷ m) k = let rest = remove m k in if j == k then rest else (j, v) ∷ rest

  -- `_, ok := m[k]`
  unfoldable pub has : Map V → String → Bool
  has [] k = false
  has ((j, v) ∷ m) k = if j == k then true else has m k

  abbrev pub keys : Map V → List String
  keys [] = []
  keys ((k, v) ∷ m) = k ∷ keys m

  pub get-put :
      (m : Map V) (k j : String) (v : V) → get (put m k v) j ≡ (if k == j then some v else get m j)
  unfolding get put
  get-put [] k j v = refl
  get-put ((i, w) ∷ m) k j v = ground (arith, eq_iff k j, eq_iff i k, eq_iff i j, get-put m k j v)

  pub get-remove :
      (m : Map V) (k j : String) → get (remove m k) j ≡ (if k == j then none else get m j)
  unfolding get remove
  get-remove [] k j = ground arith
  get-remove ((i, v) ∷ m) k j = ground (arith, get-remove m k j, eq_iff i k, eq_iff i j, eq_iff k j)

  pub has-get : (m : Map V) (k : String) → has m k ≡ elim (get m k) [ none ↦ false | some _ ↦ true ]
  unfolding has get
  has-get [] k = refl
  has-get ((j, v) ∷ m) k = ground (arith, has-get m k)

  pair_path : {j k : String} {w v : V} → j ≡ k → w ≡ v → ◌≡◌ {A = String × V} (j, w) (k, v)
  pair_path p q = λ i. (p i, q i)

  pub get-In : (m : Map V) (k : String) (v : V) → get m k ≡ some v → In (k, v) m
  unfolding get
  get-In [] k v h = cc
  get-In ((j, w) ∷ m) k v h = elim (Bool-cases (j == k)) [
    | inl e ↦
        subst (λ q. In (k, v) (q ∷ m)) (sym (pair_path ((eq_iff j k).0 e) (ground arith))) here
    | inr e ↦ there (get-In m k v (ground arith))
  ]

  pub In-get : (m : Map V) (k : String) (v : V) → In (k, v) m → has m k ≡ true
  unfolding has
  In-get [] k v h = elim h [ ]
  In-get ((j, w) ∷ m) k v here = rw (eq_refl k)
  In-get ((j, w) ∷ m) k v (there h) = ground (arith, In-get m k v h)

  pub length-keys : (m : Map V) → length (keys m) ≡ length m
  length-keys [] = refl
  length-keys ((k, v) ∷ m) = ap suc (length-keys m)

  pub has-keys : (m : Map V) (k : String) → has m k ≡ member (keys m) k
  unfolding has member
  has-keys [] k = refl
  has-keys ((j, v) ∷ m) k = ground (arith, has-keys m k)

  pub get-has : (m : Map V) (k : String) {v : V} → get m k ≡ some v → has m k ≡ true
  get-has m k h = rw (has-get m k, h) refl
