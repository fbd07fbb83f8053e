-- ===== src/Validation/Index/Laws.antt =====
-- What the index by assignable type holds.
use mergeway_cli.Prelude.{
  String, if◌then◌else◌, ◌≡◌, false, Option, none, some, List, [], ◌∷◌, ◌++◌, ◌==◌, eq_refl,
  text-cases, Option-cases, inl, inr, In, here, there, In-append_left, In-append_right, subst, sym,
  ap, ◌∙◌, member-In,
}
use mergeway_cli.Go.Map.{Map, get, put, keys, get-put, has-keys, get-has}
use mergeway_cli.Go.Order.{sort_strings, In-sort_strings, member-sort_strings}
use mergeway_cli.Config.Model.{Config}
use mergeway_cli.Validation.Types.{RawObject}
use mergeway_cli.Validation.Schema.{or_empty}
use mergeway_cli.Validation.Index.{
  Assignable, matches_of, add_assignable, assignable_to, index_ids, index_types,
  build_assignable_index,
}

-- the index with the object added under one type
abbrev added_to : Assignable → String → String → RawObject → Assignable
added_to index t id o =
    put index t (put (or_empty (get index t)) id (matches_of index t id ++ o ∷ []))

abbrev found : Option (Map (List RawObject)) → String → List RawObject
found row id = elim (get (or_empty row) id) [ none ↦ [] | some os ↦ os ]

abbrev listed : Option (List RawObject) → List RawObject
listed none = []
listed (some os) = os

matches_of-added_to :
    (index : Assignable) (t id : String) (o : RawObject)
    → matches_of (added_to index t id o) t id ≡ matches_of index t id ++ o ∷ []
matches_of-added_to index t id o =
    let now = matches_of index t id ++ o ∷ [] in
    let row = put (or_empty (get index t)) id now in
    ap (λ r. found r id)
      (get-put index t t row ∙ ap (λ b. if b then some row else get index t) (eq_refl t))
    ∙ ap listed (
        get-put (or_empty (get index t)) id id now
        ∙ ap (λ b. if b then some now else get (or_empty (get index t)) id) (eq_refl id))

matches_of-other :
    (index : Assignable) (t q id i : String) (o : RawObject)
    → (t == q) ≡ false
    → matches_of (added_to index t id o) q i ≡ matches_of index q i
matches_of-other index t q id i o n =
    let row = put (or_empty (get index t)) id (matches_of index t id ++ o ∷ []) in
    ap (λ r. found r i) (get-put index t q row ∙ ap (λ b. if b then some row else get index q) n)

matches_of-other_id :
    (index : Assignable) (t id i : String) (o : RawObject)
    → (id == i) ≡ false
    → matches_of (added_to index t id o) t i ≡ matches_of index t i
matches_of-other_id index t id i o n =
    let now = matches_of index t id ++ o ∷ [] in
    let row = put (or_empty (get index t)) id now in
    ap (λ r. found r i)
      (get-put index t t row ∙ ap (λ b. if b then some row else get index t) (eq_refl t))
    ∙ ap listed (
        get-put (or_empty (get index t)) id i now
        ∙ ap (λ b. if b then some now else get (or_empty (get index t)) i) n)

added_to-In :
    (index : Assignable) (t q id i : String) (o : RawObject) {x : RawObject}
    → In x (matches_of index q i)
    → In x (matches_of (added_to index t id o) q i)
added_to-In index t q id i o {x} m = elim (text-cases t q) [
  | inr n ↦ subst (In x) (sym (matches_of-other index t q id i o n)) m
  | inl e ↦ elim (text-cases id i) [
    | inr n ↦
        subst (λ r. In x (matches_of (added_to index t id o) r i)) e
          (subst (In x) (sym (matches_of-other_id index t id i o n))
            (subst (λ r. In x (matches_of index r i)) (sym e) m))
    | inl f ↦
        subst (λ r. In x (matches_of (added_to index t id o) r i)) e
          (subst (λ j. In x (matches_of (added_to index t id o) t j)) f
            (subst (In x) (sym (matches_of-added_to index t id o)) (
              In-append_left (o ∷ []) (
                subst (λ j. In x (matches_of index t j)) (sym f)
                  (subst (λ r. In x (matches_of index r i)) (sym e) m)))))
  ]
]

add_assignable-keeps :
    (index : Assignable) (ts : List String) (q id i : String) (o : RawObject) {x : RawObject}
    → In x (matches_of index q i)
    → In x (matches_of (add_assignable index ts id o) q i)
unfolding add_assignable
add_assignable-keeps index [] q id i o m = m
add_assignable-keeps index (t ∷ ts) q id i o m =
    add_assignable-keeps (added_to index t id o) ts q id i o (added_to-In index t q id i o m)

add_assignable-adds :
    (index : Assignable) (ts : List String) (q id : String) (o : RawObject)
    → In q ts
    → In o (matches_of (add_assignable index ts id o) q id)
unfolding add_assignable
add_assignable-adds index [] q id o m = elim m [ ]
add_assignable-adds index (t ∷ ts) q id o here =
    add_assignable-keeps (added_to index t id o) ts t id id o (
      subst (In o) (sym (matches_of-added_to index t id o))
        (In-append_right (matches_of index t id) here))
add_assignable-adds index (t ∷ ts) q id o (there m) =
    add_assignable-adds (added_to index t id o) ts q id o m

index_ids-keeps :
    (index : Assignable) (objects : Map RawObject) (ids : List String) (q i : String)
    {x : RawObject}
    → In x (matches_of index q i)
    → In x (matches_of (index_ids index objects ids).0 q i)
unfolding index_ids
index_ids-keeps index objects [] q i m = m
index_ids-keeps index objects (id ∷ ids) q i m = elim (Option-cases (get objects id)) [
  | inl n ↦ rw (index_ids, n) (index_ids-keeps index objects ids q i m)
  | inr o ↦
      rw (index_ids, o.1)
        (index_ids-keeps (add_assignable index (assignable_to o.0) id o.0) objects ids q i
          (add_assignable-keeps index (assignable_to o.0) q id i o.0 m))
]

index_ids-adds :
    (index : Assignable) (objects : Map RawObject) (ids : List String) (q id : String)
    (o : RawObject)
    → In id ids
    → get objects id ≡ some o
    → In q (assignable_to o)
    → In o (matches_of (index_ids index objects ids).0 q id)
unfolding index_ids
index_ids-adds index objects [] q id o m g a = elim m [ ]
index_ids-adds index objects (i ∷ ids) q id o here g a =
    rw (index_ids, g)
      (index_ids-keeps (add_assignable index (assignable_to o) i o) objects ids q i
        (add_assignable-adds index (assignable_to o) q i o a))
index_ids-adds index objects (i ∷ ids) q id o (there m) g a = elim (Option-cases (get objects i)) [
  | inl n ↦ rw (index_ids, n) (index_ids-adds index objects ids q id o m g a)
  | inr p ↦
      rw (index_ids, p.1)
        (index_ids-adds (add_assignable index (assignable_to p.0) i p.0) objects ids q id o m g a)
]

sorted_keys :
    {V : Type 0} (m : Map V) (k : String) {v : V} → get m k ≡ some v → In k (sort_strings (keys m))
sorted_keys m k g =
    member-In _ k (member-sort_strings (keys m) k ∙ (sym (has-keys m k) ∙ get-has m k g))

index_types-keeps :
    (index : Assignable) (by_type : Map (Map RawObject)) (ts : List String) (q i : String)
    {x : RawObject}
    → In x (matches_of index q i)
    → In x (matches_of (index_types index by_type ts).0 q i)
unfolding index_types
index_types-keeps index by_type [] q i m = m
index_types-keeps index by_type (t ∷ ts) q i m =
    index_types-keeps (index_ids index (or_empty (get by_type t)) _).0 by_type ts q i
      (index_ids-keeps index (or_empty (get by_type t)) _ q i m)

index_types-adds :
    (index : Assignable) (by_type : Map (Map RawObject)) (ts : List String) (t q id : String)
    {objects : Map RawObject} (o : RawObject)
    → In t ts
    → get by_type t ≡ some objects
    → get objects id ≡ some o
    → In q (assignable_to o)
    → In o (matches_of (index_types index by_type ts).0 q id)
unfolding index_types
index_types-adds index by_type [] t q id o m b g a = elim m [ ]
index_types-adds index by_type (u ∷ ts) t q id {objects} o here b g a =
    index_types-keeps (index_ids index (or_empty (get by_type u)) _).0 by_type ts q id (
      rw b (
        index_ids-adds index objects (sort_strings (keys objects)) q id o (sorted_keys objects id g)
          g a))
index_types-adds index by_type (u ∷ ts) t q id o (there m) b g a =
    index_types-adds (index_ids index (or_empty (get by_type u)) _).0 by_type ts t q id o m b g a

-- `buildAssignableIndex` puts each object that the schema phase indexed under a type of the
-- configuration where the references look for it: under its identifier, at its own type and at each
-- of the ancestors of its type.
pub build_assignable_index-In :
    (by_type : Map (Map RawObject)) (c : Config) (t q id : String) {objects : Map RawObject}
    (o : RawObject)
    → In t (keys c.types)
    → get by_type t ≡ some objects
    → get objects id ≡ some o
    → In q (assignable_to o)
    → In o (matches_of (build_assignable_index by_type c).0 q id)
unfolding build_assignable_index
build_assignable_index-In by_type c t q id o m b g a =
    index_types-adds [] by_type (sort_strings (keys c.types)) t q id o
      (In-sort_strings (keys c.types) m) b g a
