-- ===== src/Workspace/Index/Laws.antt =====
-- What the index of a loaded workspace finds.
use mergeway_cli.Prelude.{
  String, ◌≡◌, refl, true, false, none, Result, ok, err, >>=-eq-ok, ok_inj, err-ne-ok, List, [],
  ◌∷◌, ◌++◌, ◌==◌, if◌then◌else◌, arith, eq_iff, eq_refl, ap, sym, ◌∙◌, subst, inl, inr, Bool-cases,
  if_true, if_false, ◌⊎◌, member, Distinct,
}
use mergeway_cli.Go.Map.{Map, get, put, keys, has, has-keys, get-put}
use mergeway_cli.Go.Order.{
  sort_strings, IsAscending, sort_strings-IsAscending, head_fresh, member-sort_strings,
}
use mergeway_cli.Store.Defs.{Object, StoreError, panics, Env}
use mergeway_cli.Store.Operations.{load_objects}
use mergeway_cli.Workspace.Index.{
  Index, Workspace, listed, table, index_objects, for_type, load_named, load_workspace, objects,
  find_indexed,
}

-- The objects with the identifier, in their order.
abbrev pub with_id : String → List Object → List Object
with_id id [] = []
with_id id (o ∷ os) = if o.id == id then o ∷ with_id id os else with_id id os

append_assoc : (xs ys zs : List Object) → (xs ++ ys) ++ zs ≡ xs ++ (ys ++ zs)
append_assoc [] ys zs = refl
append_assoc (x ∷ xs) ys zs = ap (λ l. x ∷ l) (append_assoc xs ys zs)

append_nil : (xs : List Object) → xs ++ [] ≡ xs
append_nil [] = refl
append_nil (x ∷ xs) = ap (λ l. x ∷ l) (append_nil xs)

listed-put :
    (m : Map (List Object)) (k id : String) (os : List Object)
    → listed (get (put m k os) id) ≡ (if k == id then os else listed (get m id))
listed-put m k id os = elim (Bool-cases (k == id)) [
  | inl e ↦ rw (get-put m k id os, e) refl
  | inr e ↦ rw (get-put m k id os, e) refl
]

-- Each identifier of the index has the objects that it had and then those that are added.
index_objects-get :
    (m : Map (List Object)) (os : List Object) (id : String)
    → listed (get (index_objects m os) id) ≡ listed (get m id) ++ with_id id os
unfolding index_objects
index_objects-get m [] id = sym (append_nil (listed (get m id)))
index_objects-get m (o ∷ os) id =
    index_objects-get (put m o.id (listed (get m o.id) ++ o ∷ [])) os id
    ∙ elim (Bool-cases (o.id == id)) [
      | inl e ↦
          ap (λ l. l ++ with_id id os)
            (listed-put m o.id id (listed (get m o.id) ++ o ∷ [])
              ∙ (if_true (o.id == id) _ _ e
                  ∙ ap (λ k. listed (get m k) ++ o ∷ []) ((eq_iff o.id id).0 e)))
          ∙ (append_assoc (listed (get m id)) (o ∷ []) (with_id id os)
              ∙ ap (λ l. listed (get m id) ++ l) (sym (if_true (o.id == id) _ _ e)))
      | inr e ↦ rw (listed-put m o.id id (listed (get m o.id) ++ o ∷ []), e) refl
    ]

abbrev pub Indexed : Map (List Object) → Index → String → String → Type 0
Indexed by_type index t id =
    listed (get (table (get index t)) id) ≡ with_id id (listed (get by_type t))

-- The indexed objects of a type that is loaded now.
Indexed-put :
    (by_type : Map (List Object)) (index : Index) (n : String) (os : List Object) (t id : String)
    → get index n ≡ none
    → Indexed by_type index t id
    → Indexed (put by_type n os) (put index n (index_objects (table (get index n)) os)) t id
unfolding get
Indexed-put by_type index n os t id a h = elim (Bool-cases (n == t)) [
  | inl e ↦
      rw (a, get-put by_type n t os, get-put index n t (index_objects [] os), e)
        (index_objects-get [] os id)
  | inr e ↦ rw (a, get-put by_type n t os, get-put index n t (index_objects [] os), e) h
]

IsAscending-Distinct : (l : List String) → IsAscending l → Distinct l
IsAscending-Distinct [] h = tt
IsAscending-Distinct (x ∷ l) h = (head_fresh x l h, IsAscending-Distinct l h.1)

still_absent :
    (index : Index) (n k : String) (ns : List String) (os : List Object)
    → ((k : String) → member (n ∷ ns) k ≡ true → get index k ≡ none)
    → member ns n ≡ false
    → member ns k ≡ true
    → get (put index n (index_objects (table (get index n)) os)) k ≡ none
unfolding member
still_absent index n k ns os a d m =
    ground
      (arith, get-put index n k (index_objects (table (get index n)) os), eq_iff n k, a k, d, m)

for_type-ok :
    {A : Type 0} (name : String) (r : Result StoreError A) {a : A}
    → for_type name r ≡ ok a
    → r ≡ ok a
for_type-ok name (ok a) h = ap ok (ok_inj h)
for_type-ok name (err panics) h = absurd (err-ne-ok h)
for_type-ok name (err e) h = absurd (err-ne-ok h)

module _ (w : Env) where
  load_named-Indexed :
      (s : w.State) (ns : List String) (by_type : Map (List Object)) (index : Index)
      {p : Map (List Object) × Index} (t id : String)
      → Distinct ns
      → ((n : String) → member ns n ≡ true → get index n ≡ none)
      → load_named w s ns by_type index ≡ ok p
      → Indexed by_type index t id
      → Indexed p.0 p.1 t id
  unfolding load_named member
  load_named-Indexed s [] by_type index t id d a h i =
      subst (λ p. Indexed p.0 p.1 t id) (ok_inj h) i
  load_named-Indexed s (n ∷ ns) by_type index t id d a h i =
      let (os, e, f) = >>=-eq-ok (for_type n (load_objects w s n)) _ h in
      load_named-Indexed s ns (put by_type n os)
        (put index n (index_objects (table (get index n)) os)) t id d.1
        (λ k m. still_absent index n k ns os a d.0 m) f
        (Indexed-put by_type index n os t id (a n (ground (arith, eq_refl n))) i)

  find_indexed-with_id :
      (s : w.State) (config_path : String) {ws : Workspace} (t id : String)
      → Distinct (keys w.config.types)
      → load_workspace w s config_path ≡ ok ws
      → find_indexed ws t id ≡ with_id id (objects ws t)
  unfolding load_workspace find_indexed objects get
  find_indexed-with_id s config_path t id d h =
      let (p, e, f) = >>=-eq-ok (load_named w s (sort_strings (keys w.config.types)) [] []) _ h in
      subst (λ ws. find_indexed ws t id ≡ with_id id (objects ws t)) (ok_inj f)
        (load_named-Indexed s (sort_strings (keys w.config.types)) [] [] t id
          (IsAscending-Distinct _ (sort_strings-IsAscending (keys w.config.types) d)) (λ n m. refl)
          e refl)

  load_named-objects :
      (s : w.State) (ns : List String) (by_type : Map (List Object)) (index : Index)
      {p : Map (List Object) × Index} (t : String)
      → load_named w s ns by_type index ≡ ok p
      → (member ns t ≡ true) ⊎ (load_objects w s t ≡ ok (listed (get by_type t)))
      → load_objects w s t ≡ ok (listed (get p.0 t))
  unfolding load_named member
  load_named-objects s [] by_type index t h (inl m) = absurd (ground arith)
  load_named-objects s [] by_type index t h (inr o) =
      subst (λ p. load_objects w s t ≡ ok (listed (get p.0 t))) (ok_inj h) o
  load_named-objects s (n ∷ ns) by_type index t h o =
      let (os, e, f) = >>=-eq-ok (for_type n (load_objects w s n)) _ h in
      load_named-objects s ns (put by_type n os)
        (put index n (index_objects (table (get index n)) os)) t f
        (elim (Bool-cases (n == t)) [
          | inl q ↦ inr (
              ap (load_objects w s) (sym ((eq_iff n t).0 q))
              ∙ (for_type-ok n (load_objects w s n) e
                  ∙ ap ok (sym (listed-put by_type n t os ∙ if_true (n == t) _ _ q))))
          | inr q ↦ elim o [
            | inl m ↦ inl (ground (arith, m, q, eq_iff n t))
            | inr l ↦ inr (l ∙ ap ok (sym (listed-put by_type n t os ∙ if_false (n == t) _ _ q)))
          ]
        ])

  load_workspace-objects :
      (s : w.State) (config_path : String) {ws : Workspace} (t : String)
      → has w.config.types t ≡ true
      → load_workspace w s config_path ≡ ok ws
      → load_objects w s t ≡ ok (objects ws t)
  unfolding load_workspace objects
  load_workspace-objects s config_path t k h =
      let (p, e, f) = >>=-eq-ok (load_named w s (sort_strings (keys w.config.types)) [] []) _ h in
      subst (λ ws. load_objects w s t ≡ ok (objects ws t)) (ok_inj f)
        (load_named-objects s (sort_strings (keys w.config.types)) [] [] t e (
          inl
            (member-sort_strings (keys w.config.types) t ∙ (sym (has-keys w.config.types t) ∙ k))))

  -- In a workspace that is loaded for a configuration whose types have distinct names, `Objects` of a
  -- known type is what `LoadAll` returns for it, and `Find` with an identifier is the part of it with
  -- that identifier, in its order.
  pub load_workspace-find :
      (s : w.State) (config_path : String) {ws : Workspace} (t id : String)
      → Distinct (keys w.config.types)
      → has w.config.types t ≡ true
      → load_workspace w s config_path ≡ ok ws
      → (load_objects w s t ≡ ok (objects ws t))
        × (find_indexed ws t id ≡ with_id id (objects ws t))
  load_workspace-find s config_path t id d k h =
      (load_workspace-objects s config_path t k h, find_indexed-with_id s config_path t id d h)
