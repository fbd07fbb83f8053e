-- ===== src/Store/LoadAll/Laws.antt =====
-- The objects of a hierarchy of types.
use mergeway_cli.Prelude.{
  String, ◌≡◌, refl, none, some, ok, >>=-eq-ok, ok_inj, err-ne-ok, List, [], ◌∷◌, ◌==◌, eq_iff,
  eq_refl, ap, sym, ◌∙◌, subst, inl, inr, Bool-cases, if_true, if_false, Option-cases, In, here,
  there, In-append_cases,
}
use mergeway_cli.Go.Map.{Map, get, put, get-put}
use mergeway_cli.Config.Model.{TypeDefinition}
use mergeway_cli.Store.Defs.{Object, Env}
use mergeway_cli.Store.Load.{assignable_type_defs}
use mergeway_cli.Store.LoadAll.{load_exact_all, add_loaded, load_types, load_all}

-- The map has an object with the identifier and the type of the given one.
abbrev Recorded : Map Object → Object → Type 0
Recorded m o = (f : Object) × (get m o.id ≡ some f) × (f.type_name ≡ o.type_name)

some_inj : {a b : Object} → some a ≡ some b → a ≡ b
some_inj h = cc

-- What the second map records is what the first does, and maybe more.
abbrev Extends : Map Object → Map Object → Type 0
Extends m m' = (k : String) (f : Object) → get m k ≡ some f → get m' k ≡ some f

Recorded-Extends : (m m' : Map Object) (o : Object) → Extends m m' → Recorded m o → Recorded m' o
Recorded-Extends m m' o e (f, g, t) = (f, e o.id f g, t)

none-ne-some : {f : Object} → none ≡ some f → ⊥
none-ne-some h = cc

put-Extends : (m : Map Object) (o : Object) → get m o.id ≡ none → Extends m (put m o.id o)
put-Extends m o n k f g = elim (Bool-cases (o.id == k)) [
  | inl e ↦ absurd (none-ne-some (sym n ∙ (ap (get m) ((eq_iff o.id k).0 e) ∙ g)))
  | inr e ↦ get-put m o.id k o ∙ (if_false (o.id == k) _ _ e ∙ g)
]

put-Recorded : (m : Map Object) (o : Object) → Recorded (put m o.id o) o
put-Recorded m o = (o, get-put m o.id o.id o ∙ if_true (o.id == o.id) _ _ (eq_refl o.id), refl)

module _ (w : Env) where
  add_loaded-Recorded :
      (query : String) (seen : Map Object) (os : List Object) {now : Map Object}
      → add_loaded w query seen os ≡ ok now
      → Extends seen now × ((o : Object) → In o os → Recorded now o)
  unfolding add_loaded
  add_loaded-Recorded query seen [] h =
      (λ k f g. subst (λ m. get m k ≡ some f) (ok_inj h) g, λ o i. elim i [ ])
  add_loaded-Recorded query seen (o ∷ os) {now} h = elim (Option-cases (get seen o.id)) [
    | inl n ↦
        let (e, r) = add_loaded-Recorded query (put seen o.id o) os (rw (add_loaded, n) at h) in
        (
          λ k f g. e k f (put-Extends seen o n k f g),
          λ a i. added (Recorded-Extends (put seen o.id o) now o e (put-Recorded seen o)) r a i,
        )
    | inr p ↦ elim (Bool-cases (p.0.type_name == o.type_name)) [
      | inr q ↦ absurd (err-ne-ok (rw (add_loaded, p.1, q) at h))
      | inl q ↦
          let (e, r) = add_loaded-Recorded query seen os (rw (add_loaded, p.1, q) at h) in
          (e, λ a i. added (p.0, e o.id p.0 p.1, (eq_iff p.0.type_name o.type_name).0 q) r a i)
    ]
  ]
    where
      added :
          Recorded now o
          → ((a : Object) → In a os → Recorded now a)
          → (a : Object) → In a (o ∷ os)
          → Recorded now a
      added first rest a here = first
      added first rest a (there i) = rest a i

  load_types-Recorded :
      (s : w.State) (query : String) (seen : Map Object) (ts : List TypeDefinition)
      {os : List Object}
      → load_types w s query seen ts ≡ ok os
      → (last : Map Object) × Extends seen last × ((o : Object) → In o os → Recorded last o)
  unfolding load_types
  load_types-Recorded s query seen [] h =
      (seen, λ k f g. g, λ o i. elim (subst (In o) (sym (ok_inj h)) i) [ ])
  load_types-Recorded s query seen (t ∷ ts) h =
      let (loaded, a, b) = >>=-eq-ok (load_exact_all w s t) _ h in
      let (now, c, d) = >>=-eq-ok (add_loaded w query seen loaded) _ b in
      let (rest, e, f) = >>=-eq-ok (load_types w s query now ts) _ d in
      let (grows, first) = add_loaded-Recorded query seen loaded c in
      let (last, grows', later) = load_types-Recorded s query now ts e in
      (
        last,
        λ k x g. grows' k x (grows k x g),
        λ o i. elim (In-append_cases loaded (subst (In o) (sym (ok_inj f)) i)) [
          | inl j ↦ Recorded-Extends now last o grows' (first o j)
          | inr j ↦ later o j
        ],
      )

  same_type :
      (m : Map Object) (a b : Object)
      → Recorded m a
      → Recorded m b
      → a.id ≡ b.id
      → a.type_name ≡ b.type_name
  same_type m a b (f, g, t) (f', g', t') e =
      sym t ∙ (ap (λ o. o.type_name) (some_inj (sym g ∙ (ap (get m) e ∙ g'))) ∙ t')

  -- Of the objects that `loadAll` returns for a type and those that inherit from it, two with the same
  -- identifier are of the same type.
  pub load_all-same_type :
      (s : w.State) (t : TypeDefinition) {os : List Object} (a b : Object)
      → load_all w s t ≡ ok os
      → In a os
      → In b os
      → a.id ≡ b.id
      → a.type_name ≡ b.type_name
  unfolding load_all
  load_all-same_type s t a b h i j e =
      let (last, grows, recorded) = load_types-Recorded s t.name [] (assignable_type_defs w t) h in
      same_type last a b (recorded a i) (recorded b j) e
