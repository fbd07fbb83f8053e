-- ===== src/Config/Load/Laws.antt =====
-- What a configuration that is loaded consists of.
use mergeway_cli.Prelude.{
  ℕ, zero, suc, String, ◌≡◌, refl, true, Option, none, some, Result, ok, err, err-ne-ok, ok_inj,
  >>=-eq-ok, List, [], ◌∷◌, ◌==◌, arith, eqb_iff, ap, sym, ◌∙◌, subst, inl, inr, Bool-cases,
  Option-cases, member, if_true, if_false, if◌then◌else◌, All, All-In, In, here, there,
}
use mergeway_cli.Go.Int.{ℤ, pos, negsuc}
use mergeway_cli.Go.Map.{Map, get, put, get-In}
use mergeway_cli.Go.FilePath.{dir, is_abs, join_path}
use mergeway_cli.Config.Raw.{RawTypeSpec, RawType}
use mergeway_cli.Config.Load.{
  RawDocument, Aggregate, ConfigError, read_failed, parse_failed, glob_failed, same_int,
  current_version, Files, Cache, Loading, step_error, undefined, join_version, merge_entities,
  merge, document_version, add_entities, add_document, include_matches, load_included,
  load_includes, load_fresh, load_recursive, load_aggregate, abs_path, new_aggregate,
}

All-put :
    {V : Type 0} (P : String × V → Type 0) (m : Map V) (k : String) (v : V)
    → All P m
    → P (k, v)
    → All P (put m k v)
unfolding put
All-put P [] k v h p = (p, tt)
All-put P ((j, w) ∷ m) k v h p = elim (Bool-cases (j == k)) [
  | inl e ↦ rw e (p, h.1)
  | inr e ↦ rw e (h.0, All-put P m k v h.1 p)
]

same_int-eq : (i j : ℤ) → same_int i j ≡ true → i ≡ j
same_int-eq (pos m) (pos n) h = ap pos ((eqb_iff m n).0 h)
same_int-eq (negsuc m) (negsuc n) h = ap negsuc ((eqb_iff m n).0 h)
same_int-eq (pos m) (negsuc n) h = absurd (ground arith)
same_int-eq (negsuc m) (pos n) h = absurd (ground arith)

document_version-ok :
    (source : String) (m : Option (Option ℤ)) {i : ℤ}
    → document_version source m ≡ ok i
    → i ≡ current_version
document_version-ok source none h = absurd (err-ne-ok h)
document_version-ok source (some none) h = absurd (err-ne-ok h)
document_version-ok source (some (some j)) h = elim (Bool-cases (same_int j current_version)) [
  | inl e ↦
      sym (ok_inj (sym (if_true (same_int j current_version) _ _ e) ∙ h))
      ∙ same_int-eq j current_version e
  | inr e ↦ absurd (err-ne-ok (sym (if_false (same_int j current_version) _ _ e) ∙ h))
]

join_version-some :
    (a : Option ℤ) (i : ℤ) {v : Option ℤ} → join_version a (some i) ≡ ok v → v ≡ some i
join_version-some none i h = sym (ok_inj h)
join_version-some (some j) i h = elim (Bool-cases (same_int j i)) [
  | inl e ↦ sym (ok_inj (sym (if_true (same_int j i) _ _ e) ∙ h)) ∙ ap some (same_int-eq j i e)
  | inr e ↦ absurd (err-ne-ok (sym (if_false (same_int j i) _ _ e) ∙ h))
]

merge_entities-All :
    (P : String × RawType → Type 0) (es ts : Map RawType) {out : Map RawType}
    → All P es
    → All P ts
    → merge_entities es ts ≡ ok out
    → All P out
unfolding merge_entities
merge_entities-All P es [] a b h = subst (All P) (ok_inj h) a
merge_entities-All P es ((name, t) ∷ ts) a b h =
    let (u, e, f) = >>=-eq-ok (undefined name t.source (get es name)) _ h in
    merge_entities-All P (put es name t) ts (All-put P es name t a b.0) b.1 f

merge-All :
    (P : String × RawType → Type 0) (a b : Aggregate) {out : Aggregate}
    → All P a.entities
    → All P b.entities
    → merge a b ≡ ok out
    → All P out.entities
unfolding merge
merge-All P a b ha hb h =
    let (v, e, f) = >>=-eq-ok (join_version a.version b.version) _ h in
    let (es, g, k) = >>=-eq-ok (merge_entities a.entities b.entities) _ f in
    subst (λ o. All P o.entities) (ok_inj k) (merge_entities-All P a.entities b.entities ha hb g)

step_error-ok :
    {A : Type 0} (wrap : String → ConfigError) (r : Result String A) {a : A}
    → step_error wrap r ≡ ok a
    → r ≡ ok a
step_error-ok wrap (ok a) h = ap ok (ok_inj h)
step_error-ok wrap (err e) h = absurd (err-ne-ok h)

module _ (f : Files) where
  -- The entity is declared under its name in the document that is read from its source.
  pub record IsDeclared (q : String × RawType) : Type 0 where
    pub text : String
    pub doc : RawDocument
    pub was_read : f.read q.1.source ≡ ok text
    pub decoded : f.decode text ≡ ok doc
    pub declares : In (q.0, q.1.spec) doc.entities
    pub named : q.1.name ≡ q.0

  -- The version is the current one, and all entities are declared in the files that they name.
  pub record IsSound (a : Aggregate) : Type 0 where
    pub version : a.version ≡ some current_version
    pub entities : All IsDeclared a.entities

  add_entities-All :
      (source text : String) (doc : RawDocument) (es : Map RawType) (specs : Map RawTypeSpec)
      {out : Map RawType}
      → f.read source ≡ ok text
      → f.decode text ≡ ok doc
      → ((q : String × RawTypeSpec) → In q specs → In q doc.entities)
      → All IsDeclared es
      → add_entities source es specs ≡ ok out
      → All IsDeclared out
  unfolding add_entities
  add_entities-All source text doc es [] r d sub a h = subst (All IsDeclared) (ok_inj h) a
  add_entities-All source text doc es ((name, spec) ∷ specs) r d sub a h =
      elim (Bool-cases (name == "")) [
        | inl e ↦ absurd (err-ne-ok (sym (if_true (name == "") _ _ e) ∙ h))
        | inr e ↦
            let (u, g, k) =
              >>=-eq-ok (undefined name source (get es name)) _
                (sym (if_false (name == "") _ _ e) ∙ h) in
            add_entities-All source text doc
              (put es name (record { name = name; spec = spec; source = source })) specs r d
              (λ q i. sub q (there i))
              (All-put IsDeclared es name (record { name = name; spec = spec; source = source }) a
                (record {
                  text = text;
                  doc = doc;
                  was_read = r;
                  decoded = d;
                  declares = sub (name, spec) here;
                  named = refl;
                }))
              k
      ]

  add_document-IsSound :
      (a : Aggregate) (source text : String) (doc : RawDocument) {out : Aggregate}
      → f.read source ≡ ok text
      → f.decode text ≡ ok doc
      → All IsDeclared a.entities
      → add_document a doc source ≡ ok out
      → IsSound out
  unfolding add_document
  add_document-IsSound a source text doc r d h e =
      let (i, e1, k1) = >>=-eq-ok (document_version source doc.mergeway) _ e in
      let (v, e2, k2) = >>=-eq-ok (join_version a.version (some i)) _ k1 in
      let (es, e3, k3) = >>=-eq-ok (add_entities source a.entities doc.entities) _ k2 in
      subst IsSound (ok_inj k3) (record {
        version =
            join_version-some a.version i e2 ∙ ap some (document_version-ok source doc.mergeway e1);
        entities = add_entities-All source text doc a.entities doc.entities r d (λ q j. j) h e3;
      })

  abbrev Cached : Cache → Type 0
  Cached = All (λ q. IsSound q.1)

  -- What a loading returns is sound, on a sound cache.
  abbrev Sound : Loading → Type 0
  Sound rec =
      (q : String) (c : Cache) (p : Aggregate × Cache)
      → Cached c
      → rec q c ≡ ok p
      → IsSound p.0 × Cached p.1

  load_included-Sound :
      (rec : Loading) (agg : Aggregate) (cache : Cache) (ms : List String) {p : Aggregate × Cache}
      → Sound rec
      → All IsDeclared agg.entities
      → Cached cache
      → load_included f rec agg cache ms ≡ ok p
      → All IsDeclared p.0.entities × Cached p.1
  unfolding load_included
  load_included-Sound rec agg cache [] s a c h =
      subst (λ p. All IsDeclared p.0.entities × Cached p.1) (ok_inj h) (a, c)
  load_included-Sound rec agg cache (m ∷ ms) s a c h =
      let (p, e, k) = >>=-eq-ok (rec (abs_path f m) cache) _ h in
      let (now, e', k') = >>=-eq-ok (merge agg p.0) _ k in
      let (sound, cached) = s (abs_path f m) cache p c e in
      load_included-Sound rec now p.1 ms s (merge-All IsDeclared agg p.0 a sound.entities e') cached
        k'

  load_includes-Sound :
      (rec : Loading) (path : String) (agg : Aggregate) (cache : Cache) (is : List String)
      {p : Aggregate × Cache}
      → Sound rec
      → All IsDeclared agg.entities
      → Cached cache
      → load_includes f rec path agg cache is ≡ ok p
      → All IsDeclared p.0.entities × Cached p.1
  unfolding load_includes
  load_includes-Sound rec path agg cache [] s a c h =
      subst (λ p. All IsDeclared p.0.entities × Cached p.1) (ok_inj h) (a, c)
  load_includes-Sound rec path agg cache (i ∷ is) s a c h =
      let (found, e1, k1) =
        >>=-eq-ok
          (step_error (glob_failed i path)
            (f.glob (if is_abs i then i else join_path (dir path) i)))
          _ h in
      let (ms, e2, k2) = >>=-eq-ok (include_matches f i path found) _ k1 in
      let (p, e3, k3) = >>=-eq-ok (load_included f rec agg cache ms) _ k2 in
      let (a', c') = load_included-Sound rec agg cache ms s a c e3 in
      load_includes-Sound rec path p.0 p.1 is s a' c' k3

  load_fresh-Sound : (rec : Loading) → Sound rec → Sound (load_fresh f rec)
  unfolding load_fresh
  load_fresh-Sound rec s path cache p c h =
      let (content, e1, k1) = >>=-eq-ok (step_error (read_failed path) (f.read path)) _ h in
      let (doc, e2, k2) = >>=-eq-ok (step_error (parse_failed path) (f.decode content)) _ k1 in
      let (q, e3, k3) = >>=-eq-ok (load_includes f rec path new_aggregate cache doc.include) _ k2 in
      let (agg, e4, k4) = >>=-eq-ok (add_document q.0 doc path) _ k3 in
      let (a, c') = load_includes-Sound rec path new_aggregate cache doc.include s tt c e3 in
      let sound =
        add_document-IsSound q.0 path content doc
          (step_error-ok (read_failed path) (f.read path) e1)
          (step_error-ok (parse_failed path) (f.decode content) e2) a e4 in
      subst (λ r. IsSound r.0 × Cached r.1) (ok_inj k4)
        (sound, All-put (λ q. IsSound q.1) q.1 path agg c' sound)

  load_recursive-Sound : (n : ℕ) (stack : List String) → Sound (load_recursive f n stack)
  unfolding load_recursive
  load_recursive-Sound zero stack path cache p c h = absurd (err-ne-ok h)
  load_recursive-Sound (suc n) stack path cache p c h = elim (Option-cases (get cache path)) [
    | inr a ↦
        subst (λ r. IsSound r.0 × Cached r.1) (ok_inj (rw (load_recursive, a.1) at h))
          (All-In (λ q. IsSound q.1) c (get-In cache path a.0 a.1), c)
    | inl e ↦ elim (Bool-cases (member stack path)) [
      | inl m ↦ absurd (err-ne-ok (rw (load_recursive, e, m) at h))
      | inr m ↦
          load_fresh-Sound (load_recursive f n (path ∷ stack))
            (load_recursive-Sound n (path ∷ stack)) path cache p c (rw (load_recursive, e, m) at h)
    ]
  ]

  -- A configuration that is loaded has the current version, and each of its entities is declared under
  -- its name in the document of the file that it names as its source.
  pub load_aggregate-IsSound :
      (fuel : ℕ) (path : String) {agg : Aggregate}
      → load_aggregate f fuel path ≡ ok agg
      → IsSound agg
  unfolding load_aggregate
  load_aggregate-IsSound fuel path h = elim (Bool-cases (path == "")) [
    | inl e ↦ absurd (err-ne-ok (sym (if_true (path == "") _ _ e) ∙ h))
    | inr e ↦
        let (p, g, k) =
          >>=-eq-ok (load_recursive f fuel [] (abs_path f path) []) _
            (sym (if_false (path == "") _ _ e) ∙ h) in
        subst IsSound (ok_inj k) (load_recursive-Sound fuel [] (abs_path f path) [] p tt g).0
  ]
