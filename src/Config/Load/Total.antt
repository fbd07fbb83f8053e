-- ===== src/Config/Load/Total.antt =====
-- The loading of included files ends by itself.
use mergeway_cli.Prelude.{
  ℕ, zero, suc, ◌+◌, ◌<◌, String, ◌≡◌, refl, true, false, Option, none, some, Result, ok, err,
  err-ne-ok, ◌>>=◌, List, [], ◌∷◌, ◌==◌, arith, ap, sym, ◌∙◌, inl, inr, Bool-cases, Option-cases,
  member, Distinct, Distinct-length-le, length, if_false, if◌then◌else◌, ◌≢◌, text-cases, subst,
  ok_inj,
}
use mergeway_cli.Go.Map.{Map, get, put}
use mergeway_cli.Go.FilePath.{dir, is_abs, join_path}
use mergeway_cli.Go.Int.{ℤ}
use mergeway_cli.Config.Raw.{RawTypeSpec, RawType}
use mergeway_cli.Config.Load.{
  RawDocument, Aggregate, ConfigError, out_of_fuel, path_required, unnamed_entity, include_cycle,
  read_failed, parse_failed, glob_failed, version_mismatch, version_unsupported, same_int,
  current_version, Files, Cache, Loading, step_error, undefined, join_version, merge_entities,
  merge, document_version, add_entities, add_document, include_matches, load_included,
  load_includes, load_fresh, load_recursive, load_aggregate, abs_path, new_aggregate,
}

-- The step ends within its fuel.
abbrev Ends : {A : Type 0} → Result ConfigError A → Type 0
Ends r = r ≡ err out_of_fuel → ⊥

err_inj :
    {A B : Type 0} {e e' : ConfigError}
    → ◌≡◌ {A = Result ConfigError A} (err e) (err e')
    → ◌≡◌ {A = Result ConfigError B} (err e) (err e')
err_inj h = cc

>>=-Ends :
    {A B : Type 0} (r : Result ConfigError A) (k : A → Result ConfigError B)
    → Ends r
    → ((a : A) → r ≡ ok a → Ends (k a))
    → Ends (r >>= k)
>>=-Ends (ok a) k h g = g a refl
>>=-Ends (err e) k h g = λ q. h (err_inj q)

ok-Ends : {A : Type 0} (a : A) → Ends (ok a)
ok-Ends a h = cc

undefined-Ends : (name source : String) (o : Option RawType) → Ends (undefined name source o)
undefined-Ends name source none h = cc
undefined-Ends name source (some t) h = cc

join_version-Ends : (v w : Option ℤ) → Ends (join_version v w)
join_version-Ends v none h = cc
join_version-Ends none (some j) h = cc
join_version-Ends (some i) (some j) h = elim (Bool-cases (same_int i j)) [
  | inl e ↦ ok-Ends (some i) (rw e at h)
  | inr e ↦ version_error i j (rw e at h)
]
  where
    version_error :
        (i j : ℤ)
        → ◌≡◌ {A = Result ConfigError (Option ℤ)} (err (version_mismatch i j)) (err out_of_fuel)
        → ⊥
    version_error i j h = cc

merge_entities-Ends : (es ts : Map RawType) → Ends (merge_entities es ts)
unfolding merge_entities
merge_entities-Ends es [] = ok-Ends es
merge_entities-Ends es ((name, t) ∷ ts) =
    >>=-Ends (undefined name t.source (get es name)) _ (undefined-Ends name t.source (get es name))
      (λ u e. merge_entities-Ends (put es name t) ts)

merge-Ends : (a b : Aggregate) → Ends (merge a b)
unfolding merge
merge-Ends a b =
    >>=-Ends (join_version a.version b.version) _ (join_version-Ends a.version b.version) (λ v e.
      >>=-Ends (merge_entities a.entities b.entities) _ (merge_entities-Ends a.entities b.entities)
        (λ es e'. ok-Ends _))

document_version-Ends : (source : String) (m : Option (Option ℤ)) → Ends (document_version source m)
document_version-Ends source none h = cc
document_version-Ends source (some none) h = cc
document_version-Ends source (some (some i)) h = elim (Bool-cases (same_int i current_version)) [
  | inl e ↦ ok-Ends i (rw e at h)
  | inr e ↦ unsupported i (rw e at h)
]
  where
    unsupported :
        (i : ℤ)
        → ◌≡◌ {A = Result ConfigError ℤ} (err (version_unsupported source i)) (err out_of_fuel)
        → ⊥
    unsupported i h = cc

add_entities-Ends :
    (source : String) (es : Map RawType) (specs : Map RawTypeSpec)
    → Ends (add_entities source es specs)
unfolding add_entities
add_entities-Ends source es [] = ok-Ends es
add_entities-Ends source es ((name, spec) ∷ specs) = elim (Bool-cases (name == "")) [
  | inl e ↦ λ h. unnamed (rw e at h)
  | inr e ↦ λ h.
      >>=-Ends (undefined name source (get es name)) _ (undefined-Ends name source (get es name))
        (λ u q.
          add_entities-Ends source
            (put es name (record { name = name; spec = spec; source = source })) specs)
        (sym (if_false (name == "") _ _ e) ∙ h)
]
  where
    unnamed : ◌≡◌ {A = Result ConfigError (Map RawType)} (err unnamed_entity) (err out_of_fuel) → ⊥
    unnamed h = cc

add_document-Ends :
    (a : Aggregate) (doc : RawDocument) (source : String) → Ends (add_document a doc source)
unfolding add_document
add_document-Ends a doc source =
    >>=-Ends (document_version source doc.mergeway) _ (document_version-Ends source doc.mergeway)
      (λ i e.
        >>=-Ends (join_version a.version (some i)) _ (join_version-Ends a.version (some i)) (λ v e'.
          >>=-Ends (add_entities source a.entities doc.entities) _
            (add_entities-Ends source a.entities doc.entities) (λ es e''. ok-Ends _)))

step_error-Ends :
    {A : Type 0} (wrap : String → ConfigError) (r : Result String A)
    → ((e : String) → wrap e ≢ out_of_fuel)
    → Ends (step_error wrap r)
step_error-Ends wrap (ok a) n h = cc
step_error-Ends wrap (err e) n h = n e (cc)

include_matches-Ends :
    (f : Files) (i path : String) (ms : List String) → Ends (include_matches f i path ms)
include_matches-Ends f i path [] h = cc
include_matches-Ends f i path (m ∷ ms) h = cc

member_rest :
    (path p : String) (stack : List String)
    → (path == p) ≡ false
    → member (path ∷ stack) p ≡ true
    → member stack p ≡ true
unfolding member
member_rest path p stack e i = ground (arith, e, i)

module _ (f : Files) where
  load_included-Ends :
      (rec : Loading) (agg : Aggregate) (cache : Cache) (ms : List String)
      → ((q : String) (c : Cache) → Ends (rec q c))
      → Ends (load_included f rec agg cache ms)
  unfolding load_included
  load_included-Ends rec agg cache [] h = ok-Ends (agg, cache)
  load_included-Ends rec agg cache (m ∷ ms) h =
      >>=-Ends (rec (abs_path f m) cache) _ (h (abs_path f m) cache) (λ p e.
        >>=-Ends (merge agg p.0) _ (merge-Ends agg p.0)
          (λ now e'. load_included-Ends rec now p.1 ms h))

  load_includes-Ends :
      (rec : Loading) (path : String) (agg : Aggregate) (cache : Cache) (is : List String)
      → ((q : String) (c : Cache) → Ends (rec q c))
      → Ends (load_includes f rec path agg cache is)
  unfolding load_includes
  load_includes-Ends rec path agg cache [] h = ok-Ends (agg, cache)
  load_includes-Ends rec path agg cache (i ∷ is) h =
      let pattern = if is_abs i then i else join_path (dir path) i in
      >>=-Ends (step_error (glob_failed i path) (f.glob pattern)) _
        (step_error-Ends (glob_failed i path) (f.glob pattern) (λ e. glob_failed-ne i path e))
        (λ found e.
          >>=-Ends (include_matches f i path found) _ (include_matches-Ends f i path found)
            (λ ms e'.
              >>=-Ends (load_included f rec agg cache ms) _ (load_included-Ends rec agg cache ms h)
                (λ p e''. load_includes-Ends rec path p.0 p.1 is h)))
    where
      glob_failed-ne : (i path e : String) → glob_failed i path e ≢ out_of_fuel
      glob_failed-ne i path e h = cc

  load_fresh-Ends :
      (rec : Loading) (path : String) (cache : Cache)
      → ((text : String) → f.read path ≡ ok text → (q : String) (c : Cache) → Ends (rec q c))
      → Ends (load_fresh f rec path cache)
  unfolding load_fresh
  load_fresh-Ends rec path cache h =
      >>=-Ends (step_error (read_failed path) (f.read path)) _
        (step_error-Ends (read_failed path) (f.read path) (λ e. read_failed-ne e))
        (λ content r.
          >>=-Ends (step_error (parse_failed path) (f.decode content)) _
            (step_error-Ends (parse_failed path) (f.decode content) (λ e. parse_failed-ne e))
            (λ doc e.
              >>=-Ends (load_includes f rec path new_aggregate cache doc.include) _
                (load_includes-Ends rec path new_aggregate cache doc.include
                  (h content (read-ok (f.read path) r)))
                (λ p e'.
                  >>=-Ends (add_document p.0 doc path) _ (add_document-Ends p.0 doc path)
                    (λ agg e''. ok-Ends _))))
    where
      read_failed-ne : (e : String) → read_failed path e ≢ out_of_fuel
      read_failed-ne e h = cc

      parse_failed-ne : (e : String) → parse_failed path e ≢ out_of_fuel
      parse_failed-ne e h = cc

      read-ok :
          (r : Result String String) {text : String}
          → step_error (read_failed path) r ≡ ok text
          → r ≡ ok text
      read-ok (ok t) h = ap ok (ok_inj h)
      read-ok (err e) h = absurd (err-ne-ok h)

  load_recursive-Ends :
      (files : List String) (n : ℕ) (stack : List String) (path : String) (cache : Cache)
      → ((p text : String) → f.read p ≡ ok text → member files p ≡ true)
      → Distinct stack
      → ((p : String) → member stack p ≡ true → member files p ≡ true)
      → length files < n + length stack
      → Ends (load_recursive f n stack path cache)
  unfolding load_recursive
  load_recursive-Ends files zero stack path cache known d sub enough =
      λ h. absurd (omega (arith, enough, Distinct-length-le stack files d sub))
  load_recursive-Ends files (suc n) stack path cache known d sub enough =
      elim (Option-cases (get cache path)) [
        | inr p ↦ λ h. ok-Ends (p.0, cache) (rw (load_recursive, p.1) at h)
        | inl c ↦ elim (Bool-cases (member stack path)) [
          | inl m ↦ λ h. cycle_error (rw (load_recursive, c, m) at h)
          | inr m ↦ λ h.
              load_fresh-Ends (load_recursive f n (path ∷ stack)) path cache
                (λ text r q k.
                  load_recursive-Ends files n (path ∷ stack) q k known (m, d)
                    (λ p i. on_stack p text r i) (omega (arith, enough)))
                (rw (load_recursive, c, m) at h)
        ]
      ]
    where
      cycle_error :
          ◌≡◌ {A = Result ConfigError (Aggregate × Cache)}
            (err (include_cycle path))
            (err out_of_fuel)
          → ⊥
      cycle_error h = cc

      on_stack :
          (p text : String)
          → f.read path ≡ ok text
          → member (path ∷ stack) p ≡ true
          → member files p ≡ true
      on_stack p text r i = elim (text-cases path p) [
        | inl e ↦ subst (λ q. member files q ≡ true) e (known path text r)
        | inr e ↦ sub p (member_rest path p stack e i)
      ]

  -- Where the files that can be read are among those of a list, loading the configuration with its
  -- includes ends by a success or an error of the program with one round more than the list is long.
  pub load_aggregate-total :
      (files : List String) (path : String)
      → ((p text : String) → f.read p ≡ ok text → member files p ≡ true)
      → load_aggregate f (suc (length files)) path ≢ err out_of_fuel
  unfolding load_aggregate member
  load_aggregate-total files path known = elim (Bool-cases (path == "")) [
    | inl e ↦ λ h. required (rw e at h)
    | inr e ↦ λ h.
        >>=-Ends (load_recursive f (suc (length files)) [] (abs_path f path) []) _
          (load_recursive-Ends files (suc (length files)) [] (abs_path f path) [] known tt
            (λ p m. absurd (ground arith)) (omega arith))
          (λ p q. ok-Ends _) (sym (if_false (path == "") _ _ e) ∙ h)
  ]
    where
      required : ◌≡◌ {A = Result ConfigError Aggregate} (err path_required) (err out_of_fuel) → ⊥
      required h = cc
