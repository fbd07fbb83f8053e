-- ===== src/Store/Load/Matches.antt =====
-- The files of a type that `resolveIncludeMatches` of internal/data/load.go finds.
use mergeway_cli.Prelude.{
  String, ◌≡◌, refl, ◌⊎◌, false, ◌&&◌, Result, ok, err, >>=-eq-ok, Result-cases, ok_inj, err-ne-ok,
  List, [], ◌∷◌, ◌==◌, if◌then◌else◌, eq_iff, ap, sym, ◌∙◌, subst, inl, inr, Bool-cases, In, here,
  there, In-append_cases, In-cons_cases, member,
}
use mergeway_cli.Go.Order.{sort_strings, In-sort_strings_inv}
use mergeway_cli.Config.Model.{TypeDefinition, IncludeDefinition, is_path}
use mergeway_cli.Store.Defs.{
  FileContent, FileError, not_exist, other_error, StoreError, several_objects, glob_error, Env,
}
use mergeway_cli.Store.Files.{load_file, abs_pattern, from_text}
use mergeway_cli.Store.Load.{
  IncludeMatch, match_key, match_paths, match_includes, resolve_include_matches, check_content,
}

FileError-cases : (e : FileError) → (e ≡ not_exist) ⊎ ((m : String) × (e ≡ other_error m))
FileError-cases not_exist = inl refl
FileError-cases (other_error m) = inr (m, refl)

one_path :
    (t : TypeDefinition) (fc : FileContent)
    → ◌≡◌ {A = Result StoreError (Unit {0})}
        (if fc.multi && is_path t.identifier then err (several_objects t.name fc.path) else ok tt)
        (ok tt)
    → (fc.multi && is_path t.identifier) ≡ false
one_path t fc h = elim (Bool-cases (fc.multi && is_path t.identifier)) [
  | inl b ↦ absurd (err-ne-ok (rw b at h))
  | inr b ↦ b
]

module _ (w : Env) where
  -- The match is of an include of the type, its path is one that the include's pattern finds, and it
  -- is no directory.
  pub record IsFileOf (s : w.State) (t : TypeDefinition) (i : IncludeMatch) : Type 0 where
    pub included : In i.include t.include
    pub with_path : (i.include.path == "") ≡ false
    pub globbed : List String
    pub finds : w.glob s (abs_pattern w i.include.path) ≡ ok globbed
    pub listed : In i.path globbed
    pub is_file : w.is_dir s i.path ≡ ok false

  -- The content that is read of a file of the type: it declares the type or none, and holds a single
  -- object where the path is the identifier.
  pub record IsContentOf (s : w.State) (t : TypeDefinition) (i : IncludeMatch) (fc : FileContent)
      : Type 0 where
    pub of_type : IsFileOf s t i
    pub read : load_file w s i.path t.name i.include.selector ≡ ok fc
    pub declared : (fc.type_name ≡ "") ⊎ (fc.type_name ≡ t.name)
    pub single_path : (fc.multi && is_path t.identifier) ≡ false

  abbrev Matched : w.State → IncludeDefinition → List String → IncludeMatch → Type 0
  Matched s i paths m = (m.include ≡ i) × In m.path paths × (w.is_dir s m.path ≡ ok false)

  later_path :
      (s : w.State) (i : IncludeDefinition) (path : String) (paths : List String) {m : IncludeMatch}
      → Matched s i paths m
      → Matched s i (path ∷ paths) m
  later_path s i path paths (e, j, d) = (e, there j, d)

  match_paths-Matched :
      (s : w.State) (i : IncludeDefinition) (seen paths : List String) {seen' : List String}
      {ms : List IncludeMatch} {m : IncludeMatch}
      → match_paths w s i seen paths ≡ ok (seen', ms)
      → In m ms
      → Matched s i paths m
  unfolding match_paths
  match_paths-Matched s i seen [] {m = m} h j = elim (subst (λ p. In m p.1) (sym (ok_inj h)) j) [ ]
  match_paths-Matched s i seen (path ∷ paths) {m = m} h j = elim (Result-cases (w.is_dir s path)) [
    | inr f ↦ elim (FileError-cases f.0) [
      | inl n ↦
          later_path s i path paths
            (match_paths-Matched s i seen paths (rw (match_paths, f.1, n) at h) j)
      | inr o ↦ absurd (err-ne-ok (rw (match_paths, f.1, o.1) at h))
    ]
    | inl d ↦ elim (Bool-cases d.0) [
      | inl b ↦
          later_path s i path paths
            (match_paths-Matched s i seen paths (rw (match_paths, d.1, b) at h) j)
      | inr b ↦ elim (Bool-cases (member seen (match_key i path))) [
        | inl k ↦
            later_path s i path paths
              (match_paths-Matched s i seen paths (rw (match_paths, d.1, b, k) at h) j)
        | inr k ↦
            let (rest, e, f) =
              >>=-eq-ok (match_paths w s i (match_key i path ∷ seen) paths) _
                (rw (match_paths, d.1, b, k) at h) in
            elim (In-cons_cases (subst (λ p. In m p.1) (sym (ok_inj f)) j)) [
              | inl q ↦ (
                ap (λ x. x.include) q,
                subst (λ x. In x.path (path ∷ paths)) (sym q) here,
                ap (λ x. w.is_dir s x.path) q ∙ (d.1 ∙ ap ok b),
              )
              | inr l ↦
                  later_path s i path paths
                    (match_paths-Matched s i (match_key i path ∷ seen) paths e l)
            ]
      ]
    ]
  ]

  from_text-ok :
      {A : Type 0} (wrap : String → StoreError) (r : Result String A) {a : A}
      → from_text wrap r ≡ ok a
      → r ≡ ok a
  from_text-ok wrap (ok b) h = ap ok (ok_inj h)
  from_text-ok wrap (err e) h = absurd (err-ne-ok h)

  Matched-IsFileOf :
      (s : w.State) (t : TypeDefinition) (i : IncludeDefinition) (globbed : List String)
      {m : IncludeMatch}
      → In i t.include
      → (i.path == "") ≡ false
      → w.glob s (abs_pattern w i.path) ≡ ok globbed
      → Matched s i (sort_strings globbed) m
      → IsFileOf s t m
  Matched-IsFileOf s t i globbed k n g (e, j, d) = record {
    included = subst (λ x. In x t.include) (sym e) k;
    with_path = ap (λ x. x.path == "") e ∙ n;
    globbed = globbed;
    finds = ap (λ x. w.glob s (abs_pattern w x.path)) e ∙ g;
    listed = In-sort_strings_inv globbed j;
    is_file = d;
  }

  match_includes-IsFileOf :
      (s : w.State) (t : TypeDefinition) (seen : List String) (is : List IncludeDefinition)
      {ms : List IncludeMatch} {m : IncludeMatch}
      → ((i : IncludeDefinition) → In i is → In i t.include)
      → match_includes w s seen is ≡ ok ms
      → In m ms
      → IsFileOf s t m
  unfolding match_includes
  match_includes-IsFileOf s t seen [] {m = m} sub h j = elim (subst (In m) (sym (ok_inj h)) j) [ ]
  match_includes-IsFileOf s t seen (i ∷ is) {m = m} sub h j = elim (Bool-cases (i.path == "")) [
    | inl b ↦
        match_includes-IsFileOf s t seen is (λ x k. sub x (there k)) (rw (match_includes, b) at h) j
    | inr b ↦
        let (globbed, g, f) =
          >>=-eq-ok (from_text (glob_error i.path) (w.glob s (abs_pattern w i.path))) _
            (rw (match_includes, b) at h) in
        let (now, n, f') = >>=-eq-ok (match_paths w s i seen (sort_strings globbed)) _ f in
        let (rest, r, f'') = >>=-eq-ok (match_includes w s now.0 is) _ f' in
        elim (In-append_cases now.1 (subst (In m) (sym (ok_inj f'')) j)) [
          | inl k ↦
              Matched-IsFileOf s t i globbed (sub i here) b (from_text-ok _ _ g)
                (match_paths-Matched s i seen (sort_strings globbed) n k)
          | inr k ↦ match_includes-IsFileOf s t now.0 is (λ x l. sub x (there l)) r k
        ]
  ]

  -- The matches of the type are files that its includes find.
  pub resolve_include_matches-IsFileOf :
      (s : w.State) (t : TypeDefinition) {ms : List IncludeMatch} {m : IncludeMatch}
      → resolve_include_matches w s t ≡ ok ms
      → In m ms
      → IsFileOf s t m
  unfolding resolve_include_matches
  resolve_include_matches-IsFileOf s t h j = match_includes-IsFileOf s t [] t.include (λ i k. k) h j

  -- What a content is that passes the checks against the type.
  pub check_content-ok :
      (t : TypeDefinition) (fc : FileContent)
      → check_content w t fc ≡ ok tt
      → ((fc.type_name ≡ "") ⊎ (fc.type_name ≡ t.name))
        × ((fc.multi && is_path t.identifier) ≡ false)
  check_content-ok t fc h = elim (Bool-cases (fc.type_name == "")) [
    | inl b ↦ (inl ((eq_iff fc.type_name "").0 b), one_path t fc (rw b at h))
    | inr b ↦ elim (Bool-cases (fc.type_name == t.name)) [
      | inl k ↦ (inr ((eq_iff fc.type_name t.name).0 k), one_path t fc (rw (b, k) at h))
      | inr k ↦ absurd (err-ne-ok (rw (b, k) at h))
    ]
  ]
