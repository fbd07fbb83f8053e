-- ===== src/Store/Load/Laws.antt =====
-- What the search for an object finds.
use mergeway_cli.Prelude.{
  ℕ, suc, ◌+◌, String, ◌≡◌, refl, Bool, true, false, Option, none, some, Result, ok, err, >>=-eq-ok,
  ok_inj, err-ne-ok, List, [], ◌∷◌, ◌==◌, arith, eq_iff, ap, sym, ◌∙◌, subst, inl, inr, Bool-cases,
  Option-cases, if_true, if_false, In, here, there, get_elem?,
}
use mergeway_cli.Value.Defs.{Fields}
use mergeway_cli.Value.Maps.{clone_map_lem}
use mergeway_cli.Config.Model.{TypeDefinition}
use mergeway_cli.Store.Defs.{
  MaybeMap, clone_maybe, FileContent, ObjectLocation, StoreError, in_file, inline_item, panics,
  file_error, not_exist, Env,
}
use mergeway_cli.Store.Identifier.{derive_identifier}
use mergeway_cli.Store.Files.{load_file}
use mergeway_cli.Store.Load.{
  IncludeMatch, location, within, FoundItem, item_identifier, find_item, find_in_content,
  find_inline, unless_gone, check_content, find_in_matches, find_object_in_type,
  resolve_include_matches, only_one, find_among, find_exact_object,
}
use mergeway_cli.Store.Load.Matches.{
  IsFileOf, IsContentOf, resolve_include_matches-IsFileOf, check_content-ok,
}

pub clone_maybe_lem : (m : MaybeMap) → clone_maybe m ≡ m
clone_maybe_lem none = refl
clone_maybe_lem (some m) = ap some (clone_map_lem m)

within-ok :
    {A : Type 0} (wrap : StoreError → StoreError) (r : Result StoreError A) {a : A}
    → within wrap r ≡ ok a
    → r ≡ ok a
within-ok wrap (ok b) h = h
within-ok wrap (err panics) h = absurd (err-ne-ok h)
within-ok wrap (err e) h = absurd (err-ne-ok h)

-- The map is the one that the file has: at the index, where it has several.
abbrev pub Stands : Bool → FileContent → ℕ → MaybeMap → Type 0
Stands true fc idx m = (x : Fields) × (get_elem? fc.items idx ≡ some x) × (m ≡ some x)
Stands false fc idx m = m ≡ fc.single

abbrev pub StandsAt : FileContent → ℕ → MaybeMap → Type 0
StandsAt fc idx m = Stands fc.multi fc idx m

-- The location names the file, its type and the identifier, and says what the content says.
pub record IsLocated (t : TypeDefinition) (i : IncludeMatch) (fc : FileContent) (id : String)
    (loc : ObjectLocation) : Type 0 where
  pub file_path : loc.file_path ≡ i.path
  pub file : loc.file ≡ some fc
  pub format : loc.format ≡ fc.format
  pub multi : loc.multi ≡ fc.multi
  pub read_only : loc.read_only ≡ fc.read_only
  pub type_name : loc.type_name ≡ t.name
  pub identifier : loc.id ≡ id
  pub is_not_inline : loc.inline ≡ false

location-IsLocated :
    (w : Env) (t : TypeDefinition) (i : IncludeMatch) (fc : FileContent) (id : String) (idx : ℕ)
    (m : MaybeMap)
    → IsLocated t i fc id (location w t i fc id idx m)
location-IsLocated w t i fc id idx m = record {
  file_path = refl;
  file = refl;
  format = refl;
  multi = refl;
  read_only = refl;
  type_name = refl;
  identifier = refl;
  is_not_inline = refl;
}

none-ne-some : {A : Type 0} {a : A} → none ≡ some a → ⊥
none-ne-some h = cc

some_inj : {A : Type 0} {a b : A} → some a ≡ some b → a ≡ b
some_inj h = cc

ok_none-ne :
    {A : Type 0} {a : A} → ◌≡◌ {A = Result StoreError (Option A)} (ok none) (ok (some a)) → ⊥
ok_none-ne h = none-ne-some (ok_inj h)

found_item_inj :
    {i k : ℕ} {x m : Fields}
    → ◌≡◌ {A = Result StoreError FoundItem} (ok (some (i, x))) (ok (some (k, m)))
    → (i ≡ k) × (x ≡ m)
found_item_inj h = let e = some_inj (ok_inj h) in (ap (λ p. p.0) e, ap (λ p. p.1) e)

module _ (w : Env) where
  -- An object that the search finds: one of a file that an include of the type finds, or an inline
  -- one; the location has the type and the identifier that is asked for.
  pub data IsFound (s : w.State) (t : TypeDefinition) (id : String) (loc : ObjectLocation)
      : Type 0 where
    in_content :
        (i : IncludeMatch) (fc : FileContent)
        → IsContentOf w s t i fc
        → IsLocated t i fc id loc
        → StandsAt fc loc.index loc.object
        → derive_identifier w t loc.object fc.path ≡ ok id
        → IsFound s t id loc
    inline_object :
        (m : Fields)
        → In m t.inline_data
        → loc.type_name ≡ t.name
        → loc.id ≡ id
        → loc.inline ≡ true
        → loc.object ≡ some m
        → derive_identifier w t loc.object "" ≡ ok id
        → IsFound s t id loc

  find_item-ok :
      (t : TypeDefinition) (fc : FileContent) (id : String) (idx : ℕ) (ms : List Fields) {k : ℕ}
      {m : Fields}
      → find_item w t fc id idx ms ≡ ok (some (k, m))
      → (j : ℕ) × (k ≡ idx + j)
        × (get_elem? ms j ≡ some m)
        × (derive_identifier w t (some m) fc.path ≡ ok id)
  unfolding find_item
  find_item-ok t fc id idx [] h = absurd (ok_none-ne h)
  find_item-ok t fc id idx (x ∷ xs) {k} {m} h =
      let (val, e, f) = >>=-eq-ok (item_identifier w t fc (some x)) _ h in
      let derived = within-ok (in_file t.name fc.path) (derive_identifier w t (some x) fc.path) e in
      elim (Bool-cases (val == id)) [
        | inl q ↦
            let same = found_item_inj (rw q at f) in
            (
              0,
              omega (arith, same.0),
              ap some same.1,
              subst (λ y. derive_identifier w t (some y) fc.path ≡ ok id) same.1
                  (derived ∙ ap ok ((eq_iff val id).0 q)),
            )
        | inr q ↦
            let (j, r, g, d) = find_item-ok t fc id (suc idx) xs (rw q at f) in
            (suc j, omega (arith, r), g, d)
      ]

  content_derived :
      (t : TypeDefinition) (fc : FileContent) (m : MaybeMap) (id val : String)
      → item_identifier w t fc m ≡ ok val
      → (val == id) ≡ true
      → derive_identifier w t (clone_maybe m) fc.path ≡ ok id
  content_derived t fc m id val e q = rw (clone_maybe_lem m) (
      within-ok (in_file t.name fc.path) (derive_identifier w t m fc.path) e
      ∙ ap ok ((eq_iff val id).0 q))

  find_in_content-IsFound :
      (s : w.State) (t : TypeDefinition) (i : IncludeMatch) (fc : FileContent) (id : String)
      {loc : ObjectLocation}
      → IsContentOf w s t i fc
      → find_in_content w t i fc id ≡ ok (some loc)
      → IsFound s t id loc
  unfolding find_in_content
  find_in_content-IsFound s t i fc id {loc} l h = elim (Bool-cases fc.multi) [
    | inl b ↦
        let (found, e, f) =
          >>=-eq-ok (find_item w t fc id 0 fc.items) _ (sym (if_true fc.multi _ _ b) ∙ h) in
        elim (Option-cases found) [
          | inl n ↦ absurd (ok_none-ne (rw n at f))
          | inr p ↦
              let (j, r, g, d) = find_item-ok t fc id 0 fc.items (e ∙ ap ok p.1) in
              subst (IsFound s t id) (some_inj (ok_inj (rw p.1 at f))) (
                in_content i fc l (location-IsLocated w t i fc id _ (some p.0.1))
                  (subst (λ m. Stands m fc p.0.0 (clone_maybe (some p.0.1))) (sym b)
                    (
                      p.0.1,
                      ap (get_elem? fc.items) (omega (arith, r)) ∙ g,
                      clone_maybe_lem (some p.0.1),
                    ))
                  (rw (clone_map_lem p.0.1) d))
        ]
    | inr b ↦
        let (val, e, f) =
          >>=-eq-ok (item_identifier w t fc fc.single) _ (sym (if_false fc.multi _ _ b) ∙ h) in
        elim (Bool-cases (val == id)) [
          | inr q ↦ absurd (ok_none-ne (rw q at f))
          | inl q ↦ subst (IsFound s t id) (some_inj (ok_inj (rw q at f))) (
              in_content i fc l (location-IsLocated w t i fc id _ fc.single)
                (subst (λ m. Stands m fc 0 (clone_maybe fc.single)) (sym b)
                  (clone_maybe_lem fc.single))
                (content_derived t fc fc.single id val e q))
        ]
  ]

  find_inline-IsFound :
      (s : w.State) (t : TypeDefinition) (id : String) (n : ℕ) (ms : List Fields)
      {loc : ObjectLocation}
      → ((m : Fields) → In m ms → In m t.inline_data)
      → find_inline w t id n ms ≡ ok (some loc)
      → IsFound s t id loc
  unfolding find_inline
  find_inline-IsFound s t id n [] sub h = absurd (ok_none-ne h)
  find_inline-IsFound s t id n (m ∷ ms) sub h =
      let (val, e, f) =
        >>=-eq-ok (within (inline_item t.name n) (derive_identifier w t (some m) "")) _ h in
      elim (Bool-cases (val == id)) [
        | inr q ↦ find_inline-IsFound s t id (suc n) ms (λ x i. sub x (there i)) (rw q at f)
        | inl q ↦ subst (IsFound s t id) (some_inj (ok_inj (rw q at f))) (
            inline_object m (sub m here) refl ((eq_iff val id).0 q) refl (clone_maybe_lem (some m))
              (rw (clone_map_lem m) (
                within-ok (inline_item t.name n) (derive_identifier w t (some m) "") e
                ∙ ap ok ((eq_iff val id).0 q))))
      ]

  unless_gone-some :
      (r : Result StoreError FileContent) {fc : FileContent}
      → unless_gone w r ≡ ok (some fc)
      → r ≡ ok fc
  unless_gone-some (ok fc) h = ap ok (some_inj (ok_inj h))
  unless_gone-some (err (file_error path not_exist)) h = absurd (ok_none-ne h)
  unless_gone-some (err e) h = absurd (err-ne-ok h)

  content_of :
      (s : w.State) (t : TypeDefinition) (i : IncludeMatch) (fc : FileContent) {u : Unit}
      → IsFileOf w s t i
      → load_file w s i.path t.name i.include.selector ≡ ok fc
      → check_content w t fc ≡ ok u
      → IsContentOf w s t i fc
  content_of s t i fc f l c =
      let (d, p) = check_content-ok w t fc c in
      record { of_type = f; read = l; declared = d; single_path = p }

  find_in_matches-IsFound :
      (s : w.State) (t : TypeDefinition) (id : String) (is : List IncludeMatch)
      {loc : ObjectLocation}
      → ((i : IncludeMatch) → In i is → IsFileOf w s t i)
      → find_in_matches w s t id is ≡ ok (some loc)
      → IsFound s t id loc
  unfolding find_in_matches
  find_in_matches-IsFound s t id [] sub h = find_inline-IsFound s t id 1 t.inline_data (λ m i. i) h
  find_in_matches-IsFound s t id (i ∷ is) sub h =
      let (loaded, e, f) =
        >>=-eq-ok (unless_gone w (load_file w s i.path t.name i.include.selector)) _ h in
      elim (Option-cases loaded) [
        | inl n ↦ find_in_matches-IsFound s t id is (λ m j. sub m (there j)) (rw n at f)
        | inr fc ↦
            let (u, c, g) = >>=-eq-ok (check_content w t fc.0) _ (rw fc.1 at f) in
            let (found, d, k) = >>=-eq-ok (find_in_content w t i fc.0 id) _ g in
            elim (Option-cases found) [
              | inl n ↦ find_in_matches-IsFound s t id is (λ m j. sub m (there j)) (rw n at k)
              | inr p ↦
                  find_in_content-IsFound s t i fc.0 id
                    (content_of s t i fc.0 (sub i here) (unless_gone-some _ (e ∙ ap ok fc.1)) c)
                    (d ∙ (ap ok p.1 ∙ rw p.1 at k))
            ]
      ]

  -- What `findExactObject` finds is an object of the type with the identifier that is asked for. Either
  -- it stands, at the place that the location names, in what `loadFile` reads of a file that the glob
  -- of an include of the type finds, whose content declares the type or none, or it is one of the
  -- inline objects of the type. The location has the type's name and the identifier, and for a file
  -- its path, its content and its flags.
  pub find_exact_object-IsFound :
      (s : w.State) (t : TypeDefinition) (id : String) {loc : ObjectLocation}
      → find_exact_object w s t id ≡ ok (some loc)
      → IsFound s t id loc
  unfolding find_exact_object find_among find_object_in_type
  find_exact_object-IsFound s t id h =
      let (found, e, f) = >>=-eq-ok (find_object_in_type w s t id) _ h in
      let (now, c, g) = >>=-eq-ok (only_one w t.name id none found) _ f in
      elim (Option-cases found) [
        | inl n ↦ absurd (ok_none-ne (rw n at c ∙ g))
        | inr p ↦
            let (ms, m, k) = >>=-eq-ok (resolve_include_matches w s t) _ e in
            find_in_matches-IsFound s t id ms (λ i. resolve_include_matches-IsFileOf w s t m)
              (k ∙ (ap ok p.1 ∙ (rw p.1 at c ∙ g)))
      ]
