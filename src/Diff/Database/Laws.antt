-- ===== src/Diff/Database/Laws.antt =====
-- Which entries the comparison of two snapshots has.
use mathlib.Core.Path.{ap₂}
use mergeway_cli.Prelude.{
  String, ◌≡◌, refl, Bool, true, false, Option, none, some, List, [], ◌∷◌, Result, ok, err,
  err-ne-ok, ◌>>=◌, >>=-eq-ok, ok_inj, if◌then◌else◌, member, ap, sym, ◌∙◌, subst, arith,
  Bool-cases, text-cases, inl, inr, ◌↔◌, ◌||◌, In, here, In-append_left, In-append_right,
  In-append_cases, In-cons_cases,
}
use mergeway_cli.Go.Map.{Map, get, keys, has-keys, get-has}
use mergeway_cli.Value.Defs.{Value}
use mergeway_cli.Diff.Canonical.{MarshalError}
use mergeway_cli.Diff.Fields.{DiffFieldChange, diff_object_fields, union_keys}
use mergeway_cli.Diff.Fields.Keys.{member-union_keys}
use mergeway_cli.Diff.Database.{
  LogicalObject, DiffError, comparing, DiffEntry, modified, relocated, removed_entry, added_entry,
  paired_entry, paired, semantic_sources_equal, entries_of, entries_for, logical_objects_by_key,
  diff_logical_databases,
}

or-true : (b : Bool) → (b || true) ≡ true
or-true b = ground arith

only :
    {r : Result DiffError (List DiffEntry)} {x e : DiffEntry} {es : List DiffEntry}
    → r ≡ ok (x ∷ [])
    → r ≡ ok es
    → e ≡ x
    → In e es
only {e} p h s = subst (In e) (ok_inj (sym p ∙ h)) (subst (λ y. In e (y ∷ [])) s here)

comparing-ok :
    {A : Type 0} (o : LogicalObject) (r : Result MarshalError A) {a : A}
    → comparing o r ≡ ok a
    → r ≡ ok a
comparing-ok o (ok a) h = ap ok (ok_inj h)
comparing-ok o (err e) h = absurd (err-ne-ok h)

module _ (marshal : Value → Result MarshalError String) where
  -- Why the comparison of the objects under one key has the entry.
  pub data Explains (l r : Option LogicalObject) (e : DiffEntry) : Type 0 where
    -- only the left snapshot has the object
    gone : (o : LogicalObject) → l ≡ some o → r ≡ none → e ≡ removed_entry o → Explains l r e
    -- only the right snapshot has it
    new : (o : LogicalObject) → l ≡ none → r ≡ some o → e ≡ added_entry o → Explains l r e
    -- both have it, and the comparison of the fields finds changes
    differs :
        (o p : LogicalObject) (c : DiffFieldChange) (cs : List DiffFieldChange)
        → l ≡ some o
        → r ≡ some p
        → diff_object_fields marshal "" o.fields p.fields ≡ ok (c ∷ cs)
        → e ≡ paired_entry modified o p (c ∷ cs)
        → Explains l r e
    -- both have it with the same fields, and it stands in other places
    moved :
        (o p : LogicalObject)
        → l ≡ some o
        → r ≡ some p
        → diff_object_fields marshal "" o.fields p.fields ≡ ok []
        → semantic_sources_equal o.sources p.sources ≡ false
        → e ≡ paired_entry relocated o p []
        → Explains l r e

  singleton : {e d : DiffEntry} → In e (d ∷ []) → e ≡ d
  singleton m = elim (In-cons_cases m) [ inl q ↦ q | inr n ↦ elim n [ ] ]

  entries_of-Explains :
      (l r : Option LogicalObject) {es : List DiffEntry} {e : DiffEntry}
      → entries_of marshal l r ≡ ok es
      → In e es
      → Explains l r e
  unfolding entries_of paired
  entries_of-Explains none none {es} {e} h m = elim (subst (In e) (sym (ok_inj h)) m) [ ]
  entries_of-Explains (some o) none {es} {e} h m =
      gone o refl refl (singleton (subst (In e) (sym (ok_inj h)) m))
  entries_of-Explains none (some o) {es} {e} h m =
      new o refl refl (singleton (subst (In e) (sym (ok_inj h)) m))
  entries_of-Explains (some o) (some p) {es} {e} h m =
      let (cs, q, h1) =
        >>=-eq-ok (comparing o (diff_object_fields marshal "" o.fields p.fields)) _ h in
      by_changes cs (comparing-ok o (diff_object_fields marshal "" o.fields p.fields) q)
        (subst (In e) (sym (ok_inj h1)) m)
    where
      by_changes :
          (cs : List DiffFieldChange)
          → diff_object_fields marshal "" o.fields p.fields ≡ ok cs
          → In e (paired o p cs)
          → Explains (some o) (some p) e
      by_changes (c ∷ cs) q n = differs o p c cs refl refl q (singleton n)
      by_changes [] q n = elim (Bool-cases (semantic_sources_equal o.sources p.sources)) [
        | inl t ↦ elim (rw t at n) [ ]
        | inr f ↦ moved o p refl refl q f (singleton (rw f at n))
      ]

  Explains-entries_of :
      (l r : Option LogicalObject) {es : List DiffEntry} {e : DiffEntry}
      → entries_of marshal l r ≡ ok es
      → Explains l r e
      → In e es
  unfolding entries_of paired
  Explains-entries_of l r h (gone o p q s) = only (ap₂ (entries_of marshal) p q) h s
  Explains-entries_of l r h (new o p q s) = only (ap₂ (entries_of marshal) p q) h s
  Explains-entries_of l r h (differs o p c cs a b d s) =
      only
        (ap₂ (entries_of marshal) a b
          ∙ ap (λ x. comparing o x >>= λ changes. ok (paired o p changes)) d)
        h s
  Explains-entries_of l r h (moved o p a b d f s) =
      only
        (ap₂ (entries_of marshal) a b
          ∙ ap (λ x. comparing o x >>= λ changes. ok (paired o p changes)) d
          ∙ ap (λ t. ok (if t then [] else paired_entry relocated o p [] ∷ [])) f)
        h s

  entries_for-Explains :
      (left right : Map LogicalObject) (ks : List String) {es : List DiffEntry} {e : DiffEntry}
      → entries_for marshal left right ks ≡ ok es
      → In e es
      → (key : String) × Explains (get left key) (get right key) e
  unfolding entries_for
  entries_for-Explains left right [] {es} {e} h m = elim (subst (In e) (sym (ok_inj h)) m) [ ]
  entries_for-Explains left right (k ∷ ks) {es} {e} h m =
      let (xs, p, h1) = >>=-eq-ok (entries_of marshal (get left k) (get right k)) _ h in
      let (ys, q, h2) = >>=-eq-ok (entries_for marshal left right ks) _ h1 in
      elim (In-append_cases xs (subst (In e) (sym (ok_inj h2)) m)) [
        | inl n ↦ (k, entries_of-Explains (get left k) (get right k) p n)
        | inr n ↦ entries_for-Explains left right ks q n
      ]

  Explains-entries_for :
      (left right : Map LogicalObject) (ks : List String) (key : String) {es : List DiffEntry}
      {e : DiffEntry}
      → entries_for marshal left right ks ≡ ok es
      → member ks key ≡ true
      → Explains (get left key) (get right key) e
      → In e es
  unfolding entries_for member
  Explains-entries_for left right [] key h m x = absurd (cc)
  Explains-entries_for left right (k ∷ ks) key {es} {e} h m x =
      let (xs, p, h1) = >>=-eq-ok (entries_of marshal (get left k) (get right k)) _ h in
      let (ys, q, h2) = >>=-eq-ok (entries_for marshal left right ks) _ h1 in
      elim (text-cases k key) [
        | inl s ↦ subst (In e) (ok_inj h2) (
            In-append_left ys (
              Explains-entries_of (get left k) (get right k) p
                (subst (λ j. Explains (get left j) (get right j) e) (sym s) x)))
        | inr n ↦
            subst (In e) (ok_inj h2) (
              In-append_right xs
                (Explains-entries_for left right ks key q (ground (arith, n, m)) x))
      ]

  -- A key with an entry is a key of one of the snapshots.
  Explains-key :
      (left right : Map LogicalObject) (key : String) {e : DiffEntry}
      → Explains (get left key) (get right key) e
      → member (union_keys (keys left) (keys right)) key ≡ true
  Explains-key left right key (gone o p q s) =
      member-union_keys (keys left) (keys right) key
      ∙ ap (λ b. b || member (keys right) key) (sym (has-keys left key) ∙ get-has left key p)
  Explains-key left right key (new o p q s) =
      member-union_keys (keys left) (keys right) key
      ∙ ap (λ b. member (keys left) key || b) (sym (has-keys right key) ∙ get-has right key q)
      ∙ or-true (member (keys left) key)
  Explains-key left right key (differs o p c cs a b d s) =
      member-union_keys (keys left) (keys right) key
      ∙ ap (λ x. x || member (keys right) key) (sym (has-keys left key) ∙ get-has left key a)
  Explains-key left right key (moved o p a b d f s) =
      member-union_keys (keys left) (keys right) key
      ∙ ap (λ x. x || member (keys right) key) (sym (has-keys left key) ∙ get-has left key a)

  -- Where the comparison of two snapshots succeeds, its entries are exactly those that some key
  -- explains: an object that only the left has (removed) or only the right has (added), an object of
  -- both whose fields differ (modified), or whose fields agree and whose sources differ (relocated).
  pub diff_logical_databases-Explains :
      (left right : List LogicalObject) {es : List DiffEntry} (e : DiffEntry)
      → diff_logical_databases marshal left right ≡ ok es
      → In e es ↔ (
          (key : String) × Explains
            (get (logical_objects_by_key left) key)
            (get (logical_objects_by_key right) key)
            e)
  unfolding diff_logical_databases
  diff_logical_databases-Explains left right e h = (
    entries_for-Explains (logical_objects_by_key left) (logical_objects_by_key right) _ h,
    λ x.
        Explains-entries_for (logical_objects_by_key left) (logical_objects_by_key right) _ x.0 h
          (Explains-key (logical_objects_by_key left) (logical_objects_by_key right) x.0 x.1) x.1,
  )
