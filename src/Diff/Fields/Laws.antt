-- ===== src/Diff/Fields/Laws.antt =====
-- When the comparison of two maps finds no change of a field.
use mergeway_cli.Prelude.{
  append-nil_inv, String, ◌≡◌, refl, Bool, true, false, Option, none, some, List, [], ◌∷◌, ◌==◌,
  Result, ok, >>=-eq-ok, ok_inj, if◌then◌else◌, member, ap, sym, ◌∙◌, subst, arith, eq_iff, eq_refl,
  Bool-cases, text-cases, inl, inr, ◌↔◌, ◌||◌,
}
use mathlib.Core.Option
use mergeway_cli.Go.Map.{get}
use mergeway_cli.Go.Order.{
  sort_strings, member-sort_strings, sort_strings-IsAscending, IsAscending-unique,
}
use mergeway_cli.Value.Defs.{Value, obj, Fields, end, field}
use mergeway_cli.Value.Maps.{field_names, find, IsMap}
use mergeway_cli.Value.Merge.{IsWellFormed, AreWellFormed, AreWellFormed-IsMap, AreWellFormed-find}
use mergeway_cli.Diff.Canonical.{
  MarshalError, child_text, canonical, canonical_children, key_parts, semantic_values_equal,
}
use mergeway_cli.Diff.Fields.Keys.{
  is_present, member-field_names, member-union_keys, Distinct-field_names,
}
use mergeway_cli.Diff.Fields.{
  Changes, union_keys, field_path, key_change, diff_keys, diff_logical_values, compared,
  diff_object_fields,
}

present_either :
    (l r : Fields) (k : String)
    → member (union_keys (field_names l) (field_names r)) k ≡ true
    → (is_present (find l k) || is_present (find r k)) ≡ true
present_either l r k m = ground (
  arith,
  m,
  member-union_keys (field_names l) (field_names r) k,
  member-field_names l k,
  member-field_names r k,
)

module _ (marshal : Value → Result MarshalError String) where
  -- Both maps lack the key, or both have it with values that the comparison takes for equal.
  abbrev pub Agree : Option Value → Option Value → Type 0
  Agree none none = Unit
  Agree (some v) (some w) = semantic_values_equal marshal v w ≡ ok true
  Agree _ _ = ⊥

  abbrev pub SameFields : Fields → Fields → Type 0
  SameFields l r = (k : String) → Agree (find l k) (find r k)

  -- The call of `diffLogicalValues` for a key of the left map.
  abbrev comparison : Option Value → Option (Value × (String → Value → Changes))
  comparison none = none
  comparison (some v) = some (v, diff_logical_values marshal v)

  get-compared : (m : Fields) (k : String) → get (compared marshal m) k ≡ comparison (find m k)
  unfolding diff_logical_values get find
  get-compared end k = refl
  get-compared (field j v m) k = elim (Bool-cases (j == k)) [
    | inl e ↦ rw e refl
    | inr e ↦ rw e (get-compared m k)
  ]

  equal-canonical :
      (v w : Value)
      → semantic_values_equal marshal v w ≡ ok true
      → (c : String) × (canonical marshal v ≡ ok c) × (canonical marshal w ≡ ok c)
  unfolding semantic_values_equal
  equal-canonical v w h =
      let (c, e, h1) = >>=-eq-ok (canonical marshal v) _ h in
      let (d, f, h2) = >>=-eq-ok (canonical marshal w) _ h1 in
      (c, e, f ∙ ap ok (sym ((eq_iff c d).0 (ok_inj h2))))

  get-canonical_children :
      (m : Fields) (k : String)
      → get (canonical_children marshal m) k ≡ Option.map (canonical marshal) (find m k)
  unfolding canonical get find
  get-canonical_children end k = refl
  get-canonical_children (field j v m) k = elim (Bool-cases (j == k)) [
    | inl e ↦ rw e refl
    | inr e ↦ rw e (get-canonical_children m k)
  ]

  key_parts-SameFields :
      (l r : Fields) (ks : List String)
      → SameFields l r
      → key_parts marshal (canonical_children marshal l) ks
        ≡ key_parts marshal (canonical_children marshal r) ks
  unfolding key_parts
  key_parts-SameFields l r [] same = refl
  key_parts-SameFields l r (k ∷ ks) same =
      rw
        (
          get-canonical_children l k,
          get-canonical_children r k,
          key_parts-SameFields l r ks same,
          child (find l k) (find r k) (same k),
        )
        refl
    where
      child :
          (v w : Option Value)
          → Agree v w
          → child_text (Option.map (canonical marshal) v)
            ≡ child_text (Option.map (canonical marshal) w)
      child none none a = refl
      child (some v) (some w) a = let (c, e, f) = equal-canonical v w a in e ∙ sym f
      child none (some w) a = absurd a
      child (some v) none a = absurd a

  SameFields-names :
      (l r : Fields)
      → IsMap l
      → IsMap r
      → SameFields l r
      → sort_strings (field_names l) ≡ sort_strings (field_names r)
  SameFields-names l r hl hr same =
      IsAscending-unique _ _ (sort_strings-IsAscending _ (Distinct-field_names l hl))
        (sort_strings-IsAscending _ (Distinct-field_names r hr))
        (λ k.
          member-sort_strings (field_names l) k
          ∙ member-field_names l k
          ∙ present (find l k) (find r k) (same k)
          ∙ sym (member-sort_strings (field_names r) k ∙ member-field_names r k))
    where
      present : (v w : Option Value) → Agree v w → is_present v ≡ is_present w
      present none none a = refl
      present (some v) (some w) a = refl
      present none (some w) a = absurd a
      present (some v) none a = absurd a

  -- Maps that agree on every key have one canonical text.
  canonical-SameFields :
      (l r : Fields)
      → IsMap l
      → IsMap r
      → SameFields l r
      → canonical marshal (obj l) ≡ canonical marshal (obj r)
  unfolding canonical
  canonical-SameFields l r hl hr same =
      rw
        (
          SameFields-names l r hl hr same,
          key_parts-SameFields l r (sort_strings (field_names r)) same,
        )
        refl

  -- Values that the comparison takes for equal give no change.
  equal-no_change :
      (v : Value) (path : String) (w : Value)
      → semantic_values_equal marshal v w ≡ ok true
      → diff_logical_values marshal v path w ≡ ok []
  unfolding diff_logical_values
  equal-no_change (obj l) path (obj r) h = rw h refl
  equal-no_change v path w h = rw h refl

  diff_keys-none :
      (l : Fields) (prefix : String) (r : Fields) (ks : List String)
      → ((k : String)
          → member ks k ≡ true
          → key_change (field_path prefix k) (get (compared marshal l) k) (find r k) ≡ ok [])
      → diff_keys (compared marshal l) prefix r ks ≡ ok []
  unfolding diff_keys member
  diff_keys-none l prefix r [] h = refl
  diff_keys-none l prefix r (k ∷ ks) h =
      rw
        (
          h k (ground (arith, eq_refl k)),
          diff_keys-none l prefix r ks (λ j m. h j (ground (arith, m))),
        )
        refl

  diff_keys-none_inv :
      (l : Fields) (prefix : String) (r : Fields) (ks : List String) (k : String)
      → diff_keys (compared marshal l) prefix r ks ≡ ok []
      → member ks k ≡ true
      → key_change (field_path prefix k) (get (compared marshal l) k) (find r k) ≡ ok []
  unfolding diff_keys member
  diff_keys-none_inv l prefix r [] k h m = cc
  diff_keys-none_inv l prefix r (j ∷ ks) k h m =
      let (cs, e, h1) =
        >>=-eq-ok (key_change (field_path prefix j) (get (compared marshal l) j) (find r j)) _ h in
      let (ds, f, h2) = >>=-eq-ok (diff_keys (compared marshal l) prefix r ks) _ h1 in
      let (c_nil, d_nil) = append-nil_inv cs ds (ok_inj h2) in
      elim (text-cases j k) [
        | inl q ↦
            subst
              (λ x.
                key_change (field_path prefix x) (get (compared marshal l) x) (find r x) ≡ ok [])
              q (e ∙ ap ok c_nil)
        | inr n ↦ diff_keys-none_inv l prefix r ks k (f ∙ ap ok d_nil) (ground (arith, n, m))
      ]

  -- What a key of either map says if it gives no change, where equality of the values of the left
  -- map is known to follow.
  key_change-Agree :
      (path : String) (v w : Option Value)
      → ((x y : Value)
          → v ≡ some x
          → w ≡ some y
          → diff_logical_values marshal x path y ≡ ok []
          → semantic_values_equal marshal x y ≡ ok true)
      → key_change path (comparison v) w ≡ ok []
      → Agree v w
  key_change-Agree path none none eq h = tt
  key_change-Agree path none (some w) eq h = absurd (cc)
  key_change-Agree path (some v) none eq h = absurd (cc)
  key_change-Agree path (some v) (some w) eq h = eq v w refl refl h

  absent-Agree : (v w : Option Value) → is_present v ≡ false → is_present w ≡ false → Agree v w
  absent-Agree none none h k = tt
  absent-Agree none (some w) h k = absurd (cc)
  absent-Agree (some v) w h k = absurd (cc)

  agreed :
      (path : String) (v w : Option Value)
      → Agree v w
      → ((is_present v || is_present w) ≡ true)
      → key_change path (comparison v) w ≡ ok []
  agreed path none none a m = absurd (cc)
  agreed path (some v) (some w) a m = equal-no_change v path w a
  agreed path none (some w) a m = absurd a
  agreed path (some v) none a m = absurd a

  -- The values under one key of the left map, and what no change says of them.
  abbrev Faithful : Value → Type 0
  Faithful v =
      (path : String) (w : Value)
      → IsWellFormed w
      → diff_logical_values marshal v path w ≡ ok []
      → semantic_values_equal marshal v w ≡ ok true

  no_change-SameFields :
      (l : Fields) (prefix : String) (r : Fields)
      → ((k : String) (v : Value) → find l k ≡ some v → Faithful v)
      → AreWellFormed r
      → diff_object_fields marshal prefix l r ≡ ok []
      → SameFields l r
  unfolding diff_object_fields
  no_change-SameFields l prefix r faithful wf h k =
      let ks = union_keys (field_names l) (field_names r) in
      elim (Bool-cases (member ks k)) [
        | inl m ↦
            key_change-Agree (field_path prefix k) (find l k) (find r k)
              (λ v w e f. faithful k v e (field_path prefix k) w (AreWellFormed-find r k wf f))
              (subst (λ c. key_change (field_path prefix k) c (find r k) ≡ ok []) (get-compared l k)
                (diff_keys-none_inv l prefix r ks k h m))
        | inr n ↦
            let both = sym (member-union_keys (field_names l) (field_names r) k) ∙ n in
            absent-Agree (find l k) (find r k) (sym (member-field_names l k) ∙ ground (arith, both))
              (sym (member-field_names r k) ∙ ground (arith, both))
      ]

  equal_of_SameFields :
      (l r : Fields)
      → AreWellFormed l
      → AreWellFormed r
      → SameFields l r
      → {b : Bool} → semantic_values_equal marshal (obj l) (obj r) ≡ ok b
      → b ≡ true
  unfolding semantic_values_equal
  equal_of_SameFields l r hl hr same {b} h =
      let (c, e, h1) = >>=-eq-ok (canonical marshal (obj l)) _ h in
      let (d, f, h2) = >>=-eq-ok (canonical marshal (obj r)) _ h1 in
      let cd : c ≡ d = ok_inj (
        sym e
        ∙ canonical-SameFields l r (AreWellFormed-IsMap l hl) (AreWellFormed-IsMap r hr) same
        ∙ f) in
      sym (ok_inj h2) ∙ (eq_iff c d).1 cd

  mutual
    unfolding diff_logical_values diff_object_fields IsWellFormed find

    no_change-equal : (v : Value) → IsWellFormed v → Faithful v
    no_change-equal (obj l) hl path (obj r) hr h =
        let (b, e, h1) = >>=-eq-ok (semantic_values_equal marshal (obj l) (obj r)) _ h in
        elim (Bool-cases b) [
          | inl t ↦ e ∙ ap ok t
          | inr n ↦
              let none_found : diff_object_fields marshal path l r ≡ ok [] =
                subst (λ x. (if x then ok [] else diff_object_fields marshal path l r) ≡ ok []) n
                  h1 in
              e
              ∙ ap ok (
                  equal_of_SameFields l r hl hr
                    (no_change-SameFields l path r (λ k v q. fields-Faithful l hl k v q) hr
                      none_found)
                    e)
        ]
    no_change-equal v hv path w hw h =
        let (b, e, h1) = >>=-eq-ok (semantic_values_equal marshal v w) _ h in
        elim (Bool-cases b) [ inl t ↦ e ∙ ap ok t | inr n ↦ absurd (ground (arith, h1, n)) ]

    fields-Faithful :
        (l : Fields) → AreWellFormed l → (k : String) (v : Value) → find l k ≡ some v → Faithful v
    fields-Faithful end hl k v h = absurd (cc)
    fields-Faithful (field j w l) hl k v h = elim (Bool-cases (j == k)) [
      | inl e ↦
          let same : w ≡ v = ground (arith, e, h) in subst Faithful same (no_change-equal w hl.1)
      | inr e ↦ fields-Faithful l hl.2 k v (ground (arith, e, h))
    ]

  -- Where the maps have distinct keys at all depths, their comparison finds no change of a field
  -- exactly if they have the same keys, with
  -- values under each key that the comparison takes for equal.
  pub diff_object_fields-none_iff :
      (prefix : String) (l r : Fields)
      → AreWellFormed l
      → AreWellFormed r
      → (diff_object_fields marshal prefix l r ≡ ok []) ↔ SameFields l r
  unfolding diff_object_fields
  diff_object_fields-none_iff prefix l r hl hr = (
    no_change-SameFields l prefix r (λ k v e. fields-Faithful l hl k v e) hr,
    λ same. diff_keys-none l prefix r (union_keys (field_names l) (field_names r)) (λ k m.
        subst (λ c. key_change (field_path prefix k) c (find r k) ≡ ok []) (sym (get-compared l k))
          (agreed (field_path prefix k) (find l k) (find r k) (same k) (present_either l r k m))),
  )
