-- ===== src/Value/Merge.antt =====
-- `mergeMaps` of internal/data/util.go, the partial update of an object.
use mergeway_cli.Prelude.{
  String, ◌≡◌, refl, Option, none, some, arith, ◌==◌, eq_iff, eq_refl, Bool-cases, subst, inl, inr,
  ap, sym, ◌∙◌,
}
use mergeway_cli.Value.Defs.{Value, obj, Fields, end, field}
use mergeway_cli.Value.Maps.{
  find, set, IsMap, find-set, set_self, clone_value, clone_map, clone_map_lem, clone_value_lem,
}

-- `mergeMaps(dst, src)`, with the write to `dst[k]` for each entry of `src`
unfoldable mutual
  unfolding clone_value

  pub merge_maps : Fields → Fields → Fields
  merge_maps dst end = dst
  merge_maps dst (field k v src) = merge_maps (set dst k (merge_value v (find dst k))) src

  -- the value that is written: `v` of `src`, where `dst` has `existing`
  pub merge_value : Value → Option Value → Value
  merge_value (obj s) (some (obj d)) = obj (merge_maps d s)
  merge_value v existing = clone_value v

-- The value of one key after a merge.
abbrev pub merged : Option Value → Option Value → Option Value
merged existing none = existing
merged existing (some v) = some (merge_value v existing)

-- What `mergeMaps(dst, src)` leaves under a key, where the keys of `src` are distinct.
pub find-merge_maps :
    (dst src : Fields) (k : String)
    → IsMap src
    → find (merge_maps dst src) k ≡ merged (find dst k) (find src k)
unfolding merge_maps find
find-merge_maps dst end k h = refl
find-merge_maps dst (field j v src) k h = ground (
  arith,
  find-merge_maps (set dst j (merge_value v (find dst j))) src k h.1,
  find-set dst j k (merge_value v (find dst j)),
  eq_iff j k,
  h.0,
)

-- Every map inside a value is one.
unfoldable mutual
  pub IsWellFormed : Value → Type 0
  IsWellFormed (obj m) = AreWellFormed m
  IsWellFormed v = Unit

  pub AreWellFormed : Fields → Type 0
  AreWellFormed end = Unit
  AreWellFormed (field k v m) = (find m k ≡ none) × IsWellFormed v × AreWellFormed m

pub AreWellFormed-IsMap : (m : Fields) → AreWellFormed m → IsMap m
unfolding AreWellFormed
AreWellFormed-IsMap end h = tt
AreWellFormed-IsMap (field k v m) h = (h.0, AreWellFormed-IsMap m h.2)

pub AreWellFormed-find :
    (m : Fields) (k : String) {v : Value} → AreWellFormed m → find m k ≡ some v → IsWellFormed v
unfolding AreWellFormed find
AreWellFormed-find end k h e = absurd (cc)
AreWellFormed-find (field j w m) k {v} h e = elim (Bool-cases (j == k)) [
  | inl q ↦ let same : w ≡ v = ground (arith, q, e) in subst IsWellFormed same h.1
  | inr q ↦ AreWellFormed-find m k h.2 (ground (arith, q, e))
]

merge_value-none : (v : Value) → merge_value v none ≡ v
unfolding merge_value
merge_value-none (obj s) = ap obj (clone_map_lem s)
merge_value-none v = clone_value_lem v

-- Not both are maps.
abbrev pub NotBothMaps : Value → Option Value → Type 0
NotBothMaps (obj s) (some (obj d)) = ⊥
NotBothMaps v old = Unit

merge_value-replaced : (v : Value) (old : Option Value) → NotBothMaps v old → merge_value v old ≡ v
unfolding merge_value
merge_value-replaced (obj s) (some (obj d)) n = absurd n
merge_value-replaced (obj s) old n = ap obj (clone_map_lem s)
merge_value-replaced v old n = clone_value_lem v

-- The third value is what a partial update makes of the first by the second, where each may be absent:
-- what is not updated is kept, a map is updated key by key where the old value is a map too, and
-- anything else is replaced.
pub data IsMerge : Option Value → Option Value → Option Value → Type 0 where
  kept : (old : Option Value) → IsMerge old none old
  nested :
      (d s m : Fields)
      → ((k : String) → IsMerge (find d k) (find s k) (find m k))
      → IsMerge (some (obj d)) (some (obj s)) (some (obj m))
  replaced : (old : Option Value) (v : Value) → NotBothMaps v old → IsMerge old (some v) (some v)

mutual
  unfolding merge_value find IsWellFormed

  merge_value-IsMerge :
      (v : Value) (old : Option Value)
      → IsWellFormed v
      → IsMerge old (some v) (some (merge_value v old))
  merge_value-IsMerge (obj s) (some (obj d)) wf = nested d s (merge_maps d s) (λ k.
      subst (IsMerge (find d k) (find s k)) (sym (find-merge_maps d s k (AreWellFormed-IsMap s wf)))
        (merged-IsMerge s (find d k) k wf))
  merge_value-IsMerge v old wf =
      subst (λ x. IsMerge old (some v) (some x)) (sym (merge_value-replaced v old tt))
        (replaced old v tt)

  merged-IsMerge :
      (s : Fields) (old : Option Value) (k : String)
      → AreWellFormed s
      → IsMerge old (find s k) (merged old (find s k))
  merged-IsMerge end old k wf = kept old
  merged-IsMerge (field j v s) old k wf = elim (Bool-cases (j == k)) [
    | inl e ↦ rw e (merge_value-IsMerge v old wf.1)
    | inr e ↦ rw e (merged-IsMerge s old k wf.2)
  ]

-- Where all maps of the update have distinct keys, `mergeMaps(dst, src)` leaves under each key what a
-- partial update makes of the old value and of the value of `src`.
pub merge_maps-IsMerge :
    (dst src : Fields) (k : String)
    → AreWellFormed src
    → IsMerge (find dst k) (find src k) (find (merge_maps dst src) k)
merge_maps-IsMerge dst src k wf =
    subst (IsMerge (find dst k) (find src k))
      (sym (find-merge_maps dst src k (AreWellFormed-IsMap src wf)))
      (merged-IsMerge src (find dst k) k wf)

-- `m` holds under each key of `src` a value that absorbs the one there.
abbrev Absorbs : Fields → Fields → Type 0
Absorbs m end = Unit
Absorbs m (field k v src) =
    ((w : Value) × (find m k ≡ some w) × (merge_value v (some w) ≡ w)) × Absorbs m src

merge_maps-Absorbs : (m src : Fields) → Absorbs m src → merge_maps m src ≡ m
unfolding merge_maps
merge_maps-Absorbs m end h = refl
merge_maps-Absorbs m (field k v src) ((w, found, same), h) =
    rw (found, same, set_self m k w found) (merge_maps-Absorbs m src h)

-- What `m` holds under the keys of `src` are values of `src`, each merged into something.
abbrev Holds : Fields → Fields → Type 0
Holds m src =
    (k : String) (v : Value)
    → find src k ≡ some v
    → (o : Option Value) × (find m k ≡ some (merge_value v o))

Holds-tail :
    (m src : Fields) (k : String) (v : Value)
    → find src k ≡ none
    → Holds m (field k v src)
    → Holds m src
unfolding find
Holds-tail m src k v fresh h j w e = h j w (ground (arith, eq_iff k j))

mutual
  unfolding merge_value AreWellFormed find

  merge_value_idem :
      (v : Value) (o : Option Value)
      → IsWellFormed v
      → merge_value v (some (merge_value v o)) ≡ merge_value v o
  merge_value_idem (obj s) (some (obj d)) wf = ap obj (
      merge_maps-Absorbs (merge_maps d s) s (
        Absorbs-Holds (merge_maps d s) s wf (λ k v e.
          (find d k, find-merge_maps d s k (AreWellFormed-IsMap s wf) ∙ ap (merged (find d k)) e))))
  merge_value_idem (obj s) o wf = ap obj (
      merge_maps-Absorbs (clone_map s) s (
        Absorbs-Holds (clone_map s) s wf
          (λ k v e. (none, rw (clone_map_lem s, merge_value-none v) e))))
  merge_value_idem v o wf = refl

  Absorbs-Holds : (m src : Fields) → AreWellFormed src → Holds m src → Absorbs m src
  Absorbs-Holds m end wf h = tt
  Absorbs-Holds m (field k v src) wf h =
      let (o, found) = h k v (rw (eq_refl k)) in
      (
        (merge_value v o, found, merge_value_idem v o wf.1),
        Absorbs-Holds m src wf.2 (Holds-tail m src k v wf.0 h),
      )

-- A partial update whose maps have distinct keys at all depths gives, applied twice, what it gives
-- once.
pub merge_maps_idem :
    (dst src : Fields)
    → AreWellFormed src
    → merge_maps (merge_maps dst src) src ≡ merge_maps dst src
merge_maps_idem dst src wf = merge_maps-Absorbs (merge_maps dst src) src (
    Absorbs-Holds (merge_maps dst src) src wf (λ k v e. (
      find dst k,
      find-merge_maps dst src k (AreWellFormed-IsMap src wf) ∙ ap (merged (find dst k)) e,
    )))
