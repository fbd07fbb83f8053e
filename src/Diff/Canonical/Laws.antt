-- ===== src/Diff/Canonical/Laws.antt =====
-- What the canonical text of a value forgets: the order of a list's items.
use Prim.Native.String
use text.Mathlib.TextLemmas.{append_assoc}
use mathlib.Core.List.{Permᴰ}
use mergeway_cli.Prelude.{
  String, ◌≡◌, refl, true, false, List, [], ◌∷◌, ◌==◌, text-cases, inl, inr, subst, Result, ok, ap,
  sym, ◌∙◌, arith, eq_refl, >>=-eq-ok, ok_inj,
}
use mergeway_cli.Go.Map.{get}
use mergeway_cli.Go.Order.{
  text_lt, text_lt_irrefl, text_lt_asymm, insert, sort_strings, sort_strings-Permᴰ,
}
use mergeway_cli.Go.Text.{join}
use mergeway_cli.Value.Defs.{Value, obj, arr, Items, nil, cons, end, field}
use mergeway_cli.Value.Maps.{items}
use mergeway_cli.Diff.Canonical.{
  MarshalError, brackets, key_parts, canonical, canonical_items, semantic_values_equal,
}

module _ (marshal : Value → Result MarshalError String) where
  -- A value whose canonical text exists equals itself.
  pub semantic_values_equal_refl :
      (v : Value) {c : String}
      → canonical marshal v ≡ ok c
      → semantic_values_equal marshal v v ≡ ok true
  unfolding semantic_values_equal
  semantic_values_equal_refl v {c} h = rw (h, eq_refl c) refl

  semantic_values_equal_of :
      (v w : Value) {c : String}
      → canonical marshal v ≡ ok c
      → canonical marshal w ≡ ok c
      → semantic_values_equal marshal v w ≡ ok true
  unfolding semantic_values_equal
  semantic_values_equal_of v w {c = c} h k = rw (h, k, eq_refl c) refl

  -- The comparison is the equality of canonical texts.
  pub semantic_values_equal_lem :
      (v w : Value) {c d : String}
      → canonical marshal v ≡ ok c
      → canonical marshal w ≡ ok d
      → semantic_values_equal marshal v w ≡ ok (c == d)
  unfolding semantic_values_equal
  semantic_values_equal_lem v w h k = rw (h, k) refl

  -- The canonical texts of a list of values.
  data AllCanonical : List Value → List String → Type 0 where
    empty : AllCanonical [] []
    more :
        {v : Value} {c : String} {vs : List Value} {cs : List String}
        → canonical marshal v ≡ ok c
        → AllCanonical vs cs
        → AllCanonical (v ∷ vs) (c ∷ cs)

  canonical_items-All :
      (vs : Items) {cs : List String}
      → canonical_items marshal vs ≡ ok cs
      → AllCanonical (items vs) cs
  unfolding canonical
  canonical_items-All nil h = subst (AllCanonical []) (ok_inj h) empty
  canonical_items-All (cons v vs) h =
      let (c, e, h1) = >>=-eq-ok (canonical marshal v) _ h in
      let (cs, f, h2) = >>=-eq-ok (canonical_items marshal vs) _ h1 in
      subst (AllCanonical (v ∷ items vs)) (ok_inj h2) (more e (canonical_items-All vs f))

  All-canonical_items :
      (vs : Items) {cs : List String}
      → AllCanonical (items vs) cs
      → canonical_items marshal vs ≡ ok cs
  unfolding canonical
  All-canonical_items nil empty = refl
  All-canonical_items (cons v vs) (more e a) = rw (e, All-canonical_items vs a) refl

  permuted :
      {vs ws : List Value} {cs : List String}
      → Permᴰ vs ws
      → AllCanonical vs cs
      → (ds : List String) × AllCanonical ws ds × Permᴰ cs ds
  permuted Permᴰ.nil empty = ([], empty, Permᴰ.nil)
  permuted (Permᴰ.cons e p) (more {c} h a) =
      let (ds, b, q) = permuted p a in
      (c ∷ ds, more (ap (canonical marshal) (sym e) ∙ h) b, Permᴰ.cons refl q)
  permuted (Permᴰ.swap e f) (more {c} h (more {c = d} {cs} k a)) = (
    d ∷ c ∷ cs,
    more (ap (canonical marshal) (sym f) ∙ k) (more (ap (canonical marshal) (sym e) ∙ h) a),
    Permᴰ.swap refl refl,
  )
  permuted (Permᴰ.trans p q) a =
      let (ds, b, r) = permuted p a in let (es, c, t) = permuted q b in (es, c, Permᴰ.trans r t)

  -- A list has the canonical text of every list of the same items in another order.
  pub canonical-Perm :
      (vs ws : Items) {c : String}
      → Permᴰ (items vs) (items ws)
      → canonical marshal (arr vs) ≡ ok c
      → canonical marshal (arr ws) ≡ ok c
  unfolding canonical
  canonical-Perm vs ws p h =
      let (cs, e, h1) = >>=-eq-ok (canonical_items marshal vs) _ h in
      let (ds, b, q) = permuted p (canonical_items-All vs e) in
      rw (All-canonical_items ws b, ← (sort_strings-Permᴰ q)) h1

abbrev pair_text : String → String → String
pair_text key child = String.◌++◌ key (String.◌++◌ ":" child)

-- the text of the key under which two entries are written as one
abbrev pub joined_key : String → String → String → String
joined_key k c j = String.◌++◌ k (String.◌++◌ ":" (String.◌++◌ c (String.◌++◌ "," j)))

joined_text :
    (k c j d : String)
    → pair_text (joined_key k c j) d ≡ String.◌++◌ (pair_text k c) (String.◌++◌ "," (pair_text j d))
joined_text k c j d = simp append_assoc

lt-not-eq : (k j : String) → text_lt k j ≡ true → (k == j) ≡ false
lt-not-eq k j h = elim (text-cases k j) [
  | inr n ↦ n
  | inl e ↦ absurd (ground (arith, ap (text_lt k) e, text_lt_irrefl k, h))
]

module _ (marshal : Value → Result MarshalError String) where
  canonical_two :
      (k j : String) (v w : Value) {c d : String}
      → text_lt k j ≡ true
      → canonical marshal v ≡ ok c
      → canonical marshal w ≡ ok d
      → canonical marshal (obj (field k v (field j w end)))
        ≡ ok (brackets "{" "}" (String.◌++◌ (pair_text k c) (String.◌++◌ "," (pair_text j d))))
  unfolding canonical key_parts sort_strings insert get join
  canonical_two k j v w lt hv hw =
      rw (text_lt_asymm k j lt, eq_refl k, lt-not-eq k j lt, eq_refl j, hv, hw) refl

  canonical_one :
      (k : String) (v : Value) {c : String}
      → canonical marshal v ≡ ok c
      → canonical marshal (obj (field k v end)) ≡ ok (brackets "{" "}" (pair_text k c))
  unfolding canonical key_parts sort_strings insert get join
  canonical_one k v hv = rw (eq_refl k, hv) refl

  -- The keys of a map stand in its canonical text unquoted: the comparison takes a map with the keys
  -- `k` and `j`, where `k` is the smaller, for equal to the map with the single key `k:c,j` and the
  -- value of `j`, where `c` is the canonical text of the value of `k`.
  pub semantic_values_equal_collision :
      (k j : String) (v w : Value) {c d : String}
      → text_lt k j ≡ true
      → canonical marshal v ≡ ok c
      → canonical marshal w ≡ ok d
      → semantic_values_equal marshal
          (obj (field k v (field j w end)))
          (obj (field (joined_key k c j) w end))
        ≡ ok true
  semantic_values_equal_collision k j v w {c} {d} lt hv hw =
      let two = canonical_two k j v w lt hv hw in
      semantic_values_equal_of marshal _ _ two (
        canonical_one (joined_key k c j) w hw
        ∙ ap (λ t. ok (brackets "{" "}" t)) (joined_text k c j d))
