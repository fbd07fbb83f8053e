-- ===== src/Store/Operations/Create/Writes.antt =====
-- What a `Create` of internal/data/store_ops.go writes: the new object, alone or as an item.
use mergeway_cli.Prelude.{
  String, ◌≡◌, true, false, Option, some, ok, [], ◌∷◌, ◌++◌, inl, inr, Bool-cases, if_true,
  if_false, ap, ◌∙◌, subst,
}
use mergeway_cli.Value.Defs.{arr, Fields}
use mergeway_cli.Value.Maps.{find, find-set}
use mergeway_cli.Config.Model.{TypeDefinition}
use mergeway_cli.Store.Defs.{MaybeMap, contents, FileContent, Object, CreateTarget, Env, IsLawful}
use mergeway_cli.Store.Files.{payload, item_values}
use mergeway_cli.Store.Load.Laws.{clone_maybe_lem}
use mergeway_cli.Store.Operations.{content_or_new, with_item, create}
use mergeway_cli.Store.Operations.Create.{
  Created, create-Created, Holds, written_format, written_map, payload_single, create-Holds_of,
}

module _ (w : Env) where
  -- The items that are written end with the new one.
  payload_several-items :
      (fc : FileContent) (path : String) (m : MaybeMap)
      → fc.multi ≡ true
      → find (payload w (with_item w fc path m)) "items"
        ≡ some (arr (item_values w (fc.items ++ contents m ∷ [])))
  unfolding payload
  payload_several-items fc path m n =
      ap (λ p. find p "items") (if_true fc.multi _ _ n)
      ∙ (find-set _ "items" "items" _
          ∙ ap (λ x. some (arr (item_values w (fc.items ++ contents x ∷ [])))) (clone_maybe_lem m))

  -- What the chosen file holds after a `Create`: the new object's map alone; the content that it had,
  -- or new content, with the map as the last of its items; or, for a file that holds a single object
  -- where several are expected, the old object and not the new one.
  pub data Writes (s : w.State) (t : TypeDefinition) (target : CreateTarget)
      (doc : Option FileContent) (m : MaybeMap) : Type 0 where
    alone : target.multi ≡ false → Holds w s target.path target.format m → Writes s t target doc m
    added :
        (p : Fields)
        → target.multi ≡ true
        → (content_or_new w t target doc).multi ≡ true
        → find p "items"
          ≡ some (arr (item_values w ((content_or_new w t target doc).items ++ contents m ∷ [])))
        → Holds w s target.path (content_or_new w t target doc).format (some p)
        → Writes s t target doc m
    dropped :
        target.multi ≡ true
        → (content_or_new w t target doc).multi ≡ false
        → Holds w s target.path
            (content_or_new w t target doc).format
            (some (payload w (content_or_new w t target doc)))
        → Writes s t target doc m

  several-Writes :
      (s : w.State) (t : TypeDefinition) (target : CreateTarget) (doc : Option FileContent)
      (m : MaybeMap)
      → target.multi ≡ true
      → Holds w s target.path
          (content_or_new w t target doc).format
          (some (payload w (with_item w (content_or_new w t target doc) target.path m)))
      → Writes s t target doc m
  several-Writes s t target doc m b h =
      let fc = content_or_new w t target doc in
      elim (Bool-cases fc.multi) [
        | inl c ↦
            added (payload w (with_item w fc target.path m)) b c
              (payload_several-items fc target.path m c) h
        | inr c ↦ dropped b c (
            subst (λ p. Holds w s target.path fc.format (some p))
              (payload_single w fc target.path m c) h)
      ]

  Holds-Writes :
      (s : w.State) (t : TypeDefinition) (target : CreateTarget) (doc : Option FileContent)
      (m : MaybeMap)
      → Holds w s target.path (written_format w t target doc) (written_map w t target doc m)
      → Writes s t target doc m
  Holds-Writes s t target doc m h = elim (Bool-cases target.multi) [
    | inl b ↦ several-Writes s t target doc m b (
        subst
          (λ f.
            Holds w s target.path f
              (some (payload w (with_item w (content_or_new w t target doc) target.path m))))
          (if_true target.multi _ _ b)
          (subst (λ x. Holds w s target.path (written_format w t target doc) x)
            (if_true target.multi _ _ b) h))
    | inr b ↦ alone b (
        subst (λ f. Holds w s target.path f m) (if_false target.multi _ _ b)
          (subst (λ x. Holds w s target.path (written_format w t target doc) x)
            (if_false target.multi _ _ b) h))
  ]

  -- Where a text that is written is read back, a removed file is missing and no operation changes what
  -- other paths read: a `Create` that succeeds has chosen a file, and that file holds the encoding
  -- of the new object's map alone, or, for a target of several objects, of a map whose items are
  -- those of the content that it had, or of new content, and then the new map. Where such a target
  -- is a file that holds a single object, it holds the encoding of that object, and the new one is
  -- not written.
  pub create-Writes :
      (s : w.State) (type_name : String) (fields : MaybeMap) {o : Object}
      → IsLawful w
      → (create w s type_name fields).1 ≡ ok o
      → (c : Created w s type_name fields (create w s type_name fields)) × Writes
          (create w s type_name fields).0
          c.type_def
          c.target
          c.doc
          c.map
  create-Writes s type_name fields laws h =
      let c = create-Created w s type_name fields h in
      (
        c,
        Holds-Writes _ c.type_def c.target c.doc c.map
            (create-Holds_of w s type_name fields laws h c),
      )
