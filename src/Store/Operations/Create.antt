-- ===== src/Store/Operations/Create.antt =====
-- What `Create` leaves in the file that it chooses.
pub mod Writes
use mergeway_cli.Prelude.{
  String, ◌≡◌, refl, Bool, true, false, not, Option, some, Result, ok, err, err-ne-ok, ◌==◌,
  if◌then◌else◌, [], ◌∷◌, ◌++◌, inl, inr, Bool-cases, if_true, if_false, ap, sym, ◌∙◌, subst,
}
use mergeway_cli.Value.Defs.{Value, arr, Fields}
use mergeway_cli.Value.Maps.{find, find-set}
use mergeway_cli.Config.Model.{TypeDefinition}
use mergeway_cli.Store.Defs.{
  MaybeMap, contents, FileFormat, FileContent, Object, CreateTarget, StoreError,
  declares_other_type, Env, IsLawful, require_type,
}
use mergeway_cli.Store.Derived.{clean_fields_for_type}
use mergeway_cli.Store.Files.{
  Outcome, and_then, reading, load_file, write_single, write_file, payload, item_values,
  choose_create_target,
}
use mergeway_cli.Store.Files.Laws.{write_single-ok}
use mergeway_cli.Store.Load.{unless_gone}
use mergeway_cli.Store.Load.Laws.{clone_maybe_lem}
use mergeway_cli.Store.Operations.Frame.{written_state}
use mergeway_cli.Store.Operations.{
  returned, content_or_new, with_item, create_in, create_at, new_identifier, with_identifier,
  create,
}

module _ (w : Env) where
  -- To prove something of a step that succeeds in the end, take the step's own result.
  pub reading-elim :
      {A B : Type 0} (P : Outcome w.State B → Type 0) (s : w.State) (r : Result StoreError A)
      (f : A → Outcome w.State B) {b : B}
      → ((a : A) → r ≡ ok a → (f a).1 ≡ ok b → P (f a))
      → (reading s r f).1 ≡ ok b
      → P (reading s r f)
  reading-elim P s (ok a) f step h = step a refl h
  reading-elim P s (err e) f step h = absurd (err-ne-ok h)

  -- A write that succeeds before a step that only reads.
  pub written-ok :
      (o : Outcome w.State (Unit {0})) (t : TypeDefinition) (id path : String) (m : MaybeMap)
      {b : Object}
      → (and_then o λ written u. returned w t id path m written).1 ≡ ok b
      → o.1 ≡ ok tt
  written-ok (s, ok tt) t id path m h = refl
  written-ok (s, err e) t id path m h = absurd (err-ne-ok h)

  -- A `Create` that succeeds: each of its steps, and its outcome.
  pub record Created (s : w.State) (type_name : String) (fields : MaybeMap)
      (o : Outcome w.State Object) : Type 0 where
    pub type_def : TypeDefinition
    pub identifier : String × Value
    pub target : CreateTarget
    pub doc : Option FileContent
    pub map : MaybeMap
    pub known : require_type w.config type_name ≡ ok type_def
    pub new : new_identifier w s type_name type_def fields ≡ ok identifier
    pub chosen : choose_create_target w type_def identifier.0 ≡ ok target
    pub loaded : unless_gone w (load_file w s target.path type_def.name "") ≡ ok doc
    pub named :
        with_identifier w type_def identifier.1 (clean_fields_for_type type_def fields) ≡ ok map
    pub ends : o ≡ create_at w type_def target identifier.0 map doc s

  pub create-Created :
      (s : w.State) (type_name : String) (fields : MaybeMap) {o : Object}
      → (create w s type_name fields).1 ≡ ok o
      → Created s type_name fields (create w s type_name fields)
  unfolding create
  create-Created s type_name fields h =
      let P = Created s type_name fields in
      reading-elim P s (require_type w.config type_name) _
        (λ t k. reading-elim P s (new_identifier w s type_name t fields) _ (λ p n.
          reading-elim P s (choose_create_target w t p.0) _ (λ target c.
            reading-elim P s (unless_gone w (load_file w s target.path t.name "")) _ (λ doc l.
              reading-elim P s (with_identifier w t p.1 (clean_fields_for_type t fields)) _
                (λ m i e. record {
                  type_def = t;
                  identifier = p;
                  target = target;
                  doc = doc;
                  map = m;
                  known = k;
                  new = n;
                  chosen = c;
                  loaded = l;
                  named = i;
                  ends = refl;
                })))))
        h

  -- What is written: the map itself, or the content of the file with the map as one more item.
  abbrev pub written_format : TypeDefinition → CreateTarget → Option FileContent → FileFormat
  written_format t target doc =
      if target.multi then (content_or_new w t target doc).format else target.format

  abbrev pub written_map : TypeDefinition → CreateTarget → Option FileContent → MaybeMap → MaybeMap
  written_map t target doc m =
      if target.multi
      then some (payload w (with_item w (content_or_new w t target doc) target.path m))
      else m

  -- The file holds the map, in the format.
  abbrev pub Holds : w.State → String → FileFormat → MaybeMap → Type 0
  Holds s path format m =
      (text : String) × (w.encode format m ≡ ok text) × (w.read_file s path ≡ ok text)

  pub write_file-ok :
      (s : w.State) (p : String) (fc : FileContent)
      → IsLawful w
      → (write_file w s p fc).1 ≡ ok tt
      → Holds (write_file w s p fc).0 p fc.format (some (payload w fc))
  unfolding write_file
  write_file-ok s p fc laws h = write_single-ok w s p fc.format (some (payload w fc)) laws h

  written-Holds :
      (o : Outcome w.State (Unit {0})) (t : TypeDefinition) (id path : String) (m : MaybeMap)
      (format : FileFormat) (content : MaybeMap)
      → Holds o.0 path format content
      → Holds (and_then o λ written u. returned w t id path m written).0 path format content
  written-Holds o t id path m format content h =
      subst (λ r. Holds r path format content) (sym (written_state w o t id path m)) h

  create_at-Holds :
      (t : TypeDefinition) (target : CreateTarget) (id : String) (m : MaybeMap)
      (doc : Option FileContent) (s : w.State) {o : Object}
      → IsLawful w
      → (create_at w t target id m doc s).1 ≡ ok o
      → Holds
          (create_at w t target id m doc s).0
          target.path
          (written_format t target doc)
          (written_map t target doc m)
  unfolding create_at
  create_at-Holds t target id m doc s laws h = at target.multi h
    where
      fc : FileContent
      fc = content_or_new w t target doc

      single : Outcome w.State Object
      single =
          and_then (write_single w s target.path target.format m)
            λ written u. returned w t id target.path m written

      several-Holds :
          (b : Bool) {o : Object}
          → (if not b
              then (s, err (declares_other_type target.path fc.type_name t.name))
              else and_then
                  (write_file w s target.path (with_item w fc target.path m))
                  λ written u. returned w t id target.path m written).1
            ≡ ok o
          → Holds
              (if not b
                then (s, err (declares_other_type target.path fc.type_name t.name))
                else and_then
                    (write_file w s target.path (with_item w fc target.path m))
                    λ written u. returned w t id target.path m written).0
              target.path
              fc.format
              (some (payload w (with_item w fc target.path m)))
      several-Holds false h = absurd (err-ne-ok h)
      several-Holds true h =
          written-Holds (write_file w s target.path (with_item w fc target.path m)) t id target.path
            m _ _
            (write_file-ok s target.path (with_item w fc target.path m) laws (
              written-ok (write_file w s target.path (with_item w fc target.path m)) t id
                target.path m h))

      at :
          (b : Bool) {o : Object}
          → (if b then create_in w t target id m fc s else single).1 ≡ ok o
          → Holds
              (if b then create_in w t target id m fc s else single).0
              target.path
              (if b then fc.format else target.format)
              (if b then some (payload w (with_item w fc target.path m)) else m)
      at true h = several-Holds (fc.type_name == t.name) h
      at false h =
          written-Holds (write_single w s target.path target.format m) t id target.path m _ _ (
            write_single-ok w s target.path target.format m laws
              (written-ok (write_single w s target.path target.format m) t id target.path m h))

  pub create-Holds_of :
      (s : w.State) (type_name : String) (fields : MaybeMap) {o : Object}
      → IsLawful w
      → (create w s type_name fields).1 ≡ ok o
      → (c : Created s type_name fields (create w s type_name fields))
      → Holds
          (create w s type_name fields).0
          c.target.path
          (written_format c.type_def c.target c.doc)
          (written_map c.type_def c.target c.doc c.map)
  create-Holds_of s type_name fields laws h c =
      subst
        (λ r.
          Holds r.0 c.target.path (written_format c.type_def c.target c.doc)
            (written_map c.type_def c.target c.doc c.map))
        (sym c.ends)
        (create_at-Holds c.type_def c.target c.identifier.0 c.map c.doc s laws
          (sym (ap (λ r. r.1) c.ends) ∙ h))

  pub payload_single :
      (fc : FileContent) (path : String) (m : MaybeMap)
      → fc.multi ≡ false
      → payload w (with_item w fc path m) ≡ payload w fc
  unfolding payload
  payload_single fc path m n = if_false fc.multi _ _ n ∙ sym (if_false fc.multi _ _ n)
