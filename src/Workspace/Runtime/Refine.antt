-- ===== src/Workspace/Runtime/Refine.antt =====
-- The runs of the runtime of internal/workspace/overlays.go are runs of its abstract view.
use mergeway_cli.Prelude.{
  String, Option, none, some, err-ne-ok, ok_inj, ◌≡◌, refl, List, [], ◌∷◌, ◌++◌, ok, ap, sym, ◌∙◌,
  subst, In, here, there,
}
use mergeway_cli.Go.Int.{ℤ}
use mergeway_cli.Go.Map.{get, put, remove}
use mergeway_cli.Workspace.Runtime.{
  OpenDocument, edited, did_change, change_document, Documents, RootIndex, Loader, Runtime,
  new_runtime, did_open, did_close, stop_timer, next_roots, put_all, publish,
}
use mergeway_cli.Workspace.Runtime.Steps.{
  Reload, started, reading, System, Step, opens, changes, closes, fires, flushes, copies, publishes,
  Steps, done, next,
}
use mergeway_cli.Workspace.Runtime.View.{
  extend, View, holding, ViewStep, opened, changed, closed, begins, shows, ViewSteps, stays,
  then_step, ViewSteps-append, initial_view,
}

-- Each running reload has documents that have been held since it began: those that it has copied, or,
-- before it copies, the present ones.
pub data Covers (present : Documents) : List Reload → List (List Documents) → Type 0 where
  nothing : Covers present [] []
  waits :
      {js : List Reload} {win : List Documents} {wins : List (List Documents)}
      → In present win
      → Covers present js wins
      → Covers present (started ∷ js) (win ∷ wins)
  reads :
      {js : List Reload} {docs : Documents} {win : List Documents} {wins : List (List Documents)}
      → In docs win
      → Covers present js wins
      → Covers present (reading docs ∷ js) (win ∷ wins)

Covers-extend :
    {present : Documents} (docs : Documents) {js : List Reload} {wins : List (List Documents)}
    → Covers present js wins
    → Covers docs js (extend docs wins)
unfolding extend
Covers-extend docs nothing = nothing
Covers-extend docs (waits i c) = waits here (Covers-extend docs c)
Covers-extend docs (reads i c) = reads (there i) (Covers-extend docs c)

Covers-copy :
    {present : Documents} (before after : List Reload) {wins : List (List Documents)}
    → Covers present (before ++ started ∷ after) wins
    → Covers present (before ++ reading present ∷ after) wins
Covers-copy [] after (waits i c) = reads i c
Covers-copy (started ∷ before) after (waits i c) = waits i (Covers-copy before after c)
Covers-copy (reading docs ∷ before) after (reads i c) = reads i (Covers-copy before after c)

-- The place of one reload among the running ones.
record Ends (present : Documents) (js : List Reload) (docs : Documents)
    (wins : List (List Documents)) : Type 0 where
  pub before : List (List Documents)
  pub win : List Documents
  pub after : List (List Documents)
  pub place : wins ≡ before ++ win ∷ after
  pub held : In docs win
  pub rest : Covers present js (before ++ after)

Ends-later :
    {present : Documents} {j : Reload} {js : List Reload} {docs : Documents} (win : List Documents)
    {wins : List (List Documents)}
    → ((rest : List (List Documents))
        → Covers present js rest
        → Covers present (j ∷ js) (win ∷ rest))
    → Ends present js docs wins
    → Ends present (j ∷ js) docs (win ∷ wins)
Ends-later win step e = record {
  before = win ∷ e.before;
  win = e.win;
  after = e.after;
  place = ap (λ ws. win ∷ ws) e.place;
  held = e.held;
  rest = step _ e.rest;
}

Covers-Ends :
    {present : Documents} (before after : List Reload) (docs : Documents)
    {wins : List (List Documents)}
    → Covers present (before ++ reading docs ∷ after) wins
    → Ends present (before ++ after) docs wins
Covers-Ends [] after docs (reads {win = win} {wins = wins} i c) = record {
  before = [];
  win = win;
  after = wins;
  place = refl;
  held = i;
  rest = c;
}
Covers-Ends (started ∷ before) after docs (waits {win = win} i c) =
    Ends-later win (λ ws k. waits i k) (Covers-Ends before after docs c)
Covers-Ends (reading d ∷ before) after docs (reads {win = win} i c) =
    Ends-later win (λ ws k. reads i k) (Covers-Ends before after docs c)

module _ (l : Loader) where
  -- The view has the documents and the roots of the runtime, and what its reloads read.
  pub record Views (base : List RootIndex) (c : System l) (v : View l) : Type 0 where
    pub same_base : c.runtime.base ≡ base
    pub same_documents : c.runtime.documents ≡ v.present
    pub same_roots : c.runtime.roots ≡ v.shown
    pub covered : Covers v.present c.reloads v.running

  Outcome : List RootIndex → View l → System l → Type 0
  Outcome base v d = (x : View l) × ViewSteps l base v x × Views base d x

  held_view :
      (base : List RootIndex) (c : System l) (v : View l) (r : Runtime l) (docs : Documents)
      → Views base c v
      → ViewStep l base v (holding l v docs)
      → r.base ≡ c.runtime.base
      → r.roots ≡ c.runtime.roots
      → r.documents ≡ docs
      → Outcome base v (record c { runtime = r })
  unfolding Outcome
  held_view base c v r docs h step b s d = (
    holding l v docs,
    then_step step (stays _),
    record {
      same_base = b ∙ h.same_base;
      same_documents = d;
      same_roots = s ∙ h.same_roots;
      covered = Covers-extend docs h.covered;
    },
  )

  changed_view :
      (base : List RootIndex) (c : System l) (v : View l) (path : String) (version : ℤ)
      (text : String) (o : Option OpenDocument) {r : Runtime l}
      → Views base c v
      → get c.runtime.documents path ≡ o
      → change_document l c.runtime path version text o ≡ ok r
      → Outcome base v (record c { runtime = r })
  changed_view base c v path version text none h g e = absurd (err-ne-ok e)
  changed_view base c v path version text (some doc) {r} h g e =
      held_view base c v r (put v.present path (edited l doc version text)) h
        (changed path version text doc (ap (λ ds. get ds path) (sym h.same_documents) ∙ g))
        (ap (λ q. q.base) (sym (ok_inj e))) (ap (λ q. q.roots) (sym (ok_inj e)))
        (ap (λ q. q.documents) (sym (ok_inj e))
          ∙ ap (λ ds. put ds path (edited l doc version text)) h.same_documents)

  begun :
      (base : List RootIndex) (c : System l) (v : View l)
      → Views base c v
      → Outcome base v (record { runtime = stop_timer l c.runtime; reloads = started ∷ c.reloads })
  unfolding Outcome stop_timer
  begun base c v h = (
    _,
    then_step begins (stays _),
    record {
      same_base = h.same_base;
      same_documents = h.same_documents;
      same_roots = h.same_roots;
      covered = waits here h.covered;
    },
  )

  copied :
      (base : List RootIndex) (c : System l) (v : View l) (before after : List Reload)
      → Views base c v
      → c.reloads ≡ before ++ started ∷ after
      → Outcome base v (record c { reloads = before ++ reading c.runtime.documents ∷ after })
  unfolding Outcome
  copied base c v before after h e = (
    v,
    stays v,
    record {
      same_base = h.same_base;
      same_documents = h.same_documents;
      same_roots = h.same_roots;
      covered =
          subst (λ ds. Covers v.present (before ++ reading ds ∷ after) v.running)
            (sym h.same_documents)
            (Covers-copy before after (subst (λ js. Covers v.present js v.running) e h.covered));
    },
  )

  published :
      (base : List RootIndex) (c : System l) (v : View l) (before after : List Reload)
      (disk : l.Disk) (docs : Documents)
      → Views base c v
      → c.reloads ≡ before ++ reading docs ∷ after
      → Outcome base v (record {
        runtime = publish l c.runtime (next_roots l disk docs c.runtime.base []);
        reloads = before ++ after;
      })
  unfolding Outcome publish
  published base c v before after disk docs h e =
      let k =
        Covers-Ends before after docs (subst (λ js. Covers v.present js v.running) e h.covered) in
      (
        record {
          present = v.present;
          running = k.before ++ k.after;
          shown = put_all l v.shown (next_roots l disk docs base []);
        },
        then_step (shows disk k.before k.win k.after docs k.place k.held) (stays _),
        record {
          same_base = h.same_base;
          same_documents = h.same_documents;
          same_roots =
              ap (λ m. put_all l m (next_roots l disk docs c.runtime.base [])) h.same_roots
              ∙ ap (λ is. put_all l v.shown (next_roots l disk docs is [])) h.same_base;
          covered = k.rest;
        },
      )

  Step-Views :
      (base : List RootIndex) {c d : System l} (v : View l)
      → Views base c v
      → Step l c d
      → Outcome base v d
  unfolding did_open did_close did_change
  Step-Views base {c} v h (opens doc) =
      held_view base c v (did_open l c.runtime doc) (put v.present doc.path doc) h (opened doc) refl
        refl (ap (λ ds. put ds doc.path doc) h.same_documents)
  Step-Views base {c} v h (closes path) =
      held_view base c v (did_close l c.runtime path) (remove v.present path) h (closed path) refl
        refl (ap (λ ds. remove ds path) h.same_documents)
  Step-Views base {c} v h (changes path version text e) =
      changed_view base c v path version text (get c.runtime.documents path) h refl e
  Step-Views base {c} v h (fires a) = begun base c v h
  Step-Views base {c} v h flushes = begun base c v h
  Step-Views base {c} v h (copies before after e) = copied base c v before after h e
  Step-Views base {c} v h (publishes before after disk docs e) =
      published base c v before after disk docs h e

  Steps-Views :
      (base : List RootIndex) {c d : System l} (v : View l)
      → Views base c v
      → Steps l c d
      → Outcome base v d
  unfolding Outcome
  Steps-Views base v h (done c) = (v, stays v, h)
  Steps-Views base v h (next s r) =
      let (x, a, h') = Step-Views base v h s in
      let (y, b, k) = Steps-Views base x h' r in (y, ViewSteps-append l base a b, k)

  -- Each run of a new runtime, with any number of overlapping reloads, is a run of a view in which
  -- editors open, change and close documents and a reload, when it ends, changes the roots to what is
  -- loaded for documents that have been held between its beginning and its end; the view has the
  -- documents and the roots of the runtime.
  pub run-Views :
      (base : List RootIndex) {c : System l}
      → Steps l (record { runtime = new_runtime l base; reloads = [] }) c
      → (v : View l) × ViewSteps l base (initial_view l base) v × Views base c v
  unfolding Outcome new_runtime
  run-Views base r =
      Steps-Views base (initial_view l base)
        (record { same_base = refl; same_documents = refl; same_roots = refl; covered = nothing }) r
