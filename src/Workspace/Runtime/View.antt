-- ===== src/Workspace/Runtime/View.antt =====
-- What the runtime of internal/workspace/overlays.go promises of its roots, without the lock, the timer
-- and the copies of the documents: editors open, change and close documents, and a reload shows the
-- roots for documents that have been held since it began.
use mergeway_cli.Prelude.{String, some, ◌≡◌, List, [], ◌∷◌, ◌++◌, In}
use mergeway_cli.Go.Int.{ℤ}
use mergeway_cli.Go.Map.{Map, get, put, remove}
use mergeway_cli.Workspace.Runtime.{
  OpenDocument, edited, Documents, RootIndex, Loader, RootRuntime, next_roots, put_all, new_runtime,
}

-- The new documents are held while each of the running reloads runs.
unfoldable pub extend : Documents → List (List Documents) → List (List Documents)
extend docs [] = []
extend docs (win ∷ wins) = (docs ∷ win) ∷ extend docs wins

module _ (l : Loader) where
  -- The documents, for each running reload the documents that have been held since it began, and the
  -- roots that are shown.
  pub record View : Type 0 where
    pub present : Documents
    pub running : List (List Documents)
    pub shown : Map (RootRuntime l)

  abbrev pub holding : View → Documents → View
  holding v docs = record { present = docs; running = extend docs v.running; shown = v.shown }

  pub data ViewStep (base : List RootIndex) (v : View) : View → Type 0 where
    opened : (doc : OpenDocument) → ViewStep base v (holding v (put v.present doc.path doc))
    changed :
        (path : String) (version : ℤ) (text : String) (doc : OpenDocument)
        → get v.present path ≡ some doc
        → ViewStep base v (holding v (put v.present path (edited l doc version text)))
    closed : (path : String) → ViewStep base v (holding v (remove v.present path))
    begins :
        ViewStep base v
          (record { present = v.present; running = (v.present ∷ []) ∷ v.running; shown = v.shown })
    -- a reload ends, and shows the roots for documents that have been held since it began
    shows :
        (disk : l.Disk) (before : List (List Documents)) (win : List Documents)
        (after : List (List Documents)) (docs : Documents)
        → v.running ≡ before ++ win ∷ after
        → In docs win
        → ViewStep base v (record {
          present = v.present;
          running = before ++ after;
          shown = put_all l v.shown (next_roots l disk docs base []);
        })

  pub data ViewSteps (base : List RootIndex) : View → View → Type 0 where
    stays : (v : View) → ViewSteps base v v
    then_step : {u v x : View} → ViewStep base u v → ViewSteps base v x → ViewSteps base u x

  pub ViewSteps-append :
      (base : List RootIndex) {u v x : View}
      → ViewSteps base u v
      → ViewSteps base v x
      → ViewSteps base u x
  ViewSteps-append base (stays v) t = t
  ViewSteps-append base (then_step s r) t = then_step s (ViewSteps-append base r t)

  abbrev pub initial_view : List RootIndex → View
  initial_view base = record { present = []; running = []; shown = (new_runtime l base).roots }
