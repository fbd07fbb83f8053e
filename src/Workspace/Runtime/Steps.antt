-- ===== src/Workspace/Runtime/Steps.antt =====
-- The runs of the runtime of internal/workspace/overlays.go: calls, the timer, and reloads that read
-- the documents under the lock, load without it and publish under it again.
use mergeway_cli.Prelude.{String, ◌≡◌, true, List, [], ◌∷◌, ◌++◌, ok}
use mergeway_cli.Go.Int.{ℤ}
use mergeway_cli.Workspace.Runtime.{
  OpenDocument, Documents, Loader, Runtime, did_open, did_change, did_close, stop_timer, next_roots,
  publish,
}

-- A call of `reload` that has not ended: one that has still to take the lock, or one that has its copy
-- of the documents.
pub data Reload : Type 0 where
  started : Reload
  reading : Documents → Reload

module _ (l : Loader) where
  pub record System : Type 0 where
    pub runtime : Runtime l
    pub reloads : List Reload

  pub data Step (c : System) : System → Type 0 where
    opens : (doc : OpenDocument) → Step c (record c { runtime = did_open l c.runtime doc })
    changes :
        (path : String) (version : ℤ) (text : String) {r : Runtime l}
        → did_change l c.runtime path version text ≡ ok r
        → Step c (record c { runtime = r })
    closes : (path : String) → Step c (record c { runtime = did_close l c.runtime path })
    -- the timer starts its function
    fires :
        c.runtime.armed ≡ true
        → Step c (record { runtime = stop_timer l c.runtime; reloads = started ∷ c.reloads })
    -- `FlushReload`
    flushes : Step c (record { runtime = stop_timer l c.runtime; reloads = started ∷ c.reloads })
    -- a reload copies the documents
    copies :
        (before after : List Reload)
        → c.reloads ≡ before ++ started ∷ after
        → Step c (record c { reloads = before ++ reading c.runtime.documents ∷ after })
    -- a reload publishes what it has loaded, and ends
    publishes :
        (before after : List Reload) (disk : l.Disk) (docs : Documents)
        → c.reloads ≡ before ++ reading docs ∷ after
        → Step c (record {
          runtime = publish l c.runtime (next_roots l disk docs c.runtime.base []);
          reloads = before ++ after;
        })

  pub data Steps : System → System → Type 0 where
    done : (c : System) → Steps c c
    next : {c d e : System} → Step c d → Steps d e → Steps c e

  pub Steps-append : {c d e : System} → Steps c d → Steps d e → Steps c e
  Steps-append (done c) t = t
  Steps-append (next s r) t = next s (Steps-append r t)
