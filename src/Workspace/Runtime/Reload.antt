-- ===== src/Workspace/Runtime/Reload.antt =====
-- What the reloads of the runtime leave in its roots.
use mergeway_cli.Prelude.{
  String, ◌≡◌, refl, true, false, some, ok, List, [], ◌∷◌, ◌==◌, arith, eq_iff, eq_refl, sym, ◌∙◌,
  subst, inl, inr, Bool-cases, if_true, if_false, In, here, there, member, Distinct,
}
use mergeway_cli.Go.Int.{ℤ}
use mergeway_cli.Go.Map.{Map, get, put, get-put}
use mergeway_cli.Workspace.Runtime.{
  OpenDocument, Documents, RootIndex, Loader, RootRuntime, Runtime, edited, did_change, stop_timer,
  root_state, next_roots, put_all, publish,
}
use mergeway_cli.Workspace.Runtime.Steps.{
  Reload, started, reading, System, changes, fires, flushes, copies, publishes, Steps, done, next,
  Steps-append,
}

abbrev pub names : List RootIndex → List String
names [] = []
names (i ∷ is) = i.root ∷ names is

In-names : (is : List RootIndex) (i : RootIndex) → In i is → member (names is) i.root ≡ true
unfolding member
In-names [] i h = elim h [ ]
In-names (j ∷ is) i here = ground (arith, eq_refl i.root)
In-names (j ∷ is) i (there h) = ground (arith, In-names is i h)

module _ (l : Loader) where
  -- Each root has the state that a reload of the documents gives it, with what the files hold.
  abbrev pub Reflects : l.Disk → Documents → Runtime l → Type 0
  Reflects disk docs r =
      (i : RootIndex) → In i r.base → get r.roots i.root ≡ some (root_state l disk docs i)

  next_roots_other :
      (disk : l.Disk) (docs : Documents) (is : List RootIndex) (m : Map (RootRuntime l))
      (k : String)
      → member (names is) k ≡ false
      → get (next_roots l disk docs is m) k ≡ get m k
  unfolding next_roots member
  next_roots_other disk docs [] m k h = refl
  next_roots_other disk docs (i ∷ is) m k h =
      next_roots_other disk docs is (put m i.root (root_state l disk docs i)) k (ground (arith, h))
      ∙ (get-put m i.root k (root_state l disk docs i)
          ∙ if_false (i.root == k) _ _ (ground (arith, h, eq_iff i.root k)))

  next_roots-get :
      (disk : l.Disk) (docs : Documents) (is : List RootIndex) (m : Map (RootRuntime l))
      (i : RootIndex)
      → Distinct (names is)
      → In i is
      → get (next_roots l disk docs is m) i.root ≡ some (root_state l disk docs i)
  unfolding next_roots
  next_roots-get disk docs [] m i d h = elim h [ ]
  next_roots-get disk docs (j ∷ is) m i d here =
      next_roots_other disk docs is (put m i.root (root_state l disk docs i)) i.root d.0
      ∙ (get-put m i.root i.root (root_state l disk docs i)
          ∙ if_true (i.root == i.root) _ _ (eq_refl i.root))
  next_roots-get disk docs (j ∷ is) m i d (there h) =
      next_roots-get disk docs is (put m j.root (root_state l disk docs j)) i d.1 h

  put_all-get :
      (roots new : Map (RootRuntime l)) (k : String) {s : RootRuntime l}
      → get new k ≡ some s
      → get (put_all l roots new) k ≡ some s
  unfolding get
  put_all-get roots [] k h = absurd (cc)
  put_all-get roots ((name, state) ∷ new) k h = elim (Bool-cases (name == k)) [
    | inl e ↦
        get-put (put_all l roots new) name k state
        ∙ (if_true (name == k) _ _ e ∙ (sym (if_true (name == k) _ _ e) ∙ h))
    | inr e ↦
        get-put (put_all l roots new) name k state
        ∙ (if_false (name == k) _ _ e
            ∙ put_all-get roots new k (sym (if_false (name == k) _ _ e) ∙ h))
  ]

  publish-Reflects :
      (disk : l.Disk) (docs : Documents) (r : Runtime l)
      → Distinct (names r.base)
      → Reflects disk docs (publish l r (next_roots l disk docs r.base []))
  unfolding publish
  publish-Reflects disk docs r d i h =
      put_all-get r.roots (next_roots l disk docs r.base []) i.root
        (next_roots-get disk docs r.base [] i d h)

  -- The runtime after the running reloads have ended, one after the other.
  drained : l.Disk → Runtime l → List Reload → Runtime l
  drained disk r [] = r
  drained disk r (started ∷ js) =
      drained disk (publish l r (next_roots l disk r.documents r.base [])) js
  drained disk r (reading docs ∷ js) =
      drained disk (publish l r (next_roots l disk docs r.base [])) js

  drained-base :
      (disk : l.Disk) (r : Runtime l) (js : List Reload) → (drained disk r js).base ≡ r.base
  unfolding drained publish
  drained-base disk r [] = refl
  drained-base disk r (started ∷ js) =
      drained-base disk (publish l r (next_roots l disk r.documents r.base [])) js
  drained-base disk r (reading docs ∷ js) =
      drained-base disk (publish l r (next_roots l disk docs r.base [])) js

  drained-documents :
      (disk : l.Disk) (r : Runtime l) (js : List Reload)
      → (drained disk r js).documents ≡ r.documents
  unfolding drained publish
  drained-documents disk r [] = refl
  drained-documents disk r (started ∷ js) =
      drained-documents disk (publish l r (next_roots l disk r.documents r.base [])) js
  drained-documents disk r (reading docs ∷ js) =
      drained-documents disk (publish l r (next_roots l disk docs r.base [])) js

  abbrev system : Runtime l → List Reload → System l
  system r js = record { runtime = r; reloads = js }

  drains :
      (disk : l.Disk) (r : Runtime l) (js : List Reload)
      → Steps l (system r js) (system (drained disk r js) [])
  unfolding drained
  drains disk r [] = done (system r [])
  drains disk r (started ∷ js) = next (copies [] js refl) (
      next (publishes [] js disk r.documents refl)
        (drains disk (publish l r (next_roots l disk r.documents r.base [])) js))
  drains disk r (reading docs ∷ js) =
      next (publishes [] js disk docs refl)
        (drains disk (publish l r (next_roots l disk docs r.base [])) js)

  -- For a base with distinct roots: from each state of the runtime there are steps to one with the same
  -- documents, no running reload and the timer not armed, in which each root of the base has the state
  -- that a reload of these documents gives it.
  pub flush-Reflects :
      (c : System l) (disk : l.Disk)
      → Distinct (names c.runtime.base)
      → (d : System l) × Steps l c d
        × (d.reloads ≡ [])
        × (d.runtime.armed ≡ false)
        × (d.runtime.documents ≡ c.runtime.documents)
        × Reflects disk c.runtime.documents d.runtime
  unfolding publish stop_timer
  flush-Reflects c disk d =
      let r = stop_timer l (drained disk c.runtime c.reloads) in
      let same = drained-documents disk c.runtime c.reloads in
      (
        system (publish l r (next_roots l disk r.documents r.base [])) [],
        Steps-append l (drains disk c.runtime c.reloads) (
            next flushes
              (next (copies [] [] refl) (next (publishes [] [] disk r.documents refl) (done _)))),
        refl,
        refl,
        same,
        subst (λ docs. Reflects disk docs (publish l r (next_roots l disk r.documents r.base [])))
            same
            (publish-Reflects disk r.documents r
              (subst (λ is. Distinct (names is)) (sym (drained-base disk c.runtime c.reloads)) d)),
      )

  did_change-ok :
      (r : Runtime l) (path : String) (v : ℤ) (a : String) (doc : OpenDocument)
      → get r.documents path ≡ some doc
      → did_change l r path v a
        ≡ ok (record r { documents = put r.documents path (edited l doc v a); armed = true })
  unfolding did_change
  did_change-ok r path v a doc h = rw h refl

  -- For a base with distinct roots and an open document: a run changes the document to the text `a` and
  -- then to the text `b`, and ends with no running reload and the timer not armed, the document with
  -- the text `b`, and the roots in the state that a reload gives for the text `a`.
  pub stale-Reflects :
      (r : Runtime l) (path : String) (doc : OpenDocument) (v w : ℤ) (a b : String) (disk : l.Disk)
      → Distinct (names r.base)
      → get r.documents path ≡ some doc
      → (d : System l) × Steps l (record { runtime = r; reloads = [] }) d
        × (d.reloads ≡ [])
        × (d.runtime.armed ≡ false)
        × (get d.runtime.documents path ≡ some (edited l (edited l doc v a) w b))
        × Reflects disk (put r.documents path (edited l doc v a)) d.runtime
  unfolding publish stop_timer
  stale-Reflects r path doc v w a b disk d h =
      let docs = put r.documents path (edited l doc v a) in
      let held : get docs path ≡ some (edited l doc v a) =
        get-put r.documents path path (edited l doc v a)
        ∙ if_true (path == path) _ _ (eq_refl path) in
      let docs' = put docs path (edited l (edited l doc v a) w b) in
      let r' : Runtime l = record r { documents = docs'; armed = false } in
      let r'' = publish l r' (next_roots l disk docs' r.base []) in
      (
        system (publish l r'' (next_roots l disk docs r.base [])) [],
        next (changes path v a (did_change-ok r path v a doc h)) (
            next (fires refl) (
              next (copies [] [] refl) (
                next
                  (changes path w b (
                    did_change-ok (record r { documents = docs; armed = false }) path w b
                      (edited l doc v a) held))
                  (next (fires refl) (
                    next (copies [] (reading docs ∷ []) refl) (
                      next (publishes [] (reading docs ∷ []) disk docs' refl)
                        (next (publishes [] [] disk docs refl) (done _)))))))),
        refl,
        refl,
        get-put docs path path (edited l (edited l doc v a) w b)
            ∙ if_true (path == path) _ _ (eq_refl path),
        publish-Reflects disk docs r'' d,
      )
