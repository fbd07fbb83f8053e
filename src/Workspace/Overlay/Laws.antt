-- ===== src/Workspace/Overlay/Laws.antt =====
-- The paths that a glob finds with open documents laid over the files.
use mergeway_cli.Prelude.{
  String, ◌≡◌, Bool, true, false, ◌||◌, ◌&&◌, Result, ok, err, ok_inj, >>=-eq-ok, List, [], ◌∷◌,
  ◌==◌, if◌then◌else◌, arith, eq_iff, ap, sym, ◌∙◌, inl, inr, Bool-cases, member, map,
}
use mergeway_cli.Go.FilePath.{clean}
use mergeway_cli.Go.Map.{keys}
use mergeway_cli.Go.Order.{member-sort_strings}
use mergeway_cli.Workspace.Runtime.{Documents}
use mergeway_cli.Workspace.Overlay.{Ops, add_path, add_cleaned, add_matching, file_ops}

-- The pattern matches.
abbrev pub is_match : Result String Bool → Bool
is_match (ok b) = b
is_match (err e) = false

member-add_path :
    (seen : List String) (q p : String) → member (add_path seen q) p ≡ (member seen p || q == p)
unfolding member
member-add_path seen q p = elim (Bool-cases (member seen q)) [
  | inl e ↦ ground (arith, e, eq_iff q p)
  | inr e ↦ ground (arith, e, eq_iff q p)
]

member-add_cleaned :
    (seen ms : List String) (p : String)
    → member (add_cleaned seen ms) p ≡ (member seen p || member (map clean ms) p)
unfolding add_cleaned member
member-add_cleaned seen [] p = ground arith
member-add_cleaned seen (m ∷ ms) p =
    ground
      (arith, member-add_cleaned (add_path seen (clean m)) ms p, member-add_path seen (clean m) p)

module _ (glob_match : String → String → Result String Bool) (working_dir : String) where
  one_round :
      (b : Bool) (pattern : String) (seen : List String) (q p : String) (m : Bool)
      → glob_match pattern q ≡ ok b
      → (member (if b then add_path seen q else seen) p || (m && is_match (glob_match pattern p)))
        ≡ (member seen p || ((q == p || m) && is_match (glob_match pattern p)))
  one_round true pattern seen q p m g = elim (Bool-cases (q == p)) [
    | inl e ↦
        let r =
          ap (λ x. is_match (glob_match pattern x)) (sym ((eq_iff q p).0 e)) ∙ ap is_match g in
        ground (arith, e, r, member-add_path seen q p)
    | inr e ↦ ground (arith, e, member-add_path seen q p)
  ]
  one_round false pattern seen q p m g = elim (Bool-cases (q == p)) [
    | inl e ↦
        let r =
          ap (λ x. is_match (glob_match pattern x)) (sym ((eq_iff q p).0 e)) ∙ ap is_match g in
        ground (arith, e, r)
    | inr e ↦ ground (arith, e)
  ]

  member-add_matching :
      (pattern : String) (seen ps : List String) (p : String) {out : List String}
      → add_matching glob_match working_dir pattern seen ps ≡ ok out
      → member out p ≡ (member seen p || (member ps p && is_match (glob_match pattern p)))
  unfolding add_matching member
  member-add_matching pattern seen [] p h = ap (λ o. member o p) (sym (ok_inj h)) ∙ ground arith
  member-add_matching pattern seen (q ∷ ps) p h =
      let (b, e, k) = >>=-eq-ok (glob_match pattern q) _ h in
      member-add_matching pattern (if b then add_path seen q else seen) ps p k
      ∙ one_round b pattern seen q p (member ps p) e

  -- With open documents laid over the files, a glob that succeeds finds exactly the cleaned matches of
  -- the files and the open documents whose paths match.
  pub member-file_ops_glob :
      (base : Ops) (docs : Documents) (pattern p : String) {found out : List String}
      → base.glob pattern ≡ ok found
      → (file_ops glob_match working_dir base docs).glob pattern ≡ ok out
      → member out p
        ≡ (member (map clean found) p || (member (keys docs) p && is_match (glob_match pattern p)))
  unfolding file_ops member
  member-file_ops_glob base docs pattern p {found} b h =
      let (seen, e, k) =
        >>=-eq-ok (add_matching glob_match working_dir pattern (add_cleaned [] found) (keys docs)) _
          (rw b at h) in
      ap (λ o. member o p) (sym (ok_inj k))
      ∙ (member-sort_strings seen p
          ∙ (member-add_matching pattern (add_cleaned [] found) (keys docs) p e
              ∙ ap (λ b. b || (member (keys docs) p && is_match (glob_match pattern p)))
                  (member-add_cleaned [] found p)))
