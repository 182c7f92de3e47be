-- ===== src/Find/Carries.antt =====
-- The loop carries out the walk over a tree beneath other directories on the stack.
use archive_tar_builder.Prelude.{
  ℕ, zero, suc, ◌+◌, ◌≤◌, ◌≡◌, refl, sym, ap, ap₂, subst, ◌∙◌, inl, inr, List, ◌∷◌, Bytes, arith,
  Bool-cases,
}
use archive_tar_builder.Errors.{negsuc}
use archive_tar_builder.Find.{
  entries, opendir_failed, Walker, Search, Dir, skip, enter, again, aborted, Found, returned,
  is_dot, item_path, visit,
}
use archive_tar_builder.Find.Walk.{
  Tree, leaf, dir, Forest, nil, cons, names, Unless, HasTree, HasForest, tree_rounds, forest_rounds,
  Walked, onward, stopped, then_walk, walk_item, walk_tree, walk_forest, resume,
}
use archive_tar_builder.Find.Loop.{proceed, read_dir, step, find_loop}
use archive_tar_builder.Find.Enters.{
  Enters, visit-Enters, visit-is_dot, skips, enters, aborts, case,
}

module _ {S : Type 0} (q : Search S) where
  find_loop-again :
      (fuel : ℕ) (w w' : Walker S) (dirs dirs' : List Dir)
      → step q w dirs ≡ again w' dirs'
      → find_loop q (suc fuel) w dirs ≡ find_loop q fuel w' dirs'
  unfolding find_loop
  find_loop-again fuel w w' dirs dirs' e = rw (e, find_loop) refl

  find_loop-aborted :
      (fuel : ℕ) (w w' : Walker S) (dirs : List Dir)
      → step q w dirs ≡ aborted w'
      → find_loop q (suc fuel) w dirs ≡ returned (negsuc 0) w'
  unfolding find_loop
  find_loop-aborted fuel w w' dirs e = rw (e, find_loop) refl

  -- The loop has carried out a part of the walk, in the fuel that was set aside for it: it goes on
  -- with the stack that was beneath, and at least `n` rounds.
  pub record Carries (found : Found S) (n : ℕ) (dirs : List Dir) (walked : Walked S) : Type 0 where
    pub left : ℕ
    pub enough : n ≤ left
    pub found_eq : found ≡ resume q left dirs walked

  Carries-then :
      {found : Found S} (m n : ℕ) (mid dirs : List Dir) (walked : Walked S)
      (rest : Walker S → Walked S)
      → n ≤ m
      → found ≡ resume q m mid walked
      → ((w : Walker S) → Carries (find_loop q m w mid) n dirs (rest w))
      → Carries found n dirs (then_walk walked rest)
  unfolding resume then_walk
  Carries-then m n mid dirs (onward w) rest le e h =
      let c = h w in record { left = c.left; enough = c.enough; found_eq = e ∙ c.found_eq }
  Carries-then m n mid dirs (stopped w) rest le e h = record { left = m; enough = le; found_eq = e }

  entered :
      (fuel : ℕ) (w : Walker S) (path : Bytes) (d : Dir) (g : Forest) (dirs : List Dir)
      → d.path ≡ path
      → q.fs.opendir path ≡ entries d.names
      → q.fs.opendir path ≡ entries (names g)
      → find_loop q fuel w (d ∷ dirs)
        ≡ find_loop q fuel w (record { path = path; names = names g } ∷ dirs)
  entered fuel w path d g dirs e e' e'' =
      let same : d.names ≡ names g = cc in
      ap₂ (λ p ns. find_loop q fuel w (record { path = p; names = ns } ∷ dirs)) e same

  pub not_leaf :
      (path : Bytes) (ns : List Bytes) (e : ℕ)
      → q.fs.opendir path ≡ entries ns
      → q.fs.opendir path ≡ opendir_failed e
      → ⊥
  not_leaf path ns e h k = cc

  visit-enter_path :
      (w : Walker S) (path name : Bytes) (w' : Walker S) (d : Dir)
      → visit q w path name ≡ enter w' d
      → (d.path ≡ item_path path name) × (q.fs.opendir (item_path path name) ≡ entries d.names)
  visit-enter_path w path name w' d e =
      subst (Enters q (item_path path name)) e (visit-Enters q w path name)

  -- Beneath an item that is entered there is a directory.
  entered-HasTree :
      (w : Walker S) (path name : Bytes) (t : Tree) (w' : Walker S) (d : Dir)
      → visit q w path name ≡ enter w' d
      → Unless (is_dot name) (HasTree q.fs (item_path path name) t)
      → HasTree q.fs (item_path path name) t
  unfolding Unless
  entered-HasTree w path name t w' d e h = elim (Bool-cases (is_dot name)) [
    | inl f ↦ let clash : skip w ≡ enter w' d = sym (visit-is_dot q w path name f) ∙ e in absurd cc
    | inr f ↦ subst (λ b. Unless b (HasTree q.fs (item_path path name) t)) f h
  ]

  -- An item, where the loop carries out what follows it, and what is beneath it.
  item-Carries :
      (name : Bytes) (t : Tree) (f : Forest) (fuel n : ℕ) (w : Walker S) (path : Bytes)
      (dirs : List Dir)
      → forest_rounds f + n ≤ fuel
      → ((fuel : ℕ) (w : Walker S)
          → forest_rounds f + n ≤ fuel
          → Carries
              (find_loop q fuel w (record { path = path; names = names f } ∷ dirs))
              n
              dirs
              (walk_forest q w path f))
      → ((w' : Walker S) (d : Dir)
          → visit q w path name ≡ enter w' d
          → Carries
              (find_loop q fuel w' (d ∷ record { path = path; names = names f } ∷ dirs))
              (forest_rounds f + n)
              (record { path = path; names = names f } ∷ dirs)
              (walk_tree q w' (item_path path name) t))
      → Carries
          (find_loop q (suc fuel) w (record { path = path; names = name ∷ names f } ∷ dirs))
          n
          dirs
          (walk_forest q w path (cons name t f))
  unfolding walk_forest step read_dir proceed walk_item resume
  item-Carries name t f fuel n w path dirs fits rest_walk tree_walk =
      let here : List Dir = record { path = path; names = names f } ∷ dirs in
      let rest : Walker S → Walked S = λ w'. walk_forest q w' path f in
      let beneath : Walker S → Walked S = λ w'. walk_tree q w' (item_path path name) t in
      elim (case (visit q w path name)) [
        | skips w' e ↦
            let c = rest_walk fuel w' fits in
            record {
              left = c.left;
              enough = c.enough;
              found_eq =
                  find_loop-again fuel w w' _ here (ap (proceed here) e)
                  ∙ c.found_eq
                  ∙ ap (λ v. resume q c.left dirs (walk_item v beneath rest)) (sym e);
            }
        | aborts w' e ↦ record {
          left = n;
          enough = omega arith;
          found_eq =
              find_loop-aborted fuel w w' _ (ap (proceed here) e)
              ∙ ap (λ v. resume q n dirs (walk_item v beneath rest)) (sym e);
        }
        | enters w' d e ↦
            let c = tree_walk w' d e in
            let joined =
              Carries-then c.left n here dirs (beneath w') rest (omega (arith, c.enough)) c.found_eq
                (λ w''. rest_walk c.left w'' c.enough) in
            record {
              left = joined.left;
              enough = joined.enough;
              found_eq =
                  find_loop-again fuel w w' _ (d ∷ here) (ap (proceed here) e)
                  ∙ joined.found_eq
                  ∙ ap (λ v. resume q joined.left dirs (walk_item v beneath rest)) (sym e);
            }
      ]

  pub find_loop-walk_forest :
      (f : Forest) (fuel n : ℕ) (w : Walker S) (path : Bytes) (dirs : List Dir)
      → HasForest q.fs path f
      → forest_rounds f + n ≤ fuel
      → Carries
          (find_loop q fuel w (record { path = path; names = names f } ∷ dirs))
          n
          dirs
          (walk_forest q w path f)
  unfolding names HasForest HasTree forest_rounds tree_rounds walk_forest walk_tree step read_dir
      proceed resume
  find_loop-walk_forest nil zero n w path dirs has fits = absurd (omega arith)
  find_loop-walk_forest (cons name t f) zero n w path dirs has fits = absurd (omega arith)
  find_loop-walk_forest nil (suc fuel) n w path dirs has fits = record {
    left = fuel;
    enough = omega arith;
    found_eq = find_loop-again fuel w w _ dirs refl;
  }
  find_loop-walk_forest (cons name (leaf e0) f) (suc fuel) n w path dirs has fits =
      item-Carries name (leaf e0) f fuel n w path dirs (omega arith)
        (λ fuel' w' le. find_loop-walk_forest f fuel' n w' path dirs has.1 le)
        (λ w' d e.
          let found = visit-enter_path w path name w' d e in
          absurd (
            not_leaf (item_path path name) d.names e0 found.1
              (entered-HasTree w path name (leaf e0) w' d e has.0)))
  find_loop-walk_forest (cons name (dir g) f) (suc fuel) n w path dirs has fits =
      item-Carries name (dir g) f fuel n w path dirs (omega arith)
        (λ fuel' w' le. find_loop-walk_forest f fuel' n w' path dirs has.1 le)
        (λ w' d e.
          let (same, opened_eq) = visit-enter_path w path name w' d e in
          let (listed, beneath) = entered-HasTree w path name (dir g) w' d e has.0 in
          let here : List Dir = record { path = path; names = names f } ∷ dirs in
          let c =
            find_loop-walk_forest g fuel (forest_rounds f + n) w' (item_path path name) here beneath
              (omega arith) in
          record {
            left = c.left;
            enough = c.enough;
            found_eq =
                entered fuel w' (item_path path name) d g here same opened_eq listed ∙ c.found_eq;
          })
