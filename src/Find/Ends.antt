-- ===== src/Find/Ends.antt =====
-- The loop carries out the walk over a finite tree, and b_find() returns.
use archive_tar_builder.Prelude.{
  ℕ, zero, suc, ◌-◌, ◌<◌, ◌≡◌, refl, ap, ◌∙◌, ◌⊎◌, inl, inr, [], ◌∷◌, ◌==◌, Bytes, arith,
  Bool-cases,
}
use archive_tar_builder.Errors.{ℤ, pos, negsuc}
use archive_tar_builder.Member.{Stat, file_type, ifdir, ifreg}
use archive_tar_builder.Find.{
  OpenAnswer, opened, open_failed, StatAnswer, stated, stat_failed, DirAnswer, entries,
  opendir_failed, FileSystem, Walker, Callback, Search, Found, returned,
}
use archive_tar_builder.Find.Walk.{
  Tree, leaf, dir, Forest, names, HasTree, HasForest, tree_rounds, forest_rounds, Walked, onward,
  stopped, walk_forest, resume,
}
use archive_tar_builder.Find.Loop.{
  step, find_loop, from_root, after_root, root_file, call_root, after_stat, root_stat, find,
}
use archive_tar_builder.FilePath.{clean}
use archive_tar_builder.Matching.{Matcher}
use archive_tar_builder.Find.Carries.{not_leaf, find_loop-walk_forest}

-- What b_find() returns behind the walk.
abbrev pub ended : {S : Type 0} → Walked S → Found S
ended (onward w) = returned (pos 0) w
ended (stopped w) = returned (negsuc 0) w

module _ {S : Type 0} (q : Search S) where
  resume-ended : (fuel : ℕ) (walked : Walked S) → resume q (suc fuel) [] walked ≡ ended walked
  unfolding resume find_loop step
  resume-ended fuel (onward w) = refl
  resume-ended fuel (stopped w) = refl

  -- Where the system has a finite tree beneath the directory that is open, the loop of b_find() ends,
  -- with a round for each entry and for each end of a directory, and one more, as enough fuel; and it
  -- ends as the recursive walk over the tree does, with all that the callback did on the way.
  pub find_loop-ended :
      (f : Forest) (fuel : ℕ) (w : Walker S) (path : Bytes)
      → HasForest q.fs path f
      → forest_rounds f < fuel
      → find_loop q fuel w (record { path = path; names = names f } ∷ [])
        ≡ ended (walk_forest q w path f)
  find_loop-ended f fuel w path has enough =
      let c = find_loop-walk_forest q f fuel 1 w path [] has (omega (arith, enough)) in
      let e : c.left ≡ suc (c.left - 1) = omega (arith, c.enough) in
      c.found_eq
      ∙ ap (λ n. resume q n [] (walk_forest q w path f)) e
      ∙ resume-ended (c.left - 1) (walk_forest q w path f)

  from_root-returned :
      (t : Tree) (fuel : ℕ) (w : Walker S) (a : DirAnswer)
      → q.fs.opendir q.path ≡ a
      → HasTree q.fs q.path t
      → tree_rounds t < fuel
      → (r : ℤ) × (w' : Walker S) × (from_root q fuel w a ≡ returned r w')
  unfolding from_root HasTree tree_rounds
  from_root-returned t fuel w (opendir_failed e) h has enough = (_, _, refl)
  from_root-returned (leaf e0) fuel w (entries ns) h has enough =
      absurd (not_leaf q q.path ns e0 h has)
  from_root-returned (dir f) fuel w (entries ns) h (listed, has) enough =
      let same : ns ≡ names f = cc in
      let e = find_loop-ended f fuel w q.path has enough in
      elim (walked-cases (walk_forest q w q.path f)) [
        | inl (w', g) ↦ (
          pos 0,
          w',
          ap (λ l. find_loop q fuel w (record { path = q.path; names = l } ∷ [])) same
              ∙ e
              ∙ ap ended g,
        )
        | inr (w', g) ↦ (
          negsuc 0,
          w',
          ap (λ l. find_loop q fuel w (record { path = q.path; names = l } ∷ [])) same
              ∙ e
              ∙ ap ended g,
        )
      ]
    where
      walked-cases :
          (x : Walked S) → ((w : Walker S) × (x ≡ onward w)) ⊎ ((w : Walker S) × (x ≡ stopped w))
      walked-cases (onward w) = inl (w, refl)
      walked-cases (stopped w) = inr (w, refl)

  after_root-returned :
      (t : Tree) (fuel : ℕ) (st : Stat) (r : ℤ × Walker S)
      → HasTree q.fs q.path t
      → tree_rounds t < fuel
      → (n : ℤ) × (w' : Walker S) × (after_root q fuel st r ≡ returned n w')
  unfolding after_root
  after_root-returned t fuel st (negsuc n, w) has enough = (_, _, refl)
  after_root-returned t fuel st (pos zero, w) has enough = (_, _, refl)
  after_root-returned t fuel st (pos (suc n), w) has enough =
      elim (Bool-cases (file_type st == ifdir)) [
        | inl e ↦ rw e (from_root-returned t fuel w (q.fs.opendir q.path) refl has enough)
        | inr e ↦ rw e (_, _, refl)
      ]

  root_file-returned :
      (t : Tree) (fuel : ℕ) (w : Walker S) (st : Stat) (a : OpenAnswer)
      → HasTree q.fs q.path t
      → tree_rounds t < fuel
      → (n : ℤ) × (w' : Walker S) × (root_file q fuel w st a ≡ returned n w')
  unfolding root_file call_root
  root_file-returned t fuel w st (open_failed e) has enough = (_, _, refl)
  root_file-returned t fuel w st (opened fd) has enough = elim (Bool-cases (q.fs.fcntl fd)) [
    | inl e ↦ rw e (after_root-returned t fuel st _ has enough)
    | inr e ↦ rw e (_, _, refl)
  ]

  after_stat-returned :
      (t : Tree) (fuel : ℕ) (w : Walker S) (a : StatAnswer)
      → HasTree q.fs q.path t
      → tree_rounds t < fuel
      → (n : ℤ) × (w' : Walker S) × (after_stat q fuel w a ≡ returned n w')
  unfolding after_stat call_root
  after_stat-returned t fuel w (stat_failed e) has enough = (_, _, refl)
  after_stat-returned t fuel w (stated st) has enough = elim (Bool-cases (file_type st == ifreg)) [
    | inl e ↦ rw e (root_file-returned t fuel w st _ has enough)
    | inr e ↦ rw e (after_root-returned t fuel st _ has enough)
  ]

-- b_find() returns: on a system with a finite tree beneath the cleaned path, whatever the callback and
-- the system answer, more rounds than the tree has entries and directories are enough.
pub find-returned :
    {S : Type 0} (matcher : Matcher) (fs : FileSystem) (callback : Callback S) (flags fuel : ℕ)
    (w : Walker S) (path member_name : Bytes) (t : Tree)
    → HasTree fs (clean path) t
    → tree_rounds t < fuel
    → (n : ℤ) × (w' : Walker S) × (find matcher fs callback flags fuel w path member_name
        ≡ returned n w')
unfolding find
find-returned {S} matcher fs callback flags fuel w path member_name t has enough =
    let q : Search S = record {
      matcher = matcher;
      fs = fs;
      callback = callback;
      flags = flags;
      path = clean path;
      member_name = clean member_name;
    } in
    after_stat-returned q t fuel w (root_stat q) has enough
