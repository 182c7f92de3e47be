-- ===== src/Find/Order.antt =====
-- The order in which the walk calls the callback, and the member names that it passes.
use archive_tar_builder.Prelude.{
  suc, ℕ, ◌<◌, ◌≡◌, refl, sym, ap, subst, ◌∙◌, true, false, ◌&&◌, ◌||◌, none, inl, inr, List, [],
  ◌∷◌, ◌++◌, ◌==◌, Bytes, Bool-cases, str_eq, str_eq→eq, drop-append_self,
}
use archive_tar_builder.Errors.{ℤ, pos, negsuc}
use archive_tar_builder.Matching.{excluded}
use archive_tar_builder.Member.{Stat, file_type, ifdir}
use archive_tar_builder.Builder.{Builder}
use archive_tar_builder.Builder.Options.{is_excluded, with_matching}
use archive_tar_builder.Find.{
  opened, open_failed, stated, entries, Walker, Callback, Search, skip, enter, returned, is_dot,
  item_path, no_follow, subst_member_name, name_or_path, open_item, after_callback, call_back,
  after_fstat, after_lstat, after_open, after_excluded, visit, eloop, emlink,
}
use archive_tar_builder.Find.Loop.{find_loop}
use archive_tar_builder.Find.Walk.{
  leaf, dir, Forest, nil, cons, names, HasForest, HasTree, forest_rounds, Unless, onward, then_walk,
  walk_item, walk_tree, walk_forest,
}
use archive_tar_builder.Find.Enters.{visit-is_dot}
use archive_tar_builder.Find.Ends.{ended, find_loop-ended}

-- The member name of a path beneath the one that is searched starts with the member name that was
-- given, in place of that path.
pub subst_member_name-beneath :
    (path member_name rest : Bytes)
    → name_or_path (subst_member_name path member_name (path ++ rest)) (path ++ rest)
      ≡ member_name ++ rest
unfolding name_or_path subst_member_name
subst_member_name-beneath path member_name rest = elim (Bool-cases (str_eq path member_name)) [
  | inl e ↦ rw e (ap (λ p. p ++ rest) (str_eq→eq path member_name e))
  | inr e ↦ rw e (ap (λ r. member_name ++ r) (drop-append_self path rest))
]

-- A call of the callback
pub record Call : Type 0 where
  pub path : Bytes
  pub name : Bytes
  pub st : Stat
  pub fd : ℤ

abbrev pub call_for : {S : Type 0} → Search S → Bytes → Stat → ℤ → Call
call_for q path st fd = record {
  path = path;
  name = name_or_path (subst_member_name q.path q.member_name path) path;
  st = st;
  fd = fd;
}

-- The descriptor and the status that the walk has for an item: of the open file, or of a link that is
-- not followed.
pub data Reaches {S : Type 0} (q : Search S) (path : Bytes) : Stat → ℤ → Type 0 where
  by_open :
      {st : Stat} (fd : ℕ)
      → q.fs.open_file (no_follow q.flags) path ≡ opened fd
      → q.fs.fcntl 0 ≡ true
      → q.fs.fstat path ≡ stated st
      → Reaches q path st (pos fd)
  by_lstat :
      {st : Stat} (e : ℕ)
      → q.fs.open_file (no_follow q.flags) path ≡ open_failed e
      → (no_follow q.flags && (e == eloop || e == emlink)) ≡ true
      → q.fs.lstat path ≡ stated st
      → Reaches q path st (negsuc 0)

-- The calls for the entries of a directory, if all are wanted: each directory before what is beneath it,
-- and that before the next entry.
pub data Calls {S : Type 0} (q : Search S) : Bytes → Forest → List Call → Type 0 where
  no_entries : {path : Bytes} → Calls q path nil []
  dot_entry :
      {path name : Bytes} {e : ℕ} {f : Forest} {calls : List Call}
      → is_dot name ≡ true
      → Calls q path f calls
      → Calls q path (cons name (leaf e) f) calls
  file_entry :
      {path name : Bytes} {e : ℕ} {f : Forest} {calls : List Call} {st : Stat} {fd : ℤ}
      → is_dot name ≡ false
      → Reaches q (item_path path name) st fd
      → (file_type st == ifdir) ≡ false
      → Calls q path f calls
      → Calls q path (cons name (leaf e) f) (call_for q (item_path path name) st fd ∷ calls)
  dir_entry :
      {path name : Bytes} {g f : Forest} {beneath calls : List Call} {st : Stat} {fd : ℤ}
      → is_dot name ≡ false
      → Reaches q (item_path path name) st fd
      → (file_type st == ifdir) ≡ true
      → Calls q (item_path path name) g beneath
      → Calls q path f calls
      → Calls q path
          (cons name (dir g) f)
          (call_for q (item_path path name) st fd ∷ (beneath ++ calls))

-- The calls are made one after the other, each on what the one before has left; the callback wants all,
-- and sets no patterns.
pub data Runs {S : Type 0} (callback : Callback S) : Walker S → List Call → Walker S → Type 0 where
  no_calls : {w : Walker S} → Runs callback w [] w
  call :
      {w w' w'' : Walker S} {c : Call} {calls : List Call} (n : ℕ)
      → callback w c.path c.name c.st c.fd ≡ (pos (suc n), w')
      → w'.builder.matching ≡ w.builder.matching
      → Runs callback w' calls w''
      → Runs callback w (c ∷ calls) w''

Runs-matching :
    {S : Type 0} {callback : Callback S} {w w' : Walker S} {calls : List Call}
    → Runs callback w calls w'
    → w'.builder.matching ≡ w.builder.matching
Runs-matching no_calls = refl
Runs-matching (call n e same rest) = Runs-matching rest ∙ same

Runs-split :
    {S : Type 0} {callback : Callback S} (xs ys : List Call) {w w'' : Walker S}
    → Runs callback w (xs ++ ys) w''
    → (w' : Walker S) × Runs callback w xs w' × Runs callback w' ys w''
Runs-split [] ys {w} h = (w, no_calls, h)
Runs-split (c ∷ xs) ys (call n e same rest) =
    let (w', before, behind) = Runs-split xs ys rest in (w', call n e same before, behind)

unless_false : {A : Type 0} → Unless false A → A
unfolding Unless
unless_false h = h

module _ {S : Type 0} (q : Search S) where
  is_excluded-none :
      (b : Builder) (path : Bytes) → b.matching ≡ none → is_excluded q.matcher b path ≡ (false, b)
  unfolding is_excluded with_matching excluded
  is_excluded-none b path bare =
      ap (λ m. with_matching b (excluded q.matcher m path)) bare
      ∙ ap (λ m. (false, record b { matching = m })) (sym bare)

  visit-open :
      (w : Walker S) (path name : Bytes)
      → w.builder.matching ≡ none
      → is_dot name ≡ false
      → visit q w path name
        ≡ after_open q w
            (item_path path name)
            (q.fs.open_file (no_follow q.flags) (item_path path name))
  unfolding visit after_excluded
  visit-open w path name bare e = rw e (
      ap (after_excluded q w (item_path path name))
        (is_excluded-none w.builder (item_path path name) bare))

  after_open-Reaches :
      (w : Walker S) (path : Bytes) (st : Stat) (fd : ℤ)
      → Reaches q path st fd
      → after_open q w path (q.fs.open_file (no_follow q.flags) path) ≡ call_back q w path st fd
  unfolding after_open after_fstat after_lstat
  after_open-Reaches w path st fd (by_open n e f g) = rw (e, f, g) refl
  after_open-Reaches w path st fd (by_lstat n e f g) = rw (e, f, g) refl

  -- The callback takes an item, and a directory is entered.
  call_back-other :
      (w w' : Walker S) (path : Bytes) (st : Stat) (fd : ℤ) (n : ℕ)
      → q.callback w path (call_for q path st fd).name st fd ≡ (pos (suc n), w')
      → (file_type st == ifdir) ≡ false
      → call_back q w path st fd ≡ skip w'
  unfolding call_back after_callback
  call_back-other w w' path st fd n h e = ap (after_callback q path st) h ∙ rw e refl

  call_back-dir :
      (w w' : Walker S) (path : Bytes) (st : Stat) (fd : ℤ) (n : ℕ) (ns : List Bytes)
      → q.callback w path (call_for q path st fd).name st fd ≡ (pos (suc n), w')
      → (file_type st == ifdir) ≡ true
      → q.fs.opendir path ≡ entries ns
      → call_back q w path st fd ≡ enter w' (record { path = path; names = ns })
  unfolding call_back after_callback open_item
  call_back-dir w w' path st fd n ns h e k =
      ap (after_callback q path st) h ∙ rw e (ap (open_item q w' path) k)

  walk_forest-Calls :
      {path : Bytes} {f : Forest} {calls : List Call} (w : Walker S) {w'' : Walker S}
      → Calls q path f calls
      → HasForest q.fs path f
      → w.builder.matching ≡ none
      → Runs q.callback w calls w''
      → walk_forest q w path f ≡ onward w''
  unfolding walk_forest walk_tree walk_item then_walk HasForest HasTree
  walk_forest-Calls w no_entries has bare no_calls = refl
  walk_forest-Calls w (dot_entry {path = path} {name = name} {e = e0} {f = f} e rest) has bare
        runs =
      ap
        (λ v.
          walk_item v (λ w'. walk_tree q w' (item_path path name) (leaf e0))
            (λ w'. walk_forest q w' path f))
        (visit-is_dot q w path name e)
      ∙ walk_forest-Calls w rest has.1 bare runs
  walk_forest-Calls w
        (file_entry {path = path} {name = name} {e = e0} {f = f} {st = st} {fd = fd} e reach other
          rest)
        has bare (call {w' = w1} n h same runs) =
      let p = item_path path name in
      ap (λ v. walk_item v (λ w'. walk_tree q w' p (leaf e0)) (λ w'. walk_forest q w' path f))
        (visit-open w path name bare e
          ∙ after_open-Reaches w p st fd reach
          ∙ call_back-other w w1 p st fd n h other)
      ∙ walk_forest-Calls w1 rest has.1 (same ∙ bare) runs
  walk_forest-Calls w
        (dir_entry {path = path} {name = name} {g = g} {f = f} {beneath = beneath} {calls = after}
          {st = st} {fd = fd} e reach is_dir below rest)
        has bare (call {w' = w1} n h same runs) =
      let p = item_path path name in
      let (w2, before, behind) = Runs-split beneath after runs in
      let here = unless_false (subst (λ b. Unless b (HasTree q.fs p (dir g))) e has.0) in
      ap (λ v. walk_item v (λ w'. walk_tree q w' p (dir g)) (λ w'. walk_forest q w' path f))
        (visit-open w path name bare e
          ∙ after_open-Reaches w p st fd reach
          ∙ call_back-dir w w1 p st fd n (names g) h is_dir here.0)
      ∙ ap (λ v. then_walk v (λ w'. walk_forest q w' path f))
          (walk_forest-Calls w1 below here.1 (same ∙ bare) before)
      ∙ walk_forest-Calls w2 rest has.1 (Runs-matching before ∙ (same ∙ bare)) behind

  -- Where the system has a finite tree beneath the directory that is open, no patterns are set, every
  -- member can be reached, and the callback wants every member and sets no patterns, the loop of
  -- b_find() returns 0, and what was done is one call of the callback for each entry but "." and "..":
  -- a directory before what is beneath it, and that before the next entry.
  pub find_loop-Calls :
      (f : Forest) (calls : List Call) (fuel : ℕ) (w w' : Walker S) (path : Bytes)
      → Calls q path f calls
      → HasForest q.fs path f
      → forest_rounds f < fuel
      → w.builder.matching ≡ none
      → Runs q.callback w calls w'
      → find_loop q fuel w (record { path = path; names = names f } ∷ []) ≡ returned (pos 0) w'
  find_loop-Calls f calls fuel w w' path listed has enough bare runs =
      find_loop-ended q f fuel w path has enough
      ∙ ap ended (walk_forest-Calls w listed has bare runs)
