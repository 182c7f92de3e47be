-- ===== src/Find/Walk.antt =====
-- The walk as a recursion over a finite tree of directories, and the loop that carries it out.
use archive_tar_builder.Prelude.{ℕ, suc, ◌+◌, ◌≡◌, Bool, true, false, List, [], ◌∷◌, Bytes}
use archive_tar_builder.Errors.{negsuc}
use archive_tar_builder.Find.{
  entries, opendir_failed, FileSystem, Walker, Search, Dir, Next, skip, enter, abort, Found,
  returned, is_dot, item_path, visit,
}
use archive_tar_builder.Find.Loop.{find_loop}

-- What is found beneath a path: nothing, as it is no directory that can be opened, or the entries of a
-- directory, each with what is beneath it.
mutual
  pub data Tree : Type 0 where
    leaf : ℕ → Tree
    dir : Forest → Tree

  pub data Forest : Type 0 where
    nil : Forest
    cons : Bytes → Tree → Forest → Forest

unfoldable pub names : Forest → List Bytes
names nil = []
names (cons name t f) = name ∷ names f

unfoldable pub Unless : Bool → Type 0 → Type 0
Unless true A = Unit {0}
Unless false A = A

-- The system has this tree beneath the path. Of what is beneath "." and ".." nothing is said.
unfoldable mutual
  pub HasTree : FileSystem → Bytes → Tree → Type 0
  HasTree fs path (leaf e) = fs.opendir path ≡ opendir_failed e
  HasTree fs path (dir f) = (fs.opendir path ≡ entries (names f)) × HasForest fs path f

  pub HasForest : FileSystem → Bytes → Forest → Type 0
  HasForest fs path nil = Unit {0}
  HasForest fs path (cons name t f) =
      Unless (is_dot name) (HasTree fs (item_path path name) t) × HasForest fs path f

-- The rounds of the loop that a tree needs at most.
unfoldable mutual
  pub tree_rounds : Tree → ℕ
  tree_rounds (leaf e) = 0
  tree_rounds (dir f) = forest_rounds f

  pub forest_rounds : Forest → ℕ
  forest_rounds nil = 1
  forest_rounds (cons name t f) = suc (tree_rounds t + forest_rounds f)

-- How a part of the walk ends: it goes on, or the walk fails.
pub data Walked (S : Type 0) : Type 0 where
  onward : Walker S → Walked S
  stopped : Walker S → Walked S

module _ {S : Type 0} where
  unfoldable pub then_walk : Walked S → (Walker S → Walked S) → Walked S
  then_walk (onward w) rest = rest w
  then_walk (stopped w) rest = stopped w

  -- An item, with what is beneath it and what follows it.
  unfoldable pub walk_item : Next S → (Walker S → Walked S) → (Walker S → Walked S) → Walked S
  unfolding then_walk
  walk_item (skip w) beneath rest = rest w
  walk_item (enter w d) beneath rest = then_walk (beneath w) rest
  walk_item (abort w) beneath rest = stopped w

  unfoldable mutual
    pub walk_tree : Search S → Walker S → Bytes → Tree → Walked S
    walk_tree q w path (leaf e) = onward w
    walk_tree q w path (dir f) = walk_forest q w path f

    pub walk_forest : Search S → Walker S → Bytes → Forest → Walked S
    walk_forest q w path nil = onward w
    walk_forest q w path (cons name t f) =
        walk_item (visit q w path name) (λ w'. walk_tree q w' (item_path path name) t)
          (λ w'. walk_forest q w' path f)

  -- What the loop does behind a part of the walk.
  unfoldable pub resume : Search S → ℕ → List Dir → Walked S → Found S
  resume q fuel dirs (onward w) = find_loop q fuel w dirs
  resume q fuel dirs (stopped w) = returned (negsuc 0) w
