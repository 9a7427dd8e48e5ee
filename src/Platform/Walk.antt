-- ===== src/Platform/Walk.antt =====
-- `filepath.Walk`, for callbacks that return the error they are given: then an entry that cannot be
-- looked at, or a directory that cannot be read, ends the walk with its error. Neither callback of
-- the program returns `SkipDir`.
pub mod Trees
pub mod Runs
pub mod Total
pub mod Put
use Prim.Native.String.{compare}
use Prim.Native.Nat.{Ordering}
use crd_bootstrap.Base.{
  ℕ, zero, suc, String, Option, none, some, List, [], ◌∷◌, M, pure, gets, from, fail, or_fail,
  Error, ◌>>=◌, ◌>>◌, if◌then◌else◌, length, max,
}
use crd_bootstrap.Base.FilePath.{FilePath, same_path}
use crd_bootstrap.Platform.{Platform, lstat, read_dir}
use crd_bootstrap.Platform.World.{World, Node, dir, file, Files, find_node}
use crd_bootstrap.Platform.Os.{call}

-- The name of an entry in a directory.
unfoldable pub child_name : FilePath → FilePath → Option String
unfolding same_path
child_name d [] = none
child_name d (a ∷ q) = if same_path d q then some a else none

unfoldable pub insert_name : String → List String → List String
insert_name name [] = name ∷ []
insert_name name (other ∷ names) = elim (compare name other) [
  | Ordering.gt ↦ other ∷ insert_name name names
  | _ ↦ name ∷ other ∷ names
]

-- The names in a directory, sorted.
unfoldable pub names_in : FilePath → Files → List String
unfolding child_name insert_name
names_in d [] = []
names_in d ((q, n) ∷ fs) = elim (child_name d q) [
  | none ↦ names_in d fs
  | some name ↦ insert_name name (names_in d fs)
]

-- The greatest length of a path.
unfoldable pub depth : Files → ℕ
depth [] = 0
depth ((q, n) ∷ fs) = max (length q) (depth fs)

-- A loop that ends at the first error.
unfoldable pub each {ℓ κ} :
    {S : Type ℓ} {A : Type κ} → (A → M S (Unit {0})) → List A → M S (Unit {0})
each body [] = pure tt
each body (a ∷ rest) = do body a; each body rest

-- A callback.
abbrev pub Visit : Platform → Type 0
Visit P = FilePath → Node → M (World P) (Unit {0})

module _ {P : Platform} where
  -- `os.Lstat(p)`
  unfoldable pub lstat_node : FilePath → M (World P) Node
  unfolding find_node
  lstat_node p = do
    call (lstat p)
    node ← gets (λ w. find_node p w.files)
    from (or_fail (Error.foreign "no such file") node)

  unfoldable pub read_dir_names : FilePath → M (World P) (List String)
  unfolding names_in
  read_dir_names p = do call (read_dir p); gets (λ w. names_in p w.files)

  -- A file, or a directory with what is below it.
  abbrev pub visit_node :
      (FilePath → M (World P) (Unit {0})) → Visit P → FilePath → Node → M (World P) (Unit {0})
  visit_node descend fn path dir = descend path
  visit_node descend fn path (file s) = fn path (file s)

  unfoldable pub visit_name :
      (FilePath → M (World P) (Unit {0})) → Visit P → FilePath → String → M (World P) (Unit {0})
  unfolding lstat_node
  visit_name descend fn path name = do
    node ← lstat_node (name ∷ path)
    visit_node descend fn (name ∷ path) node

  -- A directory, on fuel for the levels below it.
  unfoldable pub walk_dir : ℕ → Visit P → FilePath → M (World P) (Unit {0})
  unfolding read_dir_names each visit_name
  walk_dir zero fn path = fail (Error.foreign "too deep")
  walk_dir (suc n) fn path =
      let descend = walk_dir n fn in
      do names ← read_dir_names path; fn path dir; each (visit_name descend fn path) names

  -- No directory is deeper than the deepest path of the files at the start.
  unfoldable pub walk : FilePath → Visit P → M (World P) (Unit {0})
  unfolding walk_dir depth
  walk root fn = do
    node ← lstat_node root
    fuel ← gets (λ w. suc (depth w.files))
    visit_node (walk_dir fuel fn) fn root node
