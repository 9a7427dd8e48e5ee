-- ===== src/Base/FilePath.antt =====
-- `path/filepath`: a cleaned path as its parts, the last one first; the root is the empty list.
use Prim.Native.Char.{code}
use Prim.Native.String
use Prim.Native.String.{String, [], ◌∷◌}
use mathlib.Core.Bool.{Bool, true, false, ◌||◌, ◌&&◌}
use mathlib.Core.Logic.{ite}
use mathlib.Core.List.{List, [], ◌∷◌, tail}
use native.Mathlib.Decide.{ℕ_discrete}
use crd_bootstrap.Base.Tests.{◌==◌, if◌then◌else◌}

abbrev pub FilePath : Type 0
FilePath = List String

-- What stands at a path: a directory or a regular file.
pub data Node : Type 0 where
  dir : Node
  file : String → Node

abbrev pub Files : Type 0
Files = List (FilePath × Node)

-- The last part of a path.
unfoldable pub base_name : FilePath → String
base_name [] = "/"
base_name (a ∷ p) = a

-- The parts of a text between slashes, the last one first.
split_from : List String → String → String → List String
split_from parts cur [] = cur ∷ parts
split_from parts cur (ch ∷ s) =
    let closed = split_from (cur ∷ parts) "" s in
    let longer = split_from parts (String.◌++◌ cur (ch ∷ [])) s in
    ite (ℕ_discrete (code ch) b'/') closed longer

resolve : String → FilePath → FilePath
resolve part base =
    if part == "" || part == "." then base else if part == ".." then tail base else part ∷ base

resolve_all : List String → FilePath → FilePath
resolve_all [] base = base
resolve_all (part ∷ parts) base = resolve part (resolve_all parts base)

-- `filepath.Join(base, name)`, which cleans its result.
unfoldable pub join_path : FilePath → String → FilePath
unfolding split_from resolve resolve_all ℕ_discrete
join_path base name = resolve_all (split_from [] "" name) base

unfoldable pub same_path : FilePath → FilePath → Bool
same_path [] [] = true
same_path (a ∷ p) (b ∷ q) = a == b && same_path p q
same_path _ _ = false

-- Whether a path is `base` or lies below it.
unfoldable pub under : FilePath → FilePath → Bool
unfolding same_path
under base [] = same_path base []
under base (a ∷ p) = same_path base (a ∷ p) || under base p
