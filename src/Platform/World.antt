-- ===== src/Platform/World.antt =====
-- The state that the program's functions run over: the world outside, the shared HTTP client
-- (`http.DefaultClient`, one pointer for all sources) and the files.
use crd_bootstrap.Base.{String, ◌<>◌, Option, none, some, [], ◌∷◌, if◌then◌else◌, M, ok}
use crd_bootstrap.Base.FilePath.{FilePath, same_path, under}
pub use crd_bootstrap.Base.FilePath.{Node, dir, file, Files}
use crd_bootstrap.Platform.{Platform}

unfoldable pub find_node : FilePath → Files → Option Node
find_node p [] = none
find_node p ((q, n) ∷ fs) = if same_path p q then some n else find_node p fs

unfoldable pub erase_node : FilePath → Files → Files
erase_node p [] = []
erase_node p ((q, n) ∷ fs) = if same_path p q then erase_node p fs else (q, n) ∷ erase_node p fs

unfoldable pub put_node : FilePath → Node → Files → Files
unfolding erase_node
put_node p n fs = (p, n) ∷ erase_node p fs

-- The entries, put one after the other.
unfoldable pub put_nodes : Files → Files → Files
unfolding put_node
put_nodes [] fs = fs
put_nodes ((p, n) ∷ entries) fs = put_nodes entries (put_node p n fs)

-- More text at the end of a file.
abbrev pub extend : String → Node → Node
extend s (file t) = file (t <> s)
extend s dir = dir

unfoldable pub append_node : FilePath → String → Files → Files
append_node p s [] = []
append_node p s ((q, n) ∷ fs) = (q, if same_path p q then extend s n else n) ∷ append_node p s fs

-- All entries but those at or below a path.
unfoldable pub erase_tree : FilePath → Files → Files
erase_tree d [] = []
erase_tree d ((q, n) ∷ fs) = if under d q then erase_tree d fs else (q, n) ∷ erase_tree d fs

pub record World (P : Platform) : Type 0 where
  pub outside : P.Outside
  pub client : P.Client
  pub files : Files

module _ {P : Platform} where
  abbrev pub set_outside : World P → P.Outside → World P
  set_outside w s = record w { outside = s }

  -- A call of something outside.
  unfoldable pub outside : {A : Type 0} → M P.Outside A → M (World P) A
  outside m w = let (o, s) = m w.outside in (o, set_outside w s)

  unfoldable pub edit_files : (Files → Files) → M (World P) (Unit {0})
  edit_files f w = (ok tt, record w { files = f w.files })
