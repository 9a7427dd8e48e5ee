-- ===== src/Platform/Os.antt =====
-- The calls of `os` and `io` that the program makes, over the files of the world. Each may fail;
-- a failed call leaves the files as they were.
use crd_bootstrap.Base.{
  String, Option, none, some, [], ◌∷◌, M, pure, gets, from, ◌>>=◌, ◌>>◌, Outcome, ok, err, Error,
}
use crd_bootstrap.Base.FilePath.{FilePath}
use crd_bootstrap.Platform.{Platform, OsCall, Body, create, write, close, open_file, read}
use crd_bootstrap.Platform.{remove, remove_all, make_dir}
use crd_bootstrap.Platform.World.{
  World, Node, dir, file, outside, edit_files, find_node, put_node, erase_node, erase_tree,
}

-- The end of a stream: nothing more, or the error that cut it off.
abbrev pub end_of : Option Error → Outcome (Unit {0})
end_of none = ok tt
end_of (some e) = err e

abbrev pub content_of : Option Node → Outcome String
content_of (some (file s)) = ok s
content_of _ = err (Error.foreign "not a readable file")

module _ {P : Platform} where
  abbrev pub call : OsCall → M (World P) (Unit {0})
  call c = outside (P.os_call c)

  -- `os.MkdirTemp("", pattern)`
  unfoldable pub mkdir_temp : String → M (World P) FilePath
  unfolding put_node
  mkdir_temp pattern = do d ← outside (P.temp_dir pattern); edit_files (put_node d dir); pure d

  -- `os.CreateTemp("", pattern)`
  unfoldable pub create_temp : String → M (World P) FilePath
  unfolding put_node
  create_temp pattern = do
    p ← outside (P.temp_file pattern)
    edit_files (put_node p (file ""))
    pure p

  -- `os.Remove(p)`
  unfoldable pub remove_file : FilePath → M (World P) (Unit {0})
  unfolding erase_node
  remove_file p = do call (remove p); edit_files (erase_node p)

  -- `os.RemoveAll(d)`
  unfoldable pub remove_tree : FilePath → M (World P) (Unit {0})
  unfolding erase_tree
  remove_tree d = do call (remove_all d); edit_files (erase_tree d)

  -- `os.MkdirAll(p, perm)`
  unfoldable pub mkdir_all : FilePath → M (World P) (Unit {0})
  unfolding find_node put_node
  mkdir_all [] = pure tt
  mkdir_all (a ∷ p) =
      let parents = mkdir_all p in
      do
        node ← gets (λ w. find_node (a ∷ p) w.files)
        elim node [
          | some dir ↦ pure tt
          | some (file _) ↦ from (err (Error.foreign "not a directory"))
          | none ↦ do parents; call (make_dir (a ∷ p)); edit_files (put_node (a ∷ p) dir)
        ]

  -- `os.Create(p)`
  unfoldable pub create_file : FilePath → M (World P) (Unit {0})
  unfolding put_node
  create_file p = do call (create p); edit_files (put_node p (file ""))

  -- `io.Copy(wf, resp.Body)`: what has arrived is written, also when the stream breaks off.
  unfoldable pub copy_body : FilePath → Body → M (World P) (Unit {0})
  unfolding put_node
  copy_body p b = do
    call (write p)
    edit_files (put_node p (file b.received))
    from (end_of b.read_error)

  -- `os.WriteFile(p, content, perm)`
  unfoldable pub write_file : FilePath → String → M (World P) (Unit {0})
  unfolding put_node
  write_file p content = do
    call (create p)
    edit_files (put_node p (file ""))
    call (write p)
    edit_files (put_node p (file content))

  unfoldable pub close_file : FilePath → M (World P) (Unit {0})
  close_file p = call (close p)

  unfoldable pub close_body : Body → M (World P) (Unit {0})
  close_body b = from (end_of b.close_error)

  -- `os.Open(p)`: there must be an entry.
  unfoldable pub open_path : FilePath → M (World P) (Unit {0})
  open_path p = call (open_file p)

  -- The content of an open file, read to its end.
  unfoldable pub read_all : FilePath → M (World P) String
  unfolding find_node
  read_all p = do call (read p); node ← gets (λ w. find_node p w.files); from (content_of node)
