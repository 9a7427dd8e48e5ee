-- ===== src/Platform/Keeps.antt =====
-- Rules for invariants of the files of the world.
use crd_bootstrap.Base.{ap, M, ◌≡◌, refl, Outcome, ok, err, panic, resume, ◌>>=◌}
use crd_bootstrap.Base.Keeps.{Keeps, Keeps-bind, Keeps-then, Keeps-from, Keeps-gets}
use crd_bootstrap.Base.FilePath.{FilePath}
use crd_bootstrap.Platform.{Platform, Body, remove_all}
use crd_bootstrap.Platform.World.{World, Node, put_node, erase_tree, outside, edit_files}
use crd_bootstrap.Platform.Os.{
  create_file, remove_tree, copy_body, close_file, close_body, open_path, read_all,
}

-- An invariant that is about the files alone, and a path that may be written.
pub record IsFileInvariant {P : Platform} (I : World P → Type 0) (p : FilePath) : Type 0 where
  pub outside : (w : World P) (s : P.Outside) → I w → I (record w { outside = s })
  pub client : (w : World P) (c : P.Client) → I w → I (record w { client = c })
  pub put : (w : World P) (n : Node) → I w → I (record w { files = put_node p n w.files })

module _ {P : Platform} {I : World P → Type 0} where
  pub Keeps-close_body : (b : Body) → Keeps I (close_body b)
  unfolding close_body
  Keeps-close_body b = Keeps-from _

module _ {P : Platform} {I : World P → Type 0} {p : FilePath} where
  pub Keeps-outside : {A : Type 0} → IsFileInvariant I p → (m : M P.Outside A) → Keeps I (outside m)
  unfolding outside
  Keeps-outside inv m = record { at = λ w i. inv.outside w (m w.outside).1 i }

  Keeps-put : IsFileInvariant I p → (n : Node) → Keeps I (edit_files {P = P} (put_node p n))
  unfolding edit_files
  Keeps-put inv n = record { at = λ w i. inv.put w n i }

  pub Keeps-create_file : IsFileInvariant I p → Keeps I (create_file p)
  unfolding create_file
  Keeps-create_file inv = Keeps-then (Keeps-outside inv _) (Keeps-put inv _)

  pub Keeps-copy_body : IsFileInvariant I p → (b : Body) → Keeps I (copy_body p b)
  unfolding copy_body
  Keeps-copy_body inv b =
      Keeps-then (Keeps-outside inv _) (Keeps-then (Keeps-put inv _) (Keeps-from _))

  pub Keeps-close_file : IsFileInvariant I p → (q : FilePath) → Keeps I (close_file q)
  unfolding close_file
  Keeps-close_file inv q = Keeps-outside inv _

  pub Keeps-open_path : IsFileInvariant I p → (q : FilePath) → Keeps I (open_path q)
  unfolding open_path
  Keeps-open_path inv q = Keeps-outside inv _

  pub Keeps-read_all : IsFileInvariant I p → (q : FilePath) → Keeps I (read_all q)
  unfolding read_all
  Keeps-read_all inv q =
      Keeps-bind (Keeps-outside inv _) λ _. Keeps-bind (Keeps-gets _) λ _. Keeps-from _

module _ {P : Platform} where
  -- What the removal leaves, if it succeeds.
  pub remove_tree_lem :
      (d : FilePath) (w : World P)
      → (P.os_call (remove_all d) w.outside).0 ≡ ok tt
      → (remove_tree d w).1.files ≡ erase_tree d w.files
  unfolding remove_tree outside edit_files ◌>>=◌
  remove_tree_lem d w e = removed (P.os_call (remove_all d) w.outside) e
    where
      removed :
          (p : Outcome (Unit {0}) × P.Outside)
          → p.0 ≡ ok tt
          → (resume (λ _. edit_files (erase_tree d)) (p.0, record w { outside = p.1 })).1.files
            ≡ erase_tree d w.files
      removed (ok _, s) h = refl
      removed (err _, s) h = cc
      removed (panic, s) h = cc

  pub remove_tree-ok :
      (d : FilePath) (w : World P)
      → (P.os_call (remove_all d) w.outside).0 ≡ ok tt
      → (remove_tree d w).0 ≡ ok tt
  unfolding remove_tree outside edit_files ◌>>=◌
  remove_tree-ok d w e =
      ap
        (λ o.
          (resume (λ _. edit_files (erase_tree d))
            (o, record w { outside = (P.os_call (remove_all d) w.outside).1 })).0)
        e
