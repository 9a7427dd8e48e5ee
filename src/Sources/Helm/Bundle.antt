-- ===== src/Sources/Helm/Bundle.antt =====
-- `createCrdYaml` and `appendFilesToCrds` of pkg/source/helm/helm.go: the files of all directories
-- called `crds` below a directory, one after the other in one file. A path in a message stands there
-- by its names, the last one first.
pub mod Steps
pub mod Total
use crd_bootstrap.Base.{
  String, [], M, pure, wrapping, deferring, ignoring, ◌>>=◌, ◌>>◌, ◌==◌, if◌then◌else◌,
}
use crd_bootstrap.Base.FilePath.{FilePath, base_name, join_path}
use crd_bootstrap.Platform.{Platform, open_root, close, write}
use crd_bootstrap.Platform.World.{World, dir, file, append_node, edit_files}
use crd_bootstrap.Platform.Os.{call, create_file, close_file, open_path, read_all}
use crd_bootstrap.Platform.Walk.{Visit, walk}

module _ {P : Platform} where
  -- `_, _ = crds.WriteString(s)`: a write that fails changes nothing, and nobody learns of it.
  unfoldable pub write_string : FilePath → String → M (World P) (Unit {0})
  unfolding append_node
  write_string crds s = ignoring do call (write crds); edit_files (append_node crds s)

  unfoldable pub append_file : FilePath → Visit P
  unfolding write_string open_path read_all
  append_file crds path dir = pure tt
  append_file crds path (file _) = do
    content ← wrapping "failed to read file" path (open_path path >> read_all path)
    write_string crds "---\n"
    write_string crds content

  unfoldable pub append_files_to_crds : FilePath → FilePath → M (World P) (Unit {0})
  unfolding walk append_file
  append_files_to_crds crds root = do
    wrapping "failed to open root" root (call (open_root root))
    deferring (ignoring (call (close root))) (walk root (append_file crds))

  unfoldable pub append_crds : FilePath → Visit P
  unfolding append_files_to_crds
  append_crds crds path dir =
      if base_name path == "crds" then append_files_to_crds crds path else pure tt
  append_crds crds path (file _) = pure tt

  unfoldable pub create_crd_yaml : FilePath → FilePath → M (World P) (Unit {0})
  unfolding create_file close_file walk append_crds
  create_crd_yaml base temp_helm = do
    let crds = join_path base "crds.yaml"
    wrapping "failed to create crds bundle file" [] (create_file crds)
    deferring (close_file crds)
        (wrapping "failed to walk path" [] (walk temp_helm (append_crds crds)))
