-- ===== src/Sources.antt =====
-- pkg/source/source.go: what a source offers to the controller and to the source before it.
pub mod Decide
pub mod Http
pub mod ConfigMap
pub mod Url
pub mod Github
pub mod Gitlab
pub mod Forward
pub mod Chain
pub mod Download
pub mod Helm
use crd_bootstrap.Base.{String, Bool, Option, none, some, [], M, fail, msg}
use crd_bootstrap.Base.FilePath.{FilePath}
use crd_bootstrap.Api.{Bootstrap}
use crd_bootstrap.Platform.{Platform}
use crd_bootstrap.Platform.World.{World}

pub record Contract (P : Platform) : Type 0 where
  -- Writes the CRDs below a directory and returns where.
  pub fetch_crd : FilePath → Bootstrap → String → M (World P) FilePath
  -- Whether there is something to apply, and its revision.
  pub has_update : Bootstrap → M (World P) (Bool × String)

module _ {P : Platform} where
  -- What a source does when its own part of the spec is missing: the next source, if any.
  unfoldable pub fetch_next :
      String → Option (Contract P) → FilePath → Bootstrap → String → M (World P) FilePath
  fetch_next text none dir obj revision = fail (msg text [])
  fetch_next text (some next) dir obj revision = next.fetch_crd dir obj revision

  unfoldable pub has_update_next :
      String → Option (Contract P) → Bootstrap → M (World P) (Bool × String)
  has_update_next text none obj = fail (msg text [])
  has_update_next text (some next) obj = next.has_update obj
