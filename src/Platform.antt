-- ===== src/Platform.antt =====
-- What the program uses of code that is not its own, as parameters: semantic versions
-- (Masterminds/semver), the network, secrets and config maps of the cluster, and the operating
-- system. Everything that such a call can see or change is one unknown state, `Outside`.
pub mod World
pub mod Os
pub mod Files
pub mod Keeps
pub mod Walk
use crd_bootstrap.Base.{ℕ, String, ◌≡◌, ◌≢◌, ok, Bool, true, false, Option, List, Outcome, Error, M}
use crd_bootstrap.Base.Dict.{Dict}
use crd_bootstrap.Base.FilePath.{FilePath, Node, Files as NodeMap}

-- github.com/Masterminds/semver/v3
pub record Semver : Type 1 where
  pub Version : Type 0
  pub Constraint : Type 0
  pub new_version : String → Outcome Version
  pub new_constraint : String → Outcome Constraint
  pub check : Constraint → Version → Bool
  pub equal : Version → Version → Bool
  pub greater_than : Version → Version → Bool
  pub original : Version → String

-- The documented order of versions: `Equal` and `GreaterThan` come from one total comparison, and
-- the empty text is no version (`ErrEmptyString`).
pub record IsOrdered (S : Semver) : Type 0 where
  pub equal_refl : (v : S.Version) → S.equal v v ≡ true
  pub irreflexive : (v : S.Version) → S.greater_than v v ≡ false
  pub total :
      (v w : S.Version)
      → S.equal v w ≡ false
      → S.greater_than v w ≡ false
      → S.greater_than w v ≡ true
  pub transitive :
      (u v w : S.Version)
      → S.greater_than u v ≡ true
      → S.greater_than v w ≡ true
      → S.greater_than u w ≡ true
  pub no_empty : (v : S.Version) → S.new_version "" ≢ ok v

-- The body of a response: what arrives, the error that ends the reading, that of closing.
pub record Body : Type 0 where
  pub received : String
  pub read_error : Option Error
  pub close_error : Option Error

pub record Response : Type 0 where
  pub status_code : ℕ
  pub status : String
  pub body : Body

-- A link of a GitLab release's assets.
pub record Link : Type 0 where
  pub name : String
  pub url : String

-- Calls of the operating system that may fail for reasons outside the program.
pub data OsCall : Type 0 where
  create write close open_file read remove remove_all make_dir lstat read_dir open_root :
      FilePath → OsCall

-- An option of a helm getter; `C` are the clients of registries.
pub data GetterOption (C : Type 0) : Type 0 where
  with_basic_auth : String → String → GetterOption C
  with_pass_credentials_all : Bool → GetterOption C
  with_registry_client : C → GetterOption C
  with_untar : GetterOption C

-- `downloader.ChartDownloader`, as far as it differs from call to call.
pub record ChartDownloader (C : Type 0) : Type 0 where
  pub options : List (GetterOption C)
  pub registry_client : Option C

pub record Platform : Type 1 where
  pub Outside : Type 0
  -- net/http and golang.org/x/oauth2
  pub Client : Type 0
  pub with_timeout : ℕ → Client → Client
  pub oauth_client : String → Client
  pub new_request : String → Outcome (Unit {0})
  pub http_do : Client → String → M Outside Response
  -- encoding/json into the program's `meta` types, and crypto/sha256 with encoding/hex
  pub decode_tag : Body → Outcome String
  pub decode_links : String → Outcome (List Link)
  pub sha256_hex : String → String
  -- the cluster's objects that sources read
  pub get_secret : String → String → M Outside (Dict String)
  pub get_config_map : String → String → M Outside (Dict String)
  -- net/url
  pub join_url : String → String → Outcome String
  -- gopkg.in/yaml into the program's `results`: the versions of each entry of an index
  pub decode_index : String → Outcome (Dict (List String))
  -- helm.sh/helm: whether a reference is that of an OCI registry
  pub is_oci : String → Bool
  -- oras.land/oras-go: a repository, its host, its credentials, and all tags of all pages
  pub Repository : Type 0
  pub new_repository : String → Outcome Repository
  pub host : Repository → String
  pub with_credentials : String → String → Repository → Repository
  pub tags : Repository → M Outside (List String)
  -- docker/cli: user and password for each host
  pub load_docker_config : String → Outcome (Dict (String × String))
  -- what `Save` writes into the file of a configuration
  pub save_docker_config : FilePath → Dict (String × String) → M Outside String
  -- helm.sh/helm: a registry client with a file of credentials; the download of a chart into a
  -- directory, with the path of what was downloaded and the entries it leaves; and the entries that
  -- an archive, given by path and entry, expands to in a directory
  pub RegistryClient : Type 0
  pub new_registry_client : FilePath → M Outside RegistryClient
  pub download_to :
      ChartDownloader RegistryClient → String → String → FilePath → M Outside (FilePath × NodeMap)
  pub expand_file : FilePath → FilePath → Option Node → M Outside NodeMap
  -- os: the name of a new temporary file
  pub temp_file : String → M Outside FilePath
  -- os: the name of a new temporary directory, and whether a call succeeds
  pub temp_dir : String → M Outside FilePath
  pub os_call : OsCall → M Outside (Unit {0})
