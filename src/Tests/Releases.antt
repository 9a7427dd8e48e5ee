-- ===== src/Tests/Releases.antt =====
-- Examples of the theorems on the requests of the GitLab and the GitHub source.
use crd_bootstrap.Base.{◌≡◌, refl, none, some, [], ◌∷◌, ok, ◌>>=◌, false, arith}
use crd_bootstrap.Base.FilePath.{join_path}
use crd_bootstrap.Api
use crd_bootstrap.Platform.{Platform, Response, Link}
use crd_bootstrap.Platform.World.{World, file, find_node, outside}
use crd_bootstrap.Sources.Http.{do_request, choose_client, shared}
use crd_bootstrap.Sources.Gitlab
use crd_bootstrap.Sources.Gitlab.Total.{fetch_selected-IsAnswered}
use crd_bootstrap.Sources.Download.Total.{from_github, fetch_selected-IsServed}
use crd_bootstrap.Sources.Github
use crd_bootstrap.Sources.Github.Timeout.{has_update_selected-client}
use crd_bootstrap.Tests.{local, plain_semver, no_source, bootstrap}

-- Every request is answered, and every release has one link.
abbrev hosting : Platform
hosting = record local {
  http_do = λ c url s. (
    ok (record {
      status_code = 200;
      status = "200 OK";
      body = record { received = "crds"; read_error = none; close_error = none };
    }),
    s,
  );
  decode_links =
      λ s. ok (record { name = "crds.yaml"; url = "https://example.com/crds.yaml" } ∷ []);
}

abbrev whole : Response
whole = record {
  status_code = 200;
  status = "200 OK";
  body = record { received = "crds"; read_error = none; close_error = none };
}

abbrev asset : Link
asset = record { name = "crds.yaml"; url = "https://example.com/crds.yaml" }

abbrev empty : World hosting
empty = record { outside = 0; client = 0; files = [] }

abbrev project : Api.Gitlab
project = record {
  base_api_url = "";
  owner = "o";
  repo = "r";
  secret_ref = none;
  manifest = "crds.yaml";
}

abbrev obj : Api.Bootstrap
obj = bootstrap no_source "" "1" false

abbrev github_project : Api.Github
github_project = record {
  base_url = "";
  base_api_url = "";
  owner = "o";
  repo = "r";
  secret_ref = none;
  manifest = "crds.yaml";
}

has_update_selected-client_example :
    (Github.has_update_selected plain_semver {P = hosting} none
      (some github_project)
      obj
      empty).1.client
    ≡ 15_000_000_000
has_update_selected-client_example =
    has_update_selected-client {P = hosting} plain_semver none github_project obj empty refl

fetch_selected-IsAnswered_example :
    (t : World hosting) × (Gitlab.fetch_selected plain_semver none
        (some project)
        ("tmp" ∷ [])
        obj
        "2"
        empty
      ≡ (ok (join_path ("tmp" ∷ []) "crds.yaml"), t))
    × (find_node (join_path ("tmp" ∷ []) "crds.yaml") t.files ≡ some (file "crds"))
unfolding do_request choose_client outside ◌>>=◌
fetch_selected-IsAnswered_example =
    fetch_selected-IsAnswered {P = hosting} (λ c s. refl) project "2" ("tmp" ∷ []) obj empty empty
      empty empty shared whole whole (asset ∷ []) "https://example.com/crds.yaml" plain_semver none
      refl
      (record {
        valid = refl;
        answered = refl;
        at_least = omega arith;
        at_most = omega arith;
        complete = refl;
      })
      refl
      (record {
        before = [];
        link = asset;
        after = [];
        split = refl;
        others = tt;
        name = refl;
        address = refl;
      })
      (λ e. cc)
      (record {
        valid = refl;
        answered = refl;
        at_least = omega arith;
        at_most = omega arith;
        complete = refl;
      })

fetch_selected-IsServed_example :
    (t : World hosting) × (Github.fetch_selected plain_semver none
        (some github_project)
        ("tmp" ∷ [])
        obj
        "2"
        empty
      ≡ (ok (join_path ("tmp" ∷ []) "crds.yaml"), t))
    × (find_node (join_path ("tmp" ∷ []) "crds.yaml") t.files ≡ some (file "crds"))
unfolding do_request choose_client outside ◌>>=◌
fetch_selected-IsServed_example =
    fetch_selected-IsServed {P = hosting} (λ c s. refl) plain_semver none ("tmp" ∷ []) obj "2"
      (Github.fetch_selected plain_semver none (some github_project) ("tmp" ∷ []) obj "2") none
      (Github.download_url github_project "2") (join_path ("tmp" ∷ []) "crds.yaml") empty whole
      (from_github github_project)
      (record {
        client = shared;
        chosen_at = empty;
        answered_at = empty;
        valid = refl;
        chosen = refl;
        answered = refl;
        accepted = refl;
        complete = refl;
        closed = refl;
      })
