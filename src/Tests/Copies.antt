-- ===== src/Tests/Copies.antt =====
-- A test of the deep copies, and an example of the theorem on them.
use crd_bootstrap.Base.{◌≡◌, refl, true, false, none, some, [], ◌∷◌, arith, ok, ◌>>=◌}
use crd_bootstrap.Api
use crd_bootstrap.Memory.{Cell, Heap, load, new, cell_at}
use crd_bootstrap.Memory.Shows.{nowhere, there, plain, url, source, spec, status, bootstrap, object}
use crd_bootstrap.Memory.Copy.{Library, IsCopying}
use crd_bootstrap.Memory.Objects.{Object, deep_copy_object}
use crd_bootstrap.Memory.Extends.{From, Gives}
use crd_bootstrap.Memory.Separate.{
  write, Writes, ShowsResult, ShowsGiven, given, no_old, old, no_new, new as is_new, resource,
  deep_copy_object-Gives,
}

abbrev library : Library
library = record {
  copy_object_meta = λ m. m;
  copy_condition = λ c. c;
  copy_json = λ s. s;
  copy_kube_reference = λ s. s;
}

library-IsCopying : IsCopying library
library-IsCopying = record {
  object_meta = λ m. refl;
  condition = λ c. refl;
  json = λ s. refl;
  kube_reference = λ s. refl;
}

abbrev secret : Api.LocalObjectReference
secret = record { name = "credentials" }

-- A resource at address 4, with a URL source and with a count of one applied definition.
abbrev stored : Heap
stored =
    Cell.counts (("crds", 1) ∷ [])
    ∷ Cell.reference secret
    ∷ Cell.url (record { url = "example.com"; secret_ref = some 1 })
    ∷ Cell.source
        (record { github = none; gitlab = none; helm = none; config_map = none; url = some 2 })
    ∷ Cell.bootstrap (record {
      metadata = record {
        name = "b";
        namespace = "n";
        generation = 1;
        finalizers = [];
        deletion_timestamp = none;
      };
      spec = record {
        interval = 5;
        source = some 3;
        version = record { semver = ""; digest = "" };
        template = none;
        continue_on_validation_error = false;
        prune = true;
        ignore_breaking_changes = false;
        kube_config = none;
      };
      status = record {
        observed_generation = 0;
        conditions = none;
        last_applied_crd_names = some 0;
        last_attempted_revision = "";
        last_applied_revision = "";
        breaking_changes = none;
      };
    })
    ∷ []

abbrev shown : Api.Bootstrap
shown = record {
  name = "b";
  namespace = "n";
  generation = 1;
  finalizers = [];
  deletion_timestamp = none;
  spec = record {
    interval = 5;
    source = some (record {
      github = none;
      gitlab = none;
      helm = none;
      config_map = none;
      url = some (record { url = "example.com"; secret_ref = some secret });
    });
    version = record { semver = ""; digest = "" };
    template = none;
    continue_on_validation_error = false;
    prune = true;
    ignore_breaking_changes = false;
    kube_config = none;
  };
  status = record {
    observed_generation = 0;
    conditions = [];
    last_applied_crd_names = some (("crds", 1) ∷ []);
    last_attempted_revision = "";
    last_applied_revision = "";
    breaking_changes = [];
  };
}

-- The count is changed in the resource, and another one in the copy.
abbrev to_old : Writes
to_old = (0, Cell.counts []) ∷ []

abbrev to_new : Writes
to_new = (8, Cell.counts (("crds", 2) ∷ [])) ∷ []

stored-shows : ShowsGiven (From 0 stored) (Object.bootstrap (some 4)) (some (resource shown))
unfolding cell_at
stored-shows = given (
    there (omega arith, refl)
      (object (
        bootstrap _
          (spec _
            (there (omega arith, refl)
              (source _ nowhere nowhere nowhere nowhere
                (there (omega arith, refl) (url _ (there (omega arith, refl) (plain secret))))))
            nowhere nowhere)
          (status _ nowhere (there (omega arith, refl) (plain _)) nowhere))))

copied_at :
    (deep_copy_object library (Object.bootstrap (some 4)) stored).0 ≡ ok (Object.bootstrap (some 9))
unfolding deep_copy_object ◌>>=◌ load new cell_at
copied_at = refl

deep_copy_object-Gives_example :
    Gives
      (λ g copy.
        ShowsResult (From 5 (write to_old g)) copy (some (resource shown))
        × ShowsGiven (From 0 (write to_new g)) (Object.bootstrap (some 4)) (some (resource shown)))
      stored
      (deep_copy_object library (Object.bootstrap (some 4)) stored)
deep_copy_object-Gives_example =
    deep_copy_object-Gives library library-IsCopying stored (Object.bootstrap (some 4))
      (some (resource shown)) to_old to_new stored-shows (old (omega arith) no_old)
      (is_new (omega arith) no_new)
