-- ===== src/Lib.antt =====
-- A verification library of the crd-bootstrap controller, which keeps custom resource definitions
-- (CRDs) of a cluster up to date with a source. A `Bootstrap` resource names the source, a
-- constraint on versions or a digest, and how to go about it. The controller asks the source
-- whether there is an update, fetches it into a temporary directory, reads, labels and checks its
-- CRDs, applies them on the server's side, and records the revision in the resource's status.
--
-- Parts:
-- - Api: the resource, api/v1alpha1/bootstrap_types.go and constants.go. Records have the fields
--   of the Go structs; an optional pointer is an `Option`.
-- - Breaking: pkg/breaking/detector.go, DetectBreakingChanges and the functions under it.
--   Breaking/Compatible is about when nothing is reported.
-- - Sources: the contract of pkg/source/source.go, and the step to the next source. Decide is the
--   decision on a latest version that HasUpdate of several sources repeats; Http is
--   pkg/source/auth and the choice of a client; ConfigMap, Url, Github and Gitlab are the sources
--   of those names below pkg/source. Helm is HasUpdate of pkg/source/helm and what is under it;
--   Helm/Chart is its FetchCRD with the credentials, and Helm/Bundle is createCrdYaml and
--   appendFilesToCrds. In each source, `fetch_crd` is FetchCRD and `has_update` HasUpdate;
--   `fetch_selected` and `has_update_selected` are the same after the look at the spec's source.
--   Forward is the interface "an update that is reported is newer", which Controller/History uses
--   and four sources fill; Helm/Listing says where the versions of the Helm source come from; Chain is the chain of all sources from cmd/main.go, and Chain/Choice is
--   about which of them answers; Download is about the files that two of the sources write, and
--   Gitlab/Fetch about what the third does.
--   Download/Total and Gitlab/Total are about when the downloads succeed.
-- - Memory: api/v1alpha1/zz_generated.deepcopy.go over a store of cells. The structs of the
--   resource are there once more, with addresses for pointers, maps and slices; Copy and Resource
--   have each `DeepCopyInto` as `..._deep_copy_into`, Objects each `DeepCopy` and
--   `DeepCopyObject`. Shows says which value of Api some cells hold, Carry that more cells still
--   do, Extends and Copies what a copy does to the store; Separate has the theorem.
-- - Program: cmd/main.go, the registration of the API group in api/v1alpha1/groupversion_info.go,
--   and SetupWithManager. Steps is a process that records what it asks for and ends at the first
--   failure; Main has init, main and what they call; Runs says how a run follows a plan of steps;
--   Startup has the plan of a start and the theorem on it.
-- - Controller: internal/controller. Objects has readObjects and NewResourceManager of apply.go,
--   and detectBreakingChanges, validateObjects, the labels and the counts of
--   bootstrap_controller.go; Reconcile is the method of that name, cut into a function per stage
--   (reconcile, reconcile_live, update_object, install, check_and_apply, apply_objects); Delete
--   is reconcileDelete. Keeps, Checks, Update, Apply and Files carry a property through a run;
--   Liveness, Success and Convergence are about runs that succeed, Failures about those that do
--   not, Validation and Contents about what the objects are; Installs is the first update from a
--   config map by the whole chain and the whole run, and Bare the cluster that it starts from;
--   Advance is what a whole update is, and Advance/Stages carries it through the run; Safety, Dispatch, Progress, History,
--   Counting, Cleanup, Delete/Release and Delete/Done have further theorems.
-- - Base and Platform: shared types, lemmas and automation, and what the program uses of others.
--   Platform/Walk is filepath.Walk over the files of the world.
-- - Tests: a small concrete cluster, tests that evaluate, and an example for each theorem.
--
-- How the code is modelled. A function that may return an error or panic and that changes state is
-- a function from the state to an `Outcome` and the state (`M`). Deferred calls are `deferring`:
-- they run on every outcome, and their error is joined, or lost where the code loses it
-- (`ignoring`). `Outcome` has no value beside an error.
-- An error keeps its text, its arguments and what it wraps. The state of a run (`Run`) is the
-- world, the resource that the pointer `obj` leads to, and the list of the writes to a cluster that
-- the run has asked for, the last one first. The world (`World`) is the shared HTTP client, the
-- files, and one unknown state of everything outside, which each outside call may change: so other
-- actors may act between any two calls. Texts are sequences of characters. Counts wrap at 64 bits;
-- durations are only copied. The files are a list of paths, each with a directory or the
-- content of a regular file. Every loop of the code is over a list and is
-- structural recursion, except filepath.Walk, which descends on fuel: the greatest length of a path
-- among the files when it starts, and one more, which is enough, since no directory below the root
-- has a longer path (Platform/Walk/Trees and Platform/Walk/Total).
--
-- Parameters, for code that is not the program's: `Semver` (Masterminds/semver), `OpenApi`
-- (libopenapi, encoding/json), `Platform` (net/http, oauth2, os calls, secrets and config maps,
-- and what the Helm source uses of helm, oras, docker/cli and yaml), `Cluster`
-- (controller-runtime, fluxcd/pkg, apimachinery), `Runtime` (what cmd/main.go uses of client-go,
-- controller-runtime and flag), `Library` (the deep copies of types of other modules), and
-- `sort.Slice`, since the order of equal elements is open. Besides what a theorem itself
-- supposes, what is assumed of them stands in six records: `IsOrdered`, that versions are
-- ordered and that the empty text is none; `IsLabelled`, that labels which are set are read back
-- and leave the kind alone; `IsSorting`, that a sorted slice has the same elements, in order;
-- `IsCopying`, that a deep copy gives an equal value; `IsHealthy`, that no call of the system
-- and no request to the cluster fails; and `IsBare`, that no CRD is found in the states before an
-- apply, which calls that do not write to the cluster do not leave.
--
-- Not modelled: the loop of the manager that calls `Reconcile`, which is controller-runtime's;
-- logging; the cancellation of contexts; the handles of open files, whose calls are there but
-- which no call of the program shares; symbolic links, and changes that others make to the files
-- of a run.
pub mod Base
pub mod Api
pub mod Platform
pub mod Memory
pub mod Program
pub mod Sources
pub mod Breaking
pub mod Controller
pub mod Tests
