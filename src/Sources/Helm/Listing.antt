-- ===== src/Sources/Helm/Listing.antt =====
-- Where the versions of the Helm source come from: the tags of a registry, or the index of a
-- repository.
use crd_bootstrap.Base.{
  ℕ, ◌≤◌, String, ◌≡◌, sym, ◌∙◌, ap, true, false, Option, none, some, List, ok, Error, M, ltb, ◌||◌,
  fail_if, bind-eq-ok, map_err-eq-ok, or_fail-eq-ok, ok-injective, wrapping, from, pure, gets,
  deferring, and_then-eq-ok, arith, ◌>>◌, Bool-cases, inl, inr,
}
use crd_bootstrap.Base.Keeps.{join_outcome-eq-ok}
use crd_bootstrap.Base.Dict.{Dict, lookup}
use crd_bootstrap.Base.FilePath.{FilePath}
use crd_bootstrap.Api
use crd_bootstrap.Api.{LocalObjectReference, password_key, docker_json_config_key}
use crd_bootstrap.Platform.{Platform, Response, read}
use crd_bootstrap.Platform.World.{World, file, find_node, outside}
use crd_bootstrap.Platform.Os.{call, content_of, open_path, read_all, close_body}
use crd_bootstrap.Sources.Http.{ClientRef, shared, owned, do_request}
use crd_bootstrap.Sources.Download.{copy_body-IsStored}
use crd_bootstrap.Sources.Helm.{
  trim_prefix, configure_transport_for_oci_repo, configure_transport,
  find_versions_for_oci_registry, configure_http_credentials, choose_http_client,
  find_versions_for_http_repository, find_versions,
}

-- What is deferred does not make a result.
deferring-eq-ok :
    {S A : Type 0} (close : M S (Unit {0})) (m : M S A) (s : S) (a : A)
    → (deferring close m s).0 ≡ ok a
    → (m s).0 ≡ ok a
unfolding deferring
deferring-eq-ok close m s a e = join_outcome-eq-ok _ _ a e

accepted_lem :
    (n : ℕ) (x : Error) (a : Unit {0})
    → fail_if (ltb n 200 || ltb 299 n) x ≡ ok a
    → (200 ≤ n) × (n ≤ 299)
accepted_lem n x a e = (ground arith, ground arith)

module _ {P : Platform} (namespace : String) where
  -- The repository as it is asked for its tags: with the credentials of the secret, if there is one.
  pub data IsOpened (start : World P) (repository src : P.Repository)
      : Option LocalObjectReference → Type 0 where
    anonymous : src ≡ repository → IsOpened start repository src none
    authorised :
        (ref : LocalObjectReference) (secret : Dict String) (config : String)
        (auths : Dict (String × String)) (auth : String × String)
        → (P.get_secret ref.name namespace start.outside).0 ≡ ok secret
        → lookup docker_json_config_key secret ≡ some config
        → P.load_docker_config config ≡ ok auths
        → lookup (P.host repository) auths ≡ some auth
        → src ≡ P.with_credentials auth.0 auth.1 repository
        → IsOpened start repository src (some ref)

  -- The client that asks for the index: the shared one, or one with the token of the secret.
  pub data IsClient (start : World P) (client : ClientRef P)
      : Option LocalObjectReference → Type 0 where
    plain : client ≡ shared → IsClient start client none
    with_token :
        (ref : LocalObjectReference) (secret : Dict String) (token : String)
        → (P.get_secret ref.name namespace start.outside).0 ≡ ok secret
        → lookup password_key secret ≡ some token
        → client ≡ owned (P.oauth_client token)
        → IsClient start client (some ref)

  -- The tags of the repository that the reference names.
  pub record IsTagged (h : Api.Helm) (start : World P) (versions : List String) : Type 0 where
    pub repository : P.Repository
    pub made : P.new_repository (trim_prefix h.chart_reference "oci://") ≡ ok repository
    pub src : P.Repository
    pub opened : IsOpened start repository src h.secret_ref
    pub at : P.Outside
    pub tagged : (P.tags src at).0 ≡ ok versions

  -- The versions of the chart in a whole index that the repository has served.
  pub record IsIndexed (h : Api.Helm) (start : World P) (versions : List String) : Type 0 where
    pub address : String
    pub joined : P.join_url h.chart_reference "index.yaml" ≡ ok address
    pub client : ClientRef P
    pub chosen : IsClient start client h.secret_ref
    pub before : World P
    pub response : Response
    pub answered : (do_request client address before).0 ≡ ok response
    pub accepted : (200 ≤ response.status_code) × (response.status_code ≤ 299)
    pub complete : response.body.read_error ≡ none
    pub entries : Dict (List String)
    pub decoded : P.decode_index response.body.received ≡ ok entries
    pub found : lookup h.chart_name entries ≡ some versions

  pub data IsListed (h : Api.Helm) (start : World P) (versions : List String) : Type 0 where
    registry :
        P.is_oci h.chart_reference ≡ true → IsTagged h start versions → IsListed h start versions
    index :
        P.is_oci h.chart_reference ≡ false → IsIndexed h start versions → IsListed h start versions

  configure_transport-IsOpened :
      (ref : Option LocalObjectReference) (repository src : P.Repository) (w : World P)
      → (configure_transport ref namespace repository w).0 ≡ ok src
      → IsOpened w repository src ref
  unfolding configure_transport configure_transport_for_oci_repo wrapping outside from pure
  configure_transport-IsOpened none repository src w e = anonymous (sym (ok-injective e))
  configure_transport-IsOpened (some ref) repository src w e =
      let (secret, got, e1, _) = bind-eq-ok _ _ w _ (map_err-eq-ok _ _ e) in
      let (config, configured, e2, _) = bind-eq-ok _ _ _ _ e1 in
      let (_, _, e3, _) = bind-eq-ok _ _ _ _ e2 in
      let (auths, loaded, e4, _) = bind-eq-ok _ _ _ _ (deferring-eq-ok _ _ _ _ e3) in
      let (auth, known, e5, _) = bind-eq-ok _ _ _ _ e4 in
      authorised ref secret config auths auth (map_err-eq-ok _ _ got) (or_fail-eq-ok _ _ configured)
        (map_err-eq-ok _ _ loaded) (or_fail-eq-ok _ _ known) (sym (ok-injective e5))

  choose_http_client-IsClient :
      (ref : Option LocalObjectReference) (client : ClientRef P) (w : World P)
      → (choose_http_client ref namespace w).0 ≡ ok client
      → IsClient w client ref
  unfolding choose_http_client configure_http_credentials wrapping outside from pure
  choose_http_client-IsClient none client w e = plain (sym (ok-injective e))
  choose_http_client-IsClient (some ref) client w e =
      let (secret, got, e1, _) = bind-eq-ok _ _ w _ e in
      let (token, tokens, same) = and_then-eq-ok _ _ (map_err-eq-ok _ _ e1) in
      with_token ref secret token (map_err-eq-ok _ _ got) (or_fail-eq-ok _ _ tokens)
        (sym (ok-injective same))

  registry-IsTagged :
      (h : Api.Helm) (w : World P) (versions : List String)
      → (find_versions_for_oci_registry h namespace w).0 ≡ ok versions
      → IsTagged h w versions
  unfolding find_versions_for_oci_registry wrapping outside from
  registry-IsTagged h w versions e =
      let (repository, made, e1, _) = bind-eq-ok _ _ w _ e in
      let (src, opened, e2, _) = bind-eq-ok _ _ _ _ e1 in
      record {
        repository = repository;
        made = map_err-eq-ok _ _ made;
        src = src;
        opened = configure_transport-IsOpened h.secret_ref repository src _ opened;
        at = _;
        tagged = map_err-eq-ok _ _ e2;
      }

  reads_lem :
      (path : FilePath) (text content : String) (w : World P)
      → find_node path w.files ≡ some (file text)
      → ((open_path path >> read_all path) w).0 ≡ ok content
      → content ≡ text
  unfolding open_path read_all outside from gets
  reads_lem path text content w holds e =
      let (_, _, e1, _) = bind-eq-ok (open_path path) _ w content e in
      let (_, _, e2, _) = bind-eq-ok (call (read path)) _ _ content e1 in
      let (node, got, e3, _) = bind-eq-ok (gets (λ v. find_node path v.files)) _ _ content e2 in
      let here : some (file text) ≡ node = sym holds ∙ ok-injective got in
      sym (ok-injective (ap content_of here ∙ e3))

  repository-IsIndexed :
      (h : Api.Helm) (w : World P) (versions : List String)
      → (find_versions_for_http_repository h namespace w).0 ≡ ok versions
      → IsIndexed h w versions
  unfolding find_versions_for_http_repository wrapping from close_body
  repository-IsIndexed h w versions e =
      let (address, joined, e1, _) = bind-eq-ok _ _ w _ e in
      let (_, _, e2, _) = bind-eq-ok _ _ _ _ e1 in
      let (client, chosen, e3, _) = bind-eq-ok _ _ _ _ e2 in
      let (response, answered, e4, _) = bind-eq-ok _ _ _ _ e3 in
      let (a, tested, e5, _) = bind-eq-ok _ _ _ _ e4 in
      let (temp, _, e6, _) = bind-eq-ok _ _ _ _ (deferring-eq-ok _ _ _ _ e5) in
      let (b, copied, e7, _) = bind-eq-ok _ _ _ _ (deferring-eq-ok _ _ _ _ e6) in
      let (content, reads, e8, _) = bind-eq-ok _ _ _ _ e7 in
      let (entries, decoded, e9, _) = bind-eq-ok _ _ _ _ e8 in
      let (complete, stored) =
        copy_body-IsStored temp response.body _ b (map_err-eq-ok _ _ copied) in
      let same = reads_lem temp response.body.received content _ stored (map_err-eq-ok _ _ reads) in
      record {
        address = address;
        joined = map_err-eq-ok _ _ joined;
        client = client;
        chosen = choose_http_client-IsClient h.secret_ref client _ chosen;
        before = _;
        response = response;
        answered = answered;
        accepted = accepted_lem response.status_code _ a tested;
        complete = complete;
        entries = entries;
        decoded = ap P.decode_index (sym same) ∙ decoded;
        found = or_fail-eq-ok _ _ e9;
      }

  pub find_versions-IsListed :
      (h : Api.Helm) (w : World P) (versions : List String)
      → (find_versions h namespace w).0 ≡ ok versions
      → IsListed h w versions
  unfolding find_versions
  find_versions-IsListed h w versions e = elim (Bool-cases (P.is_oci h.chart_reference)) [
    | inl oci ↦ registry oci (registry-IsTagged h w versions (rw oci at e))
    | inr http ↦ index http (repository-IsIndexed h w versions (rw http at e))
  ]
