-- ===== src/Sources/Helm/Bundle/Steps.antt =====
-- What each step of a walk over a chart adds to the bundle.
use mathlib.Core.Path.{subst}
use crd_bootstrap.Base.{
  String, ◌<>◌, ◌≡◌, refl, sym, ap, ◌∙◌, Bool, true, false, Option, none, some, [], Outcome, Error,
  ok, err, panic, M, pure, wrapping, deferring, ignoring, ◌>>=◌, resume, drop_error, join_outcome,
  ◌==◌, if◌then◌else◌,
}
use crd_bootstrap.Base.FilePath.{FilePath, base_name, under}
use crd_bootstrap.Platform.{Platform, OsCall, write, open_file, read, open_root, close}
use crd_bootstrap.Platform.World.{
  World, file, find_node, append_node, outside, edit_files, set_outside,
}
use crd_bootstrap.Platform.Os.{close_file, open_path, read_all}
use crd_bootstrap.Platform.Walk.{walk}
use crd_bootstrap.Platform.Walk.Trees.{Tree, leaf, branch, node_of, HasTree, texts}
use crd_bootstrap.Platform.Walk.Runs.{
  answer, grow, grow-nil, Runs, Runs-quiet, Runs-bind, Runs-after, Runs-call, Runs-wrapping,
}
use crd_bootstrap.Platform.Walk.Total.{Runs-gets, Runs-from, Runs-walk}
use crd_bootstrap.Sources.Helm.Bundle.{write_string, append_file, append_files_to_crds, append_crds}

-- The section of a file in the bundle.
abbrev pub section : String → Tree → String
section name (leaf s) = "---\n" <> s
section name (branch ks) = ""

-- All files below a directory called `crds`.
abbrev pub crds_section : String → Tree → String
crds_section name (leaf s) = ""
crds_section name (branch ks) = if name == "crds" then texts section name (branch ks) else ""

-- The sections of the files below each directory called `crds`, in the order of the names.
abbrev pub bundle : String → Tree → String
bundle name t = texts crds_section name t

module _ {P : Platform} (failure : Option Error) (q : FilePath)
    (calm : (c : OsCall) (s : P.Outside) → (P.os_call c s).0 ≡ answer failure c) where
  Runs-write_string : (s : String) (w : World P) → Runs failure q (write_string q s) w tt s
  unfolding write_string ◌>>=◌ edit_files outside
  Runs-write_string s w =
      let (v, e, f) = written failure (P.os_call (write q) w.outside) (calm (write q) w.outside) in
      record { after = v; ran = e; files = f }
    where
      step : Outcome (Unit {0}) × P.Outside → Outcome (Unit {0}) × World P
      step p = resume (λ _. edit_files (append_node q s)) (p.0, set_outside w p.1)

      ended : Outcome (Unit {0}) × P.Outside → Outcome (Unit {0}) × World P
      ended p = (drop_error (step p).0, (step p).1)

      written :
          (f : Option Error) (p : Outcome (Unit {0}) × P.Outside)
          → p.0 ≡ answer f (write q)
          → (v : World P) × (ended p ≡ (ok tt, v)) × (v.files ≡ grow f q s w.files)
      written none (ok u, o) e = (_, refl, refl)
      written none (err x, o) e = cc
      written none (panic, o) e = cc
      written (some x) (ok u, o) e = cc
      written (some x) (err y, o) e = (_, refl, refl)
      written (some x) (panic, o) e = cc

  Runs-append_file :
      (p : FilePath) (t : Tree) (w : World P)
      → under p q ≡ false
      → HasTree w.files p t
      → Runs failure q (append_file q p (node_of t)) w tt (section (base_name p) t)
  unfolding append_file HasTree pure open_path read_all
  Runs-append_file p (branch ks) w u h = Runs-quiet w refl refl
  Runs-append_file p (leaf s) w u h =
      Runs-after _
        (Runs-wrapping _ _ (
          Runs-after _ (Runs-call (open_file p) (calm (open_file p)) w) λ v same.
            Runs-after _ (Runs-call (read p) (calm (read p)) v) λ x again.
              Runs-after _
                (Runs-gets failure q calm _ x (some (file s)) (ap (find_node p) (again ∙ same) ∙ h))
                λ y last. Runs-from failure q calm (ok s) y s refl))
        λ v same. Runs-bind _ (Runs-write_string "---\n" v) λ x grown. Runs-write_string s x

  -- A deferred call that cannot fail and adds nothing.
  Runs-deferring :
      {A : Type 0} (close_it : M (World P) (Unit {0})) {m : M (World P) A} {w : World P} {a : A}
      {s : String}
      → ((v : World P) → Runs failure q close_it v tt "")
      → Runs failure q m w a s
      → Runs failure q (deferring close_it m) w a s
  unfolding ◌>>=◌
  Runs-deferring close_it {w} {a} {s} h r =
      let c = h r.after in
      record {
        after = c.after;
        ran =
            ap (λ p. (join_outcome p.0 (close_it p.1).0, (close_it p.1).1)) r.ran
            ∙ ap (λ x. (join_outcome (ok a) x.0, x.1)) c.ran;
        files = c.files ∙ grow-nil failure q r.after.files ∙ r.files;
      }

  Runs-ignoring :
      (m : M (World P) (Unit {0})) (w : World P) {s : String}
      → Runs failure q m w tt s
      → Runs failure q (ignoring m) w tt s
  unfolding ◌>>=◌
  Runs-ignoring m w r = record {
    after = r.after;
    ran = ap (λ p. (drop_error p.0, p.1)) r.ran;
    files = r.files;
  }

  Runs-append_files_to_crds :
      (p : FilePath) (t : Tree) (w : World P)
      → under p q ≡ false
      → HasTree w.files p t
      → Runs failure q (append_files_to_crds q p) w tt (texts section (base_name p) t)
  unfolding append_files_to_crds
  Runs-append_files_to_crds p t w u h =
      Runs-after _ (Runs-wrapping _ _ (Runs-call (open_root p) (calm (open_root p)) w)) λ v same.
        Runs-deferring _ (λ x. Runs-ignoring _ x (Runs-call (close p) (calm (close p)) x))
          (Runs-walk failure q calm (append_file q) section Runs-append_file p t v u
            (subst (λ fs. HasTree fs p t) (sym same) h))

  Runs-append_crds :
      (p : FilePath) (t : Tree) (w : World P)
      → under p q ≡ false
      → HasTree w.files p t
      → Runs failure q (append_crds q p (node_of t)) w tt (crds_section (base_name p) t)
  unfolding append_crds pure
  Runs-append_crds p (leaf s) w u h = Runs-quiet w refl refl
  Runs-append_crds p (branch ks) w u h = either (base_name p == "crds")
    where
      either :
          (b : Bool)
          → Runs failure q
              (if b then append_files_to_crds q p else pure tt)
              w
              tt
              (if b then texts section (base_name p) (branch ks) else "")
      either true = Runs-append_files_to_crds p (branch ks) w u h
      either false = Runs-quiet w refl refl

  pub Runs-bundle :
      (p : FilePath) (t : Tree) (w : World P)
      → under p q ≡ false
      → HasTree w.files p t
      → Runs failure q
          (deferring (close_file q) (wrapping "failed to walk path" [] (walk p (append_crds q))))
          w
          tt
          (bundle (base_name p) t)
  unfolding close_file
  Runs-bundle p t w u h =
      Runs-deferring _ (λ x. Runs-call (close q) (calm (close q)) x)
        (Runs-wrapping _ _
          (Runs-walk failure q calm (append_crds q) crds_section Runs-append_crds p t w u h))
