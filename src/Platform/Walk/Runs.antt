-- ===== src/Platform/Walk/Runs.antt =====
-- Computations that return and add text to one file, and the walk of a tree by such a callback.
use mathlib.Core.Path.{subst}
use text.Mathlib.TextLemmas.{nil-append}
use crd_bootstrap.Base.{
  String, ◌<>◌, ◌≡◌, refl, sym, ap, ◌∙◌, false, Option, none, some, List, ◌∷◌, Outcome, Error, ok,
  err, M, ◌>>=◌, resume, wrapping, map_err,
}
use crd_bootstrap.Base.FilePath.{FilePath, under}
use crd_bootstrap.Platform.{Platform, OsCall, write}
use crd_bootstrap.Platform.World.{World, Files, append_node, outside, set_outside}
use crd_bootstrap.Platform.Os.{call}
use crd_bootstrap.Platform.Walk.Trees.{
  Tree, leaf, branch, Kids, end, kid, HasTree, HasKids, find-append_ne, names_in-append,
  append_node-nil, append_node-append, under-parent, not_under-same,
}

-- Writes fail with the error, if there is one, and no other call of the system fails.
abbrev pub answer : Option Error → OsCall → Outcome (Unit {0})
answer failure (write p) = elim failure [ none ↦ ok tt | some e ↦ err e ]
answer failure c = ok tt

-- What an attempt to write adds.
abbrev pub grow : Option Error → FilePath → String → Files → Files
grow none q s fs = append_node q s fs
grow (some e) q s fs = fs

pub grow-nil : (failure : Option Error) (q : FilePath) (fs : Files) → grow failure q "" fs ≡ fs
grow-nil none q fs = append_node-nil q fs
grow-nil (some e) q fs = refl

pub grow-append :
    (failure : Option Error) (q : FilePath) (a b : String) (fs : Files)
    → grow failure q b (grow failure q a fs) ≡ grow failure q (a <> b) fs
grow-append none q a b fs = append_node-append q a b fs
grow-append (some e) q a b fs = refl

mutual
  unfolding HasTree

  HasTree-append :
      (q p : FilePath) (s : String) (fs : Files) (t : Tree)
      → under p q ≡ false
      → HasTree fs p t
      → HasTree (append_node q s fs) p t
  HasTree-append q p s fs (leaf x) u h = find-append_ne p q s fs (not_under-same p q u) ∙ h
  HasTree-append q p s fs (branch ks) u h = (
    find-append_ne p q s fs (not_under-same p q u) ∙ h.0,
    names_in-append p q s fs ∙ h.1,
    HasKids-append q p s fs ks u h.2,
  )

  HasKids-append :
      (q p : FilePath) (s : String) (fs : Files) (ks : Kids)
      → under p q ≡ false
      → HasKids fs p ks
      → HasKids (append_node q s fs) p ks
  HasKids-append q p s fs end u h = tt
  HasKids-append q p s fs (kid name t ks) u h = (
    HasTree-append q (name ∷ p) s fs t (under-parent p q name u) h.0,
    HasKids-append q p s fs ks u h.1,
  )

pub HasKids-grow :
    (failure : Option Error) (q p : FilePath) (s : String) (fs : Files) (ks : Kids)
    → under p q ≡ false
    → HasKids fs p ks
    → HasKids (grow failure q s fs) p ks
HasKids-grow none q p s fs ks u h = HasKids-append q p s fs ks u h
HasKids-grow (some e) q p s fs ks u h = h

module _ {P : Platform} (failure : Option Error) (q : FilePath) where
  -- The computation returns the value, and has tried to add the text to the file.
  pub record Runs {A : Type 0} (m : M (World P) A) (w : World P) (a : A) (s : String) : Type 0 where
    pub after : World P
    pub ran : m w ≡ (ok a, after)
    pub files : after.files ≡ grow failure q s w.files

module _ {P : Platform} {failure : Option Error} {q : FilePath} where
  pub Runs-quiet :
      {A : Type 0} {m : M (World P) A} {w : World P} {a : A} (after : World P)
      → m w ≡ (ok a, after)
      → after.files ≡ w.files
      → Runs failure q m w a ""
  Runs-quiet {w} after e same = record {
    after = after;
    ran = e;
    files = same ∙ sym (grow-nil failure q w.files);
  }

  pub Runs-bind :
      {A B : Type 0} {m : M (World P) A} (f : A → M (World P) B) {w : World P} {a : A} {b : B}
      {s t : String}
      → Runs failure q m w a s
      → ((v : World P) → v.files ≡ grow failure q s w.files → Runs failure q (f a) v b t)
      → Runs failure q (m >>= f) w b (s <> t)
  unfolding ◌>>=◌
  Runs-bind f {w} {s} {t} h k =
      let next = k h.after h.files in
      record {
        after = next.after;
        ran = ap (resume f) h.ran ∙ next.ran;
        files = next.files ∙ ap (grow failure q t) h.files ∙ grow-append failure q s t w.files;
      }

  -- A step that adds nothing.
  pub Runs-after :
      {A B : Type 0} {m : M (World P) A} (f : A → M (World P) B) {w : World P} {a : A} {b : B}
      {t : String}
      → Runs failure q m w a ""
      → ((v : World P) → v.files ≡ w.files → Runs failure q (f a) v b t)
      → Runs failure q (m >>= f) w b t
  Runs-after {m} f {w} {b} {t} h k =
      subst (Runs failure q (m >>= f) w b) (nil-append t)
        (Runs-bind f h λ v e. k v (e ∙ grow-nil failure q w.files))

  pub Runs-call :
      (c : OsCall)
      → ((s : P.Outside) → (P.os_call c s).0 ≡ ok tt)
      → (w : World P) → Runs failure q (call c) w tt ""
  unfolding outside
  Runs-call c calm w =
      Runs-quiet (set_outside w (P.os_call c w.outside).1)
        (ap (λ o. (o, set_outside w (P.os_call c w.outside).1)) (calm w.outside)) refl

  pub Runs-wrapping :
      {A : Type 0} (text : String) (args : List String) {m : M (World P) A} {w : World P} {a : A}
      {s : String}
      → Runs failure q m w a s
      → Runs failure q (wrapping text args m) w a s
  unfolding wrapping
  Runs-wrapping text args h = record {
    after = h.after;
    ran = ap (λ p. (map_err (Error.wrap text args) p.0, p.1)) h.ran;
    files = h.files;
  }
