-- ===== src/Memory/Copies.antt =====
-- The deep copies of api/v1alpha1/zz_generated.deepcopy.go show what their originals show, in cells
-- of their own.
use crd_bootstrap.Base.{ℕ, ◌≤◌, Option, arith, M, length, ◌>>=◌}
use crd_bootstrap.Memory.{Cell, Heap, Ptr, load, new}
use crd_bootstrap.Memory.Shows.{
  Store, Points, Plain, ShowsGithub, ShowsGitlab, ShowsHelm, ShowsUrl, ShowsSource, nowhere, there,
  plain, github, gitlab, helm, url, source,
}
use crd_bootstrap.Memory.Carry.{
  IsCarried, Plain-IsCarried, carry-Points, github-IsCarried, gitlab-IsCarried, helm-IsCarried,
  url-IsCarried,
}
use crd_bootstrap.Memory.Copy.{
  copy_pointer, copy_value, copy_github, copy_gitlab, copy_helm, copy_url, copy_source,
  github_deep_copy_into, gitlab_deep_copy_into, helm_deep_copy_into, url_deep_copy_into,
  source_deep_copy_into,
}
use crd_bootstrap.Memory.Extends.{
  From, Extends, Gives, gives, Gives-resume, Gives-map, Extends-trans, Extends-refl, snoc-Extends,
  cell_at-length, Extends-IsWithin,
}

-- From what is shown at any address, `f` makes what is shown at addresses from `k` on.
abbrev pub Copies : {X A : Type 0} → ℕ → (Store → X → A → Type 0) → (X → M Heap X) → Type 0
Copies {X} {A} k R f =
    (h : Heap)
    → k ≤ length h
    → (c : X) (v : A) → R (From 0 h) c v
    → Gives (λ g d. R (From k g) d v) h (f c h)

module _ (k : ℕ) where
  pub Plain-Copies : {A : Type 0} (f : A → Cell) → Copies k (Plain f) copy_value
  unfolding copy_value ◌>>=◌
  Plain-Copies f h l _ _ (plain x) = gives (Extends-refl h) (plain x)

  pub copy_pointer-Copies :
      {A : Type 0} {R : Store → Cell → A → Type 0} {f : Cell → M Heap Cell}
      → IsCarried R
      → Copies k R f
      → Copies k (Points R) (copy_pointer f)
  unfolding copy_pointer load new ◌>>=◌
  copy_pointer-Copies m p h l _ _ nowhere = gives (Extends-refl h) nowhere
  copy_pointer-Copies m p h l _ _ (there (_, e) r) = rw e (
      Gives-resume _ (p h l _ _ r) (λ g d q t. gives (snoc-Extends g d) (
        there (omega (arith, l, q.longer), cell_at-length g d)
          (m _ _ (Extends-IsWithin k (snoc-Extends g d)) _ _ t))))

  -- The copy of a pointer by a struct's copy that has already made others.
  pub copy_next :
      {A : Type 0} {R : Store → Cell → A → Type 0} {f : Cell → M Heap Cell}
      → IsCarried R
      → Copies k R f
      → {h g : Heap} {p : Ptr} {v : Option A} → k ≤ length h
      → Extends h g
      → Points R (From 0 h) p v
      → Gives (λ g' q. Points R (From k g') q v) g (copy_pointer f p g)
  copy_next m c {g} l e s =
      copy_pointer-Copies m c g (omega (arith, l, e.longer)) _ _
        (carry-Points m (Extends-IsWithin 0 e) s)

  -- What was copied before is still there.
  pub copied_before :
      {A : Type 0} {R : Store → Cell → A → Type 0} {h g : Heap} {p : Ptr} {v : Option A}
      → IsCarried R
      → Extends h g
      → Points R (From k h) p v
      → Points R (From k g) p v
  copied_before m e s = carry-Points m (Extends-IsWithin k e) s

  refers-Copies : Copies k (Points (Plain Cell.reference)) (copy_pointer copy_value)
  refers-Copies = copy_pointer-Copies (Plain-IsCarried _) (Plain-Copies _)

  pub github-Copies : Copies k ShowsGithub copy_github
  unfolding copy_github github_deep_copy_into ◌>>=◌
  github-Copies h l _ _ (github x p) =
      Gives-map _
        (Gives-map _ (refers-Copies h l _ _ p) (λ g q t. github (record x { secret_ref = q }) t))
        (λ g y t. t)

  pub gitlab-Copies : Copies k ShowsGitlab copy_gitlab
  unfolding copy_gitlab gitlab_deep_copy_into ◌>>=◌
  gitlab-Copies h l _ _ (gitlab x p) =
      Gives-map _
        (Gives-map _ (refers-Copies h l _ _ p) (λ g q t. gitlab (record x { secret_ref = q }) t))
        (λ g y t. t)

  pub helm-Copies : Copies k ShowsHelm copy_helm
  unfolding copy_helm helm_deep_copy_into ◌>>=◌
  helm-Copies h l _ _ (helm x p) =
      Gives-map _
        (Gives-map _ (refers-Copies h l _ _ p) (λ g q t. helm (record x { secret_ref = q }) t))
        (λ g y t. t)

  pub url-Copies : Copies k ShowsUrl copy_url
  unfolding copy_url url_deep_copy_into ◌>>=◌
  url-Copies h l _ _ (url x p) =
      Gives-map _
        (Gives-map _ (refers-Copies h l _ _ p) (λ g q t. url (record x { secret_ref = q }) t))
        (λ g y t. t)

  pub source-Copies : Copies k ShowsSource copy_source
  unfolding copy_source source_deep_copy_into ◌>>=◌
  source-Copies h l _ _ (source x s1 s2 s3 s4 s5) =
      Gives-map _
        (Gives-resume _ (copy_next github-IsCarried github-Copies l (Extends-refl h) s1)
          λ _ _ e1 t1.
            Gives-resume _ (copy_next gitlab-IsCarried gitlab-Copies l e1 s2) λ _ _ e2 t2.
              let e12 = Extends-trans e1 e2 in
              Gives-resume _ (copy_next helm-IsCarried helm-Copies l e12 s3) λ _ _ e3 t3.
                let e13 = Extends-trans e12 e3 in
                Gives-resume _ (copy_next (Plain-IsCarried _) (Plain-Copies _) l e13 s4)
                  λ _ _ e4 t4.
                    let e14 = Extends-trans e13 e4 in
                    Gives-resume _ (copy_next url-IsCarried url-Copies l e14 s5) λ g _ e5 t5.
                      let e45 = Extends-trans e4 e5 in
                      let e35 = Extends-trans e3 e45 in
                      gives (Extends-refl g) (
                        source _ (copied_before github-IsCarried (Extends-trans e2 e35) t1)
                          (copied_before gitlab-IsCarried e35 t2)
                          (copied_before helm-IsCarried e45 t3)
                          (copied_before (Plain-IsCarried _) e5 t4) t5))
        (λ g y t. t)
