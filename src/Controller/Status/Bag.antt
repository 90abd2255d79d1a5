-- ===== src/Controller/Status/Bag.antt =====
-- The reported sources as those of a bag: how often each was collected, and no order.
use mathlib.Core.List.{Permᴰ}
use mathlib.Core.Quot
use mathlib.Core.Quot.{Quot, Quot-set}
use opendatahub_ai_gateway_o.Base.{
  true, false, List, [], ◌∷◌, ◌++◌, map, append_assoc, ◌↔◌, ◌⊎◌, inl, inr, ◌≡◌, sym, ap, ◌∙◌, arith,
  Bool-cases,
}
use opendatahub_ai_gateway_o.Api.Status.{SourceStatus, ModuleStatus}
use opendatahub_ai_gateway_o.Controller.Status.{
  less_source, SemverLib, DeployLib, Build, Module, Request, module_status, collect_sources,
}
use opendatahub_ai_gateway_o.Controller.Status.Order.{less_source-IsStrictOrder}
use opendatahub_ai_gateway_o.Text.{Text, codes, equal}
use opendatahub_ai_gateway_o.Text.Equality.{equal_iff}
use opendatahub_ai_gateway_o.Sorting.{sort_slice, less_text}
use opendatahub_ai_gateway_o.Sorting.Unique.{
  sort_slice-permᴰ, sort_slice-perm, IsSorted, sort_slice-IsSorted, less_text-IsStrictOrder,
}

abbrev pub SourceBag : Type 0
SourceBag = Quot (Permᴰ {A = SourceStatus})

sources-IsSet : IsSet (List SourceStatus)
sources-IsSet = hlevel

-- The list of a bag.
pub sorted_bag : SourceBag → List SourceStatus
sorted_bag =
    Quot.lift sources-IsSet (sort_slice less_source)
      (λ xs ys p. sort_slice-permᴰ less_source less_source-IsStrictOrder p)

-- The sorted list of a bag has that bag.
mk-sorted_bag : (b : SourceBag) → Quot.mk (sorted_bag b) ≡ b
unfolding sorted_bag
mk-sorted_bag =
    Quot.ind (λ b. Quot-set _ _)
      (λ xs. Quot.sound (sort_slice-perm less_source less_source-IsStrictOrder xs))

-- The first source may stand before the second: by its path, or by its renderer if they have one path.
abbrev pub MayPrecede : SourceStatus → SourceStatus → Type 0
MayPrecede a b =
    (less_text a.path b.path ≡ true)
    ⊎ ((a.path ≡ b.path) × (less_text b.renderer a.renderer ≡ false))

abbrev pub AreInOrder : List SourceStatus → Type 0
AreInOrder [] = Unit
AreInOrder (a ∷ []) = Unit
AreInOrder (a ∷ b ∷ l) = MayPrecede a b × AreInOrder (b ∷ l)

not_less-MayPrecede : (a b : SourceStatus) → less_source b a ≡ false → MayPrecede a b
unfolding less_source
not_less-MayPrecede a b h = elim (Bool-cases (equal b.path a.path)) [
  | inl e ↦ inr (sym ((equal_iff b.path a.path).0 e), rw e at h)
  | inr e ↦ elim (Bool-cases (less_text a.path b.path)) [
    | inl l ↦ inl l
    | inr l ↦
        let same = less_text-IsStrictOrder.connex a.path b.path l (rw e at h) in
        absurd (ground (arith, (equal_iff b.path a.path).1 (sym same), e))
  ]
]

sorted-AreInOrder : (l : List SourceStatus) → IsSorted less_source l → AreInOrder l
sorted-AreInOrder [] h = tt
sorted-AreInOrder (a ∷ []) h = tt
sorted-AreInOrder (a ∷ b ∷ l) (h, hs) = (not_less-MayPrecede a b h, sorted-AreInOrder (b ∷ l) hs)

module _ (semver : SemverLib) (deploy : DeployLib) (build : Build) (m : Module) where
  abbrev kustomized : Request semver → List SourceStatus
  kustomized rr =
      map (λ info. record { path = deploy.manifest_string info; renderer = codes "kustomize" })
        rr.manifests

  abbrev rendered_as : Text → List Text → List SourceStatus
  rendered_as renderer = map (λ path. record { path = path; renderer = renderer })

  -- What a request has to report: its manifests, templates and charts, each with its renderer.
  abbrev pub asked : Request semver → List SourceStatus
  asked rr =
      kustomized rr
      ++ (rendered_as (codes "template") rr.templates ++ rendered_as (codes "helm") rr.helm_charts)

  abbrev pub asked_bag : Request semver → SourceBag
  asked_bag rr = Quot.mk (asked rr)

  collect_sources-asked : (rr : Request semver) → collect_sources semver deploy rr ≡ asked rr
  unfolding collect_sources
  collect_sources-asked rr =
      append_assoc (kustomized rr) (rendered_as (codes "template") rr.templates)
        (rendered_as (codes "helm") rr.helm_charts)

  status_bag :
      (rr : Request semver)
      → Quot.mk (module_status semver deploy build m rr).sources ≡ asked_bag rr
  unfolding module_status sorted_bag
  status_bag rr =
      mk-sorted_bag (Quot.mk (collect_sources semver deploy rr))
      ∙ ap (λ l. Quot.mk l) (collect_sources-asked rr)

  -- The reported sources are the request's manifests, templates and charts with their renderers, each as
  -- often, in the order of their paths and, at the same path, of their renderers; and of two requests with
  -- the same release the status is the same exactly if they have the same sources, each as often, in
  -- whatever order and from whatever kind of entry.
  pub module_status_iff :
      (rr qq : Request semver)
      → rr.release ≡ qq.release
      → AreInOrder (module_status semver deploy build m rr).sources
        × (Quot.mk (module_status semver deploy build m rr).sources ≡ asked_bag rr)
        × ((module_status semver deploy build m rr ≡ module_status semver deploy build m qq)
            ↔ (asked_bag rr ≡ asked_bag qq))
  unfolding module_status sorted_bag
  module_status_iff rr qq e = (
    sorted-AreInOrder _ (
        sort_slice-IsSorted less_source less_source-IsStrictOrder
          (collect_sources semver deploy rr)),
    status_bag rr,
    (
      λ h. sym (status_bag rr) ∙ ap (λ (s : ModuleStatus). Quot.mk s.sources) h ∙ status_bag qq,
      λ h. rw (
        e,
        ap sorted_bag (
            ap (λ l. Quot.mk l) (collect_sources-asked rr)
            ∙ h
            ∙ sym (ap (λ l. Quot.mk l) (collect_sources-asked qq))),
      ),
    ),
  )
