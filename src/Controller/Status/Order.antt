-- ===== src/Controller/Status/Order.antt =====
-- The reported sources do not depend on the order in which they were collected, nor on the algorithm of
-- `sort.Slice`.
use mathlib.Core.List.Permᴰ
use mathlib.Core.List.{Permᴰ}
use opendatahub_ai_gateway_o.Text.Equality.{equal_iff}
use opendatahub_ai_gateway_o.Base.{true, false, List, ◌≡◌, arith}
use opendatahub_ai_gateway_o.Api.Status.{
  SourceStatus, renderer_kustomize, renderer_template, renderer_helm,
}
use opendatahub_ai_gateway_o.Controller.Status.{
  less_source, SemverLib, DeployLib, Build, Module, module_status, Request, collect_sources,
  with_renderer,
}
use opendatahub_ai_gateway_o.Sorting.Unique.{
  IsStrictOrder, less_text-IsStrictOrder, IsSorted, sort_slice-IsSorted, sort_slice-perm,
  sorted_unique, sort_slice-permᴰ,
}

less_source_irrefl : (a : SourceStatus) → less_source a a ≡ false
unfolding less_source
less_source_irrefl a =
    ground (arith, less_text-IsStrictOrder.irrefl a.renderer, equal_iff a.path a.path)

less_source_trans :
    (a b c : SourceStatus)
    → less_source a b ≡ true
    → less_source b c ≡ true
    → less_source a c ≡ true
unfolding less_source
less_source_trans a b c h k = ground (
  arith,
  less_text-IsStrictOrder.trans a.renderer b.renderer c.renderer,
  less_text-IsStrictOrder.trans a.path b.path c.path,
  less_text-IsStrictOrder.trans a.path b.path a.path,
  less_text-IsStrictOrder.irrefl a.path,
  equal_iff a.path b.path,
  equal_iff b.path c.path,
  equal_iff a.path c.path,
)

less_source_connex :
    (a b : SourceStatus) → less_source a b ≡ false → less_source b a ≡ false → a ≡ b
unfolding less_source
less_source_connex a b h k = ground (
  arith,
  less_text-IsStrictOrder.connex a.renderer b.renderer,
  less_text-IsStrictOrder.connex a.path b.path,
  equal_iff a.path b.path,
  equal_iff b.path a.path,
)

pub less_source-IsStrictOrder : IsStrictOrder less_source
less_source-IsStrictOrder = record {
  irrefl = less_source_irrefl;
  trans = less_source_trans;
  connex = less_source_connex;
}

module _ (semver : SemverLib) (deploy : DeployLib) (build : Build) (m : Module) where
  -- The reported sources are the collected ones, each as often, sorted by path and renderer.
  pub module_status_sources :
      (rr : Request semver)
      → IsSorted less_source (module_status semver deploy build m rr).sources
        × Permᴰ (module_status semver deploy build m rr).sources (collect_sources semver deploy rr)
  unfolding module_status
  module_status_sources rr = (
    sort_slice-IsSorted less_source less_source-IsStrictOrder (collect_sources semver deploy rr),
    sort_slice-perm less_source less_source-IsStrictOrder (collect_sources semver deploy rr),
  )

  -- Any sorted rearrangement of the collected sources, such as one of an unstable sort, is the list that
  -- is reported.
  pub sources_unique :
      (rr : Request semver) (ys : List SourceStatus)
      → Permᴰ ys (collect_sources semver deploy rr)
      → IsSorted less_source ys
      → ys ≡ (module_status semver deploy build m rr).sources
  unfolding module_status
  sources_unique rr ys p h = sorted_unique less_source less_source-IsStrictOrder p h

  -- Two requests with the same release whose manifests, templates and charts are rearrangements of one
  -- another get the same status.
  pub module_status-perm :
      (rr qq : Request semver)
      → rr.release ≡ qq.release
      → Permᴰ rr.manifests qq.manifests
      → Permᴰ rr.templates qq.templates
      → Permᴰ rr.helm_charts qq.helm_charts
      → module_status semver deploy build m rr ≡ module_status semver deploy build m qq
  unfolding module_status collect_sources
  module_status-perm rr qq e p q r =
      let gathered =
        Permᴰ.trans
          (Permᴰ.append_right _ (
            Permᴰ.trans
              (Permᴰ.append_right _ (
                Permᴰ.map (λ info. with_renderer renderer_kustomize (deploy.manifest_string info))
                  p))
              (Permᴰ.append_left _ (Permᴰ.map (with_renderer renderer_template) q))))
          (Permᴰ.append_left _ (Permᴰ.map (with_renderer renderer_helm) r)) in
      rw (e, sort_slice-permᴰ less_source less_source-IsStrictOrder gathered)
