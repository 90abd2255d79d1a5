-- ===== src/Controller/Status.antt =====
-- `reportStatus` of internal/controller/aigateway/aigateway.go.
pub mod Order
pub mod Bag
pub mod Deployed
use opendatahub_ai_gateway_o.Base.{
  ℕ, zero, suc, ◌+◌, ◌-◌, ◌*◌, ◌/◌, ◌%◌, ◌≤◌, ◌<◌, Bool, true, false, not, ◌&&◌, ◌||◌, List, [],
  ◌∷◌, ◌++◌, map, append-nil, append_assoc, ◌≢◌, ◌↔◌, ◌⊎◌, inl, inr, Option, none, some, ◌≡◌, refl,
  sym, ap, ◌∙◌, arith, ltb, leb, ◌==◌, if◌then◌else◌, ==_iff, Bool-cases, &&-true, length, take,
  length-append, take-append_length, sub_length, All, All-append, All-intro, All-map, All-flat_map,
  Result, ok, err, ◌>>=◌, map_err, >>=-eq-ok,
}
use opendatahub_ai_gateway_o.Api.Semver.{SemverLib}
use opendatahub_ai_gateway_o.Api.Status.{
  SourceStatus, ModuleStatus, renderer_kustomize, renderer_helm, renderer_template,
}
use opendatahub_ai_gateway_o.Controller.{
  Build, DeployLib, ManifestInfo, Gateway, Instance, gateway, foreign, Request, Module, Action,
  not_a_gateway,
}
use opendatahub_ai_gateway_o.Sorting.{sort_slice, less_text}
use opendatahub_ai_gateway_o.Text.{Text, codes, equal}

-- The order that `sort.Slice` is called with.
unfoldable pub less_source : SourceStatus → SourceStatus → Bool
unfolding less_text equal
less_source a b =
    if equal a.path b.path then less_text a.renderer b.renderer else less_text a.path b.path

abbrev pub with_renderer : Text → Text → SourceStatus
with_renderer renderer path = record { path = path; renderer = renderer }

module _ (semver : SemverLib) (deploy : DeployLib) where
  -- The sources as the three loops append them.
  unfoldable pub collect_sources : Request semver → List SourceStatus
  collect_sources rr =
      (map (λ info. with_renderer renderer_kustomize (deploy.manifest_string info)) rr.manifests
        ++ map (with_renderer renderer_template) rr.templates)
      ++ map (with_renderer renderer_helm) rr.helm_charts

  unfoldable pub module_status : Build → Module → Request semver → ModuleStatus
  unfolding collect_sources sort_slice less_source
  module_status build m rr = record {
    version = m.version;
    build_source = build.repo ++ (codes "@" ++ (build.branch ++ (codes "/" ++ build.commit)));
    platform = record { name = rr.release.name; version = semver.print rr.release.version };
    sources = sort_slice less_source (collect_sources rr);
  }

  report_on : Build → Module → Instance → Action semver deploy
  unfolding module_status
  report_on build m (gateway obj) rr world = (
    record rr { instance_object = gateway (record obj { status = module_status build m rr }) },
    world,
    none,
  )
  report_on build m foreign rr world = (rr, world, some not_a_gateway)

  -- `reportStatus`
  unfoldable pub report_status : Build → Module → Action semver deploy
  unfolding report_on
  report_status build m rr = report_on build m rr.instance_object rr
