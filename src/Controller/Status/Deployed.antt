-- ===== src/Controller/Status/Deployed.antt =====
-- What `reportStatus` says of the manifests that `initialize` adds, aigateway.go.
use opendatahub_ai_gateway_o.Base.{[], ◌∷◌, ◌++◌, map, ◌≡◌}
use mathlib.Core.List.Permᴰ
use mathlib.Core.List.{Permᴰ, map-append}
use opendatahub_ai_gateway_o.Api.Semver.{SemverLib}
use opendatahub_ai_gateway_o.Api.Status.{SourceStatus, renderer_kustomize}
use opendatahub_ai_gateway_o.Controller.{
  Build, DeployLib, Gateway, gateway, ManifestInfo, Module, Request, initialize,
}
use opendatahub_ai_gateway_o.Controller.Manifests.{initialize_managed}
use opendatahub_ai_gateway_o.Controller.Status.{collect_sources, module_status, with_renderer}
use opendatahub_ai_gateway_o.Controller.Status.Order.{module_status_sources}
use opendatahub_ai_gateway_o.Text.{codes}

module _ (semver : SemverLib) (deploy : DeployLib) where
  collect-manifest :
      (rr : Request semver) (info : ManifestInfo)
      → Permᴰ
          (collect_sources semver deploy (record rr { manifests = rr.manifests ++ info ∷ [] }))
          (with_renderer renderer_kustomize (deploy.manifest_string info)
            ∷ collect_sources semver deploy rr)
  unfolding collect_sources
  collect-manifest rr info =
      let f : ManifestInfo → SourceStatus =
        λ i. with_renderer renderer_kustomize (deploy.manifest_string i) in
      rw (map-append f rr.manifests (info ∷ [])) (
        Permᴰ.append_right _
          (Permᴰ.append_right _ (Permᴰ.append_comm (map f rr.manifests) (f info ∷ []))))

  -- The sources that are reported after a managed object has been initialized are those of the request
  -- and the batch gateway's manifest, as kustomize, in some order.
  pub initialize-module_status :
      (build : Build) (m : Module) (obj : Gateway) (rr : Request semver) (world : deploy.World)
      → rr.instance_object ≡ gateway obj
      → obj.management_state ≡ codes "Managed"
      → Permᴰ
          (module_status semver deploy build m (initialize semver deploy m rr world).0).sources
          (with_renderer renderer_kustomize (deploy.manifest_string m.batch_gateway_manifest_info)
            ∷ collect_sources semver deploy rr)
  initialize-module_status build m obj rr world i h =
      let after = (initialize semver deploy m rr world).0 in
      Permᴰ.trans (module_status_sources semver deploy build m after).1 (
        rw ((initialize_managed semver deploy m obj rr world i h).0)
          (collect-manifest rr m.batch_gateway_manifest_info))
