-- ===== src/Controller/Manifests.antt =====
-- `NewModule` and `initialize`: which manifests a reconciliation deploys, and which files it writes.
use opendatahub_ai_gateway_o.Controller.Status.{report_status}
use opendatahub_ai_gateway_o.Controller.Upgrade.{upgrade_if_needed}
use opendatahub_ai_gateway_o.Base.{
  [], ◌∷◌, ◌++◌, ◌≢◌, ◌↔◌, Option, none, some, ◌≡◌, refl, sym, arith, Result, ok, err, err-ne-ok,
}
use opendatahub_ai_gateway_o.Text.Equality.{equal_refl, not_equal}
use mathlib.Core.Path.{subst}
use opendatahub_ai_gateway_o.Api.Semver.{SemverLib, new_sem_ver, SemVer}
use opendatahub_ai_gateway_o.Controller.{
  DeployLib, Gateway, gateway, foreign, Request, Module, initialize, params_env, not_a_gateway,
  initialize_instance, params_error, new_module, Build, Config, batch_gateway_image_param_map,
  finish_module,
}
use opendatahub_ai_gateway_o.Text.{Text, codes}

module _ (semver : SemverLib) (deploy : DeployLib) where
  params_error-none : (e : Option Text) → (params_error semver deploy e ≡ none) ↔ (e ≡ none)
  unfolding params_error
  params_error-none none = ((λ h. refl), λ h. refl)
  params_error-none (some e) = ((λ h. cc), λ h. cc)

  -- A managed batch gateway is deployed: its manifest is added behind the others, whether or not its
  -- parameters can be written, the namespace is the only parameter written, and a failure to write is
  -- the action's error.
  pub initialize_managed :
      (m : Module) (obj : Gateway) (rr : Request semver) (world : deploy.World)
      → rr.instance_object ≡ gateway obj
      → obj.management_state ≡ codes "Managed"
      → let written =
          deploy.apply_params
            (deploy.manifest_string m.batch_gateway_manifest_info)
            params_env
            []
            ((codes "namespace", m.cfg.applications_namespace) ∷ [])
            world in
        ((initialize semver deploy m rr world).0
          ≡ record rr { manifests = rr.manifests ++ m.batch_gateway_manifest_info ∷ [] })
        × ((initialize semver deploy m rr world).1 ≡ written.0)
        × (((initialize semver deploy m rr world).2 ≡ none) ↔ (written.1 ≡ none))
  unfolding initialize
  initialize_managed m obj rr world i h =
      subst
        (λ inst.
          ((initialize_instance semver deploy m inst rr world).0
            ≡ record rr { manifests = rr.manifests ++ m.batch_gateway_manifest_info ∷ [] })
          × ((initialize_instance semver deploy m inst rr world).1
              ≡ (deploy.apply_params (deploy.manifest_string m.batch_gateway_manifest_info)
                  params_env [] ((codes "namespace", m.cfg.applications_namespace) ∷ []) world).0)
          × (((initialize_instance semver deploy m inst rr world).2 ≡ none) ↔ (
              (deploy.apply_params (deploy.manifest_string m.batch_gateway_manifest_info) params_env
                [] ((codes "namespace", m.cfg.applications_namespace) ∷ []) world).1
              ≡ none)))
        (sym i) (rw (h, equal_refl (codes "Managed")) (refl, refl, params_error-none _))

  -- On an AIGateway of any other management state, `Removed` among them, `initialize` deploys
  -- nothing, writes nothing and is no error.
  pub initialize_unmanaged :
      (m : Module) (obj : Gateway) (rr : Request semver) (world : deploy.World)
      → rr.instance_object ≡ gateway obj
      → obj.management_state ≢ codes "Managed"
      → initialize semver deploy m rr world ≡ (rr, world, none)
  unfolding initialize
  initialize_unmanaged m obj rr world i ne =
      subst (λ inst. initialize_instance semver deploy m inst rr world ≡ (rr, world, none)) (sym i)
        (rw (not_equal obj.management_state (codes "Managed") ne))

  -- On an object of another type each of the three actions fails with the same error and changes
  -- nothing.
  pub actions_foreign :
      (build : Build) (m : Module) (rr : Request semver) (world : deploy.World)
      → rr.instance_object ≡ foreign
      → (initialize semver deploy m rr world ≡ (rr, world, some not_a_gateway))
        × (upgrade_if_needed semver deploy m rr world ≡ (rr, world, some not_a_gateway))
        × (report_status semver deploy build m rr world ≡ (rr, world, some not_a_gateway))
  unfolding initialize upgrade_if_needed report_status
  actions_foreign build m rr world i = (
    subst
        (λ inst.
          initialize_instance semver deploy m inst rr world ≡ (rr, world, some not_a_gateway))
        (sym i) refl,
    rw i,
    rw i,
  )

  finish_ok :
      (n m : Module) (x : deploy.World × Option Text)
      → (finish_module semver deploy n x).1 ≡ ok m
      → (n ≡ m) × (x ≡ ((finish_module semver deploy n x).0, none))
  unfolding finish_module
  finish_ok n m (w, none) h = (ground arith, refl)
  finish_ok n m (w, some e) h = absurd (err-ne-ok h)

  -- If `NewModule` returns a module, it holds the canonical form of the build's version, the configuration
  -- and the manifests of the configured path, and the image parameters were written without an error.
  pub new_module-ok :
      (build : Build) (cfg : Config) (world : deploy.World) {m : Module}
      → (new_module semver deploy build cfg world).1 ≡ ok m
      → (new_sem_ver semver build.version ≡ ok m.version)
        × (m.cfg ≡ cfg)
        × (m.batch_gateway_manifest_info ≡ record {
          path = cfg.manifests_path;
          context_dir = codes "batchgateway";
          source_path = codes "base";
        })
        × (deploy.apply_params
              (deploy.manifest_string m.batch_gateway_manifest_info)
              params_env
              batch_gateway_image_param_map
              []
              world
            ≡ ((new_module semver deploy build cfg world).0, none))
  unfolding new_module
  new_module-ok build cfg world {m} h = go (new_sem_ver semver build.version) refl
    where
      go :
          (r : Result SemVer)
          → new_sem_ver semver build.version ≡ r
          → (new_sem_ver semver build.version ≡ ok m.version)
            × (m.cfg ≡ cfg)
            × (m.batch_gateway_manifest_info ≡ record {
              path = cfg.manifests_path;
              context_dir = codes "batchgateway";
              source_path = codes "base";
            })
            × (deploy.apply_params
                  (deploy.manifest_string m.batch_gateway_manifest_info)
                  params_env
                  batch_gateway_image_param_map
                  []
                  world
                ≡ ((new_module semver deploy build cfg world).0, none))
      go (err e) p = absurd (err-ne-ok (rw p at h))
      go (ok v) p = let (e, x) = finish_ok _ m _ (rw p at h) in rw (← e, p) (refl, refl, refl, x)
