-- ===== src/Operator/Ended.antt =====
-- When `run` returns no error.
use opendatahub_ai_gateway_o.Base.{
  [], ◌≢◌, Option, none, some, ◌≡◌, refl, sym, ap, Result, ok, err, none-ne-some,
}
use opendatahub_ai_gateway_o.Api.Semver.{SemverLib}
use opendatahub_ai_gateway_o.Config.{Config, Directory, ViperLib, load}
use opendatahub_ai_gateway_o.Controller.Reconciler.{ReconcilerLib}
use opendatahub_ai_gateway_o.Controller.{Build, DeployLib}
use opendatahub_ai_gateway_o.Operator.{
  OperatorLib, Ending, returned, exited, unless_error, on_result, start_manager, add_checks,
  register, with_config, run_loaded, run,
}
use opendatahub_ai_gateway_o.Config.Release.{release}
use opendatahub_ai_gateway_o.Controller.Reconciler.{new_reconciler}
use opendatahub_ai_gateway_o.Operator.Prepared.{Checked, Created, Prepared}
use opendatahub_ai_gateway_o.Operator.{manager_options}
use opendatahub_ai_gateway_o.Text.{Text, codes}

error_of : Ending → Option Text → Option Text
error_of (returned e) d = e
error_of exited d = d

returned-injective : {a b : Option Text} → returned a ≡ returned b → a ≡ b
unfolding error_of
returned-injective h = ap (λ e. error_of e none) h

exited-ne-returned : exited ≢ returned none
unfolding error_of
exited-ne-returned h = none-ne-some (sym (ap (λ e. error_of e (some [])) h))

module _ (semver : SemverLib) (deploy : DeployLib) (framework : ReconcilerLib semver deploy)
    (lib : OperatorLib semver deploy framework) where
  unless_error-none :
      (what : Text) (x : deploy.World × Option Text) (rest : deploy.World → deploy.World × Ending)
      {v : deploy.World}
      → unless_error semver deploy framework lib what x rest ≡ (v, returned none)
      → (w : deploy.World) × (x ≡ (w, none)) × (rest w ≡ (v, returned none))
  unfolding unless_error
  unless_error-none what (w, none) rest h = (w, refl, h)
  unless_error-none what (w, some e) rest h =
      absurd (none-ne-some (sym (returned-injective (ap (λ (r : deploy.World × Ending). r.1) h))))

  on_result-none :
      {A : Type 0} (what : Text) (x : deploy.World × Result A)
      (rest : A → deploy.World → deploy.World × Ending) {v : deploy.World}
      → on_result semver deploy framework lib what x rest ≡ (v, returned none)
      → (a : A) × (w : deploy.World) × (x ≡ (w, ok a)) × (rest a w ≡ (v, returned none))
  unfolding on_result
  on_result-none what (w, ok a) rest h = (a, w, refl, h)
  on_result-none what (w, err e) rest h =
      absurd (none-ne-some (sym (returned-injective (ap (λ (r : deploy.World × Ending). r.1) h))))

  start_manager-none :
      (mgr : framework.Manager) (w v : deploy.World)
      → start_manager semver deploy framework lib mgr w ≡ (v, returned none)
      → lib.start mgr w ≡ (v, none)
  unfolding start_manager
  start_manager-none mgr w v h = rw (
    ← ap (λ (r : deploy.World × Ending). r.0) h,
    ← returned-injective (ap (λ (r : deploy.World × Ending). r.1) h),
  )

  add_checks-none :
      (mgr : framework.Manager) (w v : deploy.World)
      → add_checks semver deploy framework lib mgr w ≡ (v, returned none)
      → (u : deploy.World) × Checked semver deploy framework lib mgr w u
        × (lib.start mgr u ≡ (v, none))
  unfolding add_checks
  add_checks-none mgr w v h =
      let (w1, healthy, h1) =
        unless_error-none (codes "setting up health check")
          (lib.add_healthz_check (codes "healthz") mgr w) _ h in
      let (w2, ready, h2) =
        unless_error-none (codes "setting up ready check")
          (lib.add_readyz_check (codes "readyz") mgr w1)
          (start_manager semver deploy framework lib mgr) h1 in
      (w2, (w1, healthy, ready), start_manager-none mgr w2 v h2)

  module _ (build : Build) (zero_version : semver.Version) where
    with_config-none :
        (cfg : Config) (w v : deploy.World) (rest_config : Option lib.RestConfig)
        → with_config semver deploy framework lib build zero_version cfg w rest_config
          ≡ (v, returned none)
        → (mgr : framework.Manager) × (r : framework.Reconciler) × (u : deploy.World) × Created
            semver deploy framework lib build zero_version cfg w rest_config mgr r u
          × (lib.start mgr u ≡ (v, none))
    unfolding with_config register
    with_config-none cfg w v none h =
        absurd (exited-ne-returned (ap (λ (r : deploy.World × Ending). r.1) h))
    with_config-none cfg w v (some c) h =
        let (ctrl_mgr, w1, made, h1) =
          on_result-none _ (lib.new_manager c (manager_options semver deploy framework lib cfg) w) _
            h in
        let mgr = lib.wrap_manager cfg.manifests_path ctrl_mgr in
        let rel = release semver zero_version cfg in
        let (r, w2, built, h2) =
          on_result-none _ (new_reconciler semver deploy framework build cfg rel mgr w1) _ h1 in
        let (u, checked, ended) = add_checks-none mgr w2 v h2 in
        (mgr, r, u, (c, ctrl_mgr, w1, w2, refl, made, refl, built, checked), ended)

    -- The configuration was loaded, all was prepared, and the manager that was started then has run to its
    -- end without an error and left this world.
    abbrev pub Ran : Result Config → deploy.World → deploy.World → Type 0
    Ran loaded w v =
        (cfg : Config) × (loaded ≡ ok cfg)
        × (mgr : framework.Manager) × (r : framework.Reconciler) × (u : deploy.World) × Prepared
            semver deploy framework lib build zero_version cfg w mgr r u
        × (lib.start mgr u ≡ (v, none))

    loaded-Ran :
        (w v : deploy.World) (loaded : Result Config)
        → run_loaded semver deploy framework lib build zero_version w loaded ≡ (v, returned none)
        → Ran loaded w v
    unfolding run_loaded
    loaded-Ran w v (err e) h =
        absurd (none-ne-some (sym (returned-injective (ap (λ (r : deploy.World × Ending). r.1) h))))
    loaded-Ran w v (ok cfg) h =
        let (mgr, r, u, created, ended) = with_config-none cfg _ v _ h in
        (cfg, refl, mgr, r, u, created, ended)

    pub run-Ran :
        (viper : ViperLib) (config_path : Text) (dir_fs : Text → Directory) (w v : deploy.World)
        → run semver deploy framework lib build zero_version viper config_path dir_fs w
          ≡ (v, returned none)
        → Ran (load viper config_path dir_fs) w v
    unfolding run
    run-Ran viper config_path dir_fs w v h = loaded-Ran w v (load viper config_path dir_fs) h
