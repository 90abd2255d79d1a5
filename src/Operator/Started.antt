-- ===== src/Operator/Started.antt =====
-- When the operator's manager is started.
use opendatahub_ai_gateway_o.Operator.Prepared.{Checked, Created, Prepared}
use opendatahub_ai_gateway_o.Base.{
  Bool, true, false, List, Option, none, some, ◌≡◌, refl, sym, ap, ◌∙◌, arith, Result, ok, err,
}
use opendatahub_ai_gateway_o.Api.Semver.{SemverLib}
use opendatahub_ai_gateway_o.Config.{Config, Directory, ViperLib, load}
use opendatahub_ai_gateway_o.Config.Release.{release}
use opendatahub_ai_gateway_o.Controller.Reconciler.Worlds.{new_reconciler-keeps}
use opendatahub_ai_gateway_o.Controller.Reconciler.{ReconcilerLib, new_reconciler}
use opendatahub_ai_gateway_o.Controller.{Build, DeployLib}
use opendatahub_ai_gateway_o.Operator.{
  OperatorLib, ManagerOptions, manager_options, Ending, unless_error, on_result, add_checks,
  start_manager, returned, register, with_config, run_loaded, run,
}
use opendatahub_ai_gateway_o.Text.{Text, codes}

-- An observation of the world that only the start of a manager makes true.
pub record Observes (semver : SemverLib) (deploy : DeployLib)
    (framework : ReconcilerLib semver deploy) (lib : OperatorLib semver deploy framework)
    : Type 1 where
  pub started : deploy.World → Bool
  pub params_keep :
      (path file : Text) (images values : List (Text × Text)) (w : deploy.World)
      → started w ≡ false
      → started (deploy.apply_params path file images values w).0 ≡ false
  pub build_keeps :
      (b : framework.Builder) (w : deploy.World)
      → started w ≡ false
      → started (framework.build b w).0 ≡ false
  pub store_keeps :
      (r : framework.Reconciler) (w : deploy.World)
      → started w ≡ false
      → started (framework.store r w) ≡ false
  pub set_logger_keeps :
      (b : Bool) (w : deploy.World) → started w ≡ false → started (lib.set_logger b w) ≡ false
  pub viper_set_keeps :
      (k v : Text) (w : deploy.World) → started w ≡ false → started (lib.viper_set k v w) ≡ false
  pub set_namespace_keeps :
      (ns : Text) (w : deploy.World)
      → started w ≡ false
      → started (lib.set_rhai_application_namespace ns w) ≡ false
  pub new_manager_keeps :
      (c : lib.RestConfig) (o : ManagerOptions) (w : deploy.World)
      → started w ≡ false
      → started (lib.new_manager c o w).0 ≡ false
  pub healthz_keeps :
      (name : Text) (m : framework.Manager) (w : deploy.World)
      → started w ≡ false
      → started (lib.add_healthz_check name m w).0 ≡ false
  pub readyz_keeps :
      (name : Text) (m : framework.Manager) (w : deploy.World)
      → started w ≡ false
      → started (lib.add_readyz_check name m w).0 ≡ false

module _ (semver : SemverLib) (deploy : DeployLib) (framework : ReconcilerLib semver deploy)
    (lib : OperatorLib semver deploy framework) (view : Observes semver deploy framework lib) where
  open view use {started}

  on_result-started :
      {A : Type 0} (what : Text) (x : deploy.World × Result A)
      (rest : A → deploy.World → deploy.World × Ending)
      → started x.0 ≡ false
      → started (on_result semver deploy framework lib what x rest).0 ≡ true
      → (a : A) × (w : deploy.World) × (x ≡ (w, ok a))
        × (started w ≡ false)
        × (on_result semver deploy framework lib what x rest ≡ rest a w)
  unfolding on_result
  on_result-started what (w, ok a) rest h k = (a, w, refl, h, refl)
  on_result-started what (w, err e) rest h k = absurd (ground arith)

  unless_error-started :
      (what : Text) (x : deploy.World × Option Text) (rest : deploy.World → deploy.World × Ending)
      → started x.0 ≡ false
      → started (unless_error semver deploy framework lib what x rest).0 ≡ true
      → (w : deploy.World) × (x ≡ (w, none))
        × (started w ≡ false)
        × (unless_error semver deploy framework lib what x rest ≡ rest w)
  unfolding unless_error
  unless_error-started what (w, none) rest h k = (w, refl, h, refl)
  unless_error-started what (w, some e) rest h k = absurd (ground arith)

  add_checks-started :
      (mgr : framework.Manager) (w : deploy.World)
      → started w ≡ false
      → started (add_checks semver deploy framework lib mgr w).0 ≡ true
      → (u : deploy.World) × Checked semver deploy framework lib mgr w u
        × (add_checks semver deploy framework lib mgr w
            ≡ start_manager semver deploy framework lib mgr u)
  unfolding add_checks
  add_checks-started mgr w h k =
      let (w1, healthy, h1, e1) =
        unless_error-started (codes "setting up health check")
          (lib.add_healthz_check (codes "healthz") mgr w) _ (view.healthz_keeps _ mgr w h) k in
      let (w2, ready, h2, e2) =
        unless_error-started (codes "setting up ready check")
          (lib.add_readyz_check (codes "readyz") mgr w1)
          (start_manager semver deploy framework lib mgr) (view.readyz_keeps _ mgr w1 h1)
          (sym (ap (λ (r : deploy.World × Ending). started r.0) e1) ∙ k) in
      (w2, (w1, healthy, ready), e1 ∙ e2)

  module _ (build : Build) (zero_version : semver.Version) where
    with_config-started :
        (cfg : Config) (w : deploy.World) (rest_config : Option lib.RestConfig)
        → started w ≡ false
        → started (with_config semver deploy framework lib build zero_version cfg w rest_config).0
          ≡ true
        → (mgr : framework.Manager) × (r : framework.Reconciler) × (u : deploy.World) × Created
            semver deploy framework lib build zero_version cfg w rest_config mgr r u
          × (with_config semver deploy framework lib build zero_version cfg w rest_config
              ≡ start_manager semver deploy framework lib mgr u)
    unfolding with_config register
    with_config-started cfg w none h k = absurd (ground arith)
    with_config-started cfg w (some c) h k =
        let options = manager_options semver deploy framework lib cfg in
        let (ctrl_mgr, w1, made, h1, e1) =
          on_result-started _ (lib.new_manager c options w) _ (view.new_manager_keeps c options w h)
            k in
        let mgr = lib.wrap_manager cfg.manifests_path ctrl_mgr in
        let rel = release semver zero_version cfg in
        let (r, w2, built, h2, e2) =
          on_result-started _ (new_reconciler semver deploy framework build cfg rel mgr w1) _
            (new_reconciler-keeps semver deploy (λ u. started u ≡ false) view.params_keep framework
              view.build_keeps view.store_keeps build cfg rel mgr w1 h1)
            (sym (ap (λ (r : deploy.World × Ending). started r.0) e1) ∙ k) in
        let (u, checked, e3) =
          add_checks-started mgr w2 h2
            (sym (ap (λ (r : deploy.World × Ending). started r.0) (e1 ∙ e2)) ∙ k) in
        (mgr, r, u, (c, ctrl_mgr, w1, w2, refl, made, refl, built, checked), e1 ∙ e2 ∙ e3)

    -- The manager is started only where the configuration was loaded, the manager was created with its
    -- options, the reconciler was built on what that left, with the configuration's release, and both
    -- checks were added without an error; it is started on the world that these calls, in this order,
    -- left, and the run ends as it ends. Whatever fails before, it is not started.
    pub run_started :
        (viper : ViperLib) (config_path : Text) (dir_fs : Text → Directory) (world : deploy.World)
        → started world ≡ false
        → started
            (run semver deploy framework lib build zero_version viper config_path dir_fs world).0
          ≡ true
        → (cfg : Config) × (load viper config_path dir_fs ≡ ok cfg)
          × (mgr : framework.Manager) × (r : framework.Reconciler) × (u : deploy.World) × Prepared
              semver deploy framework lib build zero_version cfg world mgr r u
          × (run semver deploy framework lib build zero_version viper config_path dir_fs world
              ≡ ((lib.start mgr u).0, returned (lib.start mgr u).1))
    unfolding run run_loaded start_manager
    run_started viper config_path dir_fs world h k = go (load viper config_path dir_fs) refl k
      where
        go :
            (loaded : Result Config)
            → load viper config_path dir_fs ≡ loaded
            → started (run_loaded semver deploy framework lib build zero_version world loaded).0
              ≡ true
            → (cfg : Config) × (load viper config_path dir_fs ≡ ok cfg)
              × (mgr : framework.Manager) × (r : framework.Reconciler) × (u : deploy.World)
              × Prepared semver deploy framework lib build zero_version cfg world mgr r u
              × (run_loaded semver deploy framework lib build zero_version world
                    (load viper config_path dir_fs)
                  ≡ ((lib.start mgr u).0, returned (lib.start mgr u).1))
        go (err e) p q = absurd (ground arith)
        go (ok cfg) p q =
            let (mgr, r, u, created, e) =
              with_config-started cfg _ _
                (view.set_namespace_keeps cfg.applications_namespace _
                  (view.viper_set_keeps _ _ _ (view.set_logger_keeps false world h)))
                q in
            (
              cfg,
              p,
              mgr,
              r,
              u,
              created,
              ap (run_loaded semver deploy framework lib build zero_version world) p ∙ e,
            )
