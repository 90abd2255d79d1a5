-- ===== src/Operator/Reports.antt =====
-- What the operator reports once it has been started.
use opendatahub_ai_gateway_o.Base.{true, false, none, ◌≡◌, ap, Result, ok}
use opendatahub_ai_gateway_o.Api.Semver.{SemverLib}
use opendatahub_ai_gateway_o.Config.{Config, Directory, ViperLib, load}
use opendatahub_ai_gateway_o.Config.Release.{release}
use opendatahub_ai_gateway_o.Controller.Reconciler.Outcome.{
  reconcile_reports, announced, IsFramework, IsHealthy,
}
use opendatahub_ai_gateway_o.Controller.Reconciler.Pipeline.{
  new_reconciler-pipeline, IsReconcilerLib,
}
use opendatahub_ai_gateway_o.Controller.Reconciler.{ReconcilerLib}
use opendatahub_ai_gateway_o.Controller.{Build, DeployLib, Gateway, gateway, Module, new_module}
use opendatahub_ai_gateway_o.Operator.Prepared.{Prepared}
use opendatahub_ai_gateway_o.Operator.{OperatorLib, Ending, run}
use opendatahub_ai_gateway_o.Operator.Started.{Observes, run_started}
use opendatahub_ai_gateway_o.Text.{Text}

module _ (semver : SemverLib) (deploy : DeployLib) (framework : ReconcilerLib semver deploy)
    (lib : OperatorLib semver deploy framework) (view : Observes semver deploy framework lib)
    (laws : IsReconcilerLib semver deploy framework) where
  -- All was prepared for the start of the manager, and whatever object the reconciler that was built then
  -- reconciles and whenever, it succeeds and writes the status of its module and of the release.
  abbrev pub Reporting : Build → semver.Version → Config → deploy.World → deploy.World → Type 0
  Reporting build zero_version cfg world after =
      (m : Module) × (mgr : framework.Manager) × (r : framework.Reconciler) × (u : deploy.World)
      × (w1 : deploy.World) × ((new_module semver deploy build cfg w1).1 ≡ ok m)
      × Prepared semver deploy framework lib build zero_version cfg world mgr r u
      × (after ≡ (lib.start mgr u).0)
      × ((obj : Gateway) (w : deploy.World)
          → ((laws.reconcile r obj w).0.instance_object
              ≡ gateway (announced semver deploy build m (release semver zero_version cfg) obj))
            × ((laws.reconcile r obj w).2 ≡ none))

  -- Where the manager was started and nothing fails in the cluster: the configuration was loaded, the
  -- manager was started on the world in which its reconciler was built with the configuration's release,
  -- and every reconciliation of any object by this reconciler succeeds and ends with the status of its
  -- module, for that release.
  pub run_reports :
      (framework_laws : IsFramework semver deploy framework)
      (healthy : IsHealthy semver deploy framework) (build : Build) (zero_version : semver.Version)
      (viper : ViperLib) (config_path : Text) (dir_fs : Text → Directory) (world : deploy.World)
      → view.started world ≡ false
      → view.started
          (run semver deploy framework lib build zero_version viper config_path dir_fs world).0
        ≡ true
      → (cfg : Config) × (load viper config_path dir_fs ≡ ok cfg)
        × Reporting build zero_version cfg world
            (run semver deploy framework lib build zero_version viper config_path dir_fs world).0
  run_reports framework_laws healthy build zero_version viper config_path dir_fs world h k =
      let (cfg, loaded, mgr, r, u, prepared, ran) =
        run_started semver deploy framework lib view build zero_version viper config_path dir_fs
          world h k in
      let (rest_config, ctrl_mgr, w1, w2, found, created, same, built, checked) = prepared in
      let rel = release semver zero_version cfg in
      let made_reconciler = ap (λ (x : deploy.World × Result framework.Reconciler). x.1) built in
      let (m, made, acts, released) =
        new_reconciler-pipeline semver deploy framework laws build cfg rel mgr w1 made_reconciler in
      (
        cfg,
        loaded,
        (
          m,
          mgr,
          r,
          u,
          w1,
          made,
          prepared,
          ap (λ (x : deploy.World × Ending). x.0) ran,
          λ obj w.
              reconcile_reports semver deploy framework laws framework_laws healthy build cfg rel
                mgr w1 obj w made made_reconciler,
        ),
      )
