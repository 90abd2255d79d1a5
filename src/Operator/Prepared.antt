-- ===== src/Operator/Prepared.antt =====
-- The way of `run` to the start of the manager: each call on the world that the one before left.
use opendatahub_ai_gateway_o.Base.{false, Option, none, some, ◌≡◌, ok}
use opendatahub_ai_gateway_o.Api.Semver.{SemverLib}
use opendatahub_ai_gateway_o.Config.{Config}
use opendatahub_ai_gateway_o.Config.Release.{release}
use opendatahub_ai_gateway_o.Controller.Reconciler.{ReconcilerLib, new_reconciler}
use opendatahub_ai_gateway_o.Controller.{Build, DeployLib}
use opendatahub_ai_gateway_o.Operator.{OperatorLib, manager_options}
use opendatahub_ai_gateway_o.Text.{codes}

module _ (semver : SemverLib) (deploy : DeployLib) (framework : ReconcilerLib semver deploy)
    (lib : OperatorLib semver deploy framework) where
  -- Both checks were added to the manager, without an error.
  abbrev pub Checked : framework.Manager → deploy.World → deploy.World → Type 0
  Checked mgr w u =
      (w1 : deploy.World) × (lib.add_healthz_check (codes "healthz") mgr w ≡ (w1, none))
      × (lib.add_readyz_check (codes "readyz") mgr w1 ≡ (u, none))

  module _ (build : Build) (zero_version : semver.Version) where
    -- The manager was created with the options of the configuration, and the reconciler was built for it
    -- with the configuration's release.
    abbrev pub Created :
        Config
        → deploy.World
        → Option lib.RestConfig
        → framework.Manager
        → framework.Reconciler
        → deploy.World
        → Type 0
    Created cfg w found mgr r u =
        (rest_config : lib.RestConfig) × (ctrl_mgr : lib.CtrlManager) × (w1 : deploy.World)
        × (w2 : deploy.World) × (found ≡ some rest_config)
        × (lib.new_manager rest_config (manager_options semver deploy framework lib cfg) w
            ≡ (w1, ok ctrl_mgr))
        × (mgr ≡ lib.wrap_manager cfg.manifests_path ctrl_mgr)
        × (new_reconciler semver deploy framework build cfg (release semver zero_version cfg) mgr w1
            ≡ (w2, ok r))
        × Checked mgr w2 u

    -- The logger was set and the applications' namespace was made known before.
    abbrev pub Prepared :
        Config → deploy.World → framework.Manager → framework.Reconciler → deploy.World → Type 0
    Prepared cfg world mgr r u =
        let known = lib.set_rhai_application_namespace cfg.applications_namespace (
          lib.viper_set (codes "rhai-applications-namespace") cfg.applications_namespace
            (lib.set_logger false world)) in
        Created cfg known (lib.get_config known) mgr r u
