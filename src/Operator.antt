-- ===== src/Operator.antt =====
-- The `operator` subcommand, cmd/operator/operator.go: it loads the configuration, creates the manager
-- with it, registers the reconciler and starts the manager.
pub mod Prepared
pub mod Started
pub mod Scheme
pub mod Options
pub mod Reports
pub mod Ended
use opendatahub_ai_gateway_o.Base.{
  ℕ, zero, suc, ◌+◌, ◌-◌, ◌*◌, ◌/◌, ◌%◌, ◌≤◌, ◌<◌, Bool, true, false, not, ◌&&◌, ◌||◌, List, [],
  ◌∷◌, ◌++◌, map, append-nil, append_assoc, ◌≢◌, ◌↔◌, ◌⊎◌, inl, inr, Option, none, some, ◌≡◌, refl,
  sym, ap, ◌∙◌, arith, ltb, leb, ◌==◌, if◌then◌else◌, ==_iff, Bool-cases, &&-true, length, take,
  length-append, take-append_length, sub_length, All, All-append, All-intro, All-map, All-flat_map,
  Result, ok, err, ◌>>=◌, map_err, >>=-eq-ok, ok-injective, err-ne-ok, map_err-eq-ok,
  some-injective, none-ne-some,
}
use opendatahub_ai_gateway_o.Api.Semver.{SemverLib}
use opendatahub_ai_gateway_o.Cache.{Cached, strip_unused_fields}
use opendatahub_ai_gateway_o.Config.{Config, Directory, ViperLib, load}
use opendatahub_ai_gateway_o.Config.Release.{release}
use opendatahub_ai_gateway_o.Controller.Reconciler.{ReconcilerLib, new_reconciler}
use opendatahub_ai_gateway_o.Controller.{Build, DeployLib, Release}
use opendatahub_ai_gateway_o.Text.{Text, codes}

-- The kinds that the client reads past its cache.
pub data UncachedKind : Type 0 where
  config_map secret : UncachedKind

-- `ctrl.Options`, as far as the command sets it. The scheme is a package variable and the same in every
-- run; a namespace's cache configuration is empty.
pub record ManagerOptions : Type 1 where
  pub metrics_bind_address : Text
  pub health_probe_bind_address : Text
  pub pprof_bind_address : Text
  pub leader_election : Bool
  pub leader_election_id : Text
  pub leader_election_release_on_cancel : Bool
  pub default_transform : Cached → Cached
  pub default_namespaces : List Text
  pub cache_unstructured : Bool
  pub disable_cache_for : List UncachedKind

-- How a run ends: it returns an error or none, or the process exits at once.
pub data Ending : Type 0 where
  returned : Option Text → Ending
  exited : Ending

module _ (semver : SemverLib) (deploy : DeployLib) (framework : ReconcilerLib semver deploy) where
  open deploy use {World}

  -- controller-runtime and the manager of opendatahub-operator.
  pub record OperatorLib : Type 1 where
    pub RestConfig : Type 0
    pub CtrlManager : Type 0
    -- `ctrl.SetLogger(zap.New(zap.UseDevMode(b)))`
    pub set_logger : Bool → World → World
    -- `viper.Set` of the global viper
    pub viper_set : Text → Text → World → World
    pub set_rhai_application_namespace : Text → World → World
    -- `ctrl.GetConfigOrDie()`; `none`: it exits.
    pub get_config : World → Option RestConfig
    pub new_manager : RestConfig → ManagerOptions → World → World × Result CtrlManager
    -- `odhmanager.New` with `WithManifestsBasePath`
    pub wrap_manager : Text → CtrlManager → framework.Manager
    pub add_healthz_check : Text → framework.Manager → World → World × Option Text
    pub add_readyz_check : Text → framework.Manager → World → World × Option Text
    pub start : framework.Manager → World → World × Option Text
    -- `cache.AllNamespaces`
    pub all_namespaces : Text

  module _ (lib : OperatorLib) where
    unfoldable pub manager_options : Config → ManagerOptions
    manager_options cfg = record {
      metrics_bind_address = cfg.metrics_addr;
      health_probe_bind_address = cfg.health_probe_addr;
      pprof_bind_address = cfg.pprof_addr;
      leader_election = cfg.leader_elect;
      leader_election_id = cfg.leader_election_id;
      leader_election_release_on_cancel = true;
      default_transform = strip_unused_fields;
      default_namespaces = cfg.applications_namespace ∷ lib.all_namespaces ∷ [];
      cache_unstructured = true;
      disable_cache_for = config_map ∷ secret ∷ [];
    }

    -- `if err := …; err != nil { return fmt.Errorf("…: %w", err) }` before the rest.
    unfoldable pub unless_error :
        Text → World × Option Text → (World → World × Ending) → World × Ending
    unless_error what (world, some e) rest = (world, returned (some (what ++ (codes ": " ++ e))))
    unless_error what (world, none) rest = rest world

    unfoldable pub on_result :
        {A : Type 0} → Text → World × Result A → (A → World → World × Ending) → World × Ending
    on_result what (world, err e) rest = (world, returned (some (what ++ (codes ": " ++ e))))
    on_result what (world, ok a) rest = rest a world

    unfoldable pub start_manager : framework.Manager → World → World × Ending
    start_manager mgr world = let (world', e) = lib.start mgr world in (world', returned e)

    unfoldable pub add_checks : framework.Manager → World → World × Ending
    add_checks mgr world =
        unless_error (codes "setting up health check")
          (lib.add_healthz_check (codes "healthz") mgr world)
          (λ healthy.
            unless_error (codes "setting up ready check")
              (lib.add_readyz_check (codes "readyz") mgr healthy) (start_manager mgr))

    module _ (build : Build) (zero_version : semver.Version) where
      -- From the creation of the reconciler on.
      unfoldable pub register : Config → lib.CtrlManager → World → World × Ending
      register cfg ctrl_mgr world =
          let mgr = lib.wrap_manager cfg.manifests_path ctrl_mgr in
          let rel = release semver zero_version cfg in
          on_result (codes "creating aigateway reconciler")
            (new_reconciler semver deploy framework build cfg rel mgr world) (λ r. add_checks mgr)

      unfoldable pub with_config : Config → World → Option lib.RestConfig → World × Ending
      with_config cfg world none = (world, exited)
      with_config cfg world (some rest_config) =
          on_result (codes "creating manager")
            (lib.new_manager rest_config (manager_options cfg) world) (register cfg)

      -- `run` behind the loading of the configuration.
      unfoldable pub run_loaded : World → Result Config → World × Ending
      run_loaded world (err e) = (world, returned (some (codes "loading operator config: " ++ e)))
      run_loaded world (ok cfg) =
          let logged = lib.set_logger false world in
          let known =
            lib.viper_set (codes "rhai-applications-namespace") cfg.applications_namespace logged in
          let named = lib.set_rhai_application_namespace cfg.applications_namespace known in
          with_config cfg named (lib.get_config named)

      -- `run`, with the environment's configuration path and the directories that stand under paths.
      unfoldable pub run : ViperLib → Text → (Text → Directory) → World → World × Ending
      run viper config_path dir_fs world = run_loaded world (load viper config_path dir_fs)
