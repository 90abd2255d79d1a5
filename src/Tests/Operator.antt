-- ===== src/Tests/Operator.antt =====
-- cmd/operator/operator.go at a concrete input.
use opendatahub_ai_gateway_o.Base.{Bool, true, false, List, [], ◌∷◌, none, some, ◌≡◌, refl, ok}
use opendatahub_ai_gateway_o.Api.Semver.{new_sem_ver}
use opendatahub_ai_gateway_o.Config.{Directory, load, load_from_fs, is_structured, Config}
use opendatahub_ai_gateway_o.Config.Release.{release}
use opendatahub_ai_gateway_o.Controller.{DeployLib, new_module}
use opendatahub_ai_gateway_o.Controller.Reconciler.{new_reconciler}
use opendatahub_ai_gateway_o.Operator.{
  OperatorLib, manager_options, run, run_loaded, with_config, register, on_result, unless_error,
  add_checks, start_manager,
}
use opendatahub_ai_gateway_o.Operator.Options.{manager_options_read}
use opendatahub_ai_gateway_o.Operator.Reports.{run_reports, Reporting}
use opendatahub_ai_gateway_o.Controller.Reconciler.Outcome.{IsHealthy}
use opendatahub_ai_gateway_o.Operator.Started.{Observes, run_started}
use opendatahub_ai_gateway_o.Operator.Prepared.{Prepared}
use opendatahub_ai_gateway_o.Operator.{returned}
use opendatahub_ai_gateway_o.Controller.{Action, Release}
use opendatahub_ai_gateway_o.Tests.Config.{
  small, small_view, a_directory, a_config, a_config_loaded,
}
use opendatahub_ai_gateway_o.Tests.Controller.{unary, a_build}
use opendatahub_ai_gateway_o.Tests.Reconciler.{
  small_framework, small_framework_laws, small_framework-IsHealthy, small_framework-IsFramework,
}
use opendatahub_ai_gateway_o.Text.{Text, codes, equal, to_lower, trim_space, has_prefix}

-- The world is whether a manager was started.
abbrev pub tracked : DeployLib
tracked = record {
  World = Bool;
  manifest_string = λ m. m.path;
  apply_params = λ path file images values world. (world, none);
}

abbrev pub an_operator : OperatorLib unary tracked (small_framework tracked)
an_operator = record {
  RestConfig = Unit {0};
  CtrlManager = Unit {0};
  set_logger = λ b w. w;
  viper_set = λ k v w. w;
  set_rhai_application_namespace = λ ns w. w;
  get_config = λ w. some tt;
  new_manager = λ c o w. (w, ok tt);
  wrap_manager = λ path m. tt;
  add_healthz_check = λ name m w. (w, none);
  add_readyz_check = λ name m w. (w, none);
  start = λ m w. (true, none);
  all_namespaces = [];
}

an_operator-Observes : Observes unary tracked (small_framework tracked) an_operator
an_operator-Observes = record {
  started = λ w. w;
  params_keep = λ path file images values w h. h;
  build_keeps = λ b w h. h;
  store_keeps = λ r w h. h;
  set_logger_keeps = λ b w h. h;
  viper_set_keeps = λ k v w h. h;
  set_namespace_keeps = λ ns w h. h;
  new_manager_keeps = λ c o w h. h;
  healthz_keeps = λ name m w h. h;
  readyz_keeps = λ name m w h. h;
}

abbrev pub mounted : Text → Directory
mounted path = a_directory

abbrev pub config_path : Text
config_path = codes "/etc/config"

loaded : load small config_path mounted ≡ ok a_config
unfolding load
loaded = a_config_loaded

run_started_example :
    (cfg : Config) × (load small config_path mounted ≡ ok cfg)
    × (mgr : Unit {0}) × (r : List (Action unary tracked) × Release unary) × (u : Bool) × Prepared
        unary tracked
        (small_framework tracked)
        an_operator
        a_build
        0
        cfg
        false
        mgr
        r
        u
    × (run unary tracked
          (small_framework tracked)
          an_operator
          a_build
          0
          small
          config_path
          mounted
          false
        ≡ ((an_operator.start mgr u).0, returned (an_operator.start mgr u).1))
unfolding run run_loaded with_config register on_result unless_error add_checks start_manager
    an_operator-Observes load load_from_fs is_structured equal to_lower trim_space has_prefix
    new_reconciler new_module new_sem_ver
run_started_example =
    run_started unary tracked (small_framework tracked) an_operator an_operator-Observes a_build 0
      small config_path mounted false refl refl

tracked-IsHealthy : IsHealthy unary tracked (small_framework tracked)
tracked-IsHealthy = small_framework-IsHealthy tracked λ path file images values w. refl

run_reports_example :
    (cfg : Config) × (load small config_path mounted ≡ ok cfg)
    × Reporting unary tracked
        (small_framework tracked)
        an_operator
        an_operator-Observes
        (small_framework_laws tracked)
        a_build
        0
        cfg
        false
        true
unfolding run run_loaded with_config register on_result unless_error add_checks start_manager
    an_operator-Observes load load_from_fs is_structured equal to_lower trim_space has_prefix
    new_reconciler new_module new_sem_ver
run_reports_example =
    run_reports unary tracked (small_framework tracked) an_operator an_operator-Observes
      (small_framework_laws tracked) (small_framework-IsFramework tracked) tracked-IsHealthy a_build
      0 small config_path mounted false refl refl

manager_options_read_example :
    let options = manager_options unary tracked (small_framework tracked) an_operator a_config in
    (options.metrics_bind_address ≡ codes ":9090")
    × (options.health_probe_bind_address ≡ codes ":8081")
    × (options.pprof_bind_address ≡ [])
    × (options.leader_election_id ≡ codes "opendatahub-ai-gateway-lock")
    × (options.default_namespaces ≡ codes "opendatahub" ∷ [] ∷ [])
    × ((release unary 0 a_config).name ≡ codes "OpenDataHub")
unfolding equal to_lower trim_space has_prefix is_structured small_view
manager_options_read_example =
    manager_options_read unary 0 tracked (small_framework tracked) an_operator small small_view
      config_path mounted loaded
