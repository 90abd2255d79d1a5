-- ===== src/Operator/Options.antt =====
-- Where the manager's options come from.
use opendatahub_ai_gateway_o.Config.View.{variable_name, as_setting}
use opendatahub_ai_gateway_o.Base.{◌||◌, [], ◌∷◌, Option, none, some, ◌≡◌, ap, if◌then◌else◌, ok}
use opendatahub_ai_gateway_o.Api.Semver.{SemverLib}
use opendatahub_ai_gateway_o.Config.Precedence.{load_from_fs-reads, files_setting, entries_of}
use opendatahub_ai_gateway_o.Config.Release.{release}
use opendatahub_ai_gateway_o.Config.View.{
  Key, metrics_addr, health_probe_addr, pprof_addr, leader_election_id, applications_namespace,
  platform_type, key_name, effective, is_some, last_setting, text_or_empty, ViperView,
}
use opendatahub_ai_gateway_o.Config.{Config, Directory, ViperLib, defaults, load}
use opendatahub_ai_gateway_o.Controller.Reconciler.{ReconcilerLib}
use opendatahub_ai_gateway_o.Controller.{DeployLib}
use opendatahub_ai_gateway_o.Operator.{OperatorLib, manager_options}
use opendatahub_ai_gateway_o.Text.{Text, is_empty}

-- The directory that `Load` reads.
abbrev pub directory_at : Text → (Text → Directory) → Option Directory
directory_at config_path dir_fs = if is_empty config_path then none else some (dir_fs config_path)

-- The value of a key: of the environment, where a variable is bound and set, else of the files, else
-- the default.
abbrev pub configured : (viper : ViperLib) → ViperView viper → Option Directory → Key → Text
configured viper view fsys k = text_or_empty view.as_text (
    effective
      (is_some (files_setting viper view (entries_of viper view fsys) (key_name k))
        || is_some (last_setting (key_name k) defaults))
      (as_setting (view.environ (variable_name k)))
      (files_setting viper view (entries_of viper view fsys) (key_name k))
      (last_setting (key_name k) defaults))

-- With a viper that behaves as documented: the manager's addresses, its lease and the namespace of its
-- cache, and the name of the release, are the values of their keys, by environment, files and defaults
-- in this order.
pub manager_options_read :
    (semver : SemverLib) (zero_version : semver.Version) (deploy : DeployLib)
    (framework : ReconcilerLib semver deploy) (lib : OperatorLib semver deploy framework)
    (viper : ViperLib) (view : ViperView viper) (config_path : Text) (dir_fs : Text → Directory)
    {cfg : Config}
    → load viper config_path dir_fs ≡ ok cfg
    → let options = manager_options semver deploy framework lib cfg in
      let value = configured viper view (directory_at config_path dir_fs) in
      (options.metrics_bind_address ≡ value metrics_addr)
      × (options.health_probe_bind_address ≡ value health_probe_addr)
      × (options.pprof_bind_address ≡ value pprof_addr)
      × (options.leader_election_id ≡ value leader_election_id)
      × (options.default_namespaces ≡ value applications_namespace ∷ lib.all_namespaces ∷ [])
      × ((release semver zero_version cfg).name ≡ value platform_type)
unfolding load manager_options release
manager_options_read semver zero_version deploy framework lib viper view config_path dir_fs {cfg}
      h =
    let fsys = directory_at config_path dir_fs in
    (
      load_from_fs-reads viper view fsys metrics_addr h,
      load_from_fs-reads viper view fsys health_probe_addr h,
      load_from_fs-reads viper view fsys pprof_addr h,
      load_from_fs-reads viper view fsys leader_election_id h,
      ap (λ (ns : Text). ns ∷ lib.all_namespaces ∷ [])
          (load_from_fs-reads viper view fsys applications_namespace h),
      load_from_fs-reads viper view fsys platform_type h,
    )
