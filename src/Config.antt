-- ===== src/Config.antt =====
-- pkg/config/config.go: the operator's configuration from defaults, the files of a mounted ConfigMap and
-- the environment. The package viper, which merges them, is a parameter.
pub mod View
pub mod Environment
pub mod Release
pub mod Precedence
pub mod Broken
use opendatahub_ai_gateway_o.Base.{
  ℕ, zero, suc, ◌+◌, ◌-◌, ◌*◌, ◌/◌, ◌%◌, ◌≤◌, ◌<◌, Bool, true, false, not, ◌&&◌, ◌||◌, List, [],
  ◌∷◌, ◌++◌, map, append-nil, append_assoc, ◌≢◌, ◌↔◌, ◌⊎◌, inl, inr, Option, none, some, ◌≡◌, refl,
  sym, ap, ◌∙◌, arith, ltb, leb, ◌==◌, if◌then◌else◌, ==_iff, Bool-cases, &&-true, length, take,
  length-append, take-append_length, sub_length, All, All-append, All-intro, All-map, All-flat_map,
  Result, ok, err, ◌>>=◌, map_err, >>=-eq-ok, ok-injective, err-ne-ok, map_err-eq-ok,
  some-injective, none-ne-some,
}
use opendatahub_ai_gateway_o.Text.{Text, codes, equal, has_prefix, trim_space, is_empty}

-- `Config`
pub record Config : Type 0 where
  pub metrics_addr : Text
  pub health_probe_addr : Text
  pub pprof_addr : Text
  pub leader_elect : Bool
  pub leader_election_id : Text
  pub manifests_path : Text
  pub applications_namespace : Text
  pub platform_type : Text
  pub platform_version : Text

-- A value of viper, as far as the program sets one itself: a text, or the Boolean of `leader-elect`; a
-- structured file may hold any other, which is kept as its text.
pub data Setting : Type 0 where
  text : Text → Setting
  flag : Bool → Setting

abbrev pub Settings : Type 0
Settings = List (Text × Setting)

pub record ViperLib : Type 1 where
  pub Viper : Type 0
  pub new : Viper
  pub set_default : Text → Setting → Viper → Viper
  pub merge_config_map : Settings → Viper → Result Viper
  pub set_env_prefix : Text → Viper → Viper
  -- with what the replacer makes of a text
  pub set_env_key_replacer : (Text → Text) → Viper → Viper
  pub automatic_env : Viper → Viper
  pub all_keys : Viper → List Text
  pub bind_env : Text → Viper → Result Viper
  -- a new viper of this config type reads the data: `AllSettings`
  pub read_settings : Text → Text → Result Settings
  pub unmarshal : Viper → Result Config

-- An entry of a directory: what `ReadFile` returns for it, and `filepath.Ext` without its dot.
pub record Entry : Type 0 where
  pub name : Text
  pub is_dir : Bool
  pub extension : Text
  pub content : Result Text

-- `fs.FS`, by what `ReadDir(".")` returns.
abbrev pub Directory : Type 0
Directory = Result (List Entry)

abbrev pub key_metrics_addr : Text
key_metrics_addr = codes "metrics-bind-address"

abbrev pub key_health_probe_addr : Text
key_health_probe_addr = codes "health-probe-bind-address"

abbrev pub key_pprof_addr : Text
key_pprof_addr = codes "pprof-addr"

abbrev pub key_leader_elect : Text
key_leader_elect = codes "leader-elect"

abbrev pub key_leader_election_id : Text
key_leader_election_id = codes "leader-election-id"

abbrev pub key_manifests_path : Text
key_manifests_path = codes "manifests-path"

abbrev pub key_applications_ns : Text
key_applications_ns = codes "applications-namespace"

abbrev pub key_platform_type : Text
key_platform_type = codes "platform-type"

abbrev pub key_platform_version : Text
key_platform_version = codes "platform-version"

abbrev pub env_prefix : Text
env_prefix = codes "ODH_MODULE_OPERATOR"

-- The keys and values of `setDefaults`, in its order.
abbrev pub defaults : Settings
defaults =
    (key_metrics_addr, text (codes ":8080"))
    ∷ (key_health_probe_addr, text (codes ":8081"))
    ∷ (key_leader_elect, flag true)
    ∷ (key_leader_election_id, text (codes "opendatahub-ai-gateway-lock"))
    ∷ (key_applications_ns, text (codes "opendatahub"))
    ∷ (key_manifests_path, text [])
    ∷ (key_platform_type, text (codes "unknown"))
    ∷ (key_platform_version, text (codes "unknown"))
    ∷ []

-- `strings.NewReplacer("-", "_")`
unfoldable pub underscored : Text → Text
underscored = map (λ c. if c == b'-' then b'_' else c)

unfoldable pub is_structured : Text → Bool
unfolding equal
is_structured ext = equal ext (codes "yaml") || equal ext (codes "yml") || equal ext (codes "json")

module _ (viper : ViperLib) where
  open viper use {
    Viper, new, set_default, merge_config_map, set_env_prefix, set_env_key_replacer, automatic_env,
    all_keys, bind_env, read_settings, unmarshal,
  }

  unfoldable pub set_each : Settings → Viper → Viper
  set_each [] v = v
  set_each ((key, s) ∷ rest) v = set_each rest (set_default key s v)

  unfoldable pub set_defaults : Viper → Viper
  unfolding set_each
  set_defaults = set_each defaults

  unfoldable pub bind_each : List Text → Viper → Result Viper
  bind_each [] v = ok v
  bind_each (key ∷ keys) v = do
    bound ←
        map_err (λ e. codes "binding env for key " ++ (key ++ (codes ": " ++ e))) (bind_env key v)
    bind_each keys bound

  -- `bindEnv`
  unfoldable pub bind_envs : Viper → Result Viper
  unfolding bind_each
  bind_envs v =
      let prefixed = set_env_prefix env_prefix v in
      let replacing = set_env_key_replacer underscored prefixed in
      let automatic = automatic_env replacing in bind_each (all_keys automatic) automatic

  unfoldable pub merge_structured_file : Text → Text → Text → Viper → Result Viper
  merge_structured_file name ext content v = do
    settings ←
        map_err (λ e. codes "parsing config file " ++ (name ++ (codes ": " ++ e)))
          (read_settings ext content)
    map_err (λ e. codes "merging config from " ++ (name ++ (codes ": " ++ e)))
        (merge_config_map settings v)

  unfoldable pub merge_key_value : Text → Text → Viper → Result Viper
  merge_key_value name content v =
      map_err (λ e. codes "merging key " ++ (name ++ (codes ": " ++ e)))
        (merge_config_map ((name, text (trim_space content)) ∷ []) v)

  -- A file that cannot be read is passed over.
  merge_content : Entry → Result Text → Viper → Result Viper
  unfolding merge_structured_file merge_key_value is_structured
  merge_content entry (err e) v = ok v
  merge_content entry (ok content) v =
      if is_structured entry.extension
      then merge_structured_file entry.name entry.extension content v
      else merge_key_value entry.name content v

  -- The body of the loop of `loadFromFS`.
  unfoldable pub merge_entry : Entry → Viper → Result Viper
  unfolding merge_content has_prefix
  merge_entry entry v =
      if entry.is_dir || has_prefix entry.name (codes ".")
      then ok v
      else merge_content entry entry.content v

  unfoldable pub merge_entries : List Entry → Viper → Result Viper
  unfolding merge_entry
  merge_entries [] v = ok v
  merge_entries (entry ∷ entries) v = do w ← merge_entry entry v; merge_entries entries w

  -- `loadFromFS`
  unfoldable pub load_directory : Directory → Viper → Result Viper
  unfolding merge_entries
  load_directory directory v = do
    entries ← map_err (λ e. codes "reading config directory: " ++ e) directory
    merge_entries entries v

  load_files : Option Directory → Viper → Result Viper
  unfolding load_directory
  load_files none v = ok v
  load_files (some directory) v =
      map_err (λ e. codes "loading config from filesystem: " ++ e) (load_directory directory v)

  -- `LoadFromFS`; `none` is a nil file system.
  unfoldable pub load_from_fs : Option Directory → Result Config
  unfolding set_defaults load_files bind_envs
  load_from_fs fsys = do
    loaded ← load_files fsys (set_defaults new)
    bound ← map_err (λ e. codes "binding env vars: " ++ e) (bind_envs loaded)
    map_err (λ e. codes "unmarshaling config: " ++ e) (unmarshal bound)

  -- `Load`: the environment's path, and the directory that stands under a path.
  unfoldable pub load : Text → (Text → Directory) → Result Config
  unfolding load_from_fs
  load config_path dir_fs =
      load_from_fs (if is_empty config_path then none else some (dir_fs config_path))
