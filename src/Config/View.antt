-- ===== src/Config/View.antt =====
-- What viper documents of the calls that the configuration makes, by what a viper holds for each key:
-- a default, a value from a file and the name of the environment variable that is bound to it, and by
-- how it reads the environment.
use opendatahub_ai_gateway_o.Text.{is_empty, codes}
use opendatahub_ai_gateway_o.Base.{
  ◌-◌, Bool, true, false, ◌&&◌, ◌||◌, List, [], ◌∷◌, ◌++◌, map, Option, none, some, ◌≡◌, leb,
  if◌then◌else◌, ok,
}
use opendatahub_ai_gateway_o.Config.{
  Config, Setting, text, Settings, ViperLib, key_metrics_addr, key_health_probe_addr,
  key_pprof_addr, key_leader_election_id, key_manifests_path, key_applications_ns,
  key_platform_type, key_platform_version,
}
use opendatahub_ai_gateway_o.Text.{Text, equal, to_lower}

-- The fields of `Config` that are texts.
pub data Key : Type 0 where
  metrics_addr health_probe_addr pprof_addr leader_election_id manifests_path : Key
  applications_namespace platform_type platform_version : Key

abbrev pub key_name : Key → Text
key_name metrics_addr = key_metrics_addr
key_name health_probe_addr = key_health_probe_addr
key_name pprof_addr = key_pprof_addr
key_name leader_election_id = key_leader_election_id
key_name manifests_path = key_manifests_path
key_name applications_namespace = key_applications_ns
key_name platform_type = key_platform_type
key_name platform_version = key_platform_version

-- The environment's variable for a field.
abbrev pub variable_name : Key → Text
variable_name metrics_addr = codes "ODH_MODULE_OPERATOR_METRICS_BIND_ADDRESS"
variable_name health_probe_addr = codes "ODH_MODULE_OPERATOR_HEALTH_PROBE_BIND_ADDRESS"
variable_name pprof_addr = codes "ODH_MODULE_OPERATOR_PPROF_ADDR"
variable_name leader_election_id = codes "ODH_MODULE_OPERATOR_LEADER_ELECTION_ID"
variable_name manifests_path = codes "ODH_MODULE_OPERATOR_MANIFESTS_PATH"
variable_name applications_namespace = codes "ODH_MODULE_OPERATOR_APPLICATIONS_NAMESPACE"
variable_name platform_type = codes "ODH_MODULE_OPERATOR_PLATFORM_TYPE"
variable_name platform_version = codes "ODH_MODULE_OPERATOR_PLATFORM_VERSION"

abbrev pub read : Config → Key → Text
read cfg metrics_addr = cfg.metrics_addr
read cfg health_probe_addr = cfg.health_probe_addr
read cfg pprof_addr = cfg.pprof_addr
read cfg leader_election_id = cfg.leader_election_id
read cfg manifests_path = cfg.manifests_path
read cfg applications_namespace = cfg.applications_namespace
read cfg platform_type = cfg.platform_type
read cfg platform_version = cfg.platform_version

abbrev pub or_else {ℓ} : {A : Type ℓ} → Option A → Option A → Option A
or_else (some a) other = some a
or_else none other = other

abbrev pub is_some {ℓ} : {A : Type ℓ} → Option A → Bool
is_some none = false
is_some (some a) = true

-- viper's keys are case-insensitive.
abbrev pub same_key : Text → Text → Bool
same_key j k = equal (to_lower j) (to_lower k)

-- The last value that the settings give a key.
abbrev pub last_setting : Text → Settings → Option Setting
last_setting j [] = none
last_setting j ((k, s) ∷ m) = or_else (last_setting j m) (if same_key k j then some s else none)

abbrev pub has_key : Text → List Text → Bool
has_key j [] = false
has_key j (k ∷ ks) = same_key k j || has_key j ks

-- The value for a key: of the environment, if a variable is bound to the key and set; else of a file,
-- else the default.
abbrev pub effective : Bool → Option Setting → Option Setting → Option Setting → Option Setting
effective true env file default = or_else env (or_else file default)
effective false env file default = or_else file default

abbrev pub text_or_empty : (Setting → Text) → Option Setting → Text
text_or_empty as_text none = []
text_or_empty as_text (some s) = as_text s

abbrev pub to_upper : Text → Text
to_upper = map (λ c. if leb b'a' c && leb c b'z' then c - 32 else c)

-- How a viper reads the environment: its prefix, what its replacer makes of a name, and whether it looks
-- up keys that no variable is bound to.
pub record EnvState : Type 0 where
  pub prefix : Text
  pub replacer : Text → Text
  pub automatic : Bool

-- The variable's name for a key: in upper case, behind the prefix and an underscore.
abbrev pub env_name : Text → Text → Text
env_name prefix j =
    to_upper (if is_empty prefix then to_lower j else prefix ++ (codes "_" ++ to_lower j))

-- What the environment has under a name, after the replacer; no name is nothing.
abbrev pub look_up : EnvState → (Text → Option Text) → Option Text → Option Text
look_up env environ none = none
look_up env environ (some name) = environ (env.replacer name)

-- A viper with `AutomaticEnv` looks up the variable of each key that it has, and then the bound one.
abbrev pub env_value : EnvState → (Text → Option Text) → Bool → Option Text → Text → Option Text
env_value env environ present bound j =
    or_else
      (look_up env environ
        (if env.automatic && present then some (env_name env.prefix j) else none))
      (look_up env environ bound)

abbrev pub as_setting : Option Text → Option Setting
as_setting none = none
as_setting (some s) = some (text s)

pub record ViperView (viper : ViperLib) : Type 0 where
  -- the environment's variables that are set and not empty
  pub environ : Text → Option Text
  pub as_text : Setting → Text
  pub default_of : viper.Viper → Text → Option Setting
  pub file_of : viper.Viper → Text → Option Setting
  pub bound : viper.Viper → Text → Option Text
  pub env_of : viper.Viper → EnvState
  pub as_text_text : (s : Text) → as_text (text s) ≡ s
  pub new_empty :
      (j : Text)
      → (default_of viper.new j ≡ none) × (file_of viper.new j ≡ none) × (bound viper.new j ≡ none)
  pub set_default_lem :
      (k j : Text) (s : Setting) (v : viper.Viper)
      → (default_of (viper.set_default k s v) j ≡ (if same_key k j then some s else default_of v j))
        × (file_of (viper.set_default k s v) j ≡ file_of v j)
        × (bound (viper.set_default k s v) j ≡ bound v j)
  pub set_env_prefix_lem :
      (p j : Text) (v : viper.Viper)
      → (default_of (viper.set_env_prefix p v) j ≡ default_of v j)
        × (file_of (viper.set_env_prefix p v) j ≡ file_of v j)
        × (bound (viper.set_env_prefix p v) j ≡ bound v j)
        × (env_of (viper.set_env_prefix p v) ≡ record (env_of v) { prefix = p })
  pub set_env_key_replacer_lem :
      (r : Text → Text) (j : Text) (v : viper.Viper)
      → (default_of (viper.set_env_key_replacer r v) j ≡ default_of v j)
        × (file_of (viper.set_env_key_replacer r v) j ≡ file_of v j)
        × (bound (viper.set_env_key_replacer r v) j ≡ bound v j)
        × (env_of (viper.set_env_key_replacer r v) ≡ record (env_of v) { replacer = r })
  pub automatic_env_lem :
      (j : Text) (v : viper.Viper)
      → (default_of (viper.automatic_env v) j ≡ default_of v j)
        × (file_of (viper.automatic_env v) j ≡ file_of v j)
        × (bound (viper.automatic_env v) j ≡ bound v j)
        × (env_of (viper.automatic_env v) ≡ record (env_of v) { automatic = true })
  pub merge_lem :
      (m : Settings) (j : Text) (v w : viper.Viper)
      → viper.merge_config_map m v ≡ ok w
      → (default_of w j ≡ default_of v j)
        × (file_of w j ≡ or_else (last_setting j m) (file_of v j))
        × (bound w j ≡ bound v j)
  -- the variable that is bound to a key first stays
  pub bind_env_lem :
      (k j : Text) (v w : viper.Viper)
      → viper.bind_env k v ≡ ok w
      → (default_of w j ≡ default_of v j)
        × (file_of w j ≡ file_of v j)
        × (bound w j
            ≡ or_else
                (bound v j)
                (if same_key k j then some (env_name (env_of v).prefix j) else none))
        × (env_of w ≡ env_of v)
  pub all_keys_lem :
      (j : Text) (v : viper.Viper)
      → has_key j (viper.all_keys v)
        ≡ (is_some (bound v j) || (is_some (file_of v j) || is_some (default_of v j)))
  -- the environment, the files and the defaults, in this order, for the keys of `AllKeys`
  pub unmarshal_lem :
      (v : viper.Viper) (cfg : Config)
      → viper.unmarshal v ≡ ok cfg
      → (k : Key)
      → read cfg k
        ≡ text_or_empty as_text (
            or_else
              (as_setting (
                env_value
                  (env_of v)
                  environ
                  (has_key (key_name k) (viper.all_keys v))
                  (bound v (key_name k))
                  (key_name k)))
              (or_else (file_of v (key_name k)) (default_of v (key_name k))))
