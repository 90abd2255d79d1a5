-- ===== src/Tests/Config.antt =====
-- pkg/config/config.go at concrete inputs, with a small viper.
use opendatahub_ai_gateway_o.Config.{underscored}
use opendatahub_ai_gateway_o.Config.View.{EnvState, env_name, env_value, as_setting}
use opendatahub_ai_gateway_o.Base.{
  Bool, true, false, ◌||◌, List, [], ◌∷◌, ◌++◌, Option, none, some, ◌≡◌, refl, ◌∙◌, arith,
  if◌then◌else◌, ok, ok-injective,
}
use opendatahub_ai_gateway_o.Config.{
  is_structured, Config, Setting, text, flag, Settings, ViperLib, Entry, Directory, load_from_fs,
  key_metrics_addr, key_health_probe_addr, key_pprof_addr, key_leader_election_id,
  key_manifests_path, key_applications_ns, key_platform_type, key_platform_version,
}
use opendatahub_ai_gateway_o.Config.Precedence.{load_from_fs-reads, pprof_addr_unbound}
use opendatahub_ai_gateway_o.Config.View.{
  Key, metrics_addr, health_probe_addr, pprof_addr, leader_election_id, manifests_path,
  applications_namespace, platform_type, platform_version, key_name, read, or_else, is_some,
  same_key, last_setting, has_key, text_or_empty, ViperView,
}
use opendatahub_ai_gateway_o.Text.{Text, codes, equal, to_lower, trim_space, has_prefix}

-- A viper: the defaults, what the files gave, the keys that a variable is bound to, each with the prefix of
-- then, and how the environment is read.
pub record SmallViper : Type 0 where
  pub defaults : Settings
  pub files : Settings
  pub bound : List (Text × Text)
  pub env : EnvState

abbrev pub keys : Settings → List Text
keys [] = []
keys ((k, s) ∷ m) = k ∷ keys m

abbrev pub bound_of : List (Text × Text) → Text → Option Text
bound_of [] j = none
bound_of ((k, p) ∷ bound) j =
    or_else (bound_of bound j) (if same_key k j then some (env_name p j) else none)

abbrev pub bound_keys : List (Text × Text) → List Text
bound_keys [] = []
bound_keys ((k, p) ∷ bound) = k ∷ bound_keys bound

abbrev pub keys_of : SmallViper → List Text
keys_of v = bound_keys v.bound ++ (keys v.files ++ keys v.defaults)

-- Two variables are set: that of the metrics' address, and one that no key stands for.
abbrev pub variable : Text → Option Text
variable name =
    if equal name (codes "ODH_MODULE_OPERATOR_METRICS_BIND_ADDRESS")
    then some (codes ":9090")
    else if equal name (codes "METRICS_BIND_ADDRESS")
    then some (codes ":1")
    else none

abbrev pub setting_text : Setting → Text
setting_text (text s) = s
setting_text (flag b) = if b then codes "true" else codes "false"

abbrev pub value_of : SmallViper → Text → Text
value_of v j = text_or_empty setting_text (
    or_else (as_setting (env_value v.env variable (has_key j (keys_of v)) (bound_of v.bound j) j))
      (or_else (last_setting j v.files) (last_setting j v.defaults)))

abbrev pub decode : SmallViper → Config
decode v = record {
  metrics_addr = value_of v key_metrics_addr;
  health_probe_addr = value_of v key_health_probe_addr;
  pprof_addr = value_of v key_pprof_addr;
  leader_elect = true;
  leader_election_id = value_of v key_leader_election_id;
  manifests_path = value_of v key_manifests_path;
  applications_namespace = value_of v key_applications_ns;
  platform_type = value_of v key_platform_type;
  platform_version = value_of v key_platform_version;
}

abbrev pub small : ViperLib
small = record {
  Viper = SmallViper;
  new = record {
    defaults = [];
    files = [];
    bound = [];
    env = record { prefix = []; replacer = λ t. t; automatic = false };
  };
  set_default = λ k s v. record v { defaults = v.defaults ++ (k, s) ∷ [] };
  merge_config_map = λ m v. ok (record v { files = v.files ++ m });
  set_env_prefix = λ p v. record v { env = record v.env { prefix = p } };
  set_env_key_replacer = λ f v. record v { env = record v.env { replacer = f } };
  automatic_env = λ v. record v { env = record v.env { automatic = true } };
  all_keys = keys_of;
  bind_env = λ k v. ok (record v { bound = (k, v.env.prefix) ∷ v.bound });
  read_settings =
      λ ext content. ok ((key_metrics_addr, text content) ∷ (key_platform_type, text content) ∷ []);
  unmarshal = λ v. ok (decode v);
}

pub last_setting-append :
    (j : Text) (a b : Settings)
    → last_setting j (a ++ b) ≡ or_else (last_setting j b) (last_setting j a)
last_setting-append j [] b = no_more (last_setting j b)
  where
    no_more : (x : Option Setting) → x ≡ or_else x none
    no_more (some s) = refl
    no_more none = refl
last_setting-append j ((k, s) ∷ a) b =
    rw (last_setting-append j a b) (regroup (last_setting j b) (last_setting j a) _)
  where
    regroup : (x y z : Option Setting) → or_else (or_else x y) z ≡ or_else x (or_else y z)
    regroup (some s) y z = refl
    regroup none y z = refl

pub last_setting-one :
    (j k : Text) (s : Setting) (a : Settings)
    → last_setting j (a ++ (k, s) ∷ []) ≡ (if same_key k j then some s else last_setting j a)
last_setting-one j k s a = last_setting-append j a ((k, s) ∷ []) ∙ pick (same_key k j)
  where
    pick :
        (b : Bool)
        → or_else (if b then some s else none) (last_setting j a)
          ≡ (if b then some s else last_setting j a)
    pick true = refl
    pick false = refl

pub has_key-append :
    (j : Text) (a b : List Text) → has_key j (a ++ b) ≡ (has_key j a || has_key j b)
has_key-append j [] b = refl
has_key-append j (k ∷ a) b = ground (arith, has_key-append j a b)

pub has_key-keys : (j : Text) (m : Settings) → has_key j (keys m) ≡ is_some (last_setting j m)
has_key-keys j [] = refl
has_key-keys j ((k, s) ∷ m) = rw (has_key-keys j m) (found (same_key k j) (last_setting j m))
  where
    found :
        (b : Bool) (x : Option Setting)
        → (b || is_some x) ≡ is_some (or_else x (if b then some s else none))
    found true (some t) = refl
    found true none = refl
    found false (some t) = refl
    found false none = refl

pub has_key-bound_keys :
    (j : Text) (m : List (Text × Text)) → has_key j (bound_keys m) ≡ is_some (bound_of m j)
has_key-bound_keys j [] = refl
has_key-bound_keys j ((k, p) ∷ m) =
    rw (has_key-bound_keys j m) (found (same_key k j) (bound_of m j) (env_name p j))
  where
    found :
        (b : Bool) (x : Option Text) (n : Text)
        → (b || is_some x) ≡ is_some (or_else x (if b then some n else none))
    found true (some t) n = refl
    found true none n = refl
    found false (some t) n = refl
    found false none n = refl

pub small_reads :
    (v : SmallViper) (k : Key)
    → read (decode v) k
      ≡ text_or_empty setting_text (
          or_else
            (as_setting (
              env_value v.env variable
                (has_key (key_name k) (keys_of v))
                (bound_of v.bound (key_name k))
                (key_name k)))
            (or_else (last_setting (key_name k) v.files) (last_setting (key_name k) v.defaults)))
small_reads v metrics_addr = refl
small_reads v health_probe_addr = refl
small_reads v pprof_addr = refl
small_reads v leader_election_id = refl
small_reads v manifests_path = refl
small_reads v applications_namespace = refl
small_reads v platform_type = refl
small_reads v platform_version = refl

unfoldable pub small_view : ViperView small
small_view = record {
  environ = variable;
  as_text = setting_text;
  default_of = λ v j. last_setting j v.defaults;
  file_of = λ v j. last_setting j v.files;
  bound = λ v j. bound_of v.bound j;
  env_of = λ v. v.env;
  as_text_text = λ s. refl;
  new_empty = λ j. (refl, refl, refl);
  set_default_lem = λ k j s v. (last_setting-one j k s v.defaults, refl, refl);
  set_env_prefix_lem = λ p j v. (refl, refl, refl, refl);
  set_env_key_replacer_lem = λ r j v. (refl, refl, refl, refl);
  automatic_env_lem = λ j v. (refl, refl, refl, refl);
  merge_lem = λ m j v w h. rw (← ok-injective h) (refl, last_setting-append j v.files m, refl);
  bind_env_lem = λ k j v w h. rw (← ok-injective h) (refl, refl, refl, refl);
  all_keys_lem = λ j v.
      rw
        (
          has_key-append j (bound_keys v.bound) (keys v.files ++ keys v.defaults),
          has_key-bound_keys j v.bound,
          has_key-append j (keys v.files) (keys v.defaults),
          has_key-keys j v.files,
          has_key-keys j v.defaults,
        )
        refl;
  unmarshal_lem = λ v cfg h k. rw (← ok-injective h) (small_reads v k);
}

abbrev pub file : Text → Text → Text → Entry
file name ext content = record {
  name = name;
  is_dir = false;
  extension = ext;
  content = ok content;
}

-- The platform's type stands in a structured file and, later, in a file of its own.
abbrev pub a_directory : Directory
a_directory = ok (
    file (codes ".hidden") [] (codes "x")
    ∷ file (codes "a.yaml") (codes "yaml") (codes "y")
    ∷ file key_platform_type [] (codes " OpenDataHub\n")
    ∷ [])

abbrev pub a_config : Config
a_config = record {
  metrics_addr = codes ":9090";
  health_probe_addr = codes ":8081";
  pprof_addr = [];
  leader_elect = true;
  leader_election_id = codes "opendatahub-ai-gateway-lock";
  manifests_path = [];
  applications_namespace = codes "opendatahub";
  platform_type = codes "OpenDataHub";
  platform_version = codes "unknown";
}

pub a_config_loaded : load_from_fs small (some a_directory) ≡ ok a_config
unfolding load_from_fs equal to_lower trim_space has_prefix underscored
a_config_loaded = refl

load_from_fs-reads_example : a_config.metrics_addr ≡ codes ":9090"
unfolding equal to_lower trim_space has_prefix is_structured small_view
load_from_fs-reads_example =
    load_from_fs-reads small small_view (some a_directory) metrics_addr a_config_loaded

abbrev no_directory : Config
no_directory = record a_config { platform_type = codes "unknown" }

no_directory_loaded : load_from_fs small none ≡ ok no_directory
unfolding load_from_fs equal to_lower underscored
no_directory_loaded = refl

pprof_addr_unbound_example : no_directory.pprof_addr ≡ []
pprof_addr_unbound_example = pprof_addr_unbound small small_view no_directory_loaded
