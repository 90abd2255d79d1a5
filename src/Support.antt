-- ===== src/Support.antt =====
-- test/support/project.go and namespace.go, what the tests of the operator share. The packages os,
-- path/filepath and the YAML codec are parameters.
pub mod Root
pub mod Cluster
pub mod Installed
use opendatahub_ai_gateway_o.Base.{
  ℕ, zero, suc, ◌+◌, ◌-◌, ◌*◌, ◌/◌, ◌%◌, ◌≤◌, ◌<◌, Bool, true, false, not, ◌&&◌, ◌||◌, List, [],
  ◌∷◌, ◌++◌, map, append-nil, append_assoc, ◌≢◌, ◌↔◌, ◌⊎◌, inl, inr, Option, none, some, ◌≡◌, refl,
  sym, ap, ◌∙◌, arith, ltb, leb, ◌==◌, if◌then◌else◌, ==_iff, Bool-cases, &&-true, length, take,
  length-append, take-append_length, sub_length, All, All-append, All-intro, All-map, All-flat_map,
  Result, ok, err, ◌>>=◌, map_err, >>=-eq-ok, ok-injective, err-ne-ok, map_err-eq-ok,
  some-injective, none-ne-some,
}
use opendatahub_ai_gateway_o.Text.{Text, codes, equal, is_empty}

abbrev pub default_operator_namespace : Text
default_operator_namespace = codes "opendatahub-ai-gateway-system"

abbrev pub default_integration_test_namespace : Text
default_integration_test_namespace = codes "integration-test"

-- The value of a variable, unless it is empty; `getenv` is `os.Getenv`.
unfoldable pub env_or : (Text → Text) → Text → Text → Text
env_or getenv name default_value = if is_empty (getenv name) then default_value else getenv name

unfoldable pub operator_namespace : (Text → Text) → Text
unfolding env_or
operator_namespace getenv = env_or getenv (codes "OPERATOR_NAMESPACE") default_operator_namespace

unfoldable pub integration_test_namespace : (Text → Text) → Text
unfolding env_or
integration_test_namespace getenv =
    env_or getenv (codes "INTEGRATION_TEST_NAMESPACE") default_integration_test_namespace

unfoldable pub helm_namespace : (Text → Text) → Text
unfolding operator_namespace
helm_namespace = operator_namespace

abbrev pub Data : Type 0
Data = List (Text × Text)

pub record ProjectLib : Type 0 where
  pub getwd : Result Text
  -- `os.Stat` returns no error.
  pub exists : Text → Bool
  -- `filepath.Join` and `filepath.Dir`
  pub join_path : List Text → Text
  pub dir_of : Text → Text
  pub read_file : Text → Result Text
  -- `yaml.Unmarshal` into a ConfigMap, and its data
  pub unmarshal_data : Text → Result Data

abbrev pub not_found : Text
not_found = codes "go.mod not found in any parent directory"

-- `if err != nil { panic(err) }`: an error is a panic, `none`.
unfoldable pub or_panic {ℓ} : {A : Type ℓ} → Result A → Option A
or_panic (err e) = none
or_panic (ok a) = some a

module _ (lib : ProjectLib) where
  open lib use {getwd, exists, join_path, dir_of, read_file, unmarshal_data}

  unfoldable pub has_go_mod : Text → Bool
  has_go_mod dir = exists (join_path (dir ∷ codes "go.mod" ∷ []))

  -- The loop of `FindProjectRoot`, on fuel; `none` means that the fuel ran out.
  unfoldable pub find_from : ℕ → Text → Option (Result Text)
  unfolding has_go_mod equal
  find_from zero dir = none
  find_from (suc fuel) dir =
      let above = find_from fuel (dir_of dir) in
      if has_go_mod dir
      then some (ok dir)
      else if equal (dir_of dir) dir
      then some (err not_found)
      else above

  -- The path of the parent is shorter, so this fuel is enough.
  unfoldable pub search_root : Result Text → Option (Result Text)
  unfolding find_from
  search_root (err e) = some (err (codes "getting working directory: " ++ e))
  search_root (ok dir) = find_from (suc (length dir)) dir

  unfoldable pub find_project_root : Option (Result Text)
  unfolding search_root
  find_project_root = search_root getwd

  file_in : List Text → Option (Result Text) → Option (Result Text)
  file_in parts none = none
  file_in parts (some root) = some (do r ← root; ok (join_path (r ∷ parts)))

  unfoldable pub project_file : List Text → Option (Result Text)
  unfolding find_project_root file_in
  project_file parts = file_in parts find_project_root

  panics_in : Option (Result Text) → Option (Option Text)
  unfolding or_panic
  panics_in none = none
  panics_in (some r) = some (or_panic r)

  unfoldable pub must_project_file : List Text → Option (Option Text)
  unfolding project_file panics_in
  must_project_file parts = panics_in (project_file parts)

  unfoldable pub read_config_map_data : Text → Result Data
  read_config_map_data path = do
    raw ← map_err (λ e. codes "reading file " ++ (path ++ (codes ": " ++ e))) (read_file path)
    map_err (λ e. codes "parsing ConfigMap from " ++ (path ++ (codes ": " ++ e)))
        (unmarshal_data raw)

  unfoldable pub must_read_config_map_data : Text → Option Data
  unfolding read_config_map_data or_panic
  must_read_config_map_data path = or_panic (read_config_map_data path)
