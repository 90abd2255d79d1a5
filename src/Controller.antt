-- ===== src/Controller.antt =====
-- internal/controller/aigateway: the module's state and the actions of its reconciler. An action works
-- on the reconciliation request and on the files that the kustomize parameters stand in.
pub mod Upgrade
pub mod Manifests
pub mod Status
pub mod Reconciler
use opendatahub_ai_gateway_o.Base.{
  ℕ, zero, suc, ◌+◌, ◌-◌, ◌*◌, ◌/◌, ◌%◌, ◌≤◌, ◌<◌, Bool, true, false, not, ◌&&◌, ◌||◌, List, [],
  ◌∷◌, ◌++◌, map, append-nil, append_assoc, ◌≢◌, ◌↔◌, ◌⊎◌, inl, inr, Option, none, some, ◌≡◌, refl,
  sym, ap, ◌∙◌, arith, ltb, leb, ◌==◌, if◌then◌else◌, ==_iff, Bool-cases, &&-true, length, take,
  length-append, take-append_length, sub_length, All, All-append, All-intro, All-map, All-flat_map,
  Result, ok, err, ◌>>=◌, map_err, >>=-eq-ok,
}
use opendatahub_ai_gateway_o.Api.Semver.{SemverLib, SemVer, new_sem_ver}
use opendatahub_ai_gateway_o.Api.Status.{ModuleStatus}
use opendatahub_ai_gateway_o.Config.{Config}
use opendatahub_ai_gateway_o.Text.{Text, codes, equal}

-- pkg/version: the variables that the linker overrides.
pub record Build : Type 0 where
  pub version : Text
  pub commit : Text
  pub branch : Text
  pub repo : Text

abbrev pub default_build : Build
default_build = record {
  version = codes "0.0.0-dev";
  commit = codes "unknown";
  branch = codes "unknown";
  repo = codes "unknown";
}

pub record ManifestInfo : Type 0 where
  pub path : Text
  pub context_dir : Text
  pub source_path : Text

abbrev pub Params : Type 0
Params = List (Text × Text)

-- The package `deploy` of opendatahub-operator: `ApplyParams` rewrites a file of parameters, and may
-- fail. `World` is the files and all else that the calls of libraries work on.
pub record DeployLib : Type 1 where
  pub World : Type 0
  pub manifest_string : ManifestInfo → Text
  pub apply_params : Text → Text → Params → Params → World → World × Option Text

-- An `AIGateway` object, as far as the actions read or write it.
pub record Gateway : Type 0 where
  pub management_state : Text
  pub status : ModuleStatus

pub data Instance : Type 0 where
  gateway : Gateway → Instance
  -- an object of another Go type
  foreign : Instance

abbrev pub params_env : Text
params_env = codes "params.env"

abbrev pub batch_gateway_image_param_map : Params
batch_gateway_image_param_map =
    (codes "BATCH_GATEWAY_OPERATOR_IMAGE", codes "RELATED_IMAGE_ODH_BATCH_GATEWAY_OPERATOR_IMAGE")
    ∷ []

abbrev pub not_a_gateway : Text
not_a_gateway = codes "instance is not an AIGateway"

module _ (semver : SemverLib) where
  open semver use {Version}

  pub record Release : Type 0 where
    pub name : Text
    pub version : Version

  pub record Request : Type 0 where
    pub instance_object : Instance
    pub manifests : List ManifestInfo
    -- the `Path` of each template
    pub templates : List Text
    -- the `Chart` of each Helm chart
    pub helm_charts : List Text
    pub release : Release

pub record Module : Type 0 where
  pub cfg : Config
  pub version : SemVer
  pub batch_gateway_manifest_info : ManifestInfo

module _ (semver : SemverLib) (deploy : DeployLib) where
  open deploy use {World, manifest_string, apply_params}

  -- An action: the request and the world behind it, and the error, if it fails. What it changed before
  -- an error stays changed.
  abbrev pub Action : Type 0
  Action = Request semver → World → Request semver × World × Option Text

  finish_module : Module → World × Option Text → World × Result Module
  finish_module m (world, none) = (world, ok m)
  finish_module m (world, some e) = (
    world,
    err (
        codes "failed to update images on path "
        ++ (manifest_string m.batch_gateway_manifest_info ++ (codes ": " ++ e))),
  )

  make_module : Config → World → Result SemVer → World × Result Module
  make_module cfg world (err e) = (world, err e)
  make_module cfg world (ok v) =
      let batch_mi : ManifestInfo = record {
        path = cfg.manifests_path;
        context_dir = codes "batchgateway";
        source_path = codes "base";
      } in
      finish_module (record { cfg = cfg; version = v; batch_gateway_manifest_info = batch_mi })
        (apply_params (manifest_string batch_mi) params_env batch_gateway_image_param_map [] world)

  -- `NewModule`; `go_quote` is `%q`.
  unfoldable pub new_module : Build → Config → World → World × Result Module
  unfolding finish_module make_module
  new_module build cfg world = make_module cfg world (
      map_err
        (λ e.
          codes "parsing module version " ++ (semver.go_quote build.version ++ (codes ": " ++ e)))
        (new_sem_ver semver build.version))

  params_error : Option Text → Option Text
  params_error none = none
  params_error (some e) = some (codes "failed to update batch-gateway params.env: " ++ e)

  initialize_gateway : Module → Gateway → Action
  unfolding params_error
  initialize_gateway m obj rr world =
      if equal obj.management_state (codes "Managed")
      then (let (world', e) =
            apply_params (manifest_string m.batch_gateway_manifest_info) params_env []
              ((codes "namespace", m.cfg.applications_namespace) ∷ []) world in
          (
            record rr { manifests = rr.manifests ++ m.batch_gateway_manifest_info ∷ [] },
            world',
            params_error e,
          ))
      else (rr, world, none)

  initialize_instance : Module → Instance → Action
  unfolding initialize_gateway
  initialize_instance m (gateway obj) rr world = initialize_gateway m obj rr world
  initialize_instance m foreign rr world = (rr, world, some not_a_gateway)

  unfoldable pub initialize : Module → Action
  unfolding initialize_instance
  initialize m rr = initialize_instance m rr.instance_object rr
