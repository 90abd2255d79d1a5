-- ===== src/Controller/Reconciler.antt =====
-- `NewReconciler` of internal/controller/aigateway/aigateway_controller.go. The builder of reconcilers
-- and the actions of the framework are those of opendatahub-operator, a parameter.
pub mod Pipeline
pub mod Steps
pub mod Outcome
pub mod Failure
pub mod Reached
pub mod Worlds
use opendatahub_ai_gateway_o.Base.{
  ℕ, zero, suc, ◌+◌, ◌-◌, ◌*◌, ◌/◌, ◌%◌, ◌≤◌, ◌<◌, Bool, true, false, not, ◌&&◌, ◌||◌, List, [],
  ◌∷◌, ◌++◌, map, append-nil, append_assoc, ◌≢◌, ◌↔◌, ◌⊎◌, inl, inr, Option, none, some, ◌≡◌, refl,
  sym, ap, ◌∙◌, arith, ltb, leb, ◌==◌, if◌then◌else◌, ==_iff, Bool-cases, &&-true, length, take,
  length-append, take-append_length, sub_length, All, All-append, All-intro, All-map, All-flat_map,
  Result, ok, err, ◌>>=◌, map_err, >>=-eq-ok, ok-injective, err-ne-ok, map_err-eq-ok,
  some-injective, none-ne-some,
}
use opendatahub_ai_gateway_o.Api.Semver.{SemverLib}
use opendatahub_ai_gateway_o.Config.{Config}
use opendatahub_ai_gateway_o.Controller.Status.{report_status}
use opendatahub_ai_gateway_o.Controller.Upgrade.{upgrade_if_needed}
use opendatahub_ai_gateway_o.Controller.{
  Action, Build, DeployLib, Module, Release, initialize, new_module,
}
use opendatahub_ai_gateway_o.Text.{Text, codes}

-- The kinds that the reconciler watches for its objects.
pub data OwnedKind : Type 0 where
  config_map cluster_role_binding cluster_role role_binding role service_account service : OwnedKind
  custom_resource_definition deployment : OwnedKind

-- `componentApi.AIGatewayComponentName`
abbrev pub component_name : Text
component_name = codes "aigateway"

module _ (semver : SemverLib) (deploy : DeployLib) where
  open deploy use {World}

  -- `World` is all that the framework works on besides the fields of `Request`.
  pub record ReconcilerLib : Type 1 where
    pub Manager : Type 0
    pub Builder : Type 0
    pub Reconciler : Type 0
    pub reconciler_for : Manager → Builder
    pub owns : OwnedKind → Builder → Builder
    -- `Owns` with `reconciler.WithPredicates(predicates.DefaultDeploymentPredicate)`
    pub owns_with_default_deployment_predicate : OwnedKind → Builder → Builder
    pub with_action : Action semver deploy → Builder → Builder
    pub with_conditions : List Text → Builder → Builder
    pub build : Builder → World → World × Result Reconciler
    pub set_release : Release semver → Reconciler → Reconciler
    -- The object that the manager holds since `Build` has this value now.
    pub store : Reconciler → World → World
    pub releases_action : Action semver deploy
    -- with the labels that it is given
    pub kustomize_action : List (Text × Text) → Action semver deploy
    -- with the cache and in the order of application
    pub deploy_action : Action semver deploy
    pub deployments_action : Action semver deploy
    -- in the namespace that it is given
    pub gc_action : Text → Action semver deploy
    pub label_component : Text → Text
    pub label_part_of : Text
    pub label_true : Text
    pub condition_deployments_available : Text

  module _ (lib : ReconcilerLib) where
    open lib use {
      Manager, Builder, Reconciler, reconciler_for, owns, owns_with_default_deployment_predicate,
      with_action, with_conditions, set_release, store, releases_action, kustomize_action,
      deploy_action, deployments_action, gc_action, label_component, label_part_of, label_true,
      condition_deployments_available,
    }

    -- The chain of calls on the builder.
    unfoldable pub configure : Build → Config → Module → Manager → Builder
    configure build cfg m mgr =
        let b0 = reconciler_for mgr in
        let b1 = owns config_map b0 in
        let b2 = owns cluster_role_binding b1 in
        let b3 = owns cluster_role b2 in
        let b4 = owns role_binding b3 in
        let b5 = owns role b4 in
        let b6 = owns service_account b5 in
        let b7 = owns service b6 in
        let b8 = owns custom_resource_definition b7 in
        let b9 = owns_with_default_deployment_predicate deployment b8 in
        let b10 = with_action (initialize semver deploy m) b9 in
        let b11 = with_action (upgrade_if_needed semver deploy m) b10 in
        let b12 = with_action releases_action b11 in
        let b13 =
          with_action
            (kustomize_action
              ((label_component component_name, label_true) ∷ (label_part_of, component_name) ∷ []))
            b12 in
        let b14 = with_action deploy_action b13 in
        let b15 = with_action deployments_action b14 in
        let b16 = with_action (report_status semver deploy build m) b15 in
        let b17 = with_action (gc_action cfg.applications_namespace) b16 in
        with_conditions (condition_deployments_available ∷ []) b17

    -- `r.Release = rel`, on the object that the manager holds, too.
    finish_reconciler : Release semver → World × Result Reconciler → World × Result Reconciler
    finish_reconciler rel (world, err e) = (world, err e)
    finish_reconciler rel (world, ok r) =
        let released = set_release rel r in (store released world, ok released)

    with_module :
        Build
        → Config
        → Release semver
        → Manager
        → World × Result Module
        → World × Result Reconciler
    unfolding configure finish_reconciler
    with_module build cfg rel mgr (world, err e) = (world, err e)
    with_module build cfg rel mgr (world, ok m) =
        finish_reconciler rel (lib.build (configure build cfg m mgr) world)

    -- `NewReconciler`. It returns an error only; the reconciler is the one that the manager runs.
    unfoldable pub new_reconciler :
        Build → Config → Release semver → Manager → World → World × Result Reconciler
    unfolding with_module
    new_reconciler build cfg rel mgr world =
        with_module build cfg rel mgr (new_module semver deploy build cfg world)
