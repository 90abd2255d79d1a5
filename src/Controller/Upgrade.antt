-- ===== src/Controller/Upgrade.antt =====
-- `upgradeIfNeeded` and `upgrade` of internal/controller/aigateway/aigateway_upgrade.go.
pub mod Once
use opendatahub_ai_gateway_o.Base.{
  ℕ, zero, suc, ◌+◌, ◌-◌, ◌*◌, ◌/◌, ◌%◌, ◌≤◌, ◌<◌, Bool, true, false, not, ◌&&◌, ◌||◌, List, [],
  ◌∷◌, ◌++◌, map, append-nil, append_assoc, ◌≢◌, ◌↔◌, ◌⊎◌, inl, inr, Option, none, some, ◌≡◌, refl,
  sym, ap, ◌∙◌, arith, ltb, leb, ◌==◌, if◌then◌else◌, ==_iff, Bool-cases, &&-true, length, take,
  length-append, take-append_length, sub_length, All, All-append, All-intro, All-map, All-flat_map,
  Result, ok, err, ◌>>=◌, map_err, >>=-eq-ok,
}
use opendatahub_ai_gateway_o.Api.Semver.{SemverLib, is_zero, sem_ver_gt}
use opendatahub_ai_gateway_o.Api.Status.{ModuleStatus}
use opendatahub_ai_gateway_o.Controller.{
  DeployLib, Gateway, Instance, gateway, foreign, Request, Module, Action, not_a_gateway,
}

module _ (semver : SemverLib) (deploy : DeployLib) where
  unfoldable pub module_version_changed : Module → ModuleStatus → Bool
  module_version_changed m prev =
      not (is_zero prev.version) && sem_ver_gt semver m.version prev.version

  unfoldable pub platform_version_changed : Request semver → ModuleStatus → Bool
  platform_version_changed rr prev =
      not (is_zero prev.platform.version)
      && sem_ver_gt semver (semver.print rr.release.version) prev.platform.version

  -- `upgrade` has no step yet: it returns nil.
  unfoldable pub upgrade : Module → ModuleStatus → Action semver deploy
  upgrade m prev rr world = (rr, world, none)

  -- The decision that `upgradeIfNeeded` takes on an object.
  unfoldable pub needs_upgrade : Module → Request semver → ModuleStatus → Bool
  unfolding module_version_changed platform_version_changed
  needs_upgrade m rr prev =
      not (not (module_version_changed m prev) && not (platform_version_changed rr prev))

  upgrade_instance : Module → Instance → Action semver deploy
  unfolding upgrade needs_upgrade
  upgrade_instance m (gateway obj) rr world =
      if needs_upgrade m rr obj.status then upgrade m obj.status rr world else (rr, world, none)
  upgrade_instance m foreign rr world = (rr, world, some not_a_gateway)

  -- `upgradeIfNeeded`
  unfoldable pub upgrade_if_needed : Module → Action semver deploy
  unfolding upgrade_instance
  upgrade_if_needed m rr = upgrade_instance m rr.instance_object rr
