-- ===== src/Controller/Upgrade/Once.antt =====
-- When an upgrade is due.
use opendatahub_ai_gateway_o.Base.{
  true, false, ◌↔◌, ◌⊎◌, Option, none, some, ◌≡◌, refl, arith, some-injective, none-ne-some,
}
use opendatahub_ai_gateway_o.Api.Semver.Laws.{sem_ver_gt_irrefl}
use opendatahub_ai_gateway_o.Api.Semver.{SemverLib, IsSemverLib, is_zero, sem_ver_gt}
use opendatahub_ai_gateway_o.Api.Status.{ModuleStatus}
use opendatahub_ai_gateway_o.Controller.Status.{module_status, report_status}
use opendatahub_ai_gateway_o.Controller.Upgrade.{needs_upgrade}
use opendatahub_ai_gateway_o.Controller.{
  Build, DeployLib, gateway, foreign, Instance, Request, Module,
}

-- The status of an object.
abbrev pub status_of : Instance → Option ModuleStatus
status_of (gateway obj) = some obj.status
status_of foreign = none

module _ (semver : SemverLib) (deploy : DeployLib) where
  -- An upgrade is due exactly if a module version is recorded that the running module's is greater
  -- than, or a platform version that the release's is greater than.
  pub needs_upgrade_iff :
      (m : Module) (rr : Request semver) (s : ModuleStatus)
      → (needs_upgrade semver deploy m rr s ≡ true) ↔ (
          ((is_zero s.version ≡ false) × (sem_ver_gt semver m.version s.version ≡ true))
          ⊎ ((is_zero s.platform.version ≡ false)
              × (sem_ver_gt semver (semver.print rr.release.version) s.platform.version ≡ true)))
  unfolding needs_upgrade
  needs_upgrade_iff m rr s = ground arith

module _ (semver : SemverLib) (laws : IsSemverLib semver) (deploy : DeployLib) where
  own_status :
      (build : Build) (m : Module) (rr later : Request semver)
      → later.release ≡ rr.release
      → needs_upgrade semver deploy m later (module_status semver deploy build m rr) ≡ false
  unfolding needs_upgrade module_status
  own_status build m rr later e =
      rw
        (
          e,
          sem_ver_gt_irrefl semver laws m.version,
          sem_ver_gt_irrefl semver laws (semver.print rr.release.version),
        )
        (ground arith)

  -- Where semver's order is strict, as documented: the status that `reportStatus` writes asks for
  -- no upgrade in any later request of the same module with the same release, so an upgrade is not
  -- repeated.
  pub report_status-needs_upgrade :
      (build : Build) (m : Module) (rr later : Request semver) (world : deploy.World)
      {s : ModuleStatus}
      → status_of (report_status semver deploy build m rr world).0.instance_object ≡ some s
      → later.release ≡ rr.release
      → needs_upgrade semver deploy m later s ≡ false
  unfolding report_status
  report_status-needs_upgrade build m rr later world {s} h e = go rr.instance_object refl
    where
      go : (i : Instance) → rr.instance_object ≡ i → needs_upgrade semver deploy m later s ≡ false
      go (gateway obj) p =
          let q : module_status semver deploy build m rr ≡ s = some-injective (rw p at h) in
          rw (← q) (own_status build m rr later e)
      go foreign p = absurd (none-ne-some (rw p at h))
