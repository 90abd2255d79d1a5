-- ===== src/Config/Release.antt =====
-- `Config.Release` of pkg/config/config.go, and the platform version that the controller reports from it.
use opendatahub_ai_gateway_o.Base.{
  false, ◌≡◌, refl, ap, ◌∙◌, if◌then◌else◌, Result, ok, err, ok-injective, err-ne-ok,
}
use opendatahub_ai_gateway_o.Api.Semver.{SemverLib, new_sem_ver}
use opendatahub_ai_gateway_o.Controller.Status.{module_status}
use opendatahub_ai_gateway_o.Controller.{Build, DeployLib, Module, Release, Request}
use opendatahub_ai_gateway_o.Config.{Config}
use opendatahub_ai_gateway_o.Text.{Text, is_empty}

module _ (semver : SemverLib) (zero_version : semver.Version) where
  parsed_or_zero : Result semver.Version → semver.Version
  parsed_or_zero (ok v) = v
  parsed_or_zero (err e) = zero_version

  -- `zero_version` is the zero value of the struct, 0.0.0.
  unfoldable pub release : Config → Release semver
  unfolding parsed_or_zero
  release c = record {
    name = c.platform_type;
    version =
        if is_empty c.platform_version
        then zero_version
        else parsed_or_zero (semver.parse_tolerant c.platform_version);
  }

  -- For a request whose release is the configuration's: a platform version that is set and that
  -- `NewSemVer` accepts is reported in the canonical form that `NewSemVer` gives it, with the
  -- platform's type as name.
  pub release-module_status :
      (deploy : DeployLib) (build : Build) (m : Module) (c : Config) (rr : Request semver)
      {v : Text}
      → rr.release ≡ release c
      → is_empty c.platform_version ≡ false
      → new_sem_ver semver c.platform_version ≡ ok v
      → ((module_status semver deploy build m rr).platform.version ≡ v)
        × ((module_status semver deploy build m rr).platform.name ≡ c.platform_type)
  unfolding module_status release new_sem_ver
  release-module_status deploy build m c rr {v} e set h = (
    printed (semver.parse_tolerant c.platform_version) refl,
    ap (λ (r : Release semver). r.name) e,
  )
    where
      printed :
          (r : Result semver.Version)
          → semver.parse_tolerant c.platform_version ≡ r
          → semver.print rr.release.version ≡ v
      printed (err f) p = absurd (err-ne-ok (rw p at h))
      printed (ok w) p =
          ap (λ (r : Release semver). semver.print r.version) e
          ∙ rw (set, p) (ok-injective (rw p at h))
