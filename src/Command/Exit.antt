-- ===== src/Command/Exit.antt =====
-- What the exit code of `manager operator` tells.
use opendatahub_ai_gateway_o.Base.{
  ℕ, false, List, [], ◌∷◌, ◌++◌, Option, none, some, ◌≡◌, refl, sym, ap, ◌∙◌, arith, ok,
  some-injective,
}
use opendatahub_ai_gateway_o.Api.Semver.{SemverLib}
use opendatahub_ai_gateway_o.Config.Broken.{IsBroken, load_failure, load-IsBroken}
use opendatahub_ai_gateway_o.Config.{set_defaults, merge_entries, Entry, Directory, ViperLib, load}
use opendatahub_ai_gateway_o.Controller.Reconciler.{ReconcilerLib}
use opendatahub_ai_gateway_o.Controller.{Build, DeployLib}
use opendatahub_ai_gateway_o.Command.{CobraLib, ProcessWorld, ProcessEnd, exit_code, died, main}
use opendatahub_ai_gateway_o.Command.Dispatch.{IsCobraLib, main_operator, operator_end}
use opendatahub_ai_gateway_o.Operator.{run_loaded, OperatorLib, Ending, returned, exited, run}
use opendatahub_ai_gateway_o.Operator.Ended.{Ran, run-Ran}
use opendatahub_ai_gateway_o.Text.{Text, codes, is_empty}

code_of : ProcessEnd → ℕ
code_of (exit_code n) = n
code_of died = 1

pair_eq : {A B : Type 0} (x : A × B) {a : A} {b : B} → x.0 ≡ a → x.1 ≡ b → x ≡ (a, b)
pair_eq (c, d) p q = rw (p, q)

module _ (semver : SemverLib) (deploy : DeployLib) (framework : ReconcilerLib semver deploy)
    (lib : OperatorLib semver deploy framework) (build : Build) (zero_version : semver.Version)
    (viper : ViperLib) (config_path : Text) (dir_fs : Text → Directory) {Files : Type 0}
    (cobra : CobraLib Files deploy.World) (laws : IsCobraLib cobra)
    (chartgen_run : Text → Text → Text → Files → Option (Files × Option Text)) where
  abbrev operator_run : deploy.World → deploy.World × Ending
  operator_run = run semver deploy framework lib build zero_version viper config_path dir_fs

  no_error :
      (x : Ending)
      → operator_end cobra laws chartgen_run operator_run x ≡ exit_code 0
      → x ≡ returned none
  unfolding code_of
  no_error (returned none) h = refl
  no_error (returned (some f)) h = absurd (omega (arith, ap code_of h))
  no_error exited h = absurd (omega (arith, ap code_of h))

  -- If `manager operator` ends with the exit code 0, every step before has succeeded: the configuration
  -- was loaded; on the world that each call left, the manager was created with its options, the reconciler
  -- was built with its release and both checks were added without an error; and the manager, started
  -- there, ran to its end without an error and left the cluster as it is.
  pub main_operator-Ran :
      (w v : ProcessWorld Files deploy.World)
      → main Files deploy.World cobra chartgen_run operator_run (codes "operator" ∷ []) w
        ≡ some (v, exit_code 0)
      → Ran semver deploy framework lib build zero_version
          (load viper config_path dir_fs)
          w.cluster
          v.cluster
  main_operator-Ran w v h =
      let e = some-injective (sym (main_operator cobra laws chartgen_run operator_run w) ∙ h) in
      let cluster = ap (λ (r : ProcessWorld Files deploy.World × ProcessEnd). r.0.cluster) e in
      let ended =
        no_error (operator_run w.cluster).1
          (ap (λ (r : ProcessWorld Files deploy.World × ProcessEnd). r.1) e) in
      run-Ran semver deploy framework lib build zero_version viper config_path dir_fs w.cluster
        v.cluster (pair_eq (operator_run w.cluster) cluster ended)

  -- If the configuration's directory holds a file that cannot be parsed behind ones that can be merged,
  -- `manager operator` ends with the exit code 1 and has changed neither the files nor the cluster; the
  -- error names the file.
  pub main_operator-IsBroken :
      (before behind : List Entry) (entry : Entry) (problem : Text) {merged_viper : viper.Viper}
      (w : ProcessWorld Files deploy.World)
      → is_empty config_path ≡ false
      → dir_fs config_path ≡ ok (before ++ entry ∷ behind)
      → merge_entries viper before (set_defaults viper viper.new) ≡ ok merged_viper
      → IsBroken viper entry problem
      → (main Files deploy.World cobra chartgen_run operator_run (codes "operator" ∷ []) w
          ≡ some (w, exit_code 1))
        × (operator_run w.cluster ≡ (
          w.cluster,
          returned (some (codes "loading operator config: " ++ load_failure viper entry problem)),
        ))
  unfolding run run_loaded
  main_operator-IsBroken before behind entry problem w set found merged broken =
      let failed =
        load-IsBroken viper config_path dir_fs before behind entry problem set found merged
          broken in
      let ran : operator_run w.cluster ≡ (
        w.cluster,
        returned (some (codes "loading operator config: " ++ load_failure viper entry problem)),
      ) =
        rw failed in
      (main_operator cobra laws chartgen_run operator_run w ∙ rw ran, ran)
