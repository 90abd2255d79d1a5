-- ===== src/Tests/Reconciler.antt =====
-- internal/controller/aigateway/aigateway_controller.go at concrete inputs, with a small framework.
use opendatahub_ai_gateway_o.Controller.Status.{module_status}
use opendatahub_ai_gateway_o.Base.{
  Bool, true, false, List, [], ◌∷◌, ◌++◌, inr, Option, none, some, ◌≡◌, refl, sym, ap, ok,
  ok-injective,
}
use opendatahub_ai_gateway_o.Controller.Reconciler.Pipeline.{
  IsReconcilerLib, pipeline, run_actions, fresh, new_reconciler-pipeline,
}
use opendatahub_ai_gateway_o.Controller.Reconciler.Outcome.{
  IsFramework, IsHealthy, reported, announced, reconcile_reports, reconcile_succeeds,
}
use opendatahub_ai_gateway_o.Controller.Reconciler.Failure.{reconcile_params_failure}
use opendatahub_ai_gateway_o.Controller.Reconciler.Reached.{
  IsCurrent, reconciled, edited, Reaches, here, next, reached_no_upgrade,
}
use opendatahub_ai_gateway_o.Controller.Reconciler.{ReconcilerLib, new_reconciler, configure}
use opendatahub_ai_gateway_o.Controller.Upgrade.{needs_upgrade}
use opendatahub_ai_gateway_o.Controller.{
  DeployLib, Action, Gateway, gateway, Module, Release, new_module,
}
use opendatahub_ai_gateway_o.Api.Semver.{new_sem_ver}
use opendatahub_ai_gateway_o.Tests.Controller.{
  unary, unary-IsSemverLib, files, a_config, a_module, a_build, a_release, object_in, managed,
}
use opendatahub_ai_gateway_o.Text.{Text, codes, equal}

abbrev pub idle : (deploy : DeployLib) → Action unary deploy
idle deploy rr w = (rr, w, none)

-- A builder is its actions, a reconciler these and its release.
abbrev pub small_framework : (deploy : DeployLib) → ReconcilerLib unary deploy
small_framework deploy = record {
  Manager = Unit {0};
  Builder = List (Action unary deploy);
  Reconciler = List (Action unary deploy) × Release unary;
  reconciler_for = λ m. [];
  owns = λ k b. b;
  owns_with_default_deployment_predicate = λ k b. b;
  with_action = λ act b. b ++ act ∷ [];
  with_conditions = λ cs b. b;
  build = λ b w. (w, ok (b, record { name = []; version = 0 }));
  set_release = λ rel r. (r.0, rel);
  store = λ r w. w;
  releases_action = idle deploy;
  kustomize_action = λ ls. idle deploy;
  deploy_action = idle deploy;
  deployments_action = idle deploy;
  gc_action = λ ns. idle deploy;
  label_component = λ name. codes "component/" ++ name;
  label_part_of = codes "part-of";
  label_true = codes "true";
  condition_deployments_available = codes "DeploymentsAvailable";
}

abbrev small : ReconcilerLib unary files
small = small_framework files

abbrev pub small_framework_laws :
    (deploy : DeployLib) → IsReconcilerLib unary deploy (small_framework deploy)
small_framework_laws deploy = record {
  builder_actions = λ b. b;
  actions = λ r. r.0;
  release_of = λ r. r.1;
  reconcile = λ r obj w. run_actions unary deploy r.0 (fresh unary deploy r.1 obj) w;
  reconciler_for_lem = λ m. refl;
  owns_lem = λ k b. refl;
  owns_with_lem = λ k b. refl;
  with_action_lem = λ act b. refl;
  with_conditions_lem = λ cs b. refl;
  build_lem = λ b w {r} h.
      ap (λ (x : List (Action unary deploy) × Release unary). x.0) (sym (ok-injective h));
  set_release_actions = λ rel r. refl;
  set_release_lem = λ rel r. refl;
  reconcile_lem = λ r obj w. refl;
}

pub small_framework-IsFramework :
    (deploy : DeployLib) → IsFramework unary deploy (small_framework deploy)
small_framework-IsFramework deploy = record {
  releases_leaves = λ rr w. refl;
  kustomize_leaves = λ ls rr w. refl;
  deploy_leaves = λ rr w. refl;
  deployments_leaves = λ rr w. refl;
  gc_leaves = λ ns rr w. refl;
}

-- Healthy, where the parameters can be written.
pub small_framework-IsHealthy :
    (deploy : DeployLib)
    → ((path file : Text) (images values : List (Text × Text)) (w : deploy.World)
        → (deploy.apply_params path file images values w).1 ≡ none)
    → IsHealthy unary deploy (small_framework deploy)
small_framework-IsHealthy deploy params_succeed = record {
  releases_succeeds = λ rr w. refl;
  kustomize_succeeds = λ ls rr w. refl;
  deploy_succeeds = λ rr w. refl;
  deployments_succeeds = λ rr w. refl;
  gc_succeeds = λ ns rr w. refl;
  params_succeed = params_succeed;
}

abbrev small_laws : IsReconcilerLib unary files small
small_laws = small_framework_laws files

small-IsFramework : IsFramework unary files small
small-IsFramework = small_framework-IsFramework files

small-IsHealthy : IsHealthy unary files small
small-IsHealthy = small_framework-IsHealthy files λ path file images values w. refl

made : (new_module unary files a_build a_config 0).1 ≡ ok a_module
unfolding new_module new_sem_ver
made = refl

abbrev a_reconciler : List (Action unary files) × Release unary
a_reconciler = (pipeline unary files small small_laws a_build a_config a_module, a_release)

built : (new_reconciler unary files small a_build a_config a_release tt 0).1 ≡ ok a_reconciler
unfolding new_reconciler new_module new_sem_ver configure
built = refl

new_reconciler-pipeline_example :
    (m : Module) × ((new_module unary files a_build a_config 0).1 ≡ ok m)
    × (a_reconciler.0 ≡ pipeline unary files small small_laws a_build a_config m)
    × (a_reconciler.1 ≡ a_release)
new_reconciler-pipeline_example =
    new_reconciler-pipeline unary files small small_laws a_build a_config a_release tt 0 built

abbrev a_gateway : Gateway
a_gateway = object_in (codes "Managed")

reconcile_reports_example :
    ((small_laws.reconcile a_reconciler a_gateway 0).0.instance_object
      ≡ gateway (announced unary files a_build a_module a_release a_gateway))
    × ((small_laws.reconcile a_reconciler a_gateway 0).2 ≡ none)
reconcile_reports_example =
    reconcile_reports unary files small small_laws small-IsFramework small-IsHealthy a_build
      a_config a_release tt 0 a_gateway 0 made built

abbrev first_status : Gateway
first_status = reported unary files a_build a_module a_release a_gateway

a_life : Reaches unary files small small_laws a_reconciler first_status (
    reported unary files a_build a_module a_release
      (record first_status { management_state = codes "Removed" }))
a_life = next (next here (edited (codes "Removed"))) (
    reconciled 0
      (reconcile_succeeds unary files small small_laws small-IsFramework small-IsHealthy a_build
        a_config a_release tt 0 (record first_status { management_state = codes "Removed" }) 0 made
        built).0)

reached_no_upgrade_example :
    IsCurrent unary a_module a_release
      (reported unary files a_build a_module a_release
        (record first_status { management_state = codes "Removed" })).status
    × (needs_upgrade unary files a_module managed
          (reported unary files a_build a_module a_release
            (record first_status { management_state = codes "Removed" })).status
        ≡ false)
unfolding module_status
reached_no_upgrade_example =
    reached_no_upgrade unary files small small_laws small-IsFramework unary-IsSemverLib a_build
      a_config a_release tt 0 managed made built (inr refl, inr refl) a_life refl

abbrev denied : List (Text × Text) → Option Text
denied [] = none
denied (x ∷ values) = some (codes "permission denied")

-- Images can be written, values cannot. The world is whether that was tried.
abbrev read_only : DeployLib
read_only = record {
  World = Bool;
  manifest_string = λ m. m.path;
  apply_params = λ path file images values world. (true, denied values);
}

abbrev read_only_reconciler : List (Action unary read_only) × Release unary
read_only_reconciler = (
  pipeline unary read_only (small_framework read_only) (small_framework_laws read_only) a_build
      a_config a_module,
  a_release,
)

reconcile_params_failure_example :
    let ran = (small_framework_laws read_only).reconcile read_only_reconciler a_gateway false in
    (ran.0.instance_object ≡ gateway a_gateway)
    × (ran.1 ≡ true)
    × (ran.2 ≡ some (codes "failed to update batch-gateway params.env: permission denied"))
unfolding equal new_reconciler new_module new_sem_ver configure
reconcile_params_failure_example =
    reconcile_params_failure unary read_only (small_framework read_only)
      (small_framework_laws read_only) a_build a_config a_release tt false a_gateway false true
      (codes "permission denied") refl refl refl refl
