-- ===== src/Controller/Reconciler/Pipeline.antt =====
-- What is documented of the builder of reconcilers, and the pipeline of actions that `NewReconciler`
-- builds with it.
use opendatahub_ai_gateway_o.Base.{
  List, [], ◌∷◌, ◌++◌, Option, none, some, ◌≡◌, refl, sym, ap, ◌∙◌, Result, ok, err, ok-injective,
  err-ne-ok,
}
use opendatahub_ai_gateway_o.Api.Semver.{SemverLib}
use opendatahub_ai_gateway_o.Config.{Config}
use opendatahub_ai_gateway_o.Controller.Status.{report_status}
use opendatahub_ai_gateway_o.Controller.Upgrade.{upgrade_if_needed}
use opendatahub_ai_gateway_o.Controller.{
  Action, Build, DeployLib, Gateway, gateway, Module, Release, Request, initialize, new_module,
}
use opendatahub_ai_gateway_o.Controller.Reconciler.{
  OwnedKind, ReconcilerLib, component_name, configure, finish_reconciler, with_module,
  new_reconciler,
}
use opendatahub_ai_gateway_o.Text.{Text}

module _ (semver : SemverLib) (deploy : DeployLib) where
  unfoldable pub then_run :
      Request semver × deploy.World × Option Text
      → Action semver deploy
      → Request semver × deploy.World × Option Text
  then_run (rr, world, none) rest = rest rr world
  then_run (rr, world, some e) rest = (rr, world, some e)

  -- Actions one behind the other: an error ends the run, and what was changed before stays changed.
  unfoldable pub run_actions : List (Action semver deploy) → Action semver deploy
  unfolding then_run
  run_actions [] rr world = (rr, world, none)
  run_actions (act ∷ acts) rr world = then_run (act rr world) (run_actions acts)

  -- The request that a reconciliation begins with.
  abbrev pub fresh : Release semver → Gateway → Request semver
  fresh rel obj = record {
    instance_object = gateway obj;
    manifests = [];
    templates = [];
    helm_charts = [];
    release = rel;
  }

  -- The builder keeps the actions in their order; a reconciler runs them on a fresh request for the
  -- object, with its release, up to the first error.
  pub record IsReconcilerLib (lib : ReconcilerLib semver deploy) : Type 0 where
    pub builder_actions : lib.Builder → List (Action semver deploy)
    pub actions : lib.Reconciler → List (Action semver deploy)
    pub release_of : lib.Reconciler → Release semver
    pub reconcile :
        lib.Reconciler → Gateway → deploy.World → Request semver × deploy.World × Option Text
    pub reconciler_for_lem : (m : lib.Manager) → builder_actions (lib.reconciler_for m) ≡ []
    pub owns_lem :
        (k : OwnedKind) (b : lib.Builder) → builder_actions (lib.owns k b) ≡ builder_actions b
    pub owns_with_lem :
        (k : OwnedKind) (b : lib.Builder)
        → builder_actions (lib.owns_with_default_deployment_predicate k b) ≡ builder_actions b
    pub with_action_lem :
        (act : Action semver deploy) (b : lib.Builder)
        → builder_actions (lib.with_action act b) ≡ builder_actions b ++ act ∷ []
    pub with_conditions_lem :
        (cs : List Text) (b : lib.Builder)
        → builder_actions (lib.with_conditions cs b) ≡ builder_actions b
    pub build_lem :
        (b : lib.Builder) (w : deploy.World) {r : lib.Reconciler}
        → (lib.build b w).1 ≡ ok r
        → actions r ≡ builder_actions b
    pub set_release_actions :
        (rel : Release semver) (r : lib.Reconciler) → actions (lib.set_release rel r) ≡ actions r
    pub set_release_lem :
        (rel : Release semver) (r : lib.Reconciler) → release_of (lib.set_release rel r) ≡ rel
    pub reconcile_lem :
        (r : lib.Reconciler) (obj : Gateway) (w : deploy.World)
        → reconcile r obj w ≡ run_actions (actions r) (fresh (release_of r) obj) w

  module _ (lib : ReconcilerLib semver deploy) (laws : IsReconcilerLib lib) where
    -- The actions of `NewReconciler`, in order.
    abbrev pub pipeline : Build → Config → Module → List (Action semver deploy)
    pipeline build cfg m =
        initialize semver deploy m
        ∷ upgrade_if_needed semver deploy m
        ∷ lib.releases_action
        ∷ lib.kustomize_action (
            (lib.label_component component_name, lib.label_true)
            ∷ (lib.label_part_of, component_name)
            ∷ [])
        ∷ lib.deploy_action
        ∷ lib.deployments_action
        ∷ report_status semver deploy build m
        ∷ lib.gc_action cfg.applications_namespace
        ∷ []

    configure-pipeline :
        (build : Build) (cfg : Config) (m : Module) (mgr : lib.Manager)
        → laws.builder_actions (configure semver deploy lib build cfg m mgr) ≡ pipeline build cfg m
    unfolding configure
    configure-pipeline build cfg m mgr = simp (
      laws.with_conditions_lem, laws.with_action_lem, laws.owns_with_lem, laws.owns_lem,
      laws.reconciler_for_lem,
    )

    finish_reconciler-pipeline :
        (acts : List (Action semver deploy)) (rel : Release semver)
        (built : deploy.World × Result lib.Reconciler) {r : lib.Reconciler}
        → ((s : lib.Reconciler) → built.1 ≡ ok s → laws.actions s ≡ acts)
        → (finish_reconciler semver deploy lib rel built).1 ≡ ok r
        → (laws.actions r ≡ acts) × (laws.release_of r ≡ rel)
    unfolding finish_reconciler
    finish_reconciler-pipeline acts rel (w, ok s) k h =
        rw (← ok-injective h)
          (laws.set_release_actions rel s ∙ k s refl, laws.set_release_lem rel s)
    finish_reconciler-pipeline acts rel (w, err e) k h = absurd (err-ne-ok h)

    -- A reconciler that `NewReconciler` builds runs initialize, upgradeIfNeeded, the releases, kustomize,
    -- deploy and deployments actions, reportStatus and the garbage collection, in this order, for the
    -- module that `NewModule` returns, and its requests carry the release.
    pub new_reconciler-pipeline :
        (build : Build) (cfg : Config) (rel : Release semver) (mgr : lib.Manager)
        (world : deploy.World) {r : lib.Reconciler}
        → (new_reconciler semver deploy lib build cfg rel mgr world).1 ≡ ok r
        → (m : Module) × ((new_module semver deploy build cfg world).1 ≡ ok m)
          × (laws.actions r ≡ pipeline build cfg m)
          × (laws.release_of r ≡ rel)
    unfolding new_reconciler with_module
    new_reconciler-pipeline build cfg rel mgr world {r} h =
        go (new_module semver deploy build cfg world) refl h
      where
        go :
            (made : deploy.World × Result Module)
            → new_module semver deploy build cfg world ≡ made
            → (with_module semver deploy lib build cfg rel mgr made).1 ≡ ok r
            → (m : Module) × ((new_module semver deploy build cfg world).1 ≡ ok m)
              × (laws.actions r ≡ pipeline build cfg m)
              × (laws.release_of r ≡ rel)
        go (w, err e) p q = absurd (err-ne-ok q)
        go (w, ok m) p q =
            let (acts, released) =
              finish_reconciler-pipeline (pipeline build cfg m) rel
                (lib.build (configure semver deploy lib build cfg m mgr) w)
                (λ s built.
                  laws.build_lem (configure semver deploy lib build cfg m mgr) w built
                  ∙ configure-pipeline build cfg m mgr)
                q in
            (m, ap (λ (x : deploy.World × Result Module). x.1) p, acts, released)

    -- The module is the one that `NewModule` returns.
    pub same_module :
        (build : Build) (cfg : Config) (rel : Release semver) (mgr : lib.Manager)
        (world : deploy.World) {m : Module} {r : lib.Reconciler}
        → (new_module semver deploy build cfg world).1 ≡ ok m
        → (new_reconciler semver deploy lib build cfg rel mgr world).1 ≡ ok r
        → (laws.actions r ≡ pipeline build cfg m) × (laws.release_of r ≡ rel)
    same_module build cfg rel mgr world {m} {r} made built =
        let (n, found, acts, released) = new_reconciler-pipeline build cfg rel mgr world built in
        let same : n ≡ m = ok-injective (sym found ∙ made) in
        (acts ∙ ap (pipeline build cfg) same, released)
