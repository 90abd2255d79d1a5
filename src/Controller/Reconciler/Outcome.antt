-- ===== src/Controller/Reconciler/Outcome.antt =====
-- What a reconciliation makes of the object, with the documented behaviour of the framework's actions.
use opendatahub_ai_gateway_o.Base.{
  List, [], ◌∷◌, ◌++◌, ◌⊎◌, inl, inr, none, ◌≡◌, refl, ap, ◌∙◌, if◌then◌else◌, Bool-cases, ok,
}
use opendatahub_ai_gateway_o.Api.Semver.{SemverLib}
use opendatahub_ai_gateway_o.Config.{Config}
use opendatahub_ai_gateway_o.Controller.Reconciler.Pipeline.{
  same_module, run_actions, fresh, IsReconcilerLib, pipeline,
}
use opendatahub_ai_gateway_o.Controller.Reconciler.{new_reconciler, ReconcilerLib}
use opendatahub_ai_gateway_o.Controller.Status.{module_status, report_status}
use opendatahub_ai_gateway_o.Controller.Upgrade.{upgrade_if_needed, needs_upgrade}
use opendatahub_ai_gateway_o.Controller.{
  new_module, params_error, params_env, Action, Build, DeployLib, Gateway, gateway, Module, Release,
  Request, initialize,
}
use opendatahub_ai_gateway_o.Controller.Status.{collect_sources}
use opendatahub_ai_gateway_o.Sorting.{sort_slice}
use opendatahub_ai_gateway_o.Text.{Text, codes, equal}
use opendatahub_ai_gateway_o.Controller.Reconciler.Steps.{
  Result3, step_keeps, step_ends, last_keeps, last_ends,
}

module _ (semver : SemverLib) (deploy : DeployLib) where
  -- The action leaves the fields of the request that the module's actions read.
  abbrev pub Leaves : Action semver deploy → Type 0
  Leaves act = (rr : Request semver) (w : deploy.World) → (act rr w).0 ≡ rr

  abbrev pub Succeeds : Action semver deploy → Type 0
  Succeeds act = (rr : Request semver) (w : deploy.World) → (act rr w).2 ≡ none

  -- The framework's actions render, apply, watch and collect objects in the cluster: the module's status,
  -- the management state, the manifests and the release are not theirs to change.
  pub record IsFramework (lib : ReconcilerLib semver deploy) : Type 0 where
    pub releases_leaves : Leaves lib.releases_action
    pub kustomize_leaves : (ls : List (Text × Text)) → Leaves (lib.kustomize_action ls)
    pub deploy_leaves : Leaves lib.deploy_action
    pub deployments_leaves : Leaves lib.deployments_action
    pub gc_leaves : (ns : Text) → Leaves (lib.gc_action ns)

  -- In this cluster none of the framework's actions fails, and the parameters can be written.
  pub record IsHealthy (lib : ReconcilerLib semver deploy) : Type 0 where
    pub releases_succeeds : Succeeds lib.releases_action
    pub kustomize_succeeds : (ls : List (Text × Text)) → Succeeds (lib.kustomize_action ls)
    pub deploy_succeeds : Succeeds lib.deploy_action
    pub deployments_succeeds : Succeeds lib.deployments_action
    pub gc_succeeds : (ns : Text) → Succeeds (lib.gc_action ns)
    pub params_succeed :
        (path file : Text) (images values : List (Text × Text)) (w : deploy.World)
        → (deploy.apply_params path file images values w).1 ≡ none

  -- The request behind `initialize`.
  abbrev pub deployed_request : Module → Release semver → Gateway → Request semver
  deployed_request m rel obj = record (fresh semver deploy rel obj) {
    manifests =
        if equal obj.management_state (codes "Managed")
        then m.batch_gateway_manifest_info ∷ []
        else [];
  }

  -- The object with the module's status.
  abbrev pub reported : Build → Module → Release semver → Gateway → Gateway
  reported build m rel obj = record obj {
    status = module_status semver deploy build m (deployed_request m rel obj);
  }

  -- The object with its status written out: the versions and the platform of this operator, and the batch
  -- gateway's manifest, rendered by kustomize, if the object is managed, else no source.
  abbrev pub announced : Build → Module → Release semver → Gateway → Gateway
  announced build m rel obj = record obj {
    status = record {
      version = m.version;
      build_source = build.repo ++ (codes "@" ++ (build.branch ++ (codes "/" ++ build.commit)));
      platform = record { name = rel.name; version = semver.print rel.version };
      sources =
          if equal obj.management_state (codes "Managed")
          then record {
            path = deploy.manifest_string m.batch_gateway_manifest_info;
            renderer = codes "kustomize";
          }
            ∷ []
          else [];
    };
  }

  reported-announced :
      (build : Build) (m : Module) (rel : Release semver) (obj : Gateway)
      → reported build m rel obj ≡ announced build m rel obj
  unfolding module_status collect_sources sort_slice
  reported-announced build m rel obj =
      elim (Bool-cases (equal obj.management_state (codes "Managed"))) [
        | inl e ↦ rw e refl
        | inr e ↦ rw e refl
      ]

  abbrev reported_request : Build → Module → Release semver → Gateway → Request semver
  reported_request build m rel obj = record (deployed_request m rel obj) {
    instance_object = gateway (reported build m rel obj);
  }

  module _ (build : Build) (m : Module) (rel : Release semver) (obj : Gateway) where
    initialize_request :
        (w : deploy.World)
        → (initialize semver deploy m (fresh semver deploy rel obj) w).0
          ≡ deployed_request m rel obj
    unfolding initialize
    initialize_request w = elim (Bool-cases (equal obj.management_state (codes "Managed"))) [
      | inl e ↦ rw e
      | inr e ↦ rw e
    ]

    upgrade_request :
        (w : deploy.World)
        → (upgrade_if_needed semver deploy m (deployed_request m rel obj) w).0
          ≡ deployed_request m rel obj
    unfolding upgrade_if_needed
    upgrade_request w =
        elim (Bool-cases (needs_upgrade semver deploy m (deployed_request m rel obj) obj.status)) [
          | inl e ↦ rw e
          | inr e ↦ rw e
        ]

    report_request :
        (w : deploy.World)
        → (report_status semver deploy build m (deployed_request m rel obj) w).0
          ≡ reported_request build m rel obj
    unfolding report_status
    report_request w = refl

    initialize_ends :
        (lib : ReconcilerLib semver deploy)
        → IsHealthy lib
        → (w : deploy.World) → (initialize semver deploy m (fresh semver deploy rel obj) w).2 ≡ none
    unfolding initialize params_error
    initialize_ends lib healthy w =
        elim (Bool-cases (equal obj.management_state (codes "Managed"))) [
          | inl e ↦ rw (
            e,
            healthy.params_succeed (deploy.manifest_string m.batch_gateway_manifest_info) params_env
                [] ((codes "namespace", m.cfg.applications_namespace) ∷ []) w,
          )
          | inr e ↦ rw e
        ]

    upgrade_ends :
        (w : deploy.World)
        → (upgrade_if_needed semver deploy m (deployed_request m rel obj) w).2 ≡ none
    unfolding upgrade_if_needed
    upgrade_ends w =
        elim (Bool-cases (needs_upgrade semver deploy m (deployed_request m rel obj) obj.status)) [
          | inl e ↦ rw e
          | inr e ↦ rw e
        ]

    report_ends :
        (w : deploy.World)
        → (report_status semver deploy build m (deployed_request m rel obj) w).2 ≡ none
    unfolding report_status
    report_ends w = refl

  module _ (lib : ReconcilerLib semver deploy) (laws : IsReconcilerLib semver deploy lib)
      (framework : IsFramework lib) where
    abbrev IsOutcome : Build → Module → Release semver → Gateway → Request semver → Type 0
    IsOutcome build m rel obj rr =
        (rr ≡ deployed_request m rel obj) ⊎ (rr ≡ reported_request build m rel obj)

    pipeline-IsOutcome :
        (build : Build) (cfg : Config) (m : Module) (rel : Release semver) (obj : Gateway)
        (w : deploy.World)
        → IsOutcome build m rel obj
            (run_actions semver deploy
              (pipeline semver deploy lib laws build cfg m)
              (fresh semver deploy rel obj)
              w).0
    pipeline-IsOutcome build cfg m rel obj w =
        let Q = IsOutcome build m rel obj in
        let d = deployed_request m rel obj in
        let p = reported_request build m rel obj in
        step_keeps semver deploy Q _ _ _ d w (initialize_request build m rel obj w) (inl refl) λ w.
          step_keeps semver deploy Q _ _ _ d w (upgrade_request build m rel obj w) (inl refl) λ w.
            step_keeps semver deploy Q _ _ _ d w (framework.releases_leaves d w) (inl refl) λ w.
              step_keeps semver deploy Q _ _ _ d w (framework.kustomize_leaves _ d w) (inl refl)
                λ w.
                  step_keeps semver deploy Q _ _ _ d w (framework.deploy_leaves d w) (inl refl) λ w.
                    step_keeps semver deploy Q _ _ _ d w (framework.deployments_leaves d w)
                      (inl refl)
                      λ w.
                        step_keeps semver deploy Q _ _ _ p w (report_request build m rel obj w)
                          (inr refl)
                          λ w.
                            step_keeps semver deploy Q _ _ _ p w (framework.gc_leaves _ p w)
                              (inr refl) λ w. last_keeps semver deploy Q p w (inr refl)

    abbrev Reports : Build → Module → Release semver → Gateway → Result3 semver deploy → Type 0
    Reports build m rel obj x = (x.0 ≡ reported_request build m rel obj) × (x.2 ≡ none)

    pipeline-Reports :
        (healthy : IsHealthy lib) (build : Build) (cfg : Config) (m : Module) (rel : Release semver)
        (obj : Gateway) (w : deploy.World)
        → Reports build m rel obj (
            run_actions semver deploy
              (pipeline semver deploy lib laws build cfg m)
              (fresh semver deploy rel obj)
              w)
    pipeline-Reports healthy build cfg m rel obj w =
        let R = Reports build m rel obj in
        let d = deployed_request m rel obj in
        let p = reported_request build m rel obj in
        step_ends semver deploy R _ _ _ d w (initialize_request build m rel obj w)
          (initialize_ends build m rel obj lib healthy w)
          λ w.
            step_ends semver deploy R _ _ _ d w (upgrade_request build m rel obj w)
              (upgrade_ends build m rel obj w)
              λ w.
                step_ends semver deploy R _ _ _ d w (framework.releases_leaves d w)
                  (healthy.releases_succeeds d w)
                  λ w.
                    step_ends semver deploy R _ _ _ d w (framework.kustomize_leaves _ d w)
                      (healthy.kustomize_succeeds _ d w)
                      λ w.
                        step_ends semver deploy R _ _ _ d w (framework.deploy_leaves d w)
                          (healthy.deploy_succeeds d w)
                          λ w.
                            step_ends semver deploy R _ _ _ d w (framework.deployments_leaves d w)
                              (healthy.deployments_succeeds d w)
                              λ w.
                                step_ends semver deploy R _ _ _ p w
                                  (report_request build m rel obj w) (report_ends build m rel obj w)
                                  λ w.
                                    step_ends semver deploy R _ _ _ p w (framework.gc_leaves _ p w)
                                      (healthy.gc_succeeds _ p w)
                                      λ w. last_ends semver deploy R p w (refl, refl)

    -- Whatever fails, a reconciliation leaves the object as it was or writes the status of the running
    -- module into it, and nothing else of what the module knows of the object.
    pub reconcile_outcome :
        (build : Build) (cfg : Config) (rel : Release semver) (mgr : lib.Manager)
        (world : deploy.World) {m : Module} {r : lib.Reconciler} (obj : Gateway) (w : deploy.World)
        → (new_module semver deploy build cfg world).1 ≡ ok m
        → (new_reconciler semver deploy lib build cfg rel mgr world).1 ≡ ok r
        → ((laws.reconcile r obj w).0.instance_object ≡ gateway obj)
          ⊎ ((laws.reconcile r obj w).0.instance_object ≡ gateway (reported build m rel obj))
    reconcile_outcome build cfg rel mgr world {m} {r} obj w made built =
        let (acts, released) =
          same_module semver deploy lib laws build cfg rel mgr world made built in
        rw (laws.reconcile_lem r obj w, acts, released)
          (elim (pipeline-IsOutcome build cfg m rel obj w) [
            | inl e ↦ inl (ap (λ (rr : Request semver). rr.instance_object) e)
            | inr e ↦ inr (ap (λ (rr : Request semver). rr.instance_object) e)
          ])

    -- Where nothing fails in the cluster, a reconciliation succeeds and writes the module's status.
    pub reconcile_succeeds :
        (healthy : IsHealthy lib) (build : Build) (cfg : Config) (rel : Release semver)
        (mgr : lib.Manager) (world : deploy.World) {m : Module} {r : lib.Reconciler} (obj : Gateway)
        (w : deploy.World)
        → (new_module semver deploy build cfg world).1 ≡ ok m
        → (new_reconciler semver deploy lib build cfg rel mgr world).1 ≡ ok r
        → ((laws.reconcile r obj w).0.instance_object ≡ gateway (reported build m rel obj))
          × ((laws.reconcile r obj w).2 ≡ none)
    reconcile_succeeds healthy build cfg rel mgr world {m} {r} obj w made built =
        let (acts, released) =
          same_module semver deploy lib laws build cfg rel mgr world made built in
        let (at_end, no_error) = pipeline-Reports healthy build cfg m rel obj w in
        rw (laws.reconcile_lem r obj w, acts, released)
          (ap (λ (rr : Request semver). rr.instance_object) at_end, no_error)

    -- Where nothing fails in the cluster, a reconciliation succeeds, and the object ends with the module's
    -- version, its build, the release's name and version, and as its sources the batch gateway's manifest,
    -- rendered by kustomize, if the object is managed, and none if it is not.
    pub reconcile_reports :
        (healthy : IsHealthy lib) (build : Build) (cfg : Config) (rel : Release semver)
        (mgr : lib.Manager) (world : deploy.World) {m : Module} {r : lib.Reconciler} (obj : Gateway)
        (w : deploy.World)
        → (new_module semver deploy build cfg world).1 ≡ ok m
        → (new_reconciler semver deploy lib build cfg rel mgr world).1 ≡ ok r
        → ((laws.reconcile r obj w).0.instance_object ≡ gateway (announced build m rel obj))
          × ((laws.reconcile r obj w).2 ≡ none)
    reconcile_reports healthy build cfg rel mgr world {m} {r} obj w made built =
        let (written, no_error) =
          reconcile_succeeds healthy build cfg rel mgr world obj w made built in
        (written ∙ ap gateway (reported-announced build m rel obj), no_error)
