-- ===== src/Controller/Reconciler/Failure.antt =====
-- A reconciliation whose parameters cannot be written.
use opendatahub_ai_gateway_o.Base.{true, List, [], ◌∷◌, ◌++◌, some, ◌≡◌, ap, ok}
use opendatahub_ai_gateway_o.Api.Semver.{SemverLib}
use opendatahub_ai_gateway_o.Config.{Config}
use opendatahub_ai_gateway_o.Controller.Reconciler.Outcome.{deployed_request}
use opendatahub_ai_gateway_o.Controller.Reconciler.Pipeline.{
  same_module, run_actions, then_run, fresh, IsReconcilerLib,
}
use opendatahub_ai_gateway_o.Controller.Reconciler.{new_reconciler, ReconcilerLib}
use opendatahub_ai_gateway_o.Controller.{
  new_module, params_error, params_env, Action, Build, DeployLib, Gateway, gateway, Module, Release,
  Request, initialize,
}
use opendatahub_ai_gateway_o.Text.{Text, codes, equal}

module _ (semver : SemverLib) (deploy : DeployLib) where
  abbrev pub params_failure : Text → Text
  params_failure e = codes "failed to update batch-gateway params.env: " ++ e

  initialize_failure :
      (m : Module) (rel : Release semver) (obj : Gateway) (w w' : deploy.World) (e : Text)
      → equal obj.management_state (codes "Managed") ≡ true
      → deploy.apply_params
          (deploy.manifest_string m.batch_gateway_manifest_info)
          params_env
          []
          ((codes "namespace", m.cfg.applications_namespace) ∷ [])
          w
        ≡ (w', some e)
      → initialize semver deploy m (fresh semver deploy rel obj) w
        ≡ (deployed_request semver deploy m rel obj, w', some (params_failure e))
  unfolding initialize params_error
  initialize_failure m rel obj w w' e managed failed = rw (managed, failed)

  first_fails :
      (act : Action semver deploy) (acts : List (Action semver deploy)) (rr rr' : Request semver)
      (w w' : deploy.World) (e : Text)
      → act rr w ≡ (rr', w', some e)
      → run_actions semver deploy (act ∷ acts) rr w ≡ (rr', w', some e)
  unfolding run_actions then_run
  first_fails act acts rr rr' w w' e h = rw h

  module _ (lib : ReconcilerLib semver deploy) (laws : IsReconcilerLib semver deploy lib) where
    -- Where the batch gateway is managed and its parameters cannot be written, the reconciliation ends
    -- with that error: no other action runs, so nothing is rendered, applied, reported or collected, the
    -- object stays as it is, and the world is the one that the failed write left.
    pub reconcile_params_failure :
        (build : Build) (cfg : Config) (rel : Release semver) (mgr : lib.Manager)
        (world : deploy.World) {m : Module} {r : lib.Reconciler} (obj : Gateway)
        (w w' : deploy.World) (e : Text)
        → (new_module semver deploy build cfg world).1 ≡ ok m
        → (new_reconciler semver deploy lib build cfg rel mgr world).1 ≡ ok r
        → equal obj.management_state (codes "Managed") ≡ true
        → deploy.apply_params
            (deploy.manifest_string m.batch_gateway_manifest_info)
            params_env
            []
            ((codes "namespace", m.cfg.applications_namespace) ∷ [])
            w
          ≡ (w', some e)
        → ((laws.reconcile r obj w).0.instance_object ≡ gateway obj)
          × ((laws.reconcile r obj w).1 ≡ w')
          × ((laws.reconcile r obj w).2 ≡ some (params_failure e))
    reconcile_params_failure build cfg rel mgr world {m} {r} obj w w' e made built managed failed =
        let (acts, released) =
          same_module semver deploy lib laws build cfg rel mgr world made built in
        let ran =
          first_fails _ _ _ _ w w' (params_failure e)
            (initialize_failure m rel obj w w' e managed failed) in
        rw (laws.reconcile_lem r obj w, acts, released)
          (ap (λ x. x.0.instance_object) ran, ap (λ x. x.1) ran, ap (λ x. x.2) ran)
