-- ===== src/Controller/Reconciler/Reached.antt =====
-- The life of an object under one running operator: reconciliations, failed ones included, and edits of
-- the specification, in any order.
use opendatahub_ai_gateway_o.Base.{
  false, not, ◌&&◌, [], ◌⊎◌, inl, inr, ◌≡◌, refl, sym, ◌∙◌, arith, ok,
}
use opendatahub_ai_gateway_o.Api.Semver.Laws.{sem_ver_gt_irrefl}
use opendatahub_ai_gateway_o.Api.Semver.{SemverLib, IsSemverLib, is_zero, sem_ver_gt}
use opendatahub_ai_gateway_o.Api.Status.{ModuleStatus}
use opendatahub_ai_gateway_o.Config.{Config}
use opendatahub_ai_gateway_o.Controller.Reconciler.Pipeline.{IsReconcilerLib}
use opendatahub_ai_gateway_o.Controller.Reconciler.Outcome.{
  IsFramework, reported, reconcile_outcome,
}
use opendatahub_ai_gateway_o.Controller.Reconciler.{ReconcilerLib, new_reconciler}
use opendatahub_ai_gateway_o.Controller.Status.{module_status}
use opendatahub_ai_gateway_o.Controller.Upgrade.{needs_upgrade}
use opendatahub_ai_gateway_o.Controller.{
  Build, DeployLib, Gateway, gateway, Module, Release, Request, new_module,
}
use mathlib.Core.Path.{subst}
use opendatahub_ai_gateway_o.Text.{Text}

-- A step of an object: the reconciler runs on it in some world, or someone edits the management state.
pub data Step (semver : SemverLib) (deploy : DeployLib) (lib : ReconcilerLib semver deploy)
    (laws : IsReconcilerLib semver deploy lib) (r : lib.Reconciler)
    : Gateway → Gateway → Type 0 where
  reconciled :
      {obj after : Gateway} (w : deploy.World)
      → (laws.reconcile r obj w).0.instance_object ≡ gateway after
      → Step semver deploy lib laws r obj after
  edited :
      {obj : Gateway} (state : Text)
      → Step semver deploy lib laws r obj (record obj { management_state = state })

pub data Reaches (semver : SemverLib) (deploy : DeployLib) (lib : ReconcilerLib semver deploy)
    (laws : IsReconcilerLib semver deploy lib) (r : lib.Reconciler) (obj : Gateway)
    : Gateway → Type 0 where
  here : Reaches semver deploy lib laws r obj obj
  next :
      {mid after : Gateway}
      → Reaches semver deploy lib laws r obj mid
      → Step semver deploy lib laws r mid after
      → Reaches semver deploy lib laws r obj after

gateway-injective : {a b : Gateway} → gateway a ≡ gateway b → a ≡ b
gateway-injective h = cc

-- The recorded versions are unset, or those of this module and this release.
abbrev pub IsCurrent : (semver : SemverLib) → Module → Release semver → ModuleStatus → Type 0
IsCurrent semver m rel s =
    ((s.version ≡ []) ⊎ (s.version ≡ m.version))
    × ((s.platform.version ≡ []) ⊎ (s.platform.version ≡ semver.print rel.version))

module _ (semver : SemverLib) (deploy : DeployLib) (semver_laws : IsSemverLib semver) where
  not_newer :
      (own recorded : Text)
      → (recorded ≡ []) ⊎ (recorded ≡ own)
      → (not (is_zero recorded) && sem_ver_gt semver own recorded) ≡ false
  unfolding is_zero
  not_newer own recorded (inl e) = rw e refl
  not_newer own recorded (inr e) = rw (e, sem_ver_gt_irrefl semver semver_laws own) (ground arith)

  pub current_no_upgrade :
      (m : Module) (rel : Release semver) (s : ModuleStatus) (rr : Request semver)
      → IsCurrent semver m rel s
      → rr.release ≡ rel
      → needs_upgrade semver deploy m rr s ≡ false
  unfolding needs_upgrade
  current_no_upgrade m rel s rr (v, p) e =
      rw
        (
          e,
          not_newer m.version s.version v,
          not_newer (semver.print rel.version) s.platform.version p,
        )
        refl

module _ (semver : SemverLib) (deploy : DeployLib) (lib : ReconcilerLib semver deploy)
    (laws : IsReconcilerLib semver deploy lib) (framework : IsFramework semver deploy lib) where
  reported-IsCurrent :
      (build : Build) (m : Module) (rel : Release semver) (obj : Gateway)
      → IsCurrent semver m rel (reported semver deploy build m rel obj).status
  unfolding module_status
  reported-IsCurrent build m rel obj = (inr refl, inr refl)

  Step-IsCurrent :
      (build : Build) (cfg : Config) (rel : Release semver) (mgr : lib.Manager)
      (world : deploy.World) {m : Module} {r : lib.Reconciler}
      → (new_module semver deploy build cfg world).1 ≡ ok m
      → (new_reconciler semver deploy lib build cfg rel mgr world).1 ≡ ok r
      → {obj after : Gateway} → Step semver deploy lib laws r obj after
      → IsCurrent semver m rel obj.status
      → IsCurrent semver m rel after.status
  Step-IsCurrent build cfg rel mgr world {m} {r} made built (edited state) h = h
  Step-IsCurrent build cfg rel mgr world {m} {r} made built (reconciled {obj} {after} w e) h =
      elim (reconcile_outcome semver deploy lib laws framework build cfg rel mgr world obj w made
        built) [
          | inl same ↦
              let p : obj ≡ after = gateway-injective (sym same ∙ e) in
              subst (λ (o : Gateway). IsCurrent semver m rel o.status) p h
          | inr new ↦
              let p : reported semver deploy build m rel obj ≡ after =
                gateway-injective (sym new ∙ e) in
              subst (λ (o : Gateway). IsCurrent semver m rel o.status) p
                (reported-IsCurrent build m rel obj)
        ]

  Reaches-IsCurrent :
      (build : Build) (cfg : Config) (rel : Release semver) (mgr : lib.Manager)
      (world : deploy.World) {m : Module} {r : lib.Reconciler}
      → (new_module semver deploy build cfg world).1 ≡ ok m
      → (new_reconciler semver deploy lib build cfg rel mgr world).1 ≡ ok r
      → {obj after : Gateway} → Reaches semver deploy lib laws r obj after
      → IsCurrent semver m rel obj.status
      → IsCurrent semver m rel after.status
  Reaches-IsCurrent build cfg rel mgr world made built here h = h
  Reaches-IsCurrent build cfg rel mgr world made built (next past step) h =
      Step-IsCurrent build cfg rel mgr world made built step
        (Reaches-IsCurrent build cfg rel mgr world made built past h)

  -- Where semver's order is strict, as documented: from an object whose recorded versions are unset or
  -- the running ones, as they are in a new object and after a reconciliation that reported, no sequence
  -- of reconciliations, failed ones included, and of edits leads to an object that asks for an upgrade.
  pub reached_no_upgrade :
      (semver_laws : IsSemverLib semver) (build : Build) (cfg : Config) (rel : Release semver)
      (mgr : lib.Manager) (world : deploy.World) (rr : Request semver) {m : Module}
      {r : lib.Reconciler} {obj after : Gateway}
      → (new_module semver deploy build cfg world).1 ≡ ok m
      → (new_reconciler semver deploy lib build cfg rel mgr world).1 ≡ ok r
      → IsCurrent semver m rel obj.status
      → Reaches semver deploy lib laws r obj after
      → rr.release ≡ rel
      → IsCurrent semver m rel after.status
        × (needs_upgrade semver deploy m rr after.status ≡ false)
  reached_no_upgrade semver_laws build cfg rel mgr world rr {m} {r} {obj} {after} made built h path
        e =
      let current = Reaches-IsCurrent build cfg rel mgr world made built path h in
      (current, current_no_upgrade semver deploy semver_laws m rel after.status rr current e)
