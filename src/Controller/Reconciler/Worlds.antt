-- ===== src/Controller/Reconciler/Worlds.antt =====
-- What `NewModule` and `NewReconciler` do to the world: they write parameters and build.
use opendatahub_ai_gateway_o.Base.{List, Option, none, some, Result, ok, err}
use opendatahub_ai_gateway_o.Api.Semver.{SemverLib, SemVer}
use opendatahub_ai_gateway_o.Config.{Config}
use opendatahub_ai_gateway_o.Controller.Reconciler.{
  ReconcilerLib, finish_reconciler, with_module, new_reconciler, configure,
}
use opendatahub_ai_gateway_o.Controller.{
  Build, DeployLib, Module, Release, finish_module, make_module, new_module,
}
use opendatahub_ai_gateway_o.Text.{Text}

module _ (semver : SemverLib) (deploy : DeployLib) (P : deploy.World → Type 0)
    (params_keep : (path file : Text) (images values : List (Text × Text)) (w : deploy.World)
      → P w
      → P (deploy.apply_params path file images values w).0) where
  finish_module-keeps :
      (m : Module) (x : deploy.World × Option Text) → P x.0 → P (finish_module semver deploy m x).0
  unfolding finish_module
  finish_module-keeps m (w, none) h = h
  finish_module-keeps m (w, some e) h = h

  make_module-keeps :
      (cfg : Config) (w : deploy.World) (r : Result SemVer)
      → P w
      → P (make_module semver deploy cfg w r).0
  unfolding make_module
  make_module-keeps cfg w (err e) h = h
  make_module-keeps cfg w (ok v) h = finish_module-keeps _ _ (params_keep _ _ _ _ w h)

  pub new_module-keeps :
      (build : Build) (cfg : Config) (w : deploy.World)
      → P w
      → P (new_module semver deploy build cfg w).0
  unfolding new_module
  new_module-keeps build cfg w h = make_module-keeps cfg w _ h

  module _ (lib : ReconcilerLib semver deploy)
      (build_keeps : (b : lib.Builder) (w : deploy.World) → P w → P (lib.build b w).0)
      (store_keeps : (r : lib.Reconciler) (w : deploy.World) → P w → P (lib.store r w)) where
    finish_reconciler-keeps :
        (rel : Release semver) (x : deploy.World × Result lib.Reconciler)
        → P x.0
        → P (finish_reconciler semver deploy lib rel x).0
    unfolding finish_reconciler
    finish_reconciler-keeps rel (w, ok r) h = store_keeps _ w h
    finish_reconciler-keeps rel (w, err e) h = h

    with_module-keeps :
        (build : Build) (cfg : Config) (rel : Release semver) (mgr : lib.Manager)
        (x : deploy.World × Result Module)
        → P x.0
        → P (with_module semver deploy lib build cfg rel mgr x).0
    unfolding with_module
    with_module-keeps build cfg rel mgr (w, ok m) h =
        finish_reconciler-keeps rel _
          (build_keeps (configure semver deploy lib build cfg m mgr) w h)
    with_module-keeps build cfg rel mgr (w, err e) h = h

    -- What the writing of parameters and the building of a reconciler keep, `NewReconciler` keeps.
    pub new_reconciler-keeps :
        (build : Build) (cfg : Config) (rel : Release semver) (mgr : lib.Manager) (w : deploy.World)
        → P w
        → P (new_reconciler semver deploy lib build cfg rel mgr w).0
    unfolding new_reconciler
    new_reconciler-keeps build cfg rel mgr w h =
        with_module-keeps build cfg rel mgr _ (new_module-keeps build cfg w h)
