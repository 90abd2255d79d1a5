-- ===== src/Controller/Reconciler/Steps.antt =====
-- What a step of a run of actions passes on to the next.
use opendatahub_ai_gateway_o.Base.{List, [], ◌∷◌, Option, none, some, ◌≡◌, sym, none-ne-some}
use opendatahub_ai_gateway_o.Api.Semver.{SemverLib}
use opendatahub_ai_gateway_o.Controller.Reconciler.Pipeline.{run_actions, then_run}
use opendatahub_ai_gateway_o.Controller.{Action, DeployLib, Request}
use mathlib.Core.Path.{subst}
use opendatahub_ai_gateway_o.Text.{Text}

module _ (semver : SemverLib) (deploy : DeployLib) where
  abbrev pub Result3 : Type 0
  Result3 = Request semver × deploy.World × Option Text

  then-keeps :
      (Q : Request semver → Type 0) (x : Result3) (rest : Action semver deploy)
      (rr : Request semver)
      → x.0 ≡ rr
      → Q rr
      → ((w : deploy.World) → Q (rest rr w).0)
      → Q (then_run semver deploy x rest).0
  unfolding then_run
  then-keeps Q (rr', w, none) rest rr e q k = subst (λ r. Q (rest r w).0) (sym e) (k w)
  then-keeps Q (rr', w, some f) rest rr e q k = subst Q (sym e) q

  then-ends :
      (R : Result3 → Type 0) (x : Result3) (rest : Action semver deploy) (rr : Request semver)
      → x.0 ≡ rr
      → x.2 ≡ none
      → ((w : deploy.World) → R (rest rr w))
      → R (then_run semver deploy x rest)
  unfolding then_run
  then-ends R (rr', w, none) rest rr e n k = subst (λ r. R (rest r w)) (sym e) (k w)
  then-ends R (rr', w, some f) rest rr e n k = absurd (none-ne-some (sym n))

  -- What a step makes of the request, if the run may end there or go on.
  pub step_keeps :
      (Q : Request semver → Type 0) (act : Action semver deploy)
      (acts : List (Action semver deploy)) (rr rr' : Request semver) (w : deploy.World)
      → (act rr w).0 ≡ rr'
      → Q rr'
      → ((w : deploy.World) → Q (run_actions semver deploy acts rr' w).0)
      → Q (run_actions semver deploy (act ∷ acts) rr w).0
  unfolding run_actions
  step_keeps Q act acts rr rr' w = then-keeps Q (act rr w) (run_actions semver deploy acts) rr'

  pub step_ends :
      (R : Result3 → Type 0) (act : Action semver deploy) (acts : List (Action semver deploy))
      (rr rr' : Request semver) (w : deploy.World)
      → (act rr w).0 ≡ rr'
      → (act rr w).2 ≡ none
      → ((w : deploy.World) → R (run_actions semver deploy acts rr' w))
      → R (run_actions semver deploy (act ∷ acts) rr w)
  unfolding run_actions
  step_ends R act acts rr rr' w = then-ends R (act rr w) (run_actions semver deploy acts) rr'

  pub last_keeps :
      (Q : Request semver → Type 0) (rr : Request semver) (w : deploy.World)
      → Q rr
      → Q (run_actions semver deploy [] rr w).0
  unfolding run_actions
  last_keeps Q rr w q = q

  pub last_ends :
      (R : Result3 → Type 0) (rr : Request semver) (w : deploy.World)
      → R (rr, w, none)
      → R (run_actions semver deploy [] rr w)
  unfolding run_actions
  last_ends R rr w q = q
