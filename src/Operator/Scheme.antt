-- ===== src/Operator/Scheme.antt =====
-- The scheme of cmd/operator/operator.go: `scheme` and `init`.
use opendatahub_ai_gateway_o.Base.{
  true, List, ◌⊎◌, inl, inr, Option, none, some, ◌≡◌, refl, sym, ap, ◌∙◌, All, Result, ok, err,
  some-injective, none-ne-some,
}
use opendatahub_ai_gateway_o.Text.{Text}
use opendatahub_ai_gateway_o.Api.Scheme.{
  GroupVersion, scheme_group_version, ApiObject, ai_gateway, ai_gateway_list, type_name, SchemeLib,
  add_to_scheme, scheme_builder,
}
use opendatahub_ai_gateway_o.Controller.Reconciler.{OwnedKind}

-- The registrations of client-go and of apiextensions, and the kinds of their types.
pub record KubernetesTypes (lib : SchemeLib) : Type 0 where
  pub add_client_go : lib.Scheme → Result lib.Scheme
  pub add_apiextensions : lib.Scheme → Result lib.Scheme
  -- `utilruntime.Must`, around the error of a registration; `none`: it panics.
  pub must : Result lib.Scheme → Option lib.Scheme
  pub owned_version : OwnedKind → GroupVersion
  pub owned_name : OwnedKind → Text

module _ (lib : SchemeLib) (types : KubernetesTypes lib) where
  open lib use {Scheme, new_scheme, recognizes}

  -- What follows, if there was no panic.
  unfoldable pub and_then : Option Scheme → (Scheme → Option Scheme) → Option Scheme
  and_then none rest = none
  and_then (some s) rest = rest s

  -- The package's scheme behind `init`.
  unfoldable pub init : Option Scheme
  unfolding and_then add_to_scheme
  init = and_then (types.must (types.add_client_go new_scheme)) (λ s.
      and_then (types.must (types.add_apiextensions s)) (λ t. types.must (add_to_scheme lib t)))

  abbrev pub Recognizes : Scheme → ApiObject ⊎ OwnedKind → Type 0
  Recognizes s (inl o) = recognizes s scheme_group_version (type_name o) ≡ true
  Recognizes s (inr k) = recognizes s (types.owned_version k) (types.owned_name k) ≡ true

  -- A registration that succeeds leaves what the scheme knew.
  abbrev pub KeepsKnown : (Scheme → Result Scheme) → Type 0
  KeepsKnown add =
      (s t : Scheme) (gv : GroupVersion) (kind : Text)
      → add s ≡ ok t
      → recognizes s gv kind ≡ true
      → recognizes t gv kind ≡ true

  -- What a registration that succeeds is documented to do: a builder's adds the types that were
  -- registered with it, under their names; client-go's adds the types of the core, apps and rbac groups,
  -- and that of apiextensions adds the custom resource definition.
  pub record IsSchemeLib : Type 0 where
    pub must_ok : (s : Scheme) → types.must (ok s) ≡ some s
    pub must_err : (e : Text) → types.must (err e) ≡ none
    pub build_into_keeps : (b : lib.Builder) → KeepsKnown (lib.build_into b)
    pub build_into_adds :
        (gv : GroupVersion) (objects : List ApiObject) (s t : Scheme)
        → lib.build_into (lib.register objects (lib.new_builder gv)) s ≡ ok t
        → All (λ o. recognizes t gv (type_name o) ≡ true) objects
    pub apiextensions_keeps : KeepsKnown types.add_apiextensions
    pub apiextensions_adds :
        (s t : Scheme)
        → types.add_apiextensions s ≡ ok t
        → Recognizes t (inr OwnedKind.custom_resource_definition)
    pub client_go_adds :
        (s t : Scheme) (k : OwnedKind)
        → types.add_client_go s ≡ ok t
        → (k ≡ OwnedKind.custom_resource_definition) ⊎ Recognizes t (inr k)

  must-eq-some : IsSchemeLib → (r : Result Scheme) {s : Scheme} → types.must r ≡ some s → r ≡ ok s
  must-eq-some laws (err e) h = absurd (none-ne-some (sym (laws.must_err e) ∙ h))
  must-eq-some laws (ok t) h = ap ok (some-injective (sym (laws.must_ok t) ∙ h))

  and_then-eq-some :
      (o : Option Scheme) (rest : Scheme → Option Scheme) {s : Scheme}
      → and_then o rest ≡ some s
      → (t : Scheme) × (o ≡ some t) × (rest t ≡ some s)
  unfolding and_then
  and_then-eq-some none rest h = absurd (none-ne-some h)
  and_then-eq-some (some t) rest h = (t, refl, h)

  -- The three registrations of a start-up that does not panic.
  init-eq-some :
      IsSchemeLib
      → (s : Scheme) → init ≡ some s
      → (a : Scheme) × (b : Scheme) × (types.add_client_go new_scheme ≡ ok a)
        × (types.add_apiextensions a ≡ ok b)
        × (add_to_scheme lib b ≡ ok s)
  unfolding init
  init-eq-some laws s h =
      let (a, first, h2) = and_then-eq-some (types.must (types.add_client_go new_scheme)) _ h in
      let (b, second, h3) = and_then-eq-some (types.must (types.add_apiextensions a)) _ h2 in
      (a, b, must-eq-some laws _ first, must-eq-some laws _ second, must-eq-some laws _ h3)

  -- Where the registrations do what they are documented to do: if the package's `init` does not panic, its
  -- scheme recognizes the AIGateway and its list in the group's version, and the kind of every object
  -- that the reconciler owns.
  pub init-Recognizes :
      IsSchemeLib → (s : Scheme) → init ≡ some s → (x : ApiObject ⊎ OwnedKind) → Recognizes s x
  unfolding add_to_scheme scheme_builder
  init-Recognizes laws s h (inl o) =
      let (a, b, _, _, third) = init-eq-some laws s h in
      let (gateways, (lists, _)) = laws.build_into_adds scheme_group_version _ b s third in
      by_object o gateways lists
    where
      by_object :
          (o : ApiObject)
          → Recognizes s (inl ai_gateway)
          → Recognizes s (inl ai_gateway_list)
          → Recognizes s (inl o)
      by_object ai_gateway g l = g
      by_object ai_gateway_list g l = l
  init-Recognizes laws s h (inr k) =
      let (a, b, first, second, third) = init-eq-some laws s h in
      laws.build_into_keeps _ b s _ _ third (elim (laws.client_go_adds new_scheme a k first) [
        | inl e ↦ rw e (laws.apiextensions_adds a b second)
        | inr g ↦ laws.apiextensions_keeps a b _ _ second g
      ])
