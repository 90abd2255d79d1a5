-- ===== src/Tests/Scheme.antt =====
-- The registration of the types on a scheme that is a function.
use opendatahub_ai_gateway_o.Base.{
  Bool, true, false, ◌&&◌, ◌||◌, List, [], ◌∷◌, ◌++◌, append-nil, ◌⊎◌, inl, inr, Option, none, some,
  ◌≡◌, refl, sym, ap, ◌∙◌, arith, All, Result, ok, err, ok-injective,
}
use opendatahub_ai_gateway_o.Text.{Text, codes, equal}
use opendatahub_ai_gateway_o.Text.Equality.{equal_refl}
use opendatahub_ai_gateway_o.Api.Scheme.{
  GroupVersion, scheme_group_version, ApiObject, ai_gateway, ai_gateway_list, type_name, SchemeLib,
  add_to_scheme, scheme_builder,
}
use opendatahub_ai_gateway_o.Controller.Reconciler.{OwnedKind}
use opendatahub_ai_gateway_o.Operator.Scheme.{
  KubernetesTypes, and_then, IsSchemeLib, Recognizes, init, init-Recognizes,
}

abbrev Known : Type 0
Known = GroupVersion → Text → Bool

abbrev same_version : GroupVersion → GroupVersion → Bool
same_version a b = equal a.group b.group && equal a.version b.version

abbrev with_types : GroupVersion → List ApiObject → Known → Known
with_types gv [] known g kind = known g kind
with_types gv (o ∷ os) known g kind =
    (same_version gv g && equal (type_name o) kind) || with_types gv os known g kind

abbrev small_lib : SchemeLib
small_lib = record {
  Scheme = Known;
  new_scheme = λ g kind. false;
  recognizes = λ known. known;
  Builder = GroupVersion × List ApiObject;
  new_builder = λ gv. (gv, []);
  register = λ objects b. (b.0, objects ++ b.1);
  build_into = λ b known. ok (with_types b.0 b.1 known);
}

abbrev crd_group : Text
crd_group = codes "apiextensions.k8s.io"

abbrev group_of_owned : OwnedKind → Text
group_of_owned OwnedKind.custom_resource_definition = crd_group
group_of_owned k = []

abbrev with_group : Text → Known → Known
with_group group known g kind = equal group g.group || known g kind

abbrev panics : Result Known → Option Known
panics (err e) = none
panics (ok known) = some known

abbrev small_types : KubernetesTypes small_lib
small_types = record {
  add_client_go = λ known. ok (with_group [] known);
  add_apiextensions = λ known. ok (with_group crd_group known);
  must = panics;
  owned_version = λ k. record { group = group_of_owned k; version = codes "v1" };
  owned_name = λ k. codes "Kind";
}

with_types_keep :
    (gv : GroupVersion) (os : List ApiObject) (known : Known) (g : GroupVersion) (kind : Text)
    → known g kind ≡ true
    → with_types gv os known g kind ≡ true
with_types_keep gv [] known g kind h = h
with_types_keep gv (o ∷ os) known g kind h = ground (arith, with_types_keep gv os known g kind h)

module _ (gv : GroupVersion) where
  Weaker : Known → Known → Type 0
  Weaker a b = (kind : Text) → a gv kind ≡ true → b gv kind ≡ true

  with_types-All :
      (os : List ApiObject) (known known' : Known)
      → Weaker (with_types gv os known) known'
      → All (λ o. known' gv (type_name o) ≡ true) os
  unfolding Weaker
  with_types-All [] known known' w = tt
  with_types-All (o ∷ os) known known' w = (
    w (type_name o)
        (rw (equal_refl gv.group, equal_refl gv.version, equal_refl (type_name o)) refl),
    with_types-All os known known' (λ kind h. w kind (ground (arith, h))),
  )

client_kind :
    (s : Known) (k : OwnedKind)
    → (k ≡ OwnedKind.custom_resource_definition)
      ⊎ (with_group [] s (record { group = group_of_owned k; version = codes "v1" }) (codes "Kind")
          ≡ true)
unfolding equal
client_kind s OwnedKind.custom_resource_definition = inl refl
client_kind s _ = inr refl

small_lib-IsSchemeLib : IsSchemeLib small_lib small_types
unfolding Weaker equal
small_lib-IsSchemeLib = record {
  must_ok = λ s. refl;
  must_err = λ e. refl;
  build_into_keeps =
      λ b s t gv kind e h. rw (← ok-injective e) (with_types_keep b.0 b.1 s gv kind h);
  build_into_adds = λ gv objects s t e.
      with_types-All gv objects s t
        (λ kind h. sym (ap (λ f. f gv kind) (ok-injective e)) ∙ rw append-nil h);
  apiextensions_keeps = λ s t gv kind e h. rw (← ok-injective e) (ground (arith, h));
  apiextensions_adds = λ s t e. rw (← ok-injective e) refl;
  client_go_adds = λ s t k e. rw (← ok-injective e) (client_kind s k);
}

init-Recognizes_example :
    Recognizes small_lib small_types
      (with_types scheme_group_version
        (ai_gateway ∷ ai_gateway_list ∷ [])
        (with_group crd_group (with_group [] (λ g kind. false))))
      (inl ai_gateway_list)
unfolding init and_then add_to_scheme scheme_builder
init-Recognizes_example =
    init-Recognizes small_lib small_types small_lib-IsSchemeLib _ refl (inl ai_gateway_list)
