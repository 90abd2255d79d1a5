-- ===== src/Api/Scheme.antt =====
-- The group's registration: api/components/v1alpha1/groupversion_info.go, and `init` of
-- aigateway_types.go.
use opendatahub_ai_gateway_o.Base.{Bool, List, [], ◌∷◌, Result}
use opendatahub_ai_gateway_o.Text.{Text, codes}

-- `schema.GroupVersion`
pub record GroupVersion : Type 0 where
  pub group : Text
  pub version : Text

-- `SchemeGroupVersion`, and its alias `GroupVersion`
abbrev pub scheme_group_version : GroupVersion
scheme_group_version = record {
  group = codes "components.platform.opendatahub.io";
  version = codes "v1alpha1";
}

-- The types of the package that are registered.
pub data ApiObject : Type 0 where
  ai_gateway ai_gateway_list : ApiObject

-- The name of the Go type, by which a scheme knows its kind.
unfoldable pub type_name : ApiObject → Text
type_name ai_gateway = codes "AIGateway"
type_name ai_gateway_list = codes "AIGatewayList"

-- `runtime.Scheme` of apimachinery and `scheme.Builder` of controller-runtime.
pub record SchemeLib : Type 1 where
  pub Scheme : Type 0
  pub new_scheme : Scheme
  -- `Recognizes`, of a kind in a group's version
  pub recognizes : Scheme → GroupVersion → Text → Bool
  pub Builder : Type 0
  pub new_builder : GroupVersion → Builder
  pub register : List ApiObject → Builder → Builder
  pub build_into : Builder → Scheme → Result Scheme

module _ (lib : SchemeLib) where
  open lib use {Scheme, Builder, new_builder, register, build_into}

  -- `SchemeBuilder` behind `init`.
  unfoldable pub scheme_builder : Builder
  scheme_builder = register (ai_gateway ∷ ai_gateway_list ∷ []) (new_builder scheme_group_version)

  unfoldable pub add_to_scheme : Scheme → Result Scheme
  unfolding scheme_builder
  add_to_scheme = build_into scheme_builder
