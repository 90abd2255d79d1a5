-- ===== src/Api/Objects.antt =====
-- The objects of api/components/v1alpha1 in memory, aigateway_types.go, with the slices that they share.
-- A slice is nil, `none`, or the address of an array; a pointer is nil or what it points to.
pub mod DeepCopy
pub mod Accessors
use opendatahub_ai_gateway_o.Base.{
  ℕ, zero, suc, ◌+◌, ◌-◌, ◌*◌, ◌/◌, ◌%◌, ◌≤◌, ◌<◌, Bool, true, false, not, ◌&&◌, ◌||◌, List, [],
  ◌∷◌, ◌++◌, map, append-nil, append_assoc, ◌≢◌, ◌↔◌, ◌⊎◌, inl, inr, Option, none, some, ◌≡◌, refl,
  sym, ap, ◌∙◌, arith, ltb, leb, ◌==◌, if◌then◌else◌, ==_iff, Bool-cases, &&-true, length, take,
  length-append, take-append_length, sub_length, All, All-append, All-intro, All-map, All-flat_map,
  Result, ok, err, ◌>>=◌, map_err, >>=-eq-ok, ok-injective, err-ne-ok, map_err-eq-ok,
  some-injective, none-ne-some,
}
use opendatahub_ai_gateway_o.Api.Semver.{SemVer}
use opendatahub_ai_gateway_o.Api.Status.{PlatformStatus, SourceStatus}
use opendatahub_ai_gateway_o.Text.{Text}

-- The parts of an object whose types are those of apimachinery and of opendatahub-operator's common.
pub data PartKind : Type 0 where
  object_meta list_meta status component_release_status : PartKind

pub record PartsLib : Type 1 where
  pub TypeMeta : Type 0
  pub Part : PartKind → Type 0
  -- the memory that these parts point to
  pub Rest : Type 0
  -- `DeepCopyInto` of the part
  pub copy : (k : PartKind) → Part k → Rest → Part k × Rest
  -- the slices `[]common.Condition` and `[]common.ComponentRelease`
  pub Conditions : Type 0
  pub Releases : Type 0
  pub get_conditions : Part status → Conditions
  pub set_conditions : Conditions → Part status → Part status
  pub releases : Part component_release_status → Releases
  pub set_releases : Releases → Part component_release_status → Part component_release_status

pub record BatchGatewayComponent : Type 0 where
  pub management_state : Text

pub record AiGatewaySpec : Type 0 where
  pub batch_gateway : BatchGatewayComponent

-- `ModuleStatus`
pub record ModuleStatusObject : Type 0 where
  pub version : SemVer
  pub build_source : Text
  pub platform : PlatformStatus
  pub sources : Option ℕ

module _ (parts : PartsLib) where
  open parts use {TypeMeta, Part, Rest}

  pub record AiGatewayStatus : Type 0 where
    pub common_status : Part status
    pub component_release : Part component_release_status
    pub module_status : ModuleStatusObject

  pub record AiGateway : Type 0 where
    pub type_meta : TypeMeta
    pub meta : Part object_meta
    pub spec : AiGatewaySpec
    pub gateway_status : AiGatewayStatus

  pub record AiGatewayList : Type 0 where
    pub type_meta : TypeMeta
    pub meta : Part list_meta
    pub items : Option ℕ

  -- The arrays by their addresses, in the order of their allocation.
  pub record Store : Type 0 where
    pub source_arrays : List (List SourceStatus)
    pub item_arrays : List (List AiGateway)
    pub rest : Rest

-- The array at an address; there is none past the last.
abbrev pub array_at {ℓ} : {A : Type ℓ} → List (List A) → ℕ → List A
array_at [] a = []
array_at (xs ∷ arrays) zero = xs
array_at (xs ∷ arrays) (suc a) = array_at arrays a
