-- ===== src/Api/Status.antt =====
-- The status types of api/components/v1alpha1/status_types.go and aigateway_types.go.
use opendatahub_ai_gateway_o.Api.Semver.{SemVer}
use opendatahub_ai_gateway_o.Base.{List}
use opendatahub_ai_gateway_o.Text.{Text, codes}

-- `type SourceRenderer string`, whose values are ordered as texts.
abbrev pub SourceRenderer : Type 0
SourceRenderer = Text

abbrev pub renderer_kustomize : SourceRenderer
renderer_kustomize = codes "kustomize"

abbrev pub renderer_helm : SourceRenderer
renderer_helm = codes "helm"

abbrev pub renderer_template : SourceRenderer
renderer_template = codes "template"

pub record SourceStatus : Type 0 where
  pub path : Text
  pub renderer : SourceRenderer

pub record PlatformStatus : Type 0 where
  pub name : Text
  pub version : SemVer

pub record ModuleStatus : Type 0 where
  pub version : SemVer
  pub build_source : Text
  pub platform : PlatformStatus
  pub sources : List SourceStatus
