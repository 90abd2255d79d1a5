-- ===== src/Chartgen/Libraries.antt =====
-- What cmd/chartgen calls and the repository does not hold: the accessors of an unstructured object
-- (k8s.io/apimachinery), the YAML codec (sigs.k8s.io/yaml) and the kinds that the package
-- pkg/cluster/gvk of opendatahub-operator names.
use opendatahub_ai_gateway_o.Base.{◌&&◌, Bool, Option, Result}
use opendatahub_ai_gateway_o.Chartgen.Object.{Fields}
use opendatahub_ai_gateway_o.Text.{Text, equal}

pub record Gvk : Type 0 where
  pub group : Text
  pub version : Text
  pub kind : Text

-- `a == b` on the struct.
unfoldable pub same_gvk : Gvk → Gvk → Bool
unfolding equal
same_gvk a b = equal a.group b.group && equal a.version b.version && equal a.kind b.kind

pub record Libraries : Type 0 where
  pub get_name : Fields → Text
  pub get_namespace : Fields → Text
  pub group_version_kind : Fields → Gvk
  pub marshal : Fields → Result Text
  -- `none` is a nil map: the document is `null`.
  pub unmarshal : Text → Result (Option Fields)
  pub deployment : Gvk
  pub service_account : Gvk
  pub config_map : Gvk
  pub cluster_role_binding : Gvk
  pub role_binding : Gvk
  pub mutating_webhook_configuration : Gvk
  pub validating_webhook_configuration : Gvk
  pub certificate : Gvk
  pub namespace : Gvk
