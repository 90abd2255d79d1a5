-- ===== src/Tests/Example.antt =====
-- A small stand-in for the libraries that cmd/chartgen calls: enough of a YAML printer, and of the
-- accessors of an object, to run the model.
use Prim.Native.String.{String}
use opendatahub_ai_gateway_o.Base.{[], ◌++◌, Option, none, some, if◌then◌else◌, Result, ok, err}
use opendatahub_ai_gateway_o.Chartgen.Libraries.{Gvk, Libraries}
use opendatahub_ai_gateway_o.Chartgen.Object.{
  Value, string, object, Fields, end, field, get_field, as_string, as_object,
}
use opendatahub_ai_gateway_o.Text.{Text, codes, equal}

abbrev mutual
  pub print_value : Value → Text → Text
  print_value (string s) indent = codes " " ++ s
  print_value (object fields) indent = print_fields fields (indent ++ codes "  ")
  print_value _ indent = codes " null"

  pub print_fields : Fields → Text → Text
  print_fields end indent = []
  print_fields (field k v fields) indent =
      codes "\n"
      ++ (indent ++ (k ++ (codes ":" ++ (print_value v indent ++ print_fields fields indent))))

abbrev or_empty : Option Text → Text
or_empty none = []
or_empty (some s) = s

abbrev metadata_of : Option Fields → Text → Text
metadata_of none key = []
metadata_of (some fields) key = or_empty (as_string (get_field key fields))

abbrev pub of_kind : String → Gvk
of_kind kind = record { group = []; version = codes "v1"; kind = codes kind }

unfoldable pub name_of : Fields → Text
unfolding get_field as_string as_object
name_of obj = metadata_of (as_object (get_field (codes "metadata") obj)) (codes "name")

unfoldable pub namespace_of : Fields → Text
unfolding get_field as_string as_object
namespace_of obj = metadata_of (as_object (get_field (codes "metadata") obj)) (codes "namespace")

unfoldable pub kind_of : Fields → Text
unfolding get_field as_string
kind_of obj = or_empty (as_string (get_field (codes "kind") obj))

-- An object with no field cannot be printed.
abbrev marshal_example : Fields → Result Text
marshal_example end = err (codes "no fields")
marshal_example (field k v fields) = ok (print_fields (field k v fields) [])

abbrev pub text_field : String → String → Fields → Fields
text_field k v = field (codes k) (string (codes v))

abbrev pub object_field : String → Fields → Fields → Fields
object_field k v = field (codes k) (object v)

abbrev pub a_deployment : Fields
a_deployment = text_field "kind" "Deployment" (
    object_field "metadata" (text_field "name" "controller" (text_field "namespace" "system" end)) (
      object_field "spec"
        (text_field "replicas" "1" (
          object_field "resources" (text_field "cpu" "10m" end)
            (text_field "serviceAccountName" "controller" end)))
        end))

-- Every document but `null` is the name of a kind; there is one Deployment.
abbrev unmarshal_example : Text → Result (Option Fields)
unmarshal_example s =
    if equal s (codes "null")
    then ok none
    else if equal s (codes "Deployment")
    then ok (some a_deployment)
    else ok (some (field (codes "kind") (string s) end))

abbrev pub example_lib : Libraries
example_lib = record {
  get_name = name_of;
  get_namespace = namespace_of;
  group_version_kind = λ obj. record { group = []; version = codes "v1"; kind = kind_of obj };
  marshal = marshal_example;
  unmarshal = unmarshal_example;
  deployment = of_kind "Deployment";
  service_account = of_kind "ServiceAccount";
  config_map = of_kind "ConfigMap";
  cluster_role_binding = of_kind "ClusterRoleBinding";
  role_binding = of_kind "RoleBinding";
  mutating_webhook_configuration = of_kind "MutatingWebhookConfiguration";
  validating_webhook_configuration = of_kind "ValidatingWebhookConfiguration";
  certificate = of_kind "Certificate";
  namespace = of_kind "Namespace";
}
