-- ===== src/Tests/Chartgen.antt =====
-- cmd/chartgen/chart.go at concrete inputs.
use opendatahub_ai_gateway_o.Chartgen.Object.{get_field, as_string, as_object}
use opendatahub_ai_gateway_o.Chartgen.Steps.{Settles}
use opendatahub_ai_gateway_o.Chartgen.Resources.{replace_resources, resources_text, in_block}
use opendatahub_ai_gateway_o.Chartgen.Settled.{Field}
use opendatahub_ai_gateway_o.Chartgen.Fields.{
  replace_namespace, replace_image_field, replace_replicas, replace_service_account_name,
  add_image_pull_secrets,
}
use opendatahub_ai_gateway_o.Tests.Example.{example_lib, a_deployment}
use opendatahub_ai_gateway_o.Chartgen.Transform.{transform_deployment}
use opendatahub_ai_gateway_o.Text.{
  is_space, trim_space_right, Text, has_prefix, contains, trim_space, indent_of, split, join, equal,
  trim_left, codes,
}
use opendatahub_ai_gateway_o.Base.{false, List, [], ◌∷◌, ◌++◌, none, some, ◌≡◌, refl, arith, ok}
use opendatahub_ai_gateway_o.Chartgen.Transform.Namespace.{Renders, transform_resource-Settles}
use opendatahub_ai_gateway_o.Chartgen.Transform.{transform_resource}
use opendatahub_ai_gateway_o.Chartgen.Resources.{resource_lines, resource_loop}
use opendatahub_ai_gateway_o.Chartgen.Resources.Block.{
  resource_lines_block, resource_scan, resource_loop-scan,
}
use opendatahub_ai_gateway_o.Chartgen.Marks.{tpl_service_account_name}
use opendatahub_ai_gateway_o.Chartgen.Webhook.Annotation.{CaName}
use opendatahub_ai_gateway_o.Chartgen.Sections.Subjects.{
  Subject, replace_subjects_service_account_lem,
}
use opendatahub_ai_gateway_o.Chartgen.Sections.{replace_subjects_service_account}
use mathlib.Core.List.{flat_map}
use opendatahub_ai_gateway_o.Text.{trim_space_right, contains}
use opendatahub_ai_gateway_o.Chartgen.Sections.Dns.{DnsName}
use opendatahub_ai_gateway_o.Tests.Example.{namespace_of}
use opendatahub_ai_gateway_o.Chartgen.Transform.Deployment.{transform_deployment-Settles}

transform_deployment-Settles_example :
    (out : Text) × (transform_deployment example_lib a_deployment ≡ ok out)
    × ((f : Field) → Settles f out)
transform_deployment-Settles_example = transform_deployment-Settles example_lib a_deployment refl

a_deployment_template :
    transform_deployment example_lib a_deployment
    ≡ ok (
        codes
          "kind: Deployment\nmetadata:\n  name: controller\n  namespace: {{ .Release.Namespace }}\nspec:\n  replicas: {{ .Values.replicas }}\n  resources:\n    {{- toYaml .Values.resources | nindent 4 }}\n  serviceAccountName: {{ default (include \"chart.fullname\" .) .Values.serviceAccount.name }}\n  {{- with .Values.imagePullSecret }}\n  imagePullSecrets:\n    - name: {{ . }}\n  {{- end }}")
unfolding transform_deployment replace_namespace replace_image_field replace_replicas
    replace_resources replace_service_account_name add_image_pull_secrets has_prefix contains
    trim_space indent_of split join equal trim_left
a_deployment_template = refl

transform_resource-Settles_example :
    Renders (transform_resource example_lib example_lib.deployment a_deployment)
unfolding namespace_of get_field as_string as_object equal
transform_resource-Settles_example =
    transform_resource-Settles example_lib example_lib.deployment a_deployment refl refl

abbrev spec_lines : List Text
spec_lines = codes "spec:" ∷ []

abbrev resource_block : List Text
resource_block = codes "    limits:" ∷ [] ∷ codes "      cpu: 10m" ∷ []

abbrev name_lines : List Text
name_lines = codes "  name: x" ∷ []

resource_lines_block_example :
    resource_lines (spec_lines ++ codes "  resources:" ∷ (resource_block ++ name_lines))
    ≡ codes "spec:"
      ∷ codes "  resources:"
      ∷ codes "    {{- toYaml .Values.resources | nindent 4 }}"
      ∷ resource_lines name_lines
unfolding trim_space indent_of equal resources_text in_block trim_left
resource_lines_block_example =
    resource_lines_block spec_lines (codes "  resources:") resource_block name_lines (refl, tt) refl
      (refl, (refl, (refl, tt))) refl

resource_loop-scan_example :
    resource_loop 4 resource_block ≡ some (resource_scan none resource_block)
resource_loop-scan_example = resource_loop-scan 4 resource_block (omega arith)

no_space_behind : trim_space_right (codes ".cluster.local") ≡ codes ".cluster.local"
unfolding trim_space_right
no_space_behind = refl

abbrev a_name : DnsName
a_name = record {
  service = codes "webhook";
  namespace = codes "system";
  rest = codes ".cluster.local";
  service_has_no_dot = refl;
  namespace_has_no_dot = refl;
  rest_ends = no_space_behind;
}

abbrev a_certificate : Text
a_certificate =
    codes
      "kind: Certificate\nspec:\n  dnsNames:\n  - webhook.system.svc.cluster.local\n  issuerRef:\n    name: issuer"

abbrev two_namespaces : Text
two_namespaces =
    codes "metadata:\n  namespace: a\nsubjects:\n- kind: ServiceAccount\n  namespace: b"

is_s_no_space : is_space b's' ≡ false
unfolding is_space
is_s_no_space = refl

certificate_trimmed : trim_space_right (codes "serving-cert") ≡ codes "serving-cert"
unfolding trim_space_right
certificate_trimmed = refl

abbrev ca_name : CaName
ca_name = record {
  first = b's';
  others = codes "ystem";
  certificate = codes "serving-cert";
  first_is_no_space = is_s_no_space;
  namespace_has_no_slash = refl;
  certificate_ends = certificate_trimmed;
}

abbrev a_webhook : Text
a_webhook =
    codes
      "metadata:\n  annotations:\n    cert-manager.io/inject-ca-from: system/serving-cert\n  namespace: system"

abbrev a_subject : Subject
unfolding trim_space_right contains has_prefix
a_subject = record { name = codes "controller-manager"; name_ends = refl; no_template = refl }

abbrev a_binding : Text
a_binding =
    codes
      "kind: RoleBinding\nroleRef:\n  name: manager-role\nsubjects:\n- kind: ServiceAccount\n  name: controller-manager\n  namespace: {{ .Release.Namespace }}"

replace_subjects_service_account_lem_example :
    replace_subjects_service_account a_binding
    ≡ codes
        "kind: RoleBinding\nroleRef:\n  name: manager-role\nsubjects:\n- kind: ServiceAccount\n  name: "
      ++ (tpl_service_account_name ++ codes "\n  namespace: {{ .Release.Namespace }}")
unfolding a_subject split trim_space equal flat_map join
replace_subjects_service_account_lem_example =
    replace_subjects_service_account_lem [] (refl, (refl, tt)) a_binding
      (codes "kind: RoleBinding" ∷ codes "roleRef:" ∷ codes "  name: manager-role" ∷ []) []
      (a_subject ∷ []) (refl, (refl, (refl, tt))) tt refl
