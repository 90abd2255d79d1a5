-- ===== src/Chartgen/Webhook/Manifest.antt =====
-- What `replaceWebhookNamespace` makes of a manifest.
use opendatahub_ai_gateway_o.Base.{false, ◌++◌, ◌≡◌}
use opendatahub_ai_gateway_o.Chartgen.Marks.{
  annotation_inject_ca_from, yaml_field_namespace, tpl_release_namespace, open_braces, set_field,
}
use opendatahub_ai_gateway_o.Chartgen.Webhook.Annotation.{CaName, annotation_line, chart_annotation}
use opendatahub_ai_gateway_o.Text.Trim.{IsSpaces}
use opendatahub_ai_gateway_o.Text.{Text, codes, has_prefix, contains, trim_space}

-- A line of a webhook configuration: one that names no namespace, the annotation with the CA's name, or a
-- field `namespace:` with its value, the latter two behind an indentation.
pub data Line : Type 0 where
  other : Text → Line
  annotation : Text → CaName → Line
  named : Text → Text → Line

abbrev pub source : Line → Text
source (other l) = l
source (annotation i n) = annotation_line i n
source (named i v) = i ++ (codes "namespace: " ++ v)

abbrev pub wanted : Line → Text
wanted (other l) = l
wanted (annotation i n) = chart_annotation i n
wanted (named i v) = i ++ codes "namespace: {{ .Release.Namespace }}"

-- The indentation is of spaces, and the value is not templated yet.
abbrev pub Fits : Line → Type 0
Fits (other l) =
    (has_prefix (trim_space l) yaml_field_namespace ≡ false)
    × (contains l annotation_inject_ca_from ≡ false)
Fits (annotation i n) = IsSpaces i
Fits (named i v) =
    IsSpaces i × (contains (trim_space (codes "namespace: " ++ v)) open_braces ≡ false)

abbrev set_namespace : Text → Text
set_namespace = set_field yaml_field_namespace tpl_release_namespace
