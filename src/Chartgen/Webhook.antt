-- ===== src/Chartgen/Webhook.antt =====
-- `replaceWebhookNamespace` of cmd/chartgen/chart.go.
pub mod Laws
pub mod Annotation
pub mod Manifest
use opendatahub_ai_gateway_o.Base.{List, [], ◌∷◌, ◌++◌, map, if◌then◌else◌}
use opendatahub_ai_gateway_o.Chartgen.Fields.{replace_namespace}
use opendatahub_ai_gateway_o.Chartgen.Marks.{annotation_inject_ca_from, on_lines}
use opendatahub_ai_gateway_o.Text.{Text, codes, contains, trim_space, indent_of, split_n}

-- The annotation's line, by its key and by the parts of its value around the first slash.
unfoldable pub set_ca_namespace : Text → Text → List Text → Text
set_ca_namespace line key (namespace ∷ certificate ∷ []) =
    indent_of line ++ (trim_space key ++ (codes ": {{ .Release.Namespace }}/" ++ certificate))
set_ca_namespace line key parts = line

unfoldable pub set_ca_value : Text → List Text → Text
unfolding set_ca_namespace
set_ca_value line (key ∷ value ∷ []) = set_ca_namespace line key (split_n (trim_space value) b'/' 2)
set_ca_value line parts = line

unfoldable pub ca_line : Text → Text
unfolding set_ca_value
ca_line line =
    if contains line annotation_inject_ca_from
    then set_ca_value line (split_n line b':' 2)
    else line

unfoldable pub replace_webhook_namespace : Text → Text
unfolding replace_namespace on_lines ca_line
replace_webhook_namespace raw = on_lines (map ca_line) (replace_namespace raw)
