-- ===== src/Chartgen/Fields.antt =====
-- The functions of cmd/chartgen/chart.go that rewrite a manifest line by line, each line on its own.
use mathlib.Core.List.{flat_map}
use opendatahub_ai_gateway_o.Base.{not, ◌&&◌, List, [], ◌∷◌, ◌++◌, map, if◌then◌else◌}
use opendatahub_ai_gateway_o.Chartgen.Marks.{
  yaml_field_namespace, yaml_field_service_account_name, yaml_field_image,
  yaml_field_image_pull_policy, yaml_field_replicas, yaml_field_data, tpl_release_namespace,
  tpl_service_account_name, open_braces, on_lines, set_field, below,
}
use opendatahub_ai_gateway_o.Text.{Text, codes, equal, has_prefix, contains, trim_space, indent_of}

unfoldable pub replace_namespace : Text → Text
unfolding on_lines set_field
replace_namespace = on_lines (map (set_field yaml_field_namespace tpl_release_namespace))

abbrev pub replicas_text : Text
replicas_text = codes "replicas: {{ .Values.replicas }}"

unfoldable pub replace_replicas : Text → Text
unfolding on_lines set_field
replace_replicas = on_lines (map (set_field yaml_field_replicas replicas_text))

abbrev pub service_account_text : Text
service_account_text = yaml_field_service_account_name ++ codes " " ++ tpl_service_account_name

unfoldable pub replace_service_account_name : Text → Text
unfolding on_lines set_field
replace_service_account_name =
    on_lines (map (set_field yaml_field_service_account_name service_account_text))

abbrev pub image_text : Text
image_text = codes "image: \"{{ include \"chart.imageRef\" . }}\""

abbrev pub always_text : Text
always_text = codes "imagePullPolicy: Always"

-- What the loop of `replaceImageField` appends for a line.
unfoldable pub image_lines : Text → List Text
image_lines line =
    let trimmed = trim_space line in
    if has_prefix trimmed yaml_field_image && not (contains trimmed open_braces)
    then (indent_of line ++ image_text) ∷ (indent_of line ++ always_text) ∷ []
    else if has_prefix trimmed yaml_field_image_pull_policy
    then []
    else line ∷ []

unfoldable pub replace_image_field : Text → Text
unfolding on_lines image_lines flat_map
replace_image_field = on_lines (flat_map image_lines)

abbrev pub pull_secret_texts : List Text
pull_secret_texts =
    codes "{{- with .Values.imagePullSecret }}"
    ∷ codes "imagePullSecrets:"
    ∷ codes "  - name: {{ . }}"
    ∷ codes "{{- end }}"
    ∷ []

-- What the loop of `addImagePullSecrets` appends for a line.
unfoldable pub pull_secret_lines : Text → List Text
pull_secret_lines line =
    line
    ∷ (if has_prefix (trim_space line) yaml_field_service_account_name
        then below (indent_of line) pull_secret_texts
        else [])

unfoldable pub add_image_pull_secrets : Text → Text
unfolding on_lines pull_secret_lines flat_map
add_image_pull_secrets = on_lines (flat_map pull_secret_lines)

abbrev pub config_map_texts : List Text
config_map_texts =
    codes "  {{- with .Values.imagePullSecret }}"
    ∷ codes "  imagePullSecret: {{ . }}"
    ∷ codes "  {{- end }}"
    ∷ codes "  {{- range $key, $val := .Values.config }}"
    ∷ codes "  {{ $key }}: {{ $val | quote }}"
    ∷ codes "  {{- end }}"
    ∷ []

-- What the loop of `injectConfigMapValues` appends for a line.
unfoldable pub config_map_lines : Text → List Text
config_map_lines line =
    line
    ∷ (if equal (trim_space line) yaml_field_data
        then below (indent_of line) config_map_texts
        else [])

unfoldable pub inject_config_map_values : Text → Text
unfolding on_lines config_map_lines flat_map
inject_config_map_values = on_lines (flat_map config_map_lines)
