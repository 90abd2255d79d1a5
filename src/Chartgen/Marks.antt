-- ===== src/Chartgen/Marks.antt =====
-- The constants of cmd/chartgen/chart.go, and the loop that every rewriting function shares: split
-- into lines, rewrite the lines, join them.
pub mod Laws
use opendatahub_ai_gateway_o.Base.{
  ℕ, zero, suc, ◌+◌, ◌/◌, ◌%◌, Bool, not, ◌&&◌, List, [], ◌∷◌, ◌++◌, map, ◌==◌, if◌then◌else◌,
}
use opendatahub_ai_gateway_o.Text.{
  Text, codes, newline, has_prefix, contains, trim_space, indent_of, split, join,
}

abbrev pub yaml_field_namespace : Text
yaml_field_namespace = codes "namespace:"

abbrev pub yaml_field_service_account_name : Text
yaml_field_service_account_name = codes "serviceAccountName:"

abbrev pub yaml_field_subjects : Text
yaml_field_subjects = codes "subjects:"

abbrev pub yaml_field_name : Text
yaml_field_name = codes "name:"

abbrev pub yaml_field_image : Text
yaml_field_image = codes "image:"

abbrev pub yaml_field_image_pull_policy : Text
yaml_field_image_pull_policy = codes "imagePullPolicy:"

abbrev pub yaml_field_replicas : Text
yaml_field_replicas = codes "replicas:"

abbrev pub yaml_field_resources : Text
yaml_field_resources = codes "resources:"

abbrev pub yaml_field_data : Text
yaml_field_data = codes "data:"

abbrev pub yaml_field_metadata : Text
yaml_field_metadata = codes "metadata:"

abbrev pub tpl_release_namespace : Text
tpl_release_namespace = codes "namespace: {{ .Release.Namespace }}"

abbrev pub tpl_service_account_name : Text
tpl_service_account_name =
    codes "{{ default (include \"chart.fullname\" .) .Values.serviceAccount.name }}"

abbrev pub annotation_inject_ca_from : Text
annotation_inject_ca_from = codes "cert-manager.io/inject-ca-from"

-- The mark by which the code tells a templated value.
abbrev pub open_braces : Text
open_braces = codes "{{"

-- `strings.Join(f(strings.Split(raw, "\n")), "\n")`
unfoldable pub on_lines : (List Text → List Text) → Text → Text
on_lines f raw = join (f (split raw newline)) (newline ∷ [])

-- `if HasPrefix(trimmed, key) && !Contains(trimmed, "{{") { line = indent + text }`
unfoldable pub set_field : Text → Text → Text → Text
set_field key text line =
    let trimmed = trim_space line in
    if has_prefix trimmed key && not (contains trimmed open_braces)
    then indent_of line ++ text
    else line

-- The lines that are put below a line indented by `indent`.
abbrev pub below : Text → List Text → List Text
below indent texts = map (λ text. indent ++ text) texts

-- `fmt.Sprintf("%d", n)`
format_onto : ℕ → ℕ → Text → Text
format_onto zero n out = out
format_onto (suc fuel) n out =
    let longer = (b'0' + n % 10) ∷ out in
    let rest = format_onto fuel (n / 10) longer in if n / 10 == 0 then longer else rest

unfoldable pub format_decimal : ℕ → Text
unfolding format_onto
format_decimal n = format_onto (suc n) n []
