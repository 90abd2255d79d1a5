-- ===== src/Chartgen/Sections.antt =====
-- The functions of cmd/chartgen/chart.go whose loop keeps a flag for the section that it stands in:
-- `inSubjects`, `inMetadata` and `inDNSNames`. The flag is an argument of the loop.
pub mod Laws
pub mod Dns
pub mod Account
pub mod Subjects
use opendatahub_ai_gateway_o.Base.{
  ◌+◌, Bool, true, false, not, ◌&&◌, List, [], ◌∷◌, ◌++◌, if◌then◌else◌, length,
}
use opendatahub_ai_gateway_o.Chartgen.Marks.{
  yaml_field_namespace, yaml_field_subjects, yaml_field_name, yaml_field_metadata,
  tpl_release_namespace, tpl_service_account_name, on_lines, set_field, format_decimal,
}
use opendatahub_ai_gateway_o.Text.{
  Text, codes, equal, has_prefix, contains, trim_prefix, trim_space, indent_of, split_n,
}

-- The line is not indented, is no list item and is not blank.
unfoldable pub ends_subjects : Text → Bool
ends_subjects line =
    not (has_prefix line (codes " "))
    && not (has_prefix line (codes "\t"))
    && not (has_prefix (trim_space line) (codes "-"))
    && not (equal (trim_space line) [])

-- The loop of `replaceSubjectsNamespace` and of `replaceSubjectsServiceAccount`, which differ in the
-- field that they set.
unfoldable pub subject_lines : (Text → Text) → Bool → List Text → List Text
unfolding ends_subjects
subject_lines rewrite in_subjects [] = []
subject_lines rewrite in_subjects (line ∷ rest) =
    let header = line ∷ subject_lines rewrite true rest in
    let inside = in_subjects && not (ends_subjects line) in
    let body = (if inside then rewrite line else line) ∷ subject_lines rewrite inside rest in
    if equal (trim_space line) yaml_field_subjects then header else body

unfoldable pub replace_subjects_namespace : Text → Text
unfolding on_lines subject_lines set_field
replace_subjects_namespace =
    on_lines (subject_lines (set_field yaml_field_namespace tpl_release_namespace) false)

abbrev pub account_name_text : Text
account_name_text = yaml_field_name ++ codes " " ++ tpl_service_account_name

unfoldable pub replace_subjects_service_account : Text → Text
unfolding on_lines subject_lines set_field
replace_subjects_service_account =
    on_lines (subject_lines (set_field yaml_field_name account_name_text) false)

-- What stands for the name of a ServiceAccount indented by `indent`.
unfoldable pub account_lines : Text → List Text
unfolding format_decimal
account_lines indent =
    (indent ++ account_name_text)
    ∷ (indent ++ codes "{{- with .Values.serviceAccount.annotations }}")
    ∷ (indent ++ codes "annotations:")
    ∷ (indent
        ++ (codes "  {{- toYaml . | nindent "
            ++ (format_decimal (length indent + 2) ++ codes " }}")))
    ∷ (indent ++ codes "{{- end }}")
    ∷ []

-- The flag behind a line of the loop of `replaceServiceAccountMetadata`.
unfoldable pub still_metadata : Bool → Text → Bool
still_metadata in_metadata line =
    if equal (trim_space line) yaml_field_metadata
    then true
    else in_metadata
      && not (
          not (has_prefix line (codes " "))
          && not (has_prefix line (codes "\t"))
          && not (equal (trim_space line) []))

unfoldable pub metadata_lines : Text → Bool → List Text → List Text
unfolding still_metadata account_lines
metadata_lines original_name in_metadata [] = []
metadata_lines original_name in_metadata (line ∷ rest) =
    let trimmed = trim_space line in
    let inside = still_metadata in_metadata line in
    (if inside && has_prefix trimmed yaml_field_name && contains trimmed original_name
      then account_lines (indent_of line)
      else line ∷ [])
    ++ metadata_lines original_name inside rest

unfoldable pub replace_service_account_metadata : Text → Text → Text
unfolding on_lines metadata_lines
replace_service_account_metadata raw original_name =
    on_lines (metadata_lines original_name false) raw

-- A `dnsNames` entry, by the parts of its name before the first and the second dot.
unfoldable pub set_namespace_part : Text → List Text → Text
set_namespace_part line (service ∷ namespace ∷ suffix ∷ []) =
    indent_of line ++ (codes "- " ++ (service ++ (codes ".{{ .Release.Namespace }}." ++ suffix)))
set_namespace_part line parts = line

unfoldable pub dns_entry : Text → Text
unfolding set_namespace_part
dns_entry line =
    set_namespace_part line (split_n (trim_prefix (trim_space line) (codes "- ")) b'.' 3)

unfoldable pub dns_lines : Bool → List Text → List Text
unfolding dns_entry
dns_lines in_dns_names [] = []
dns_lines in_dns_names (line ∷ rest) =
    let trimmed = trim_space line in
    let header = line ∷ dns_lines true rest in
    let inside =
      in_dns_names && not (not (has_prefix trimmed (codes "-")) && not (equal trimmed [])) in
    let entry = inside && has_prefix trimmed (codes "- ") && contains trimmed (codes ".svc") in
    let body = (if entry then dns_entry line else line) ∷ dns_lines inside rest in
    if equal trimmed (codes "dnsNames:") then header else body

unfoldable pub replace_certificate_dns_names : Text → Text
unfolding on_lines dns_lines
replace_certificate_dns_names = on_lines (dns_lines false)
