-- ===== src/Chartgen/Transform/Namespace.antt =====
-- No template of a namespaced object keeps a namespace of its own, whatever the kind.
use mathlib.Core.List.{flat_map}
use opendatahub_ai_gateway_o.Chartgen.Webhook.{replace_webhook_namespace}
use opendatahub_ai_gateway_o.Chartgen.Transform.Deployment.{transform_deployment-Settles}
use opendatahub_ai_gateway_o.Chartgen.Transform.{
  transform_service_account, transform_config_map, transform_role_binding, transform_webhook,
  transform_certificate, transform_generic, transform_deployment, transform_resource,
  replace_webhook_namespace, is_empty,
}
use opendatahub_ai_gateway_o.Text.Parts.{
  trim_space-append, trim_space_right-append, contains-append,
}
use opendatahub_ai_gateway_o.Chartgen.Marks.Laws.{below-IsLine, on_lines-AllLines, set_field-IsLine}
use opendatahub_ai_gateway_o.Text.Trim.{trim_space_first}
use opendatahub_ai_gateway_o.Chartgen.Marks.{
  yaml_field_data, open_braces, on_lines, set_field, yaml_field_namespace, tpl_release_namespace,
  yaml_field_name,
}
use opendatahub_ai_gateway_o.Chartgen.Webhook.Laws.{ca_line-of, ca_line-IsLine}
use opendatahub_ai_gateway_o.Chartgen.Sections.Laws.{
  dns_entry-of, metadata_lines-KeepsLines, subject_lines-All, dns_lines-KeepsLines,
  metadata_lines-All, dns_lines-All,
}
use opendatahub_ai_gateway_o.Text.Lines.{IsLine}
use opendatahub_ai_gateway_o.Chartgen.Webhook.{ca_line}
use opendatahub_ai_gateway_o.Chartgen.Fields.{
  config_map_lines, config_map_texts, inject_config_map_values, replace_namespace,
}
use opendatahub_ai_gateway_o.Chartgen.Sections.{
  account_lines, dns_entry, account_name_text, replace_service_account_metadata,
  replace_certificate_dns_names, subject_lines, replace_subjects_namespace, metadata_lines,
  dns_lines, replace_subjects_service_account,
}
use opendatahub_ai_gateway_o.Base.{
  Bool, true, false, ◌||◌, [], ◌∷◌, ◌++◌, map, append_assoc, inl, inr, ◌≡◌, refl, if◌then◌else◌,
  Bool-cases, All, All-intro, All-map, All-flat_map, Result, ok,
}
use opendatahub_ai_gateway_o.Chartgen.Libraries.{Libraries, Gvk, same_gvk}
use opendatahub_ai_gateway_o.Chartgen.Object.{Fields}
use opendatahub_ai_gateway_o.Chartgen.Settled.{
  namespace, IsSettled, IsSettled-indent, below-IsSettled, set_field_other,
}
use opendatahub_ai_gateway_o.Chartgen.Steps.{
  Settles, namespace_own, brace_text-IsSettled, blank-IsSettled, release_text-IsSettled,
}
use opendatahub_ai_gateway_o.Text.{
  Text, codes, has_prefix, contains, trim_space, indent_of, equal, is_space, trim_space_left,
}

account_name_text-IsSettled : IsSettled namespace account_name_text
unfolding has_prefix contains trim_space
account_name_text-IsSettled h = cc

account_lines-IsSettled : (l : Text) → All (IsSettled namespace) (account_lines (indent_of l))
unfolding account_lines
account_lines-IsSettled l = (
  settle account_name_text account_name_text-IsSettled,
  (
    settle _ (unfold has_prefix contains trim_space in λ h. cc),
    (
      settle _ (unfold has_prefix contains trim_space in λ h. cc),
      (
        settle _ (brace_text-IsSettled namespace _),
        (settle _ (unfold has_prefix contains trim_space in λ h. cc), tt),
      ),
    ),
  ),
)
  where
    settle : (text : Text) → IsSettled namespace text → IsSettled namespace (indent_of l ++ text)
    settle = IsSettled-indent namespace l

config_map_texts-IsSettled : All (IsSettled namespace) config_map_texts
unfolding has_prefix contains trim_space
config_map_texts-IsSettled =
    ((λ h. cc), ((λ h. cc), ((λ h. cc), ((λ h. cc), ((λ h. cc), ((λ h. cc), tt))))))

config_map_lines-IsSettled :
    (l : Text) → IsSettled namespace l → All (IsSettled namespace) (config_map_lines l)
unfolding config_map_lines
config_map_lines-IsSettled l h = elim (Bool-cases (equal (trim_space l) yaml_field_data)) [
  | inl e ↦ rw e (h, below-IsSettled namespace l config_map_texts config_map_texts-IsSettled)
  | inr e ↦ rw e (h, tt)
]

pub config_map_lines-IsLine : (l : Text) → IsLine l → All IsLine (config_map_lines l)
unfolding config_map_lines
config_map_lines-IsLine l h = elim (Bool-cases (equal (trim_space l) yaml_field_data)) [
  | inl e ↦
      rw e (h, below-IsLine l config_map_texts (refl, (refl, (refl, (refl, (refl, (refl, tt)))))))
  | inr e ↦ rw e (h, tt)
]

dash_text-IsSettled : (s : Text) → IsSettled namespace (b'-' ∷ s)
unfolding has_prefix is_space
dash_text-IsSettled s = rw (trim_space_first b'-' s refl) (λ h. cc)

dns_entry-IsSettled : (l : Text) → IsSettled namespace l → IsSettled namespace (dns_entry l)
dns_entry-IsSettled l =
    dns_entry-of (IsSettled namespace) (λ s. Unit {0}) l (All-intro _ (λ s. tt) _)
      (λ a c ha hc. IsSettled-indent namespace l _ (dash_text-IsSettled _))

contains_braces : (k c : Text) → contains (trim_space (k ++ (codes ": {{" ++ c))) open_braces ≡ true
contains_braces k c =
    rw
      (
        ← append_assoc k (codes ": ") (codes "{{" ++ c),
        trim_space-append (k ++ codes ": ") (b'{' ∷ c) b'{' (unfold is_space in refl),
        trim_space_right-append [] c b'{' (unfold is_space in refl),
      )
      (contains-append (trim_space_left (k ++ codes ": ")) _ open_braces
        (unfold has_prefix in refl))

ca_line-IsSettled : (l : Text) → IsSettled namespace l → IsSettled namespace (ca_line l)
ca_line-IsSettled l =
    ca_line-of (IsSettled namespace) (λ s. Unit {0}) l (λ s sep q. All-intro _ (λ s. tt) _)
      (λ s q. tt) (λ k c hk hc. IsSettled-indent namespace l _ (λ h. contains_braces k _)) tt

-- What each kind does behind `replaceNamespace` keeps the namespaces settled.
module _ (raw : Text) (old : Settles namespace raw) where
  metadata_step : (name : Text) → Settles namespace (replace_service_account_metadata raw name)
  unfolding replace_service_account_metadata
  metadata_step name =
      on_lines-AllLines (IsSettled namespace) (metadata_lines name false) raw
        (blank-IsSettled namespace) (metadata_lines-KeepsLines name)
        (metadata_lines-All (IsSettled namespace) name account_lines-IsSettled false _ old)

  config_map_step : Settles namespace (inject_config_map_values raw)
  unfolding inject_config_map_values
  config_map_step =
      on_lines-AllLines (IsSettled namespace) (flat_map config_map_lines) raw
        (blank-IsSettled namespace)
        (All-flat_map IsLine IsLine config_map_lines config_map_lines-IsLine)
        (All-flat_map (IsSettled namespace) (IsSettled namespace) config_map_lines
          config_map_lines-IsSettled _ old)

  subjects_step :
      (k text : Text)
      → IsLine text
      → IsSettled namespace text
      → Settles namespace (on_lines (subject_lines (set_field k text) false) raw)
  subjects_step k text fits settled =
      on_lines-AllLines (IsSettled namespace) (subject_lines (set_field k text) false) raw
        (blank-IsSettled namespace)
        (subject_lines-All IsLine (set_field k text) (λ l. set_field-IsLine k text l fits) false)
        (subject_lines-All (IsSettled namespace) (set_field k text)
          (λ l. set_field_other namespace k text l settled) false _ old)

  dns_step : Settles namespace (replace_certificate_dns_names raw)
  unfolding replace_certificate_dns_names
  dns_step =
      on_lines-AllLines (IsSettled namespace) (dns_lines false) raw (blank-IsSettled namespace)
        dns_lines-KeepsLines (dns_lines-All (IsSettled namespace) dns_entry-IsSettled false _ old)

  webhook_step : Settles namespace (on_lines (map ca_line) raw)
  webhook_step =
      on_lines-AllLines (IsSettled namespace) (map ca_line) raw (blank-IsSettled namespace)
        (All-map IsLine IsLine ca_line ca_line-IsLine)
        (All-map (IsSettled namespace) (IsSettled namespace) ca_line ca_line-IsSettled _ old)

-- The function succeeds, with a template whose namespaces are all settled.
abbrev pub Renders : Result Text → Type 0
Renders r = (out : Text) × (r ≡ ok out) × Settles namespace out

if_Renders : (b : Bool) (r s : Result Text) → Renders r → Renders s → Renders (if b then r else s)
if_Renders true r s hr hs = hr
if_Renders false r s hr hs = hs

module _ (lib : Libraries) (obj : Fields) {raw : Text} (marshalled : lib.marshal obj ≡ ok raw) where
  service_account-Renders : Renders (transform_service_account lib obj)
  unfolding transform_service_account
  service_account-Renders =
      (_, rw marshalled, metadata_step _ (namespace_own (trim_space raw)) (lib.get_name obj))

  config_map-Renders : Renders (transform_config_map lib obj)
  unfolding transform_config_map
  config_map-Renders = (_, rw marshalled, config_map_step _ (namespace_own (trim_space raw)))

  role_binding-Renders : Renders (transform_role_binding lib obj)
  unfolding transform_role_binding replace_subjects_namespace replace_subjects_service_account
  role_binding-Renders = (
    _,
    rw marshalled,
    subjects_step _
        (subjects_step _ (namespace_own (trim_space raw)) yaml_field_namespace tpl_release_namespace
          refl (release_text-IsSettled namespace))
        yaml_field_name account_name_text refl account_name_text-IsSettled,
  )

  webhook-Renders : Renders (transform_webhook lib obj)
  unfolding transform_webhook replace_webhook_namespace
  webhook-Renders = (_, rw marshalled, webhook_step _ (namespace_own (trim_space raw)))

  certificate-Renders : Renders (transform_certificate lib obj)
  unfolding transform_certificate
  certificate-Renders = (_, rw marshalled, dns_step _ (namespace_own (trim_space raw)))

  generic-Renders : is_empty (lib.get_namespace obj) ≡ false → Renders (transform_generic lib obj)
  unfolding transform_generic
  generic-Renders h =
      (replace_namespace (trim_space raw), rw (marshalled, h), namespace_own (trim_space raw))

  deployment-Renders : Renders (transform_deployment lib obj)
  deployment-Renders =
      let (out, e, h) = transform_deployment-Settles lib obj marshalled in (out, e, h namespace)

-- An object that names a namespace and can be marshalled is rendered, whatever its kind, and each
-- line of its template that begins with `namespace:` holds a Helm expression.
pub transform_resource-Settles :
    (lib : Libraries) (resource_gvk : Gvk) (obj : Fields) {raw : Text}
    → lib.marshal obj ≡ ok raw
    → is_empty (lib.get_namespace obj) ≡ false
    → Renders (transform_resource lib resource_gvk obj)
unfolding transform_resource
transform_resource-Settles lib g obj m h =
    if_Renders (same_gvk g lib.deployment) _ _ (deployment-Renders lib obj m) (
      if_Renders (same_gvk g lib.service_account) _ _ (service_account-Renders lib obj m) (
        if_Renders (same_gvk g lib.config_map) _ _ (config_map-Renders lib obj m) (
          if_Renders (same_gvk g lib.cluster_role_binding || same_gvk g lib.role_binding) _ _
            (role_binding-Renders lib obj m)
            (if_Renders
              (same_gvk g lib.mutating_webhook_configuration
                || same_gvk g lib.validating_webhook_configuration)
              _ _ (webhook-Renders lib obj m)
              (if_Renders (same_gvk g lib.certificate) _ _ (certificate-Renders lib obj m)
                (generic-Renders lib obj m h))))))
