-- ===== src/Chartgen/Blocks/Neutral.antt =====
-- Which functions put no action that opens or closes a block into a manifest.
use opendatahub_ai_gateway_o.Text.Parts.{trim_space_right-append}
use opendatahub_ai_gateway_o.Text.Trim.{trim_space_first, trim_space-indent}
use opendatahub_ai_gateway_o.Chartgen.Resources.Block.{
  resource_lines-KeepsLines, resource_lines-scan, resource_scan-All,
}
use opendatahub_ai_gateway_o.Chartgen.Sections.Laws.{
  dns_entry-of, subject_lines-All, dns_lines-KeepsLines, dns_lines-All,
}
use opendatahub_ai_gateway_o.Chartgen.Steps.{image_lines-IsLine}
use opendatahub_ai_gateway_o.Chartgen.Marks.{
  set_field, yaml_field_image, open_braces, yaml_field_image_pull_policy, yaml_field_namespace,
  yaml_field_replicas, yaml_field_service_account_name, yaml_field_name, tpl_release_namespace,
}
use opendatahub_ai_gateway_o.Chartgen.Resources.{resources_text, replace_resources, resource_lines}
use opendatahub_ai_gateway_o.Chartgen.Sections.{
  replace_subjects_namespace, replace_subjects_service_account, replace_certificate_dns_names,
  dns_entry, subject_lines, dns_lines, account_name_text,
}
use opendatahub_ai_gateway_o.Chartgen.Fields.{
  replace_namespace, replace_replicas, replace_service_account_name, image_lines,
  replace_image_field, image_text, always_text, replicas_text, service_account_text,
}
use opendatahub_ai_gateway_o.Text.Lines.{IsLine}
use opendatahub_ai_gateway_o.Chartgen.Blocks.{IsNeutral, opens, closes, on_lines}
use opendatahub_ai_gateway_o.Chartgen.Marks.Laws.{
  AllLines, on_lines-AllLines, trim_space-indent_of, set_field-IsLine,
}
use mathlib.Core.List.{flat_map}
use opendatahub_ai_gateway_o.Base.{
  ℕ, false, not, ◌&&◌, [], ◌∷◌, ◌++◌, map, inl, inr, none, ◌≡◌, refl, ◌==◌, Bool-cases, All,
  All-intro, All-map, All-flat_map,
}
use opendatahub_ai_gateway_o.Text.{
  Text, codes, has_prefix, trim_space, contains, indent_of, is_space,
}

abbrev pub Neutral : Text → Type 0
Neutral = AllLines IsNeutral

pub IsNeutral-indent : (l text : Text) → IsNeutral text → IsNeutral (indent_of l ++ text)
IsNeutral-indent l text h = rw trim_space-indent_of h

pub blank-IsNeutral : IsNeutral []
unfolding opens closes trim_space has_prefix
blank-IsNeutral = (refl, refl)

-- A text that begins with another character than a brace.
IsNeutral-first : (c : ℕ) (s : Text) → is_space c ≡ false → (c == b'{') ≡ false → IsNeutral (c ∷ s)
unfolding opens closes has_prefix
IsNeutral-first c s h n = rw (trim_space_first c s h) (rw n (refl, refl))

module _ (key text : Text) (fits : IsLine text) (neutral : IsNeutral text) where
  pub set_field-IsNeutral : (l : Text) → IsNeutral l → IsNeutral (set_field key text l)
  unfolding set_field
  set_field-IsNeutral l h =
      elim (Bool-cases
        (has_prefix (trim_space l) key && not (contains (trim_space l) open_braces))) [
          | inl e ↦ rw e (IsNeutral-indent l text neutral)
          | inr e ↦ rw e h
        ]

  pub set_all-Neutral :
      (raw : Text) → Neutral raw → Neutral (on_lines (map (set_field key text)) raw)
  set_all-Neutral raw h =
      on_lines-AllLines IsNeutral (map (set_field key text)) raw blank-IsNeutral
        (All-map IsLine IsLine _ (λ l. set_field-IsLine key text l fits))
        (All-map IsNeutral IsNeutral _ set_field-IsNeutral _ h)

  pub subjects-Neutral :
      (raw : Text) → Neutral raw → Neutral (on_lines (subject_lines (set_field key text) false) raw)
  subjects-Neutral raw h =
      on_lines-AllLines IsNeutral (subject_lines (set_field key text) false) raw blank-IsNeutral
        (subject_lines-All IsLine (set_field key text) (λ l. set_field-IsLine key text l fits)
          false)
        (subject_lines-All IsNeutral (set_field key text) set_field-IsNeutral false _ h)

module _ (raw : Text) (old : Neutral raw) where
  pub namespace-Neutral : Neutral (replace_namespace raw)
  unfolding replace_namespace opens closes trim_space has_prefix
  namespace-Neutral =
      set_all-Neutral yaml_field_namespace tpl_release_namespace refl (refl, refl) raw old

  replicas-Neutral : Neutral (replace_replicas raw)
  unfolding replace_replicas opens closes trim_space has_prefix
  replicas-Neutral = set_all-Neutral yaml_field_replicas replicas_text refl (refl, refl) raw old

  account-Neutral : Neutral (replace_service_account_name raw)
  unfolding replace_service_account_name opens closes trim_space has_prefix
  account-Neutral =
      set_all-Neutral yaml_field_service_account_name service_account_text refl (refl, refl) raw old

  pub subjects_namespace-Neutral : Neutral (replace_subjects_namespace raw)
  unfolding replace_subjects_namespace opens closes trim_space has_prefix
  subjects_namespace-Neutral =
      subjects-Neutral yaml_field_namespace tpl_release_namespace refl (refl, refl) raw old

  pub subjects_account-Neutral : Neutral (replace_subjects_service_account raw)
  unfolding replace_subjects_service_account opens closes trim_space has_prefix
  subjects_account-Neutral =
      subjects-Neutral yaml_field_name account_name_text refl (refl, refl) raw old

image_texts-IsNeutral : IsNeutral image_text × IsNeutral always_text
unfolding opens closes trim_space has_prefix
image_texts-IsNeutral = ((refl, refl), (refl, refl))

image_lines-IsNeutral : (l : Text) → IsNeutral l → All IsNeutral (image_lines l)
unfolding image_lines
image_lines-IsNeutral l h =
    elim (Bool-cases
      (has_prefix (trim_space l) yaml_field_image && not (contains (trim_space l) open_braces))) [
        | inl e ↦ rw e (
          IsNeutral-indent l image_text image_texts-IsNeutral.0,
          (IsNeutral-indent l always_text image_texts-IsNeutral.1, tt),
        )
        | inr e ↦ rw e (elim (Bool-cases (has_prefix (trim_space l) yaml_field_image_pull_policy)) [
          | inl p ↦ rw p tt
          | inr p ↦ rw p (h, tt)
        ])
      ]

pub to_yaml-IsNeutral : (s : Text) → IsNeutral (codes "  {{- toYaml " ++ s)
unfolding opens closes has_prefix is_space
to_yaml-IsNeutral s =
    rw
      (
        trim_space-indent (codes "  ") (codes "{{- toYaml " ++ s) (refl, (refl, tt)),
        trim_space_first b'{' (codes "{- toYaml " ++ s) refl,
        trim_space_right-append (codes "{- toYam") (b' ' ∷ s) b'l' refl,
      )
      (refl, refl)

header-IsNeutral : IsNeutral (codes "resources:")
unfolding opens closes trim_space has_prefix
header-IsNeutral = (refl, refl)

resources_text-IsNeutral : (line : Text) → All IsNeutral (resources_text (indent_of line))
unfolding resources_text
resources_text-IsNeutral line = (
  IsNeutral-indent line (codes "resources:") header-IsNeutral,
  (IsNeutral-indent line _ (to_yaml-IsNeutral _), tt),
)

image-Neutral : (raw : Text) → Neutral raw → Neutral (replace_image_field raw)
unfolding replace_image_field
image-Neutral raw old =
    on_lines-AllLines IsNeutral (flat_map image_lines) raw blank-IsNeutral
      (All-flat_map IsLine IsLine _ image_lines-IsLine)
      (All-flat_map IsNeutral IsNeutral _ image_lines-IsNeutral _ old)

resources-Neutral : (raw : Text) → Neutral raw → Neutral (replace_resources raw)
unfolding replace_resources
resources-Neutral raw old =
    on_lines-AllLines IsNeutral resource_lines raw blank-IsNeutral resource_lines-KeepsLines
      (rw resource_lines-scan (resource_scan-All IsNeutral resources_text-IsNeutral none _ old))

-- The steps of `transformDeployment` before the last.
pub rewritten-Neutral :
    (raw : Text)
    → Neutral raw
    → Neutral (
        replace_service_account_name
          (replace_resources (replace_replicas (replace_image_field (replace_namespace raw)))))
rewritten-Neutral raw old =
    account-Neutral _
      (resources-Neutral _ (replicas-Neutral _ (image-Neutral _ (namespace-Neutral raw old))))

dns_entry-IsNeutral : (l : Text) → IsNeutral l → IsNeutral (dns_entry l)
dns_entry-IsNeutral l =
    dns_entry-of IsNeutral (λ s. Unit {0}) l (All-intro _ (λ s. tt) _)
      (λ a c ha hc. IsNeutral-indent l _ (IsNeutral-first b'-' _ (unfold is_space in refl) refl))

pub dns-Neutral : (raw : Text) → Neutral raw → Neutral (replace_certificate_dns_names raw)
unfolding replace_certificate_dns_names
dns-Neutral raw old =
    on_lines-AllLines IsNeutral (dns_lines false) raw blank-IsNeutral dns_lines-KeepsLines
      (dns_lines-All IsNeutral dns_entry-IsNeutral false _ old)
