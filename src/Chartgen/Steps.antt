-- ===== src/Chartgen/Steps.antt =====
-- Each step of `transformDeployment` settles its field and leaves the others settled.
use mathlib.Core.List.{flat_map}
use opendatahub_ai_gateway_o.Base.{
  not, ◌&&◌, [], ◌∷◌, ◌++◌, map, ◌≢◌, inl, inr, none, ◌≡◌, refl, ◌∙◌, Bool-cases, All, All-map,
  All-flat_map,
}
use opendatahub_ai_gateway_o.Chartgen.Fields.{
  image_text, always_text, service_account_text, replicas_text, image_lines, pull_secret_texts,
  pull_secret_lines, replace_namespace, replace_image_field, replace_replicas,
  replace_service_account_name, add_image_pull_secrets,
}
use opendatahub_ai_gateway_o.Chartgen.Marks.Laws.{
  AllLines, on_lines-AllLines, set_field-IsLine, indent-IsLine, below-IsLine,
}
use opendatahub_ai_gateway_o.Chartgen.Marks.{
  tpl_release_namespace, yaml_field_service_account_name, yaml_field_image,
  yaml_field_image_pull_policy, open_braces, on_lines, set_field,
}
use opendatahub_ai_gateway_o.Chartgen.Resources.Block.{
  resource_lines-KeepsLines, resource_lines-scan, resource_scan-All,
}
use opendatahub_ai_gateway_o.Chartgen.Resources.{replace_resources, resources_text, resource_lines}
use opendatahub_ai_gateway_o.Chartgen.Settled.{
  Field, namespace, image_pull_policy, replicas, service_account_name, key, IsSettled, IsSettledBut,
  IsSettled-indent, set_field_own, set_field_other, image_lines-IsSettled,
  pull_secret_lines-IsSettled,
}
use opendatahub_ai_gateway_o.Text.Lines.{IsLine, split-IsLine}
use opendatahub_ai_gateway_o.Text.{
  Text, codes, has_prefix, contains, trim_space, trim_space_right, is_space, indent_of,
}
use opendatahub_ai_gateway_o.Text.Trim.{trim_space-indent, trim_space_first}

-- Every line of the text is settled for the field.
abbrev pub Settles : Field → Text → Type 0
Settles f = AllLines (IsSettled f)

pub blank-IsSettled : (f : Field) → IsSettled f []
unfolding has_prefix trim_space
blank-IsSettled namespace h = cc
blank-IsSettled _ h = cc

pub release_text-IsSettled : (f : Field) → IsSettled f tpl_release_namespace
unfolding has_prefix contains trim_space
release_text-IsSettled namespace h = cc
release_text-IsSettled _ h = cc

replicas_text-IsSettled : (f : Field) → IsSettled f replicas_text
unfolding has_prefix contains trim_space
replicas_text-IsSettled namespace h = cc
replicas_text-IsSettled _ h = cc

account_text-IsSettled : (f : Field) → IsSettled f service_account_text
unfolding has_prefix contains trim_space
account_text-IsSettled namespace h = cc
account_text-IsSettled _ h = cc

header_text-IsSettled : (f : Field) → IsSettled f (codes "resources:")
unfolding has_prefix contains trim_space
header_text-IsSettled namespace h = cc
header_text-IsSettled _ h = cc

trim_space_brace : (s : Text) → trim_space (codes "  {" ++ s) ≡ b'{' ∷ trim_space_right s
unfolding is_space
trim_space_brace s =
    trim_space-indent (codes "  ") (b'{' ∷ s) (refl, (refl, tt)) ∙ trim_space_first b'{' s refl

-- A text that begins with a brace behind two spaces names no field.
pub brace_text-IsSettled : (f : Field) (s : Text) → IsSettled f (codes "  {" ++ s)
unfolding has_prefix
brace_text-IsSettled namespace s = rw trim_space_brace (λ h. cc)
brace_text-IsSettled _ s = rw trim_space_brace (λ h. cc)

resources_text-IsSettled :
    (f : Field) (line : Text) → All (IsSettled f) (resources_text (indent_of line))
unfolding resources_text
resources_text-IsSettled f line = (
  IsSettled-indent f line (codes "resources:") (header_text-IsSettled f),
  (IsSettled-indent f line _ (brace_text-IsSettled f _), tt),
)

-- A step that sets one field settles it, and leaves the others settled.
module _ (f g : Field) (text : Text) (fits : IsLine text) (settled : IsSettled f text)
    (raw : Text) where
  set_all_own : f ≢ image_pull_policy → Settles f (on_lines (map (set_field (key f) text)) raw)
  set_all_own ne =
      on_lines-AllLines (IsSettled f) (map (set_field (key f) text)) raw (blank-IsSettled f)
        (All-map IsLine IsLine _ (λ l. set_field-IsLine (key f) text l fits))
        (All-map IsLine (IsSettled f) _ (λ l h. set_field_own f text l ne settled) _
          (split-IsLine raw))

  pub set_all_other : Settles f raw → Settles f (on_lines (map (set_field (key g) text)) raw)
  set_all_other old =
      on_lines-AllLines (IsSettled f) (map (set_field (key g) text)) raw (blank-IsSettled f)
        (All-map IsLine IsLine _ (λ l. set_field-IsLine (key g) text l fits))
        (All-map (IsSettled f) (IsSettled f) _ (λ l. set_field_other f (key g) text l settled) _
          old)

pub namespace_own : (raw : Text) → Settles namespace (replace_namespace raw)
unfolding replace_namespace
namespace_own raw =
    set_all_own namespace namespace tpl_release_namespace refl (release_text-IsSettled namespace)
      raw (cc)

pub replicas_own : (raw : Text) → Settles replicas (replace_replicas raw)
unfolding replace_replicas
replicas_own raw =
    set_all_own replicas replicas replicas_text refl (replicas_text-IsSettled replicas) raw (cc)

pub account_own : (raw : Text) → Settles service_account_name (replace_service_account_name raw)
unfolding replace_service_account_name
account_own raw =
    set_all_own service_account_name service_account_name service_account_text refl
      (account_text-IsSettled service_account_name) raw (cc)

pub image_lines-IsLine : (l : Text) → IsLine l → All IsLine (image_lines l)
unfolding image_lines
image_lines-IsLine l h =
    elim (Bool-cases
      (has_prefix (trim_space l) yaml_field_image && not (contains (trim_space l) open_braces))) [
        | inl e ↦ rw e (indent-IsLine l image_text refl, (indent-IsLine l always_text refl, tt))
        | inr e ↦ rw e (elim (Bool-cases (has_prefix (trim_space l) yaml_field_image_pull_policy)) [
          | inl p ↦ rw p tt
          | inr p ↦ rw p (h, tt)
        ])
      ]

pub pull_secret_lines-IsLine : (l : Text) → IsLine l → All IsLine (pull_secret_lines l)
unfolding pull_secret_lines
pull_secret_lines-IsLine l h =
    elim (Bool-cases (has_prefix (trim_space l) yaml_field_service_account_name)) [
      | inl e ↦ rw e (h, below-IsLine l pull_secret_texts (refl, (refl, (refl, (refl, tt)))))
      | inr e ↦ rw e (h, tt)
    ]

module _ (f : Field) (raw : Text) where
  pub image_step : AllLines (IsSettledBut f) raw → Settles f (replace_image_field raw)
  unfolding replace_image_field
  image_step old =
      on_lines-AllLines (IsSettled f) (flat_map image_lines) raw (blank-IsSettled f)
        (All-flat_map IsLine IsLine _ image_lines-IsLine)
        (All-flat_map (IsSettledBut f) (IsSettled f) _ (image_lines-IsSettled f) _ old)

  pub replicas_step : Settles f raw → Settles f (replace_replicas raw)
  unfolding replace_replicas
  replicas_step = set_all_other f replicas replicas_text refl (replicas_text-IsSettled f) raw

  pub resources_step : Settles f raw → Settles f (replace_resources raw)
  unfolding replace_resources
  resources_step old =
      on_lines-AllLines (IsSettled f) resource_lines raw (blank-IsSettled f)
        resource_lines-KeepsLines
        (rw resource_lines-scan
          (resource_scan-All (IsSettled f) (resources_text-IsSettled f) none _ old))

  pub account_step : Settles f raw → Settles f (replace_service_account_name raw)
  unfolding replace_service_account_name
  account_step =
      set_all_other f service_account_name service_account_text refl (account_text-IsSettled f) raw

  pub pull_secret_step : Settles f raw → Settles f (add_image_pull_secrets raw)
  unfolding add_image_pull_secrets
  pull_secret_step old =
      on_lines-AllLines (IsSettled f) (flat_map pull_secret_lines) raw (blank-IsSettled f)
        (All-flat_map IsLine IsLine pull_secret_lines pull_secret_lines-IsLine)
        (All-flat_map (IsSettled f) (IsSettled f) pull_secret_lines (pull_secret_lines-IsSettled f)
          _ old)
