-- ===== src/Chartgen/Blocks/Added.antt =====
-- The functions that put blocks into a manifest close each block that they open.
use opendatahub_ai_gateway_o.Chartgen.Transform.Namespace.{config_map_lines-IsLine}
use opendatahub_ai_gateway_o.Chartgen.Steps.{pull_secret_lines-IsLine}
use opendatahub_ai_gateway_o.Chartgen.Sections.Laws.{metadata_lines-KeepsLines}
use opendatahub_ai_gateway_o.Chartgen.Fields.{
  pull_secret_texts, config_map_texts, pull_secret_lines, config_map_lines, add_image_pull_secrets,
  inject_config_map_values,
}
use opendatahub_ai_gateway_o.Chartgen.Marks.{
  below, format_decimal, yaml_field_service_account_name, yaml_field_data, yaml_field_name,
}
use opendatahub_ai_gateway_o.Chartgen.Sections.{
  account_lines, account_name_text, metadata_lines, replace_service_account_metadata,
  still_metadata,
}
use opendatahub_ai_gateway_o.Chartgen.Blocks.{
  IsNeutral, behind_lines, AreBalanced, behind_line, AreBalanced-append, opens, neutral-AreBalanced,
  closes, close_block, behind_lines-below, IsBalanced, neutral_lines-AreBalanced,
  on_lines-IsBalanced, split, IsLine, newline, flat_map-AreBalanced,
}
use mathlib.Core.List.{flat_map}
use opendatahub_ai_gateway_o.Base.{
  ◌+◌, Bool, true, false, ◌&&◌, List, [], ◌∷◌, ◌++◌, inl, inr, some, ◌≡◌, refl, ◌∙◌, if◌then◌else◌,
  Bool-cases, length, All, All-flat_map,
}
use opendatahub_ai_gateway_o.Text.{Text, codes, has_prefix, equal, trim_space, contains, indent_of}
use opendatahub_ai_gateway_o.Chartgen.Blocks.Neutral.{Neutral, to_yaml-IsNeutral}

below_neutral-AreBalanced :
    (l : Text) (rest : List Text) → IsNeutral l → AreBalanced rest → AreBalanced (l ∷ rest)
below_neutral-AreBalanced l rest h k = AreBalanced-append (l ∷ []) rest (neutral-AreBalanced l h) k

pull_secret_block : (l : Text) → AreBalanced (below (indent_of l) pull_secret_texts)
unfolding behind_lines behind_line close_block opens closes trim_space has_prefix
pull_secret_block l n = behind_lines-below l pull_secret_texts (some n)

config_map_block : (l : Text) → AreBalanced (below (indent_of l) config_map_texts)
unfolding behind_lines behind_line close_block opens closes trim_space has_prefix
config_map_block l n = behind_lines-below l config_map_texts (some n)

block_between :
    (a b c y e : Text)
    → IsNeutral a
    → opens (trim_space b) ≡ true
    → IsNeutral c
    → IsNeutral y
    → (opens (trim_space e) ≡ false) × (closes (trim_space e) ≡ true)
    → AreBalanced (a ∷ b ∷ c ∷ y ∷ e ∷ [])
unfolding behind_lines behind_line close_block
block_between a b c y e (h1, h2) o (h3, h4) (h5, h6) (h7, h8) n =
    rw (h1, h2, o, h3, h4, h5, h6, h7, h8) refl

account_block : (l : Text) → AreBalanced (account_lines (indent_of l))
unfolding account_lines opens closes trim_space has_prefix
account_block l n =
    behind_lines-below l
      (account_name_text
        ∷ codes "{{- with .Values.serviceAccount.annotations }}"
        ∷ codes "annotations:"
        ∷ (codes "  {{- toYaml . | nindent "
            ++ (format_decimal (length (indent_of l) + 2) ++ codes " }}"))
        ∷ codes "{{- end }}"
        ∷ [])
      (some n)
    ∙ block_between account_name_text (codes "{{- with .Values.serviceAccount.annotations }}")
        (codes "annotations:") _ (codes "{{- end }}") (refl, refl) refl (refl, refl)
        (to_yaml-IsNeutral
          (codes ". | nindent " ++ (format_decimal (length (indent_of l) + 2) ++ codes " }}")))
        (refl, refl) n

pull_secret_lines-AreBalanced : (l : Text) → IsNeutral l → AreBalanced (pull_secret_lines l)
unfolding pull_secret_lines
pull_secret_lines-AreBalanced l h =
    elim (Bool-cases (has_prefix (trim_space l) yaml_field_service_account_name)) [
      | inl e ↦ rw e (below_neutral-AreBalanced l _ h (pull_secret_block l))
      | inr e ↦ rw e (neutral-AreBalanced l h)
    ]

config_map_lines-AreBalanced : (l : Text) → IsNeutral l → AreBalanced (config_map_lines l)
unfolding config_map_lines
config_map_lines-AreBalanced l h = elim (Bool-cases (equal (trim_space l) yaml_field_data)) [
  | inl e ↦ rw e (below_neutral-AreBalanced l _ h (config_map_block l))
  | inr e ↦ rw e (neutral-AreBalanced l h)
]

metadata_lines-AreBalanced :
    (name : Text) (inside : Bool) (ls : List Text)
    → All IsNeutral ls
    → AreBalanced (metadata_lines name inside ls)
unfolding metadata_lines behind_lines
metadata_lines-AreBalanced name inside [] a = λ n. refl
metadata_lines-AreBalanced name inside (l ∷ ls) a =
    AreBalanced-append (new named) (metadata_lines name (still_metadata inside l) ls)
      (balanced named) (metadata_lines-AreBalanced name (still_metadata inside l) ls a.1)
  where
    named : Bool
    named =
        still_metadata inside l
        && has_prefix (trim_space l) yaml_field_name
        && contains (trim_space l) name

    new : Bool → List Text
    new b = if b then account_lines (indent_of l) else l ∷ []

    balanced : (b : Bool) → AreBalanced (new b)
    balanced true = account_block l
    balanced false = neutral-AreBalanced l a.0

module _ (raw : Text) (old : Neutral raw) where
  pub Neutral-IsBalanced : IsBalanced raw
  Neutral-IsBalanced = neutral_lines-AreBalanced (split raw newline) old

  pub pull_secrets-IsBalanced : IsBalanced (add_image_pull_secrets raw)
  unfolding add_image_pull_secrets
  pull_secrets-IsBalanced =
      on_lines-IsBalanced (flat_map pull_secret_lines) raw
        (All-flat_map IsLine IsLine pull_secret_lines pull_secret_lines-IsLine)
        (flat_map-AreBalanced IsNeutral pull_secret_lines pull_secret_lines-AreBalanced _ old)

  pub config_map-IsBalanced : IsBalanced (inject_config_map_values raw)
  unfolding inject_config_map_values
  config_map-IsBalanced =
      on_lines-IsBalanced (flat_map config_map_lines) raw
        (All-flat_map IsLine IsLine config_map_lines config_map_lines-IsLine)
        (flat_map-AreBalanced IsNeutral config_map_lines config_map_lines-AreBalanced _ old)

  pub metadata-IsBalanced : (name : Text) → IsBalanced (replace_service_account_metadata raw name)
  unfolding replace_service_account_metadata
  metadata-IsBalanced name =
      on_lines-IsBalanced (metadata_lines name false) raw (metadata_lines-KeepsLines name)
        (metadata_lines-AreBalanced name false _ old)
