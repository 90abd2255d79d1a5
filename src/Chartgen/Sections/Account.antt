-- ===== src/Chartgen/Sections/Account.antt =====
-- Which lines `replaceServiceAccountMetadata` changes.
use opendatahub_ai_gateway_o.Base.{true, false, List, [], ◌∷◌, ◌++◌, ◌≡◌, refl, ap, ◌∙◌, All}
use opendatahub_ai_gateway_o.Text.Parts.{trim_space_right-append}
use opendatahub_ai_gateway_o.Text.Trim.{IsSpaces, trim_space-indent, trim_space_first}
use opendatahub_ai_gateway_o.Text.{
  Text, codes, has_prefix, trim_space, trim_space_right, equal, is_space,
}

abbrev pub NoHeader : Text → Type 0
NoHeader line = equal (trim_space line) (codes "metadata:") ≡ false

-- An indented line that is no name.
abbrev pub IsField : Text → Type 0
IsField line =
    NoHeader line
    × (has_prefix line (codes " ") ≡ true)
    × (has_prefix (trim_space line) (codes "name:") ≡ false)

-- A line that ends the section.
abbrev pub IsTop : Text → Type 0
IsTop line =
    (has_prefix line (codes " ") ≡ false)
    × (has_prefix line (codes "\t") ≡ false)
    × (equal (trim_space line) [] ≡ false)

-- The lines behind the fields: none, or another section.
abbrev pub IsRest : List Text → Type 0
IsRest [] = Unit
IsRest (line ∷ lines) = IsTop line × All NoHeader (line ∷ lines)

module _ (name : Text) where
  -- The line of the name behind an indentation.
  abbrev pub name_line : Text → Text
  name_line i = i ++ (codes "name: " ++ name)

  pub trim_name_line :
      (i : Text)
      → IsSpaces i
      → trim_space_right (codes " " ++ name) ≡ codes " " ++ name
      → trim_space (name_line i) ≡ codes "name: " ++ name
  unfolding is_space
  trim_name_line i h e =
      trim_space-indent i (codes "name: " ++ name) h
      ∙ trim_space_first b'n' (codes "ame: " ++ name) refl
      ∙ ap (λ t. b'n' ∷ t) (trim_space_right-append (codes "ame") (codes " " ++ name) b':' refl)
      ∙ ap (λ t. codes "name:" ++ t) e
