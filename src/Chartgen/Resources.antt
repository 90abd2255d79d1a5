-- ===== src/Chartgen/Resources.antt =====
-- `replaceResources` of cmd/chartgen/chart.go: two nested `for` loops over one index. The index only
-- moves forward, so it is the list of the lines that are left.
pub mod Block
use opendatahub_ai_gateway_o.Base.{
  ℕ, zero, suc, ◌+◌, ◌-◌, Bool, ◌||◌, List, [], ◌∷◌, ◌++◌, Option, none, some, leb, if◌then◌else◌,
  length,
}
use opendatahub_ai_gateway_o.Chartgen.Marks.{yaml_field_resources, on_lines, format_decimal}
use opendatahub_ai_gateway_o.Text.{Text, codes, equal, trim_left, trim_space, indent_of}

-- `strings.TrimSpace(lines[i]) == "" || lineIndent >= baseIndent`
unfoldable pub in_block : ℕ → Text → Bool
in_block base_indent line =
    equal (trim_space line) [] || leb base_indent (length line - length (trim_left line))

-- The inner loop.
unfoldable pub skip_block : ℕ → List Text → List Text
unfolding in_block
skip_block base_indent [] = []
skip_block base_indent (line ∷ rest) =
    let skipped = skip_block base_indent rest in
    if in_block base_indent line then skipped else line ∷ rest

-- The two lines that stand for the block.
unfoldable pub resources_text : Text → List Text
unfolding format_decimal
resources_text indent =
    (indent ++ codes "resources:")
    ∷ (indent
        ++ (codes "  {{- toYaml .Values.resources | nindent "
            ++ (format_decimal (length indent + 2) ++ codes " }}")))
    ∷ []

abbrev pub after {ℓ} : {A : Type ℓ} → List A → Option (List A) → Option (List A)
after out none = none
after out (some rest) = some (out ++ rest)

-- The outer loop, on fuel; `none` means that the fuel ran out.
unfoldable pub resource_loop : ℕ → List Text → Option (List Text)
unfolding skip_block resources_text
resource_loop zero lines = none
resource_loop (suc fuel) [] = some []
resource_loop (suc fuel) (line ∷ rest) =
    let indent = indent_of line in
    let block =
      after (resources_text indent) (resource_loop fuel (skip_block (length indent + 2) rest)) in
    let plain = after (line ∷ []) (resource_loop fuel rest) in
    if equal (trim_space line) yaml_field_resources then block else plain

abbrev pub or_nil {ℓ} : {A : Type ℓ} → Option (List A) → List A
or_nil none = []
or_nil (some out) = out

-- Every round of the outer loop takes a line at least, so this fuel is enough.
unfoldable pub resource_lines : List Text → List Text
unfolding resource_loop
resource_lines lines = or_nil (resource_loop (suc (length lines)) lines)

unfoldable pub replace_resources : Text → Text
unfolding on_lines resource_lines
replace_resources = on_lines resource_lines
