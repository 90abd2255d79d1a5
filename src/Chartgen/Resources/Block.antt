-- ===== src/Chartgen/Resources/Block.antt =====
-- The nested loops of `replaceResources` against one pass over the lines that remembers the
-- indentation of the block it is in.
use opendatahub_ai_gateway_o.Base.{
  ℕ, zero, suc, ◌+◌, ◌≤◌, ◌<◌, Bool, true, false, List, [], ◌∷◌, ◌++◌, Option, none, some, ◌≡◌,
  refl, inl, inr, arith, Bool-cases, All, All-append, if◌then◌else◌, length,
}
use opendatahub_ai_gateway_o.Chartgen.Marks.Laws.{KeepsLines, indent-IsLine, format_decimal-IsLine}
use opendatahub_ai_gateway_o.Chartgen.Marks.{yaml_field_resources, format_decimal}
use opendatahub_ai_gateway_o.Chartgen.Resources.{
  in_block, skip_block, resources_text, resource_loop, resource_lines,
}
use opendatahub_ai_gateway_o.Text.Lines.{IsLine, has_char-append}
use opendatahub_ai_gateway_o.Text.{Text, newline, equal, codes, trim_space, indent_of}

abbrev pub is_header : Text → Bool
is_header line = equal (trim_space line) yaml_field_resources

abbrev pub base_of : Text → ℕ
base_of line = length (indent_of line) + 2

-- `none`: outside a block; `some n`: in a block whose lines are indented by `n` or more.
pub resource_scan : Option ℕ → List Text → List Text
resource_scan block [] = []
resource_scan none (line ∷ rest) =
    let entered = resources_text (indent_of line) ++ resource_scan (some (base_of line)) rest in
    let plain = line ∷ resource_scan none rest in if is_header line then entered else plain
resource_scan (some base) (line ∷ rest) =
    let skipped = resource_scan (some base) rest in
    let entered = resources_text (indent_of line) ++ resource_scan (some (base_of line)) rest in
    let plain = line ∷ resource_scan none rest in
    if in_block base line then skipped else if is_header line then entered else plain

scan-skip_block :
    (base : ℕ) (ls : List Text)
    → resource_scan (some base) ls ≡ resource_scan none (skip_block base ls)
unfolding resource_scan skip_block
scan-skip_block base [] = refl
scan-skip_block base (line ∷ rest) = elim (Bool-cases (in_block base line)) [
  | inl e ↦ rw e (scan-skip_block base rest)
  | inr e ↦ rw e
]

length-skip_block : (base : ℕ) (ls : List Text) → length (skip_block base ls) ≤ length ls
unfolding skip_block
length-skip_block base [] = omega arith
length-skip_block base (line ∷ rest) = elim (Bool-cases (in_block base line)) [
  | inl e ↦ rw e (omega (arith, length-skip_block base rest))
  | inr e ↦ rw e (omega arith)
]

-- With more fuel than lines the nested loops end, with the result of the one pass.
pub resource_loop-scan :
    (fuel : ℕ) (ls : List Text)
    → length ls < fuel
    → resource_loop fuel ls ≡ some (resource_scan none ls)
unfolding resource_loop resource_scan
resource_loop-scan zero ls h = absurd (omega arith)
resource_loop-scan (suc fuel) [] h = refl
resource_loop-scan (suc fuel) (line ∷ rest) h = elim (Bool-cases (is_header line)) [
  | inl e ↦ rw (
    e,
    resource_loop-scan fuel (skip_block (base_of line) rest)
        (omega (arith, length-skip_block (base_of line) rest)),
    scan-skip_block,
  )
  | inr e ↦ rw (e, resource_loop-scan fuel rest (omega arith))
]

pub resource_lines-scan : (ls : List Text) → resource_lines ls ≡ resource_scan none ls
unfolding resource_lines
resource_lines-scan ls = rw (resource_loop-scan (suc (length ls)) ls (omega arith))

-- What holds of every line and of the lines put in holds of the result.
pub resource_scan-All :
    (P : Text → Type 0)
    → ((line : Text) → All P (resources_text (indent_of line)))
    → (block : Option ℕ) (ls : List Text) → All P ls
    → All P (resource_scan block ls)
unfolding resource_scan
resource_scan-All P new block [] a = tt
resource_scan-All P new none (line ∷ rest) a = elim (Bool-cases (is_header line)) [
  | inl e ↦ rw e (
      All-append P (resources_text (indent_of line)) _ (new line)
        (resource_scan-All P new (some (base_of line)) rest a.1))
  | inr e ↦ rw e (a.0, resource_scan-All P new none rest a.1)
]
resource_scan-All P new (some base) (line ∷ rest) a = elim (Bool-cases (in_block base line)) [
  | inl b ↦ rw b (resource_scan-All P new (some base) rest a.1)
  | inr b ↦ rw b (elim (Bool-cases (is_header line)) [
    | inl e ↦ rw e (
        All-append P (resources_text (indent_of line)) _ (new line)
          (resource_scan-All P new (some (base_of line)) rest a.1))
    | inr e ↦ rw e (a.0, resource_scan-All P new none rest a.1)
  ])
]

resources_text-IsLine : (line : Text) → All IsLine (resources_text (indent_of line))
unfolding resources_text
resources_text-IsLine line = (
  indent-IsLine line (codes "resources:") refl,
  (
    indent-IsLine line _ (
        rw (
          has_char-append newline (format_decimal (base_of line)) (codes " }}"),
          format_decimal-IsLine (base_of line),
        )),
    tt,
  ),
)

pub resource_lines-KeepsLines : KeepsLines resource_lines
resource_lines-KeepsLines ls a =
    rw resource_lines-scan (resource_scan-All IsLine resources_text-IsLine none ls a)

abbrev pub IsPlain : Text → Type 0
IsPlain line = is_header line ≡ false

-- The list is empty or begins with a line outside the block.
abbrev pub EndsBlock : ℕ → List Text → Type 0
EndsBlock base [] = Unit
EndsBlock base (line ∷ rest) = in_block base line ≡ false

skip_whole_block :
    (base : ℕ) (block rest : List Text)
    → All (λ l. in_block base l ≡ true) block
    → EndsBlock base rest
    → skip_block base (block ++ rest) ≡ rest
unfolding skip_block
skip_whole_block base [] [] a e = refl
skip_whole_block base [] (line ∷ rest) a e = rw e
skip_whole_block base (l ∷ block) rest a e = rw a.0 (skip_whole_block base block rest a.1 e)

scan_plain :
    (pre rest : List Text)
    → All IsPlain pre
    → resource_scan none (pre ++ rest) ≡ pre ++ resource_scan none rest
unfolding resource_scan
scan_plain [] rest a = refl
scan_plain (l ∷ pre) rest a = rw (a.0, scan_plain pre rest a.1)

-- The lines before the first `resources:` line stay; it and the lines of its block, which are blank
-- or indented two deeper or more, become the two lines of the chart; the loop goes on with the
-- first line behind the block.
pub resource_lines_block :
    (pre : List Text) (header : Text) (block rest : List Text)
    → All IsPlain pre
    → is_header header ≡ true
    → All (λ l. in_block (base_of header) l ≡ true) block
    → EndsBlock (base_of header) rest
    → resource_lines (pre ++ header ∷ (block ++ rest))
      ≡ pre ++ (resources_text (indent_of header) ++ resource_lines rest)
unfolding resource_scan
resource_lines_block pre header block rest p h b e = rw resource_lines-scan (
    rw (
      scan_plain pre (header ∷ (block ++ rest)) p,
      h,
      scan-skip_block,
      skip_whole_block _ block rest b e,
      resource_lines-scan,
    ))
