-- ===== src/Chartgen/Blocks.antt =====
-- Helm's blocks in a template: an action such as `{{- with … }}` opens one, and `{{- end }}` closes it.
-- cmd/chartgen puts every such action at the start of a line.
pub mod Neutral
pub mod Webhook
pub mod Added
use opendatahub_ai_gateway_o.Text.Lines.{IsLine, split-join, split-IsLine}
use opendatahub_ai_gateway_o.Chartgen.Marks.Laws.{KeepsLines, trim_space-indent_of}
use opendatahub_ai_gateway_o.Chartgen.Marks.{on_lines, below}
use mathlib.Core.List.{flat_map}
use opendatahub_ai_gateway_o.Base.{
  ℕ, zero, suc, ◌+◌, ◌-◌, ◌*◌, ◌/◌, ◌%◌, ◌≤◌, ◌<◌, Bool, true, false, not, ◌&&◌, ◌||◌, List, [],
  ◌∷◌, ◌++◌, map, append-nil, append_assoc, ◌≢◌, ◌↔◌, ◌⊎◌, inl, inr, Option, none, some, ◌≡◌, refl,
  sym, ap, ◌∙◌, arith, ltb, leb, ◌==◌, if◌then◌else◌, ==_iff, Bool-cases, &&-true, length, take,
  length-append, take-append_length, sub_length, All, All-append, All-intro, All-map, All-flat_map,
  Result, ok, err, ◌>>=◌, map_err, >>=-eq-ok, ok-injective, err-ne-ok, map_err-eq-ok,
  some-injective, none-ne-some,
}
use opendatahub_ai_gateway_o.Text.{
  indent_of, Text, codes, has_prefix, equal, trim_space, split, newline, join,
}

-- The trimmed line is an action that opens a block.
unfoldable pub opens : Text → Bool
unfolding has_prefix
opens trimmed =
    has_prefix trimmed (codes "{{- with")
    || has_prefix trimmed (codes "{{- range")
    || has_prefix trimmed (codes "{{- if")
    || has_prefix trimmed (codes "{{- define")

unfoldable pub closes : Text → Bool
unfolding has_prefix
closes trimmed = has_prefix trimmed (codes "{{- end")

unfoldable pub close_block : ℕ → Option ℕ
close_block zero = none
close_block (suc open_blocks) = some open_blocks

-- The number of open blocks behind a line; `none`: a block was closed that was not open.
unfoldable pub behind_line : Text → Option ℕ → Option ℕ
unfolding opens closes close_block
behind_line trimmed none = none
behind_line trimmed (some open_blocks) =
    if opens trimmed
    then some (suc open_blocks)
    else if closes trimmed
    then close_block open_blocks
    else some open_blocks

unfoldable pub behind_lines : List Text → Option ℕ → Option ℕ
unfolding behind_line
behind_lines [] before = before
behind_lines (line ∷ lines) before = behind_lines lines (behind_line (trim_space line) before)

-- Lines that close every block that they open, and no other.
abbrev pub AreBalanced : List Text → Type 0
AreBalanced lines = (open_blocks : ℕ) → behind_lines lines (some open_blocks) ≡ some open_blocks

-- The text's blocks are nested and all closed.
abbrev pub IsBalanced : Text → Type 0
IsBalanced text = AreBalanced (split text newline)

-- The line opens and closes nothing.
abbrev pub IsNeutral : Text → Type 0
IsNeutral line = (opens (trim_space line) ≡ false) × (closes (trim_space line) ≡ false)

pub behind_lines-append :
    (ls ms : List Text) (before : Option ℕ)
    → behind_lines (ls ++ ms) before ≡ behind_lines ms (behind_lines ls before)
unfolding behind_lines
behind_lines-append [] ms before = refl
behind_lines-append (l ∷ ls) ms before =
    behind_lines-append ls ms (behind_line (trim_space l) before)

-- The indentation does not matter.
pub behind_lines-below :
    (l : Text) (texts : List Text) (before : Option ℕ)
    → behind_lines (below (indent_of l) texts) before ≡ behind_lines texts before
unfolding behind_lines
behind_lines-below l [] before = refl
behind_lines-below l (t ∷ texts) before =
    ap (λ trimmed. behind_lines (below (indent_of l) texts) (behind_line trimmed before))
      (trim_space-indent_of l t)
    ∙ behind_lines-below l texts (behind_line (trim_space t) before)

pub AreBalanced-append :
    (ls ms : List Text) → AreBalanced ls → AreBalanced ms → AreBalanced (ls ++ ms)
AreBalanced-append ls ms h k n = rw (behind_lines-append ls ms (some n), h n) (k n)

pub neutral-AreBalanced : (l : Text) → IsNeutral l → AreBalanced (l ∷ [])
unfolding behind_lines behind_line
neutral-AreBalanced l (h, k) n = rw (h, k)

-- A loop that makes balanced lines of each line makes balanced lines of all.
pub flat_map-AreBalanced :
    (P : Text → Type 0) (f : Text → List Text)
    → ((l : Text) → P l → AreBalanced (f l))
    → (ls : List Text) → All P ls
    → AreBalanced (flat_map f ls)
unfolding flat_map behind_lines
flat_map-AreBalanced P f h [] a = λ n. refl
flat_map-AreBalanced P f h (l ∷ ls) a =
    AreBalanced-append (f l) (flat_map f ls) (h l a.0) (flat_map-AreBalanced P f h ls a.1)

pub neutral_lines-AreBalanced : (ls : List Text) → All IsNeutral ls → AreBalanced ls
unfolding behind_lines
neutral_lines-AreBalanced [] a = λ n. refl
neutral_lines-AreBalanced (l ∷ ls) a =
    AreBalanced-append (l ∷ []) ls (neutral-AreBalanced l a.0) (neutral_lines-AreBalanced ls a.1)

-- What a loop makes of a text is balanced, if its lines are.
pub on_lines-IsBalanced :
    (f : List Text → List Text) (raw : Text)
    → KeepsLines f
    → AreBalanced (f (split raw newline))
    → IsBalanced (on_lines f raw)
unfolding on_lines
on_lines-IsBalanced f raw keeps h = joined (f (split raw newline)) (keeps _ (split-IsLine raw)) h
  where
    joined : (ls : List Text) → All IsLine ls → AreBalanced ls → IsBalanced (join ls (newline ∷ []))
    joined [] a b =
        unfold join split behind_lines behind_line opens closes trim_space has_prefix equal in
        λ n. refl
    joined (l ∷ ls) a b = rw (split-join (l ∷ ls) (cc) a) b
