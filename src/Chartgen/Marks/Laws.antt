-- ===== src/Chartgen/Marks/Laws.antt =====
-- What holds of every rewriting loop: how its lines come back when its result is split again.
use opendatahub_ai_gateway_o.Base.{
  ℕ, zero, suc, ◌+◌, ◌/◌, ◌%◌, List, [], ◌∷◌, ◌++◌, ◌≡◌, ◌≢◌, refl, ◌∙◌, arith, All, All-map,
}
use opendatahub_ai_gateway_o.Chartgen.Marks.{
  on_lines, set_field, below, format_onto, format_decimal,
}
use opendatahub_ai_gateway_o.Text.Lines.{
  IsLine, has_char-append, split-IsLine, split-join, join-split,
}
use opendatahub_ai_gateway_o.Text.Trim.{trim_space-indent, indent_of-IsSpaces, IsSpaces}
use opendatahub_ai_gateway_o.Text.{Text, newline, trim_space, indent_of, split, join}

-- Every line of the text satisfies the predicate.
abbrev pub AllLines : (Text → Type 0) → Text → Type 0
AllLines P raw = All P (split raw newline)

-- A loop that puts no line break into a line.
abbrev pub KeepsLines : (List Text → List Text) → Type 0
KeepsLines f = (ls : List Text) → All IsLine ls → All IsLine (f ls)

split_joined :
    (P : Text → Type 0) (ls : List Text)
    → P []
    → All IsLine ls
    → All P ls
    → All P (split (join ls (newline ∷ [])) newline)
split_joined P [] e a h = unfold join split in (e, tt)
split_joined P (l ∷ ls) e a h = rw (split-join (l ∷ ls) (cc) a) h

pub on_lines-AllLines :
    (P : Text → Type 0) (f : List Text → List Text) (raw : Text)
    → P []
    → KeepsLines f
    → All P (f (split raw newline))
    → AllLines P (on_lines f raw)
unfolding on_lines
on_lines-AllLines P f raw e k h =
    split_joined P (f (split raw newline)) e (k _ (split-IsLine raw)) h

pub split-on_lines :
    (f : List Text → List Text) (raw : Text)
    → f (split raw newline) ≢ []
    → KeepsLines f
    → split (on_lines f raw) newline ≡ f (split raw newline)
unfolding on_lines
split-on_lines f raw ne k = split-join _ ne (k _ (split-IsLine raw))

-- A loop that changes no line leaves the text.
pub on_lines_same :
    (f : List Text → List Text) (raw : Text)
    → f (split raw newline) ≡ split raw newline
    → on_lines f raw ≡ raw
unfolding on_lines
on_lines_same f raw e = rw e (join-split raw newline)

IsSpaces-IsLine : (s : Text) → IsSpaces s → IsLine s
IsSpaces-IsLine [] h = refl
IsSpaces-IsLine (c ∷ s) h = ground (arith, IsSpaces-IsLine s h.1)

pub indent-IsLine : (l text : Text) → IsLine text → IsLine (indent_of l ++ text)
indent-IsLine l text h =
    has_char-append newline (indent_of l) text
    ∙ ground (arith, IsSpaces-IsLine (indent_of l) (indent_of-IsSpaces l))

pub trim_space-indent_of : (l text : Text) → trim_space (indent_of l ++ text) ≡ trim_space text
trim_space-indent_of l text = trim_space-indent (indent_of l) text (indent_of-IsSpaces l)

pub set_field-IsLine : (key text l : Text) → IsLine text → IsLine l → IsLine (set_field key text l)
unfolding set_field
set_field-IsLine key text l t h = ground (arith, indent-IsLine l text t)

format_onto-IsLine : (fuel n : ℕ) (out : Text) → IsLine out → IsLine (format_onto fuel n out)
unfolding format_onto
format_onto-IsLine zero n out h = h
format_onto-IsLine (suc fuel) n out h =
    ground (arith, format_onto-IsLine fuel (n / 10) ((b'0' + n % 10) ∷ out))

pub format_decimal-IsLine : (n : ℕ) → IsLine (format_decimal n)
unfolding format_decimal
format_decimal-IsLine n = format_onto-IsLine (suc n) n [] refl

pub below-IsLine :
    (l : Text) (texts : List Text) → All IsLine texts → All IsLine (below (indent_of l) texts)
below-IsLine l = All-map IsLine IsLine (λ text. indent_of l ++ text) (indent-IsLine l)
