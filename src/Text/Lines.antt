-- ===== src/Text/Lines.antt =====
-- Splitting a text into lines and joining the lines again.
use opendatahub_ai_gateway_o.Base.{
  ℕ, Bool, false, ◌||◌, List, [], ◌∷◌, ◌++◌, ◌≢◌, inl, inr, ◌≡◌, refl, ap, ◌∙◌, arith, ◌==◌,
  if◌then◌else◌, ==_iff, Bool-cases, All,
}
use opendatahub_ai_gateway_o.Text.{Text, newline, cons_first, split, join}

-- The character occurs in the text.
abbrev pub has_char : ℕ → Text → Bool
has_char b [] = false
has_char b (c ∷ s) = c == b || has_char b s

-- A text with no line break in it.
abbrev pub IsLine : Text → Type 0
IsLine l = has_char newline l ≡ false

pub has_char-append : (b : ℕ) (s t : Text) → has_char b (s ++ t) ≡ (has_char b s || has_char b t)
has_char-append b [] t = refl
has_char-append b (c ∷ s) t = ground (arith, has_char-append b s t)

pub split-IsLine : (s : Text) → All IsLine (split s newline)
unfolding split
split-IsLine [] = (refl, tt)
split-IsLine (c ∷ s) = first c (split s newline) (split-IsLine s)
  where
    first :
        (c : ℕ) (ls : List Text)
        → All IsLine ls
        → All IsLine (if c == newline then [] ∷ ls else cons_first c ls)
    first c [] h = ground arith
    first c (l ∷ ls) h = ground arith

pub split-ne-nil : (s : Text) (sep : ℕ) → split s sep ≢ []
unfolding split
split-ne-nil [] sep = cc
split-ne-nil (c ∷ s) sep = ground (arith, split-ne-nil s sep)

join-cons_first :
    (c : ℕ) (ls : List Text) (sep : Text) → join (cons_first c ls) sep ≡ c ∷ join ls sep
unfolding join
join-cons_first c [] sep = refl
join-cons_first c (l ∷ []) sep = refl
join-cons_first c (l ∷ k ∷ ls) sep = refl

join-cons-nil : (ls : List Text) (sep : Text) → ls ≢ [] → join ([] ∷ ls) sep ≡ sep ++ join ls sep
unfolding join
join-cons-nil [] sep h = absurd (h refl)
join-cons-nil (l ∷ ls) sep h = refl

-- Joining the parts of a split gives the text back.
pub join-split : (s : Text) (sep : ℕ) → join (split s sep) (sep ∷ []) ≡ s
unfolding split
join-split [] sep = unfold join in refl
join-split (c ∷ s) sep = elim (Bool-cases (c == sep)) [
  | inl e ↦ rw e (
      join-cons-nil (split s sep) (sep ∷ []) (split-ne-nil s sep)
      ∙ cc (join-split s sep, (==_iff c sep).0 e))
  | inr e ↦ rw e (join-cons_first c (split s sep) (sep ∷ []) ∙ ap (◌∷◌ c) (join-split s sep))
]

split_line : (l : Text) → IsLine l → split l newline ≡ l ∷ []
unfolding split
split_line [] h = refl
split_line (c ∷ l) h = ground (arith, split_line l)

split_first_line : (l t : Text) → IsLine l → split (l ++ newline ∷ t) newline ≡ l ∷ split t newline
unfolding split
split_first_line [] t h = refl
split_first_line (c ∷ l) t h = ground (arith, split_first_line l t)

-- Splitting joined lines gives the lines back, if there is one.
pub split-join :
    (ls : List Text) → ls ≢ [] → All IsLine ls → split (join ls (newline ∷ [])) newline ≡ ls
unfolding join
split-join [] h a = absurd (h refl)
split-join (l ∷ []) h a = split_line l a.0
split-join (l ∷ k ∷ ls) h a = split_first_line l _ a.0 ∙ ap (◌∷◌ l) (split-join (k ∷ ls) (cc) a.1)

pub split_nil : split [] newline ≡ [] ∷ []
unfolding split
split_nil = refl

cons_first-append :
    (c : ℕ) (ls ms : List Text) → ls ≢ [] → cons_first c (ls ++ ms) ≡ cons_first c ls ++ ms
cons_first-append c [] ms h = absurd (h refl)
cons_first-append c (l ∷ ls) ms h = refl

-- A text cut at a line break.
pub split-newline :
    (s t : Text) → split (s ++ newline ∷ t) newline ≡ split s newline ++ split t newline
unfolding split
split-newline [] t = refl
split-newline (c ∷ s) t = elim (Bool-cases (c == newline)) [
  | inl e ↦ rw (e, split-newline s t)
  | inr e ↦
      rw (e, split-newline s t)
        (cons_first-append c (split s newline) (split t newline) (split-ne-nil s newline))
]
