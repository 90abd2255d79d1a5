-- ===== src/Text/Trim.antt =====
-- `TrimSpace`, `TrimLeft` and the indentation of a line.
use opendatahub_ai_gateway_o.Base.{
  ℕ, ◌-◌, true, false, [], ◌∷◌, ◌++◌, ◌≡◌, refl, arith, ◌==◌, length, take, take-append_length,
  sub_length, All,
}
use opendatahub_ai_gateway_o.Text.{
  Text, is_space, trim_left, indent_of, trim_space_left, trim_space_right, trim_space,
}

abbrev pub IsSpaces : Text → Type 0
IsSpaces = All (λ c. c ≡ b' ')

-- The spaces before what `trim_left` leaves.
spaces : Text → Text
spaces [] = []
spaces (c ∷ s) = elim (c == b' ') [ true ↦ c ∷ spaces s | false ↦ [] ]

spaces-trim_left : (l : Text) → spaces l ++ trim_left l ≡ l
unfolding spaces trim_left
spaces-trim_left [] = refl
spaces-trim_left (c ∷ s) = ground (arith, spaces-trim_left s)

spaces-IsSpaces : (l : Text) → IsSpaces (spaces l)
unfolding spaces
spaces-IsSpaces [] = tt
spaces-IsSpaces (c ∷ s) = ground (arith, spaces-IsSpaces s)

cut_before : (xs ys l : Text) → xs ++ ys ≡ l → take (length l - length ys) l ≡ xs
cut_before xs ys l e = rw (← e) (rw sub_length (take-append_length xs ys))

indent_of-spaces : (l : Text) → indent_of l ≡ spaces l
unfolding indent_of
indent_of-spaces l = cut_before (spaces l) (trim_left l) l (spaces-trim_left l)

pub indent_of-IsSpaces : (l : Text) → IsSpaces (indent_of l)
indent_of-IsSpaces l = rw indent_of-spaces (spaces-IsSpaces l)

pub indent_of-trim_left : (l : Text) → indent_of l ++ trim_left l ≡ l
indent_of-trim_left l = rw indent_of-spaces (spaces-trim_left l)

pub trim_space-indent : (i s : Text) → IsSpaces i → trim_space (i ++ s) ≡ trim_space s
unfolding trim_space trim_space_left is_space
trim_space-indent [] s h = refl
trim_space-indent (c ∷ i) s h = rw h.0 (trim_space-indent i s h.1)

-- A text that begins with no space keeps its first character.
pub trim_space_first :
    (c : ℕ) (s : Text) → is_space c ≡ false → trim_space (c ∷ s) ≡ c ∷ trim_space_right s
unfolding trim_space trim_space_left trim_space_right
trim_space_first c s h = ground arith

spaces-append :
    (i : Text) (c : ℕ) (s : Text) → IsSpaces i → (c == b' ') ≡ false → spaces (i ++ c ∷ s) ≡ i
unfolding spaces
spaces-append [] c s h n = ground arith
spaces-append (d ∷ i) c s h n = ground (arith, spaces-append i c s h.1 n)

-- The indentation of a line that begins with spaces and goes on with another character.
pub indent_of-append :
    (i : Text) (c : ℕ) (s : Text) → IsSpaces i → (c == b' ') ≡ false → indent_of (i ++ c ∷ s) ≡ i
indent_of-append i c s h n = rw indent_of-spaces (spaces-append i c s h n)
