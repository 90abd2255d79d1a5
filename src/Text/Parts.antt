-- ===== src/Text/Parts.antt =====
-- The parts that `SplitN`, `TrimSpace` and `TrimPrefix` cut out of a line are lines, and what `Contains`
-- and `TrimSpace` make of a text that is put together.
use opendatahub_ai_gateway_o.Text.Lines.{IsLine, has_char}
use opendatahub_ai_gateway_o.Text.{
  Text, newline, is_empty, has_prefix, contains, drop_prefix, trim_prefix, is_space,
  trim_space_left, trim_space_right, trim_space, split_n, cons_first,
}
use opendatahub_ai_gateway_o.Base.{
  ℕ, zero, suc, true, false, ◌&&◌, List, [], ◌∷◌, ◌++◌, inl, inr, ◌≡◌, refl, arith, ◌==◌,
  Bool-cases, All,
}

trim_space_left-IsLine : (s : Text) → IsLine s → IsLine (trim_space_left s)
unfolding trim_space_left
trim_space_left-IsLine [] h = refl
trim_space_left-IsLine (c ∷ s) h = ground (arith, trim_space_left-IsLine s)

trim_space_right-IsLine : (s : Text) → IsLine s → IsLine (trim_space_right s)
unfolding trim_space_right
trim_space_right-IsLine [] h = refl
trim_space_right-IsLine (c ∷ s) h =
    elim (Bool-cases (is_empty (trim_space_right s) && is_space c)) [
      | inl e ↦ rw e refl
      | inr e ↦ rw e (ground (arith, trim_space_right-IsLine s))
    ]

pub trim_space-IsLine : (s : Text) → IsLine s → IsLine (trim_space s)
unfolding trim_space
trim_space-IsLine s h = trim_space_right-IsLine (trim_space_left s) (trim_space_left-IsLine s h)

drop_prefix-IsLine : (s p : Text) → IsLine s → IsLine (drop_prefix s p)
unfolding drop_prefix
drop_prefix-IsLine s [] h = h
drop_prefix-IsLine [] (p ∷ ps) h = refl
drop_prefix-IsLine (c ∷ s) (p ∷ ps) h = drop_prefix-IsLine s ps (ground arith)

pub trim_prefix-IsLine : (s p : Text) → IsLine s → IsLine (trim_prefix s p)
unfolding trim_prefix
trim_prefix-IsLine s p h = ground (arith, drop_prefix-IsLine s p h)

cons_first-IsLine :
    (c : ℕ) (ls : List Text) → (c == newline) ≡ false → All IsLine ls → All IsLine (cons_first c ls)
cons_first-IsLine c [] h a = ground arith
cons_first-IsLine c (l ∷ ls) h a = (ground arith, a.1)

pub split_n-IsLine : (s : Text) (sep n : ℕ) → IsLine s → All IsLine (split_n s sep n)
unfolding split_n
split_n-IsLine s sep zero h = tt
split_n-IsLine s sep (suc zero) h = (h, tt)
split_n-IsLine [] sep (suc (suc n)) h = (refl, tt)
split_n-IsLine (c ∷ s) sep (suc (suc n)) h = elim (Bool-cases (c == sep)) [
  | inl e ↦ rw e (refl, split_n-IsLine s sep (suc n) (ground arith))
  | inr e ↦
      rw e
        (cons_first-IsLine c _ (ground arith) (split_n-IsLine s sep (suc (suc n)) (ground arith)))
]

-- A text without the separator is one part; with one after it, the first part.
pub split_n_first :
    (s t : Text) (sep n : ℕ)
    → has_char sep s ≡ false
    → split_n (s ++ sep ∷ t) sep (suc (suc n)) ≡ s ∷ split_n t sep (suc n)
unfolding split_n
split_n_first [] t sep n h = ground arith
split_n_first (c ∷ s) t sep n h = ground (arith, split_n_first s t sep n)

trim_space_left-append :
    (s t : Text) (c : ℕ)
    → is_space c ≡ false
    → trim_space_left (s ++ c ∷ t) ≡ trim_space_left s ++ c ∷ t
unfolding trim_space_left
trim_space_left-append [] t c h = rw h
trim_space_left-append (d ∷ s) t c h = elim (Bool-cases (is_space d)) [
  | inl e ↦ rw e (trim_space_left-append s t c h)
  | inr e ↦ rw e
]

pub trim_space_right-append :
    (s t : Text) (c : ℕ)
    → is_space c ≡ false
    → trim_space_right (s ++ c ∷ t) ≡ s ++ c ∷ trim_space_right t
unfolding trim_space_right
trim_space_right-append [] t c h = ground arith
trim_space_right-append (d ∷ []) t c h = ground (arith, trim_space_right-append [] t c h)
trim_space_right-append (d ∷ e ∷ s) t c h = rw (trim_space_right-append (e ∷ s) t c h)

-- A character that is no space keeps what stands between it and the text's ends' spaces.
pub trim_space-append :
    (s t : Text) (c : ℕ)
    → is_space c ≡ false
    → trim_space (s ++ c ∷ t) ≡ trim_space_left s ++ c ∷ trim_space_right t
unfolding trim_space
trim_space-append s t c h =
    rw trim_space_left-append (trim_space_right-append (trim_space_left s) t c h)

contains_here : (s sub : Text) → has_prefix s sub ≡ true → contains s sub ≡ true
unfolding contains
contains_here [] sub h = h
contains_here (c ∷ s) sub h = rw h

pub contains-append : (s t sub : Text) → has_prefix t sub ≡ true → contains (s ++ t) sub ≡ true
unfolding contains
contains-append [] t sub h = contains_here t sub h
contains-append (c ∷ s) t sub h = ground (arith, contains-append s t sub h)
