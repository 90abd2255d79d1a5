-- ===== src/Chartgen/Groups/Filename.antt =====
-- The name of a template file tells its kind.
use mathlib.Core.List.{append_cancel_right}
use opendatahub_ai_gateway_o.Base.{ℕ, false, [], ◌∷◌, ◌++◌, ◌≡◌, arith}
use opendatahub_ai_gateway_o.Chartgen.Groups.{gvk_to_filename, group_part}
use opendatahub_ai_gateway_o.Chartgen.Libraries.{Gvk}
use opendatahub_ai_gateway_o.Text.Lines.{has_char}
use opendatahub_ai_gateway_o.Text.{Text, codes, to_lower}

cut_at :
    (b : ℕ) (s t x y : Text)
    → has_char b s ≡ false
    → has_char b t ≡ false
    → s ++ b ∷ x ≡ t ++ b ∷ y
    → (s ≡ t) × (x ≡ y)
cut_at b [] [] x y h k e = ground arith
cut_at b [] (d ∷ t) x y h k e = absurd (ground arith)
cut_at b (c ∷ s) [] x y h k e = absurd (ground arith)
cut_at b (c ∷ s) (d ∷ t) x y h k e = ground (arith, cut_at b s t x y)

-- Two kinds with the same file have the same group, version and kind up to the case of letters, where
-- no underscore stands in a group or a version; the core group counts as `core`.
pub gvk_to_filename-injective :
    (a b : Gvk)
    → has_char b'_' (group_part a) ≡ false
    → has_char b'_' (group_part b) ≡ false
    → has_char b'_' (to_lower a.version) ≡ false
    → has_char b'_' (to_lower b.version) ≡ false
    → gvk_to_filename a ≡ gvk_to_filename b
    → (group_part a ≡ group_part b)
      × (to_lower a.version ≡ to_lower b.version)
      × (to_lower a.kind ≡ to_lower b.kind)
unfolding gvk_to_filename
gvk_to_filename-injective a b p q r s e =
    let (g, rest) = cut_at b'_' _ _ _ _ p q e in
    let (v, kinds) = cut_at b'_' _ _ _ _ r s rest in
    (g, v, append_cancel_right _ _ (codes ".yaml") kinds)
