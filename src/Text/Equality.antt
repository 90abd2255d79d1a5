-- ===== src/Text/Equality.antt =====
-- The equality of texts is decided by `equal`.
use opendatahub_ai_gateway_o.Base.{
  true, false, ◌∷◌, ◌≢◌, ◌↔◌, inl, inr, ◌≡◌, refl, arith, Bool-cases,
}
use opendatahub_ai_gateway_o.Text.{Text, equal}

pub equal_iff : (s t : Text) → (equal s t ≡ true) ↔ (s ≡ t)
unfolding equal
equal_iff (c ∷ s) (d ∷ t) = ground (arith, equal_iff s t)
equal_iff _ _ = ground arith

pub equal_refl : (s : Text) → equal s s ≡ true
equal_refl s = (equal_iff s s).1 refl

pub not_equal : (s t : Text) → s ≢ t → equal s t ≡ false
not_equal s t h = elim (Bool-cases (equal s t)) [
  | inl e ↦ absurd (h ((equal_iff s t).0 e))
  | inr e ↦ e
]
