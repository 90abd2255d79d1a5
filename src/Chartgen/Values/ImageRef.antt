-- ===== src/Chartgen/Values/ImageRef.antt =====
-- `splitImageTag` and its inverse, the template `chart.imageRef`.
use opendatahub_ai_gateway_o.Base.{
  ℕ, ◌+◌, ◌<◌, Bool, true, false, [], ◌∷◌, ◌++◌, append-nil, append_assoc, ◌⊎◌, inl, inr, Option,
  none, some, ◌≡◌, refl, sym, ap, ◌∙◌, arith, ltb, ◌==◌, if◌then◌else◌, ==_iff, Bool-cases, length,
  length-append,
}
use mathlib.Core.Path.{subst}
use mathlib.Core.List.{append-nil, reverse, reverse-reverse, reverse-append, reverse-cons}
use opendatahub_ai_gateway_o.Chartgen.Values.{
  scan_tag, or_latest, split_image_tag, default_image_tag,
}
use opendatahub_ai_gateway_o.Text.Lines.{has_char, has_char-append}
use opendatahub_ai_gateway_o.Text.{Text}

-- What the scan finds spells the image again, and the tag holds no colon and no slash.
abbrev Splits : Text → Option (Text × Text) → Type 0
Splits image none = Unit
Splits image (some (repository, tag)) =
    (image ≡ repository ++ b':' ∷ tag) × (has_char b':' tag ≡ false) × (has_char b'/' tag ≡ false)

move_last : (c : ℕ) (before tail : Text) → reverse (c ∷ before) ++ tail ≡ reverse before ++ c ∷ tail
move_last c before tail = rw (reverse-cons c before) (append_assoc (reverse before) (c ∷ []) tail)

scan_tag-Splits :
    (before tail : Text)
    → has_char b':' tail ≡ false
    → has_char b'/' tail ≡ false
    → Splits (reverse before ++ tail) (scan_tag before tail)
unfolding scan_tag
scan_tag-Splits [] tail h k = tt
scan_tag-Splits (c ∷ before) tail h k =
    subst (λ image. Splits image (scan_tag (c ∷ before) tail)) (sym (move_last c before tail))
      (elim (Bool-cases (c == b':')) [
        | inl e ↦ rw e (ap (λ (d : ℕ). reverse before ++ d ∷ tail) ((==_iff c b':').0 e), h, k)
        | inr e ↦ rw e (elim (Bool-cases (c == b'/')) [
          | inl f ↦ rw f tt
          | inr f ↦ rw f (scan_tag-Splits before (c ∷ tail) (rw (e, h)) (rw (f, k)))
        ])
      ])

-- The scan passes what holds no colon and no slash, and stops at the colon before it.
scan_tag_found :
    (before rest tail : Text)
    → has_char b':' rest ≡ false
    → has_char b'/' rest ≡ false
    → scan_tag (rest ++ b':' ∷ before) tail ≡ some (reverse before, reverse rest ++ tail)
unfolding scan_tag
scan_tag_found before [] tail h k = refl
scan_tag_found before (c ∷ rest) tail h k =
    rw (move_last c rest tail) (ground (arith, scan_tag_found before rest (c ∷ tail)))

-- The tag that is split off spells the image again behind the repository and a colon, and holds no colon
-- and no slash; where none is split off the repository is the whole image and the tag is `latest`.
abbrev pub IsSplitOf : Text → Text × Text → Type 0
IsSplitOf image (repository, tag) =
    ((image ≡ repository ++ b':' ∷ tag) × (has_char b':' tag ≡ false) × (has_char b'/' tag ≡ false))
    ⊎ ((repository ≡ image) × (tag ≡ default_image_tag))

of_Splits :
    (image : Text) (found : Option (Text × Text))
    → Splits image found
    → IsSplitOf image (or_latest image found)
unfolding or_latest
of_Splits image none h = inr (refl, refl)
of_Splits image (some (r, t)) h = inl h

-- `splitImageTag` of any image gives a repository and a tag that spell the image again, with no colon
-- and no slash in the tag; or the whole image and `latest`.
pub split_image_tag_sound : (image : Text) → IsSplitOf image (split_image_tag image)
unfolding split_image_tag
split_image_tag_sound image = of_Splits image _ (found (ltb 1 (length image)))
  where
    found : (b : Bool) → Splits image (if b then scan_tag (reverse image) [] else none)
    found true =
        rw (append-nil (reverse (reverse image)) ∙ reverse-reverse image) at
          (scan_tag-Splits (reverse image) [] refl refl)
    found false = tt

has_char-reverse : (b : ℕ) (s : Text) → has_char b (reverse s) ≡ has_char b s
has_char-reverse b [] = refl
has_char-reverse b (c ∷ s) =
    rw (reverse-cons c s, has_char-append b (reverse s) (c ∷ []), has_char-reverse b s)
      (ground arith)

reversed :
    (repository tag : Text)
    → reverse (repository ++ b':' ∷ tag) ≡ reverse tag ++ b':' ∷ reverse repository
reversed repository tag =
    reverse-append repository (b':' ∷ tag)
    ∙ ap (λ s. s ++ reverse repository) (reverse-cons b':' tag)
    ∙ append_assoc (reverse tag) (b':' ∷ []) (reverse repository)

long_enough :
    (repository tag : Text)
    → 0 < length repository + length tag
    → ltb 1 (length (repository ++ b':' ∷ tag)) ≡ true
long_enough repository tag l = ground (arith, length-append repository (b':' ∷ tag))

-- A repository and a tag with no colon and no slash, of which one is not empty, are what the image
-- `repository:tag` is split into.
pub split_image_tag_tagged :
    (repository tag : Text)
    → has_char b':' tag ≡ false
    → has_char b'/' tag ≡ false
    → 0 < length repository + length tag
    → split_image_tag (repository ++ b':' ∷ tag) ≡ (repository, tag)
unfolding split_image_tag
split_image_tag_tagged repository tag h k l = rw (
  long_enough repository tag l,
  reversed repository tag,
  scan_tag_found (reverse repository) (reverse tag) [] (has_char-reverse b':' tag ∙ h)
      (has_char-reverse b'/' tag ∙ k),
  reverse-reverse repository,
  append-nil (reverse (reverse tag)),
  reverse-reverse tag,
)
