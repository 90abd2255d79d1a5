-- ===== src/Cache/Strip.antt =====
-- What the cache transform removes, and that it removes nothing else.
use opendatahub_ai_gateway_o.Base.{
  Bool, true, false, List, [], ◌∷◌, inl, inr, Option, none, some, ◌≡◌, refl, ap, arith,
  if◌then◌else◌, Bool-cases,
}
use opendatahub_ai_gateway_o.Cache.{
  Annotations, annotation_last_applied_configuration, Cached, kube, other, delete,
  strip_annotations, strip_unused_fields,
}
use opendatahub_ai_gateway_o.Text.Equality.{equal_iff}
use opendatahub_ai_gateway_o.Text.{Text, equal}

-- `m[key]`; a nil map has no keys.
abbrev pub lookup_in : Text → List (Text × Text) → Option Text
lookup_in key [] = none
lookup_in key ((k, v) ∷ m) = if equal k key then some v else lookup_in key m

abbrev pub lookup_annotation : Text → Annotations → Option Text
lookup_annotation key none = none
lookup_annotation key (some m) = lookup_in key m

lookup-delete :
    (j key : Text) (m : List (Text × Text))
    → lookup_in j (delete key m) ≡ (if equal key j then none else lookup_in j m)
unfolding delete
lookup-delete j key [] = ground arith
lookup-delete j key ((k, v) ∷ m) =
    ground (arith, equal_iff k key, equal_iff k j, equal_iff key j, lookup-delete j key m)

delete-delete : (key : Text) (m : List (Text × Text)) → delete key (delete key m) ≡ delete key m
unfolding delete
delete-delete key [] = refl
delete-delete key ((k, v) ∷ m) = elim (Bool-cases (equal k key)) [
  | inl e ↦ rw e (delete-delete key m)
  | inr e ↦ rw (e, e) (ap (λ r. (k, v) ∷ r) (delete-delete key m))
]

if_none {ℓ} : {A : Type ℓ} (b : Bool) → ◌≡◌ {A = Option A} none (if b then none else none)
if_none true = refl
if_none false = refl

abbrev pub managed_fields_of : Cached → List Text
managed_fields_of (kube obj) = obj.managed_fields
managed_fields_of (other obj) = []

abbrev pub annotation_of : Text → Cached → Option Text
annotation_of key (kube obj) = lookup_annotation key obj.annotations
annotation_of key (other obj) = none

-- Behind the transform no object has managed fields or the last applied configuration, and every other
-- annotation reads as before.
pub strip_unused_fields_lem :
    (key : Text) (obj : Cached)
    → (managed_fields_of (strip_unused_fields obj) ≡ [])
      × (annotation_of key (strip_unused_fields obj) ≡ (
          if equal annotation_last_applied_configuration key then none else annotation_of key obj))
unfolding strip_unused_fields
strip_unused_fields_lem key (other obj) =
    (refl, if_none (equal annotation_last_applied_configuration key))
strip_unused_fields_lem key (kube obj) = (refl, annotations obj.annotations)
  where
    annotations :
        (a : Annotations)
        → lookup_annotation key (strip_annotations a) ≡ (
            if equal annotation_last_applied_configuration key
            then none
            else lookup_annotation key a)
    annotations none = if_none (equal annotation_last_applied_configuration key)
    annotations (some m) = lookup-delete key annotation_last_applied_configuration m

-- A second run of the transform changes nothing.
pub strip-strip :
    (obj : Cached) → strip_unused_fields (strip_unused_fields obj) ≡ strip_unused_fields obj
unfolding strip_unused_fields
strip-strip (other obj) = refl
strip-strip (kube obj) =
    λ i. kube (record obj { managed_fields = []; annotations = again obj.annotations i })
  where
    again : (a : Annotations) → strip_annotations (strip_annotations a) ≡ strip_annotations a
    again none = refl
    again (some m) = ap some (delete-delete annotation_last_applied_configuration m)
