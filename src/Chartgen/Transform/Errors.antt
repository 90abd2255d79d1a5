-- ===== src/Chartgen/Transform/Errors.antt =====
-- How failures of the YAML printer reach the caller of `renderGroup`.
use opendatahub_ai_gateway_o.Base.{
  Bool, true, false, ◌||◌, List, [], ◌∷◌, ◌++◌, append-nil, append_assoc, ◌≡◌, if◌then◌else◌, ok,
  err,
}
use opendatahub_ai_gateway_o.Chartgen.Libraries.{Libraries, Gvk, same_gvk}
use opendatahub_ai_gateway_o.Chartgen.Object.{Fields}
use opendatahub_ai_gateway_o.Chartgen.Transform.{transform_resource, render_parts, render_group}
use opendatahub_ai_gateway_o.Text.{Text, codes, join}

if_same {ℓ} : {A : Type ℓ} (b : Bool) {r s t : A} → r ≡ t → s ≡ t → (if b then r else s) ≡ t
if_same true p q = p
if_same false p q = q

-- An object that cannot be marshalled is an error of every kind's function, with the same message.
pub transform_resource-err :
    (lib : Libraries) (resource_gvk : Gvk) (obj : Fields) {e : Text}
    → lib.marshal obj ≡ err e
    → transform_resource lib resource_gvk obj ≡ err (codes "marshaling resource: " ++ e)
unfolding transform_resource
transform_resource-err lib g obj h = if_same (same_gvk g lib.deployment) (rw h) (
    if_same (same_gvk g lib.service_account) (rw h) (
      if_same (same_gvk g lib.config_map) (rw h) (
        if_same (same_gvk g lib.cluster_role_binding || same_gvk g lib.role_binding) (rw h) (
          if_same
            (same_gvk g lib.mutating_webhook_configuration
              || same_gvk g lib.validating_webhook_configuration)
            (rw h) (if_same (same_gvk g lib.certificate) (rw h) (rw h))))))

-- The objects are rendered to these texts, one each, in order.
abbrev pub Rendered : Libraries → Gvk → List Fields → List Text → Type 0
Rendered lib g [] [] = Unit
Rendered lib g (o ∷ os) (t ∷ ts) = (transform_resource lib g o ≡ ok t) × Rendered lib g os ts
Rendered lib g _ _ = ⊥

parts-Rendered :
    (lib : Libraries) (g : Gvk) (os rest : List Fields) (ts parts : List Text)
    → Rendered lib g os ts
    → render_parts lib g (os ++ rest) parts ≡ render_parts lib g rest (parts ++ ts)
unfolding render_parts
parts-Rendered lib g [] rest [] parts h = rw append-nil
parts-Rendered lib g [] rest (t ∷ ts) parts h = absurd h
parts-Rendered lib g (o ∷ os) rest [] parts h = absurd h
parts-Rendered lib g (o ∷ os) rest (t ∷ ts) parts h =
    rw (h.0, parts-Rendered lib g os rest ts (parts ++ t ∷ []) h.1, append_assoc)

-- A group whose objects all render is the file of their texts between separators.
pub render_group-ok :
    (lib : Libraries) (g : Gvk) (os : List Fields) (ts : List Text)
    → Rendered lib g os ts
    → render_group lib g os ≡ ok (join ts (codes "\n---\n"))
unfolding render_group
render_group-ok lib g os ts h = rw (← append-nil os, parts-Rendered lib g os [] ts [] h)

-- Where the objects before it render, the first object that cannot be marshalled stops its group:
-- the error names the kind and the object, and nothing of the group is returned, whatever stands
-- behind it.
pub render_group-err :
    (lib : Libraries) (g : Gvk) (os : List Fields) (ts : List Text) (o : Fields)
    (rest : List Fields) {e : Text}
    → Rendered lib g os ts
    → lib.marshal o ≡ err e
    → render_group lib g (os ++ o ∷ rest)
      ≡ err (
          codes "transforming "
          ++ (g.kind
              ++ (codes "/"
                  ++ (lib.get_name o ++ (codes ": " ++ (codes "marshaling resource: " ++ e))))))
unfolding render_group
render_group-err lib g os ts o rest {e} h f =
    rw (parts-Rendered lib g os (o ∷ rest) ts [] h)
      (unfold render_parts in rw (transform_resource-err lib g o f))
