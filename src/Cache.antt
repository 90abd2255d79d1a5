-- ===== src/Cache.antt =====
-- `StripUnusedFields` of pkg/cache/transform.go: what the informer cache keeps of an object.
pub mod Strip
use opendatahub_ai_gateway_o.Base.{
  ℕ, zero, suc, ◌+◌, ◌-◌, ◌*◌, ◌/◌, ◌%◌, ◌≤◌, ◌<◌, Bool, true, false, not, ◌&&◌, ◌||◌, List, [],
  ◌∷◌, ◌++◌, map, append-nil, append_assoc, ◌≢◌, ◌↔◌, ◌⊎◌, inl, inr, Option, none, some, ◌≡◌, refl,
  sym, ap, ◌∙◌, arith, ltb, leb, ◌==◌, if◌then◌else◌, ==_iff, Bool-cases, &&-true, length, take,
  length-append, take-append_length, sub_length, All, All-append, All-intro, All-map, All-flat_map,
  Result, ok, err, ◌>>=◌, map_err, >>=-eq-ok,
}
use opendatahub_ai_gateway_o.Text.{Text, codes, equal}

abbrev pub annotation_last_applied_configuration : Text
annotation_last_applied_configuration = codes "kubectl.kubernetes.io/last-applied-configuration"

-- A Go map as an association list; a nil map is told from an empty one.
abbrev pub Annotations : Type 0
Annotations = Option (List (Text × Text))

-- What `meta.Accessor` gives access to, as far as the transform uses it, and the rest of the object.
pub record KubeObject : Type 1 where
  pub managed_fields : List Text
  pub annotations : Annotations
  pub Body : Type 0
  pub body : Body

pub data Cached : Type 1 where
  kube : KubeObject → Cached
  -- `meta.Accessor` fails: not a Kubernetes object
  other : Text → Cached

-- `delete(m, key)`
unfoldable pub delete : Text → List (Text × Text) → List (Text × Text)
unfolding equal
delete key [] = []
delete key ((k, v) ∷ m) = let rest = delete key m in if equal k key then rest else (k, v) ∷ rest

strip_annotations : Annotations → Annotations
strip_annotations none = none
strip_annotations (some m) = some (delete annotation_last_applied_configuration m)

-- The transform; it never returns an error.
unfoldable pub strip_unused_fields : Cached → Cached
unfolding delete strip_annotations
strip_unused_fields (other obj) = other obj
strip_unused_fields (kube obj) =
    kube (record obj { managed_fields = []; annotations = strip_annotations obj.annotations })
