-- ===== src/Chartgen/Values/Extract.antt =====
-- What `ExtractDefaults` takes from the resources.
use opendatahub_ai_gateway_o.Chartgen.Object.{string, cons}
use opendatahub_ai_gateway_o.Chartgen.Values.{
  ResourceSpec, set_image, set_resources, with_resources,
}
use opendatahub_ai_gateway_o.Base.{
  ℕ, true, false, List, [], ◌∷◌, ◌++◌, inl, inr, Option, none, some, ◌≡◌, refl, sym, ap, ◌∙◌,
  Bool-cases, All, some-injective, none-ne-some,
}
use opendatahub_ai_gateway_o.Chartgen.Libraries.{Libraries, same_gvk}
use opendatahub_ai_gateway_o.Chartgen.Object.{
  ℤ, pos, Value, int64, float64, object, Fields, Items, get_field, as_object,
}
use opendatahub_ai_gateway_o.Chartgen.Values.{
  Values, ValueLib, default_values, from_deployment, extract_defaults, set_replicas, set_container,
}
use opendatahub_ai_gateway_o.Text.{Text, codes}

-- The value that a path of keys leads to through nested maps.
unfoldable pub path_value : List Text → Fields → Option Value
path_value [] obj = some (object obj)
path_value (k ∷ []) obj = get_field k obj
path_value (k ∷ j ∷ ks) obj = into (as_object (get_field k obj)) (path_value (j ∷ ks))
  where
    into : Option Fields → (Fields → Option Value) → Option Value
    into none f = none
    into (some fields) f = f fields

-- `NestedInt64`, as it is documented: what it finds is an int64 at the end of the path.
pub record IsValueLib (values_lib : ValueLib) : Type 0 where
  pub nested_int64_sound :
      (obj : Fields) (path : List Text) {n : ℤ}
      → values_lib.nested_int64 obj path ≡ some n
      → path_value path obj ≡ some (int64 n)

abbrev pub replicas_path : List Text
replicas_path = codes "spec" ∷ codes "replicas" ∷ []

abbrev pub IsDeployment : Libraries → Fields → Type 0
IsDeployment lib r = same_gvk (lib.group_version_kind r) lib.deployment ≡ true

abbrev pub IsOther : Libraries → Fields → Type 0
IsOther lib r = same_gvk (lib.group_version_kind r) lib.deployment ≡ false

-- The replicas were decoded to a float64, as a decoder of JSON does with every number.
abbrev pub HasFloatReplicas : Fields → Type 0
HasFloatReplicas r = (f : ℕ) × (path_value replicas_path r ≡ some (float64 f))

module _ (values_lib : ValueLib) (lib : Libraries) where
  -- The first Deployment of the resources gives the defaults, whatever stands before and behind it.
  pub extract_defaults_first :
      (pre : List Fields) (d : Fields) (rest : List Fields)
      → All (IsOther lib) pre
      → IsDeployment lib d
      → extract_defaults values_lib lib (pre ++ d ∷ rest)
        ≡ from_deployment values_lib d default_values
  unfolding extract_defaults
  extract_defaults_first [] d rest a h = rw h
  extract_defaults_first (r ∷ pre) d rest a h = rw a.0 (extract_defaults_first pre d rest a.1 h)

  -- With no Deployment the defaults are those of `DefaultValues`.
  pub extract_defaults_none :
      (rs : List Fields)
      → All (IsOther lib) rs
      → extract_defaults values_lib lib rs ≡ some default_values
  unfolding extract_defaults
  extract_defaults_none [] a = refl
  extract_defaults_none (r ∷ rs) a = rw a.0 (extract_defaults_none rs a.1)

  float_not_found :
      (laws : IsValueLib values_lib) (r : Fields)
      → HasFloatReplicas r
      → values_lib.nested_int64 r replicas_path ≡ none
  float_not_found laws r (f, at_path) = go (values_lib.nested_int64 r replicas_path) refl
    where
      go :
          (found : Option ℤ)
          → values_lib.nested_int64 r replicas_path ≡ found
          → values_lib.nested_int64 r replicas_path ≡ none
      go none p = p
      go (some n) p = absurd (cc (laws.nested_int64_sound r replicas_path p, at_path))

  set_image-replicas :
      (found : Option Value) (values : Values)
      → (set_image values_lib found values).replicas ≡ values.replicas
  unfolding set_image
  set_image-replicas (some (string img)) values = refl
  set_image-replicas _ values = refl

  with_resources-replicas :
      (values : Values) (found : Option ResourceSpec) {w : Values}
      → with_resources values_lib values found ≡ some w
      → w.replicas ≡ values.replicas
  unfolding with_resources
  with_resources-replicas values none h = absurd (none-ne-some h)
  with_resources-replicas values (some spec) h =
      ap (λ (v : Values). v.replicas) (sym (some-injective h))

  set_resources-replicas :
      (found : Option Value) (values : Values) {w : Values}
      → set_resources values_lib found values ≡ some w
      → w.replicas ≡ values.replicas
  unfolding set_resources
  set_resources-replicas (some (object res)) values h = with_resources-replicas values _ h
  set_resources-replicas _ values h = ap (λ (v : Values). v.replicas) (sym (some-injective h))

  set_container-replicas :
      (found : Option Items) (values : Values) {w : Values}
      → set_container values_lib found values ≡ some w
      → w.replicas ≡ values.replicas
  unfolding set_container
  set_container-replicas (some (cons (object c) others)) values h =
      set_resources-replicas (get_field (codes "resources") c) _ h
      ∙ set_image-replicas (get_field (codes "image") c) values
  set_container-replicas _ values h = ap (λ (v : Values). v.replicas) (sym (some-injective h))

  from_deployment-replicas :
      (laws : IsValueLib values_lib) (r : Fields) (values : Values) {w : Values}
      → HasFloatReplicas r
      → from_deployment values_lib r values ≡ some w
      → w.replicas ≡ values.replicas
  unfolding from_deployment
  from_deployment-replicas laws r values {w} h e =
      go (set_container values_lib _ values) refl (rw (float_not_found laws r h) at e)
    where
      go :
          (found : Option Values)
          → set_container values_lib
              (values_lib.nested_slice r
                (codes "spec" ∷ codes "template" ∷ codes "spec" ∷ codes "containers" ∷ []))
              values
            ≡ found
          → set_replicas values_lib none found ≡ some w
          → w.replicas ≡ values.replicas
      go none p q = absurd (none-ne-some q)
      go (some v) p q =
          ap (λ (v : Values). v.replicas) (sym (some-injective q))
          ∙ set_container-replicas _ values p

  -- Where `NestedInt64` finds an int64 only, as documented, and every Deployment's replica count
  -- was decoded to a float64, the count is never taken over: the default stays 1.
  pub extract_defaults_replicas :
      (laws : IsValueLib values_lib) (rs : List Fields) {values : Values}
      → All (λ r. IsDeployment lib r → HasFloatReplicas r) rs
      → extract_defaults values_lib lib rs ≡ some values
      → values.replicas ≡ pos 1
  unfolding extract_defaults
  extract_defaults_replicas laws [] a e = ap (λ (v : Values). v.replicas) (sym (some-injective e))
  extract_defaults_replicas laws (r ∷ rs) a e =
      elim (Bool-cases (same_gvk (lib.group_version_kind r) lib.deployment)) [
        | inl d ↦ from_deployment-replicas laws r default_values (a.0 d) (rw d at e)
        | inr d ↦ extract_defaults_replicas laws rs a.1 (rw d at e)
      ]
