-- ===== src/Api/Objects/DeepCopy/Memory.antt =====
-- The values of objects in a store that only grows.
use opendatahub_ai_gateway_o.Base.{
  ℕ, zero, suc, ◌<◌, List, [], ◌∷◌, ◌++◌, map, Option, none, some, ◌≡◌, refl, ◌∙◌, arith, length,
  length-append, All,
}
use opendatahub_ai_gateway_o.Api.Objects.{
  PartsLib, array_at, PartKind, SourceStatus, status, AiGatewayStatus, object_meta, AiGateway,
  list_meta, AiGatewayList, component_release_status, AiGatewaySpec, SemVer, Text, PlatformStatus,
}
use opendatahub_ai_gateway_o.Api.Objects.DeepCopy.{Memory}

-- Every array keeps its address and its elements.
abbrev pub Keeps {ℓ} : {A : Type ℓ} → List (List A) → List (List A) → Type ℓ
Keeps xs ys = (a : ℕ) → a < length xs → (a < length ys) × (array_at ys a ≡ array_at xs a)

abbrev pub FitsIn {ℓ} : {A : Type ℓ} → List (List A) → Option ℕ → Type 0
FitsIn arrays none = Unit
FitsIn arrays (some a) = a < length arrays

module _ {ℓ} {A : Type ℓ} where
  array_at-append :
      (xs : List (List A)) (ys : List A) (a : ℕ)
      → a < length xs
      → array_at (xs ++ ys ∷ []) a ≡ array_at xs a
  array_at-append [] ys a h = absurd (omega (arith, h))
  array_at-append (x ∷ xs) ys zero h = refl
  array_at-append (x ∷ xs) ys (suc a) h = array_at-append xs ys a (omega (arith, h))

  pub array_at-append_length :
      (xs : List (List A)) (ys : List A) → array_at (xs ++ ys ∷ []) (length xs) ≡ ys
  array_at-append_length [] ys = refl
  array_at-append_length (x ∷ xs) ys = array_at-append_length xs ys

  pub length-append_one : (xs : List (List A)) (ys : List A) → length xs < length (xs ++ ys ∷ [])
  length-append_one xs ys = omega (arith, length-append xs (ys ∷ []))

  pub append-Keeps : (xs : List (List A)) (ys : List A) → Keeps xs (xs ++ ys ∷ [])
  append-Keeps xs ys a h = (omega (arith, h, length-append xs (ys ∷ [])), array_at-append xs ys a h)

  pub Keeps-refl : (xs : List (List A)) → Keeps xs xs
  Keeps-refl xs a h = (h, refl)

  pub Keeps-trans : (xs ys zs : List (List A)) → Keeps xs ys → Keeps ys zs → Keeps xs zs
  Keeps-trans xs ys zs f g a h = let (h1, e1) = f a h in let (h2, e2) = g a h1 in (h2, e2 ∙ e1)

-- What `DeepCopyInto` of apimachinery and of opendatahub-operator promises: the copy has the value of the
-- original, and no part that was in memory before has changed.
pub record IsPartsLib (parts : PartsLib) : Type 1 where
  pub Value : PartKind → Type 0
  pub value : (k : PartKind) → parts.Rest → parts.Part k → Value k
  -- all that the part points to is in memory
  pub IsAlive : (k : PartKind) → parts.Rest → parts.Part k → Type 0
  pub copy_IsAlive :
      (k : PartKind) (p : parts.Part k) (m : parts.Rest)
      → IsAlive k m p
      → IsAlive k (parts.copy k p m).1 (parts.copy k p m).0
  pub copy_value :
      (k : PartKind) (p : parts.Part k) (m : parts.Rest)
      → IsAlive k m p
      → value k (parts.copy k p m).1 (parts.copy k p m).0 ≡ value k m p
  pub copy_keeps :
      (k : PartKind) (p : parts.Part k) (m : parts.Rest)
      → IsAlive k m p
      → (j : PartKind) (q : parts.Part j) → IsAlive j m q
      → IsAlive j (parts.copy k p m).1 q × (value j (parts.copy k p m).1 q ≡ value j m q)

module _ (parts : PartsLib) (laws : IsPartsLib parts) where
  open laws use {Value, value, IsAlive}

  abbrev pub KeepsRest : parts.Rest → parts.Rest → Type 0
  KeepsRest m m' =
      (k : PartKind) (p : parts.Part k)
      → IsAlive k m p
      → IsAlive k m' p × (value k m' p ≡ value k m p)

  -- Nothing that was in the store has changed.
  pub record Grows (st st' : Memory parts) : Type 0 where
    pub keeps_sources : Keeps st.source_arrays st'.source_arrays
    pub keeps_items : Keeps st.item_arrays st'.item_arrays
    pub keeps_rest : KeepsRest st.rest st'.rest

  pub Grows-refl : (st : Memory parts) → Grows st st
  Grows-refl st = record {
    keeps_sources = λ a h. (h, refl);
    keeps_items = λ a h. (h, refl);
    keeps_rest = λ k p a. (a, refl);
  }

  pub Grows-trans : {s t u : Memory parts} → Grows s t → Grows t u → Grows s u
  Grows-trans {s} {t} {u} f g = record {
    keeps_sources =
        Keeps-trans s.source_arrays t.source_arrays u.source_arrays f.keeps_sources g.keeps_sources;
    keeps_items = Keeps-trans s.item_arrays t.item_arrays u.item_arrays f.keeps_items g.keeps_items;
    keeps_rest = λ k p a.
        let (a1, e1) = f.keeps_rest k p a in let (a2, e2) = g.keeps_rest k p a1 in (a2, e2 ∙ e1);
  }

  abbrev pub SourcesValue : Type 0
  SourcesValue = Option (List SourceStatus)

  abbrev pub sources_value : Memory parts → Option ℕ → SourcesValue
  sources_value st none = none
  sources_value st (some a) = some (array_at st.source_arrays a)

  abbrev pub StatusValue : Type 0
  StatusValue =
      Value status × Value component_release_status × SemVer × Text × PlatformStatus × SourcesValue

  -- A status with all that its pointers lead to.
  abbrev pub status_value : Memory parts → AiGatewayStatus parts → StatusValue
  status_value st s = (
    value status st.rest s.common_status,
    value component_release_status st.rest s.component_release,
    s.module_status.version,
    s.module_status.build_source,
    s.module_status.platform,
    sources_value st s.module_status.sources,
  )

  abbrev pub GatewayValue : Type 0
  GatewayValue = parts.TypeMeta × Value object_meta × AiGatewaySpec × StatusValue

  abbrev pub gateway_value : Memory parts → AiGateway parts → GatewayValue
  gateway_value st g =
      (g.type_meta, value object_meta st.rest g.meta, g.spec, status_value st g.gateway_status)

  abbrev pub items_value : Memory parts → Option ℕ → Option (List GatewayValue)
  items_value st none = none
  items_value st (some a) = some (map (gateway_value st) (array_at st.item_arrays a))

  abbrev pub ListValue : Type 0
  ListValue = parts.TypeMeta × Value list_meta × Option (List GatewayValue)

  abbrev pub list_value : Memory parts → AiGatewayList parts → ListValue
  list_value st l = (l.type_meta, value list_meta st.rest l.meta, items_value st l.items)

  -- Every pointer of the object leads into the store.
  abbrev pub StatusFits : Memory parts → AiGatewayStatus parts → Type 0
  StatusFits st s =
      IsAlive status st.rest s.common_status
      × IsAlive component_release_status st.rest s.component_release
      × FitsIn st.source_arrays s.module_status.sources

  abbrev pub GatewayFits : Memory parts → AiGateway parts → Type 0
  GatewayFits st g = IsAlive object_meta st.rest g.meta × StatusFits st g.gateway_status

  abbrev pub ItemsFit : Memory parts → Option ℕ → Type 0
  ItemsFit st none = Unit
  ItemsFit st (some a) =
      (a < length st.item_arrays) × All (GatewayFits st) (array_at st.item_arrays a)

  abbrev pub ListFits : Memory parts → AiGatewayList parts → Type 0
  ListFits st l = IsAlive list_meta st.rest l.meta × ItemsFit st l.items
