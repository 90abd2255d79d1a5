-- ===== src/Api/Objects/DeepCopy/Writes.antt =====
-- Writes into the arrays of a store, and what they leave.
use opendatahub_ai_gateway_o.Base.{
  ℕ, zero, suc, ◌≤◌, ◌<◌, List, [], ◌∷◌, map, ◌≢◌, ◌⊎◌, inl, inr, Option, none, some, ◌≡◌, refl,
  sym, ap, arith, length, All,
}
use opendatahub_ai_gateway_o.Api.Objects.{
  PartsLib, array_at, SourceStatus, AiGateway, AiGatewayList, list_meta,
}
use opendatahub_ai_gateway_o.Api.Objects.DeepCopy.{Memory}
use opendatahub_ai_gateway_o.Api.Objects.DeepCopy.Memory.{
  IsPartsLib, sources_value, gateway_value, items_value, list_value,
}
use mathlib.Core.Path.{subst}

-- The arrays with another array at an address.
abbrev pub set_at {ℓ} : {A : Type ℓ} → List (List A) → ℕ → List A → List (List A)
set_at [] a ys = []
set_at (xs ∷ arrays) zero ys = ys ∷ arrays
set_at (xs ∷ arrays) (suc a) ys = xs ∷ set_at arrays a ys

module _ {ℓ} {A : Type ℓ} where
  array_at-set_at :
      (arrays : List (List A)) (a b : ℕ) (ys : List A)
      → a ≢ b
      → array_at (set_at arrays a ys) b ≡ array_at arrays b
  array_at-set_at [] a b ys h = refl
  array_at-set_at (xs ∷ arrays) zero zero ys h = absurd (h refl)
  array_at-set_at (xs ∷ arrays) zero (suc b) ys h = refl
  array_at-set_at (xs ∷ arrays) (suc a) zero ys h = refl
  array_at-set_at (xs ∷ arrays) (suc a) (suc b) ys h =
      array_at-set_at arrays a b ys λ e. h (ap suc e)

module _ (parts : PartsLib) where
  -- New elements for one array.
  pub data Write : Type 0 where
    write_sources : ℕ → List SourceStatus → Write
    write_items : ℕ → List (AiGateway parts) → Write

  abbrev pub apply : Write → Memory parts → Memory parts
  apply (write_sources a xs) st = record st { source_arrays = set_at st.source_arrays a xs }
  apply (write_items a gs) st = record st { item_arrays = set_at st.item_arrays a gs }

  abbrev pub sources_of : AiGateway parts → Option ℕ
  sources_of g = g.gateway_status.module_status.sources

  -- One of the objects points to the array.
  abbrev pub PointsTo : ℕ → List (AiGateway parts) → Type 0
  PointsTo a [] = ⊥
  PointsTo a (g ∷ gs) = (sources_of g ≡ some a) ⊎ PointsTo a gs

  abbrev pub ItemsPointTo : Memory parts → ℕ → Option ℕ → Type 0
  ItemsPointTo st a none = ⊥
  ItemsPointTo st a (some b) = PointsTo a (array_at st.item_arrays b)

  -- The write is one through the pointers of the list.
  abbrev pub Touches : Memory parts → AiGatewayList parts → Write → Type 0
  Touches st l (write_sources a xs) = ItemsPointTo st a l.items
  Touches st l (write_items a gs) = l.items ≡ some a

  abbrev pub Below : Memory parts → Write → Type 0
  Below st (write_sources a xs) = a < length st.source_arrays
  Below st (write_items a gs) = a < length st.item_arrays

  abbrev pub Above : Memory parts → Write → Type 0
  Above st (write_sources a xs) = length st.source_arrays ≤ a
  Above st (write_items a gs) = length st.item_arrays ≤ a

  pub Above-Below : (st : Memory parts) (w : Write) → Above st w → Below st w → ⊥
  Above-Below st (write_sources a xs) h k = omega (arith, h, k)
  Above-Below st (write_items a gs) h k = omega (arith, h, k)

  pub all_points :
      (P : Option ℕ → Type 0) (a : ℕ) (gs : List (AiGateway parts))
      → All (λ g. P (sources_of g)) gs
      → PointsTo a gs
      → P (some a)
  all_points P a [] h t = absurd t
  all_points P a (g ∷ gs) (h, hs) (inl e) = subst P e h
  all_points P a (g ∷ gs) (h, hs) (inr p) = all_points P a gs hs p

  module _ (laws : IsPartsLib parts) where
    -- A write that does not go through the list leaves its value.
    sources_frame :
        (a : ℕ) (xs : List SourceStatus) (st : Memory parts) (p : Option ℕ)
        → p ≢ some a
        → sources_value parts laws (apply (write_sources a xs) st) p ≡ sources_value parts laws st p
    sources_frame a xs st none h = refl
    sources_frame a xs st (some b) h =
        ap some (array_at-set_at st.source_arrays a b xs λ e. h (ap some (sym e)))

    gateways_frame :
        (a : ℕ) (xs : List SourceStatus) (st : Memory parts) (gs : List (AiGateway parts))
        → ¬ PointsTo a gs
        → map (gateway_value parts laws (apply (write_sources a xs) st)) gs
          ≡ map (gateway_value parts laws st) gs
    gateways_frame a xs st [] h = refl
    gateways_frame a xs st (g ∷ gs) h = rw (
      sources_frame a xs st (sources_of g) (λ e. h (inl e)),
      gateways_frame a xs st gs λ p. h (inr p),
    )

    items_frame :
        (a : ℕ) (xs : List SourceStatus) (st : Memory parts) (p : Option ℕ)
        → ¬ ItemsPointTo st a p
        → items_value parts laws (apply (write_sources a xs) st) p ≡ items_value parts laws st p
    items_frame a xs st none h = refl
    items_frame a xs st (some b) h = ap some (gateways_frame a xs st (array_at st.item_arrays b) h)

    replaced_frame :
        (a : ℕ) (gs : List (AiGateway parts)) (st : Memory parts) (p : Option ℕ)
        → p ≢ some a
        → items_value parts laws (apply (write_items a gs) st) p ≡ items_value parts laws st p
    replaced_frame a gs st none h = refl
    replaced_frame a gs st (some b) h =
        let same = array_at-set_at st.item_arrays a b gs λ e. h (ap some (sym e)) in
        ap (λ os. some (map (gateway_value parts laws st) os)) same

    pub list_frame :
        (w : Write) (st : Memory parts) (l : AiGatewayList parts)
        → ¬ Touches st l w
        → list_value parts laws (apply w st) l ≡ list_value parts laws st l
    list_frame (write_sources a xs) st l h =
        ap (λ i. (l.type_meta, laws.value list_meta st.rest l.meta, i))
          (items_frame a xs st l.items h)
    list_frame (write_items a gs) st l h =
        ap (λ i. (l.type_meta, laws.value list_meta st.rest l.meta, i))
          (replaced_frame a gs st l.items h)
