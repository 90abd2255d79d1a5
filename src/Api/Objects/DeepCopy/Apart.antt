-- ===== src/Api/Objects/DeepCopy/Apart.antt =====
-- A deep copy shares no array with what was in the memory before.
use opendatahub_ai_gateway_o.Base.{
  ℕ, zero, suc, ◌≤◌, ◌<◌, List, [], ◌∷◌, Option, none, some, ◌≡◌, ◌∙◌, arith, length, All,
  some-injective, none-ne-some,
}
use opendatahub_ai_gateway_o.Api.Objects.{PartsLib, array_at, AiGateway, AiGatewayList, list_meta}
use opendatahub_ai_gateway_o.Api.Objects.DeepCopy.{
  copy_part, copy_sources, Memory, alloc_sources, deep_copy_into_gateway, deep_copy_into_status,
  deep_copy_into_module_status, copy_gateways, copy_items, deep_copy_into_list,
}
use opendatahub_ai_gateway_o.Api.Objects.DeepCopy.Memory.{
  IsPartsLib, list_value, Grows, GatewayFits, ListFits, FitsIn, ItemsFit, array_at-append_length,
}
use mathlib.Core.Path.{subst}
use opendatahub_ai_gateway_o.Api.Objects.DeepCopy.Values.{
  gateway-Copied, gateways-Copied, copy_part-Copied, list-Copied,
}
use opendatahub_ai_gateway_o.Api.Objects.DeepCopy.Grown.{gateways-Grows, items-Grows, list-Grows}
use opendatahub_ai_gateway_o.Api.Objects.DeepCopy.Writes.{
  Write, write_sources, write_items, apply, sources_of, PointsTo, ItemsPointTo, Touches, Below,
  Above, Above-Below, all_points, list_frame,
}

bounded_le : (m n : ℕ) → ((a : ℕ) → a < m → a < n) → m ≤ n
bounded_le zero n f = omega arith
bounded_le (suc m) n f = omega (arith, f m (omega arith))

-- The address is none of the first ones.
abbrev From : ℕ → Option ℕ → Type 0
From n none = Unit
From n (some a) = n ≤ a

module _ (parts : PartsLib) where
  copy_sources-From :
      (p : Option ℕ) (st : Memory parts)
      → From (length st.source_arrays) (copy_sources parts p st).0
  unfolding copy_sources alloc_sources
  copy_sources-From none st = tt
  copy_sources-From (some a) st = omega arith

  gateway-From :
      (g : AiGateway parts) (st : Memory parts)
      → From (length st.source_arrays) (sources_of parts (deep_copy_into_gateway parts g st).0)
  unfolding deep_copy_into_gateway deep_copy_into_status deep_copy_into_module_status copy_part
  gateway-From g st = copy_sources-From (sources_of parts g) _

  module _ (laws : IsPartsLib parts) where
    module _ {st st' : Memory parts} (g : Grows parts laws st st') where
      sources-length : length st.source_arrays ≤ length st'.source_arrays
      sources-length = bounded_le _ _ λ a h. (g.keeps_sources a h).0

      items-length : length st.item_arrays ≤ length st'.item_arrays
      items-length = bounded_le _ _ λ a h. (g.keeps_items a h).0

      fitting_gateways :
          (gs : List (AiGateway parts))
          → All (GatewayFits parts laws st) gs
          → All (λ o. FitsIn st.source_arrays (sources_of parts o)) gs
      fitting_gateways [] h = tt
      fitting_gateways (o ∷ gs) ((a, (b, c, d)), hs) = (d, fitting_gateways gs hs)

      -- What an old list points to is old.
      items_point_below :
          (a : ℕ) (p : Option ℕ)
          → ItemsFit parts laws st p
          → ItemsPointTo parts st' a p
          → a < length st.source_arrays
      items_point_below a none h t = absurd t
      items_point_below a (some b) (h, hs) t =
          let same = (g.keeps_items b h).1 in
          all_points parts (FitsIn st.source_arrays) a (array_at st.item_arrays b)
            (fitting_gateways (array_at st.item_arrays b) hs) (subst (PointsTo parts a) same t)

      Touches-Below :
          (w : Write parts) (k : AiGatewayList parts)
          → ListFits parts laws st k
          → Touches parts st' k w
          → Below parts st w
      Touches-Below (write_sources a xs) k (h1, h2) t = items_point_below a k.items h2 t
      Touches-Below (write_items a gs) k (h1, h2) t = (subst (ItemsFit parts laws st) t h2).0

    From-le : (m n : ℕ) (p : Option ℕ) → m ≤ n → From n p → From m p
    From-le m n none h f = tt
    From-le m n (some a) h f = omega (arith, h, f)

    gateways-From :
        (n : ℕ) (gs : List (AiGateway parts)) (st : Memory parts)
        → All (GatewayFits parts laws st) gs
        → n ≤ length st.source_arrays
        → All (λ o. From n (sources_of parts o)) (copy_gateways parts gs st).0
    unfolding copy_gateways
    gateways-From n [] st h l = tt
    gateways-From n (o ∷ gs) st (h, hs) l =
        let (g, f, e) = gateway-Copied parts laws o st h in
        let st1 = (deep_copy_into_gateway parts o st).1 in
        (
          From-le n _ (sources_of parts (deep_copy_into_gateway parts o st).0) l
              (gateway-From o st),
          gateways-From n gs st1 (gateways-Grows parts laws g gs hs).0
              (omega (arith, l, sources-length g)),
        )

    -- What the copy points to is new.
    items_point_above :
        (a : ℕ) (p : Option ℕ) (st : Memory parts)
        → ItemsFit parts laws st p
        → ItemsPointTo parts (copy_items parts p st).1 a (copy_items parts p st).0
        → length st.source_arrays ≤ a
    unfolding copy_items
    items_point_above a none st h t = absurd t
    items_point_above a (some b) st (h, hs) t =
        let os = array_at st.item_arrays b in
        let (copied, st1) = copy_gateways parts os st in
        all_points parts (From (length st.source_arrays)) a copied
          (gateways-From (length st.source_arrays) os st hs (omega arith))
          (subst (PointsTo parts a) (array_at-append_length st1.item_arrays copied) t)

    copied_above :
        (a : ℕ) (p : Option ℕ) (st : Memory parts)
        → ItemsFit parts laws st p
        → (copy_items parts p st).0 ≡ some a
        → length st.item_arrays ≤ a
    unfolding copy_items
    copied_above a none st h e = absurd (none-ne-some e)
    copied_above a (some b) st (h, hs) e =
        let os = array_at st.item_arrays b in
        let grown = items-length (gateways-Copied parts laws os st hs).0 in
        omega (arith, grown, some-injective e)

    kept_items :
        (l : AiGatewayList parts) (st : Memory parts)
        → laws.IsAlive list_meta st.rest l.meta
        → ItemsFit parts laws st l.items
        → ItemsFit parts laws (copy_part parts list_meta l.meta st).1 l.items
    kept_items l st h1 h2 =
        (items-Grows parts laws (copy_part-Copied parts laws list_meta l.meta st h1).0 l.items h2).0

    Touches-Above :
        (w : Write parts) (l : AiGatewayList parts) (st : Memory parts)
        → ListFits parts laws st l
        → let (l', st') = deep_copy_into_list parts l st in
          Touches parts st' l' w → Above parts st w
    unfolding deep_copy_into_list copy_part
    Touches-Above (write_sources a xs) l st (h1, h2) t =
        items_point_above a l.items _ (kept_items l st h1 h2) t
    Touches-Above (write_items a gs) l st (h1, h2) t =
        copied_above a l.items _ (kept_items l st h1 h2) t

    -- Writing through the pointers of a deep copy, into its array of items or into the sources of one of
    -- them, changes no list that was in the memory before.
    pub deep_copy_into_list_apart :
        (l k : AiGatewayList parts) (st : Memory parts) (w : Write parts)
        → ListFits parts laws st l
        → ListFits parts laws st k
        → Touches parts (deep_copy_into_list parts l st).1 (deep_copy_into_list parts l st).0 w
        → list_value parts laws (apply parts w (deep_copy_into_list parts l st).1) k
          ≡ list_value parts laws st k
    deep_copy_into_list_apart l k st w hl hk t =
        let (l', st') = deep_copy_into_list parts l st in
        let (g, f, e) = list-Copied parts laws l st hl in
        let other : ¬ Touches parts st' k w =
          λ t'. Above-Below parts st w (Touches-Above w l st hl t) (Touches-Below g w k hk t') in
        list_frame parts laws w st' k other ∙ (list-Grows parts laws g k hk).1

    -- Writing through the pointers of a list that was in the memory before, the original or another, does
    -- not change the deep copy.
    pub deep_copy_into_list_unshared :
        (l k : AiGatewayList parts) (st : Memory parts) (w : Write parts)
        → ListFits parts laws st l
        → ListFits parts laws st k
        → Touches parts (deep_copy_into_list parts l st).1 k w
        → let (l', st') = deep_copy_into_list parts l st in
          list_value parts laws (apply parts w st') l' ≡ list_value parts laws st l
    deep_copy_into_list_unshared l k st w hl hk t =
        let (l', st') = deep_copy_into_list parts l st in
        let (g, f, e) = list-Copied parts laws l st hl in
        let other : ¬ Touches parts st' l' w =
          λ t'. Above-Below parts st w (Touches-Above w l st hl t') (Touches-Below g w k hk t) in
        list_frame parts laws w st' l' other ∙ e
