-- ===== src/Api/Objects/DeepCopy/Values.antt =====
-- The deep copies have the values of their originals, and leave the rest of the memory as it is.
use opendatahub_ai_gateway_o.Base.{
  ℕ, List, [], ◌∷◌, ◌++◌, map, Option, none, some, ◌≡◌, refl, ap, ◌∙◌, length, All,
}
use opendatahub_ai_gateway_o.Api.Objects.{
  PartsLib, AiGatewayStatus, AiGateway, AiGatewayList, status, object_meta, list_meta,
  component_release_status, PartKind, array_at, ModuleStatusObject,
}
use opendatahub_ai_gateway_o.Api.Objects.DeepCopy.{
  copy_part, copy_sources, Memory, copy_array, replicate, alloc_sources,
  deep_copy_into_module_status, deep_copy_into_status, deep_copy_into_gateway, copy_gateways,
  copy_items, deep_copy_into_list, zero_source, deep_copy_object_list, deep_copy_list, deep_copy,
  list_object,
}
use opendatahub_ai_gateway_o.Api.Objects.DeepCopy.Memory.{
  IsPartsLib, Grows, FitsIn, sources_value, StatusFits, GatewayFits, ListFits, status_value,
  gateway_value, list_value, ItemsFit, items_value, Grows-refl, Grows-trans, append-Keeps,
  length-append_one, array_at-append_length,
}
use opendatahub_ai_gateway_o.Api.Objects.DeepCopy.Grown.{
  sources-Grows, status-Grows, gateway-Grows, gateways-Grows, items-Grows, list-Grows,
}

-- `copy` into an array made with the length of the source fills all of it.
module _ {ℓ} {A : Type ℓ} where
  copy_array-replicate : (z : A) (xs : List A) → copy_array (replicate (length xs) z) xs ≡ xs
  unfolding copy_array
  copy_array-replicate z [] = refl
  copy_array-replicate z (x ∷ xs) = ap (◌∷◌ x) (copy_array-replicate z xs)

module _ (parts : PartsLib) (laws : IsPartsLib parts) where
  open laws use {Value, value, IsAlive}

  pub copy_part-Copied :
      (k : PartKind) (p : parts.Part k) (st : Memory parts)
      → IsAlive k st.rest p
      → let (p', st') = copy_part parts k p st in
        Grows parts laws st st' × IsAlive k st'.rest p' × (value k st'.rest p' ≡ value k st.rest p)
  unfolding copy_part
  copy_part-Copied k p st h = (
    record {
      keeps_sources = λ a h. (h, refl);
      keeps_items = λ a h. (h, refl);
      keeps_rest = laws.copy_keeps k p st.rest h;
    },
    laws.copy_IsAlive k p st.rest h,
    laws.copy_value k p st.rest h,
  )

  pub copy_sources-Copied :
      (p : Option ℕ) (st : Memory parts)
      → FitsIn st.source_arrays p
      → let (p', st') = copy_sources parts p st in
        Grows parts laws st st'
        × FitsIn st'.source_arrays p'
        × (sources_value parts laws st' p' ≡ sources_value parts laws st p)
  unfolding copy_sources alloc_sources
  copy_sources-Copied none st h = (Grows-refl parts laws st, tt, refl)
  copy_sources-Copied (some a) st h =
      let xs = array_at st.source_arrays a in
      let copied = copy_array (replicate (length xs) zero_source) xs in
      (
        record {
          keeps_sources = append-Keeps st.source_arrays copied;
          keeps_items = λ a h. (h, refl);
          keeps_rest = λ k p a. (a, refl);
        },
        length-append_one st.source_arrays copied,
        ap some
            (array_at-append_length st.source_arrays copied ∙ copy_array-replicate zero_source xs),
      )

  module_status-Copied :
      (s : ModuleStatusObject) (st : Memory parts)
      → FitsIn st.source_arrays s.sources
      → let (s', st') = deep_copy_into_module_status parts s st in
        Grows parts laws st st'
        × FitsIn st'.source_arrays s'.sources
        × (s'.version ≡ s.version)
        × (s'.build_source ≡ s.build_source)
        × (s'.platform ≡ s.platform)
        × (sources_value parts laws st' s'.sources ≡ sources_value parts laws st s.sources)
  unfolding deep_copy_into_module_status
  module_status-Copied s st h =
      let (g, f, e) = copy_sources-Copied s.sources st h in (g, f, refl, refl, refl, e)

  pub status-Copied :
      (s : AiGatewayStatus parts) (st : Memory parts)
      → StatusFits parts laws st s
      → let (s', st') = deep_copy_into_status parts s st in
        Grows parts laws st st'
        × StatusFits parts laws st' s'
        × (status_value parts laws st' s' ≡ status_value parts laws st s)
  unfolding deep_copy_into_status
  status-Copied s st (h1, h2, h3) =
      let (g1, a1, e1) = copy_part-Copied status s.common_status st h1 in
      let st1 = (copy_part parts status s.common_status st).1 in
      let (b2, d2) = g1.keeps_rest component_release_status s.component_release h2 in
      let (g2, a2, e2) = copy_part-Copied component_release_status s.component_release st1 b2 in
      let st2 = (copy_part parts component_release_status s.component_release st1).1 in
      let g12 = Grows-trans parts laws g1 g2 in
      let (b3, d3) = sources-Grows parts laws g12 s.module_status.sources h3 in
      let (g3, a3, e3, e4, e5, e6) = module_status-Copied s.module_status st2 b3 in
      let (a1', e1') = (Grows-trans parts laws g2 g3).keeps_rest status _ a1 in
      let (a2', e2') = g3.keeps_rest component_release_status _ a2 in
      (Grows-trans parts laws g12 g3, (a1', a2', a3), rw (e1', e1, e2', e2, d2, e3, e4, e5, e6, d3))

  pub gateway-Copied :
      (o : AiGateway parts) (st : Memory parts)
      → GatewayFits parts laws st o
      → let (o', st') = deep_copy_into_gateway parts o st in
        Grows parts laws st st'
        × GatewayFits parts laws st' o'
        × (gateway_value parts laws st' o' ≡ gateway_value parts laws st o)
  unfolding deep_copy_into_gateway
  gateway-Copied o st (h1, h2) =
      let (g1, a1, e1) = copy_part-Copied object_meta o.meta st h1 in
      let st1 = (copy_part parts object_meta o.meta st).1 in
      let (b2, d2) = status-Grows parts laws g1 o.gateway_status h2 in
      let (g2, a2, e2) = status-Copied o.gateway_status st1 b2 in
      let (a1', e1') = g2.keeps_rest object_meta _ a1 in
      (Grows-trans parts laws g1 g2, (a1', a2), rw (e1', e1, e2, d2))

  pub gateways-Copied :
      (os : List (AiGateway parts)) (st : Memory parts)
      → All (GatewayFits parts laws st) os
      → let (os', st') = copy_gateways parts os st in
        Grows parts laws st st'
        × All (GatewayFits parts laws st') os'
        × (map (gateway_value parts laws st') os' ≡ map (gateway_value parts laws st) os)
  unfolding copy_gateways
  gateways-Copied [] st h = (Grows-refl parts laws st, tt, refl)
  gateways-Copied (o ∷ os) st (h, hs) =
      let (g1, a1, e1) = gateway-Copied o st h in
      let (o', st1) = deep_copy_into_gateway parts o st in
      let (b2, d2) = gateways-Grows parts laws g1 os hs in
      let (g2, a2, e2) = gateways-Copied os st1 b2 in
      let (a1', e1') = gateway-Grows parts laws g2 o' a1 in
      (Grows-trans parts laws g1 g2, (a1', a2), rw (e1', e1, e2, d2))

  pub items-Copied :
      (p : Option ℕ) (st : Memory parts)
      → ItemsFit parts laws st p
      → let (p', st') = copy_items parts p st in
        Grows parts laws st st'
        × ItemsFit parts laws st' p'
        × (items_value parts laws st' p' ≡ items_value parts laws st p)
  unfolding copy_items
  items-Copied none st h = (Grows-refl parts laws st, tt, refl)
  items-Copied (some a) st (h, hs) =
      let os = array_at st.item_arrays a in
      let (g1, a1, e1) = gateways-Copied os st hs in
      let (os', st1) = copy_gateways parts os st in
      let st2 : Memory parts = record st1 { item_arrays = st1.item_arrays ++ os' ∷ [] } in
      let g2 : Grows parts laws st1 st2 = record {
        keeps_sources = λ a h. (h, refl);
        keeps_items = append-Keeps st1.item_arrays os';
        keeps_rest = λ k p a. (a, refl);
      } in
      let (a2, e2) = gateways-Grows parts laws g2 os' a1 in
      let found = array_at-append_length st1.item_arrays os' in
      (
        Grows-trans parts laws g1 g2,
        (length-append_one st1.item_arrays os', rw found a2),
        rw (found, e2, e1),
      )

  pub list-Copied :
      (l : AiGatewayList parts) (st : Memory parts)
      → ListFits parts laws st l
      → let (l', st') = deep_copy_into_list parts l st in
        Grows parts laws st st'
        × ListFits parts laws st' l'
        × (list_value parts laws st' l' ≡ list_value parts laws st l)
  unfolding deep_copy_into_list
  list-Copied l st (h1, h2) =
      let (g1, a1, e1) = copy_part-Copied list_meta l.meta st h1 in
      let st1 = (copy_part parts list_meta l.meta st).1 in
      let (b2, d2) = items-Grows parts laws g1 l.items h2 in
      let (g2, a2, e2) = items-Copied l.items st1 b2 in
      let (a1', e1') = g2.keeps_rest list_meta _ a1 in
      (Grows-trans parts laws g1 g2, (a1', a2), rw (e1', e1, e2, d2))

  -- `DeepCopyObject` of a list gives an object behind the interface for a list and nil for nil. The copy
  -- has the value of the list, with all that its pointers lead to, its pointers lead into the memory, and
  -- no list or object that was in the memory has another value than before.
  pub list_value-deep_copy_object_list :
      (l k : AiGatewayList parts) (o : AiGateway parts) (st : Memory parts)
      → ListFits parts laws st l
      → ListFits parts laws st k
      → GatewayFits parts laws st o
      → let st' = (deep_copy_object_list parts (some l) st).1 in
        (deep_copy_object_list parts none st ≡ (none, st))
        × ((l' : AiGatewayList parts) × ((deep_copy_object_list parts (some l) st).0
              ≡ some (list_object l'))
            × (list_value parts laws st' l' ≡ list_value parts laws st l)
            × ListFits parts laws st' l')
        × (list_value parts laws st' k ≡ list_value parts laws st k)
        × (gateway_value parts laws st' o ≡ gateway_value parts laws st o)
  unfolding deep_copy_object_list deep_copy_list deep_copy
  list_value-deep_copy_object_list l k o st hl hk ho =
      let (g, f, e) = list-Copied l st hl in
      (
        refl,
        ((deep_copy_into_list parts l st).0, refl, e, f),
        (list-Grows parts laws g k hk).1,
        (gateway-Grows parts laws g o ho).1,
      )
