-- ===== src/Api/Objects/DeepCopy/Grown.antt =====
-- What fits into a store fits into a store that has grown, and has the same value there.
use opendatahub_ai_gateway_o.Base.{ℕ, List, [], ◌∷◌, map, Option, none, some, ◌≡◌, refl, ap, All}
use opendatahub_ai_gateway_o.Api.Objects.{
  PartsLib, AiGatewayStatus, AiGateway, AiGatewayList, status, object_meta, list_meta,
  component_release_status, array_at,
}
use opendatahub_ai_gateway_o.Api.Objects.DeepCopy.{Memory}
use opendatahub_ai_gateway_o.Api.Objects.DeepCopy.Memory.{
  IsPartsLib, Grows, FitsIn, sources_value, StatusFits, GatewayFits, ListFits, status_value,
  gateway_value, list_value, ItemsFit, items_value,
}

module _ (parts : PartsLib) (laws : IsPartsLib parts) where
  open laws use {Value, value, IsAlive}

  module _ {st st' : Memory parts} (g : Grows parts laws st st') where
    pub sources-Grows :
        (p : Option ℕ)
        → FitsIn st.source_arrays p
        → FitsIn st'.source_arrays p
          × (sources_value parts laws st' p ≡ sources_value parts laws st p)
    sources-Grows none h = (tt, refl)
    sources-Grows (some a) h = let (h', e) = g.keeps_sources a h in (h', ap some e)

    pub status-Grows :
        (s : AiGatewayStatus parts)
        → StatusFits parts laws st s
        → StatusFits parts laws st' s
          × (status_value parts laws st' s ≡ status_value parts laws st s)
    status-Grows s (h1, h2, h3) =
        let (a1, e1) = g.keeps_rest status s.common_status h1 in
        let (a2, e2) = g.keeps_rest component_release_status s.component_release h2 in
        let (a3, e3) = sources-Grows s.module_status.sources h3 in ((a1, a2, a3), rw (e1, e2, e3))

    pub gateway-Grows :
        (o : AiGateway parts)
        → GatewayFits parts laws st o
        → GatewayFits parts laws st' o
          × (gateway_value parts laws st' o ≡ gateway_value parts laws st o)
    gateway-Grows o (h1, h2) =
        let (a1, e1) = g.keeps_rest object_meta o.meta h1 in
        let (a2, e2) = status-Grows o.gateway_status h2 in ((a1, a2), rw (e1, e2))

    pub gateways-Grows :
        (os : List (AiGateway parts))
        → All (GatewayFits parts laws st) os
        → All (GatewayFits parts laws st') os
          × (map (gateway_value parts laws st') os ≡ map (gateway_value parts laws st) os)
    gateways-Grows [] h = (tt, refl)
    gateways-Grows (o ∷ os) (h, hs) =
        let (a1, e1) = gateway-Grows o h in
        let (a2, e2) = gateways-Grows os hs in ((a1, a2), rw (e1, e2))

    pub items-Grows :
        (p : Option ℕ)
        → ItemsFit parts laws st p
        → ItemsFit parts laws st' p × (items_value parts laws st' p ≡ items_value parts laws st p)
    items-Grows none h = (tt, refl)
    items-Grows (some a) (h, hs) =
        let (h', e) = g.keeps_items a h in
        let (hs', es) = gateways-Grows (array_at st.item_arrays a) hs in
        ((h', rw e hs'), rw (e, es))

    pub list-Grows :
        (l : AiGatewayList parts)
        → ListFits parts laws st l
        → ListFits parts laws st' l × (list_value parts laws st' l ≡ list_value parts laws st l)
    list-Grows l (h1, h2) =
        let (a1, e1) = g.keeps_rest list_meta l.meta h1 in
        let (a2, e2) = items-Grows l.items h2 in ((a1, a2), rw (e1, e2))
