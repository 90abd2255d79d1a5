-- ===== src/Api/Objects/DeepCopy.antt =====
-- api/components/v1alpha1/zz_generated.deepcopy.go: the copies allocate the arrays of the slices and leave
-- the parts that apimachinery and opendatahub-operator declare to their own `DeepCopyInto`.
pub mod Memory
pub mod Grown
pub mod Writes
pub mod Values
pub mod Apart
use opendatahub_ai_gateway_o.Base.{
  ℕ, zero, suc, ◌+◌, ◌-◌, ◌*◌, ◌/◌, ◌%◌, ◌≤◌, ◌<◌, Bool, true, false, not, ◌&&◌, ◌||◌, List, [],
  ◌∷◌, ◌++◌, map, append-nil, append_assoc, ◌≢◌, ◌↔◌, ◌⊎◌, inl, inr, Option, none, some, ◌≡◌, refl,
  sym, ap, ◌∙◌, arith, ltb, leb, ◌==◌, if◌then◌else◌, ==_iff, Bool-cases, &&-true, length, take,
  length-append, take-append_length, sub_length, All, All-append, All-intro, All-map, All-flat_map,
  Result, ok, err, ◌>>=◌, map_err, >>=-eq-ok, ok-injective, err-ne-ok, map_err-eq-ok,
  some-injective, none-ne-some,
}
use opendatahub_ai_gateway_o.Api.Objects.{
  PartKind, object_meta, list_meta, status, component_release_status, PartsLib,
  BatchGatewayComponent, AiGatewaySpec, ModuleStatusObject, AiGatewayStatus, AiGateway,
  AiGatewayList, Store, array_at,
}
use opendatahub_ai_gateway_o.Api.Status.{PlatformStatus, SourceStatus}
use mathlib.Core.Option
use opendatahub_ai_gateway_o.Text.{Text}

-- `make([]T, n)` with the zero value of the type.
abbrev pub replicate {ℓ} : {A : Type ℓ} → ℕ → A → List A
replicate zero a = []
replicate (suc n) a = a ∷ replicate n a

-- `copy(dst, src)`: as many elements as both have.
unfoldable pub copy_array {ℓ} : {A : Type ℓ} → List A → List A → List A
copy_array [] src = []
copy_array (d ∷ dst) [] = d ∷ dst
copy_array (d ∷ dst) (s ∷ src) = s ∷ copy_array dst src

abbrev pub zero_source : SourceStatus
zero_source = record { path = []; renderer = [] }

-- The methods of the types that hold no pointer: `*out = *in`.
unfoldable pub deep_copy_into_batch_gateway_component :
    BatchGatewayComponent → BatchGatewayComponent
deep_copy_into_batch_gateway_component c = c

unfoldable pub deep_copy_into_spec : AiGatewaySpec → AiGatewaySpec
deep_copy_into_spec s = record s { batch_gateway = s.batch_gateway }

unfoldable pub deep_copy_into_platform_status : PlatformStatus → PlatformStatus
deep_copy_into_platform_status p = p

unfoldable pub deep_copy_into_source_status : SourceStatus → SourceStatus
deep_copy_into_source_status s = s

-- `DeepCopy` of a type whose `DeepCopyInto` needs no memory.
unfoldable pub deep_copy_plain {ℓ} : {A : Type ℓ} → (A → A) → Option A → Option A
deep_copy_plain into none = none
deep_copy_plain into (some a) = some (into a)

unfoldable pub deep_copy_batch_gateway_component :
    Option BatchGatewayComponent → Option BatchGatewayComponent
unfolding deep_copy_into_batch_gateway_component
deep_copy_batch_gateway_component = deep_copy_plain deep_copy_into_batch_gateway_component

unfoldable pub deep_copy_spec : Option AiGatewaySpec → Option AiGatewaySpec
unfolding deep_copy_into_spec
deep_copy_spec = deep_copy_plain deep_copy_into_spec

unfoldable pub deep_copy_platform_status : Option PlatformStatus → Option PlatformStatus
unfolding deep_copy_into_platform_status
deep_copy_platform_status = deep_copy_plain deep_copy_into_platform_status

unfoldable pub deep_copy_source_status : Option SourceStatus → Option SourceStatus
unfolding deep_copy_into_source_status
deep_copy_source_status = deep_copy_plain deep_copy_into_source_status

module _ (parts : PartsLib) where
  open parts use {Part, Rest, copy}

  abbrev pub Memory : Type 0
  Memory = Store parts

  -- A new array of sources behind the others.
  unfoldable pub alloc_sources : List SourceStatus → Memory → ℕ × Memory
  alloc_sources xs st =
      (length st.source_arrays, record st { source_arrays = st.source_arrays ++ xs ∷ [] })

  unfoldable pub copy_sources : Option ℕ → Memory → Option ℕ × Memory
  unfolding alloc_sources copy_array
  copy_sources none st = (none, st)
  copy_sources (some a) st =
      let source = array_at st.source_arrays a in
      let (fresh, st') =
        alloc_sources (copy_array (replicate (length source) zero_source) source) st in
      (some fresh, st')

  unfoldable pub deep_copy_into_module_status :
      ModuleStatusObject → Memory → ModuleStatusObject × Memory
  unfolding copy_sources
  deep_copy_into_module_status s st =
      let (sources, st') = copy_sources s.sources st in
      (record s { platform = s.platform; sources = sources }, st')

  -- `DeepCopyInto` of a part that the repository does not declare.
  unfoldable pub copy_part : (k : PartKind) → Part k → Memory → Part k × Memory
  copy_part k p st = let (p', rest) = copy k p st.rest in (p', record st { rest = rest })

  unfoldable pub deep_copy_into_status :
      AiGatewayStatus parts → Memory → AiGatewayStatus parts × Memory
  unfolding deep_copy_into_module_status copy_part
  deep_copy_into_status s st =
      let (common, st1) = copy_part status s.common_status st in
      let (release, st2) = copy_part component_release_status s.component_release st1 in
      let (module_part, st3) = deep_copy_into_module_status s.module_status st2 in
      (
        record s {
          common_status = common;
          component_release = release;
          module_status = module_part;
        },
        st3,
      )

  unfoldable pub deep_copy_into_gateway : AiGateway parts → Memory → AiGateway parts × Memory
  unfolding deep_copy_into_status copy_part
  deep_copy_into_gateway g st =
      let (meta, st1) = copy_part object_meta g.meta st in
      let (copied, st2) = deep_copy_into_status g.gateway_status st1 in
      (
        record g { type_meta = g.type_meta; meta = meta; spec = g.spec; gateway_status = copied },
        st2,
      )

  -- The loop over the items, with what it has copied.
  unfoldable pub copy_gateways : List (AiGateway parts) → Memory → List (AiGateway parts) × Memory
  unfolding deep_copy_into_gateway
  copy_gateways [] st = ([], st)
  copy_gateways (g ∷ gs) st =
      let (copied, st1) = deep_copy_into_gateway g st in
      let (others, st2) = copy_gateways gs st1 in (copied ∷ others, st2)

  -- The new array is put in place when its items are copied; nothing reads it before.
  unfoldable pub copy_items : Option ℕ → Memory → Option ℕ × Memory
  unfolding copy_gateways
  copy_items none st = (none, st)
  copy_items (some a) st =
      let (copied, st1) = copy_gateways (array_at st.item_arrays a) st in
      (some (length st1.item_arrays), record st1 { item_arrays = st1.item_arrays ++ copied ∷ [] })

  unfoldable pub deep_copy_into_list : AiGatewayList parts → Memory → AiGatewayList parts × Memory
  unfolding copy_items copy_part
  deep_copy_into_list l st =
      let (meta, st1) = copy_part list_meta l.meta st in
      let (items, st2) = copy_items l.items st1 in
      (record l { type_meta = l.type_meta; meta = meta; items = items }, st2)

  -- `DeepCopy` of a type whose `DeepCopyInto` allocates.
  unfoldable pub deep_copy :
      {A : Type 0} → (A → Memory → A × Memory) → Option A → Memory → Option A × Memory
  deep_copy into none st = (none, st)
  deep_copy into (some a) st = let (copied, st') = into a st in (some copied, st')

  unfoldable pub deep_copy_module_status :
      Option ModuleStatusObject → Memory → Option ModuleStatusObject × Memory
  unfolding deep_copy_into_module_status
  deep_copy_module_status = deep_copy deep_copy_into_module_status

  unfoldable pub deep_copy_status :
      Option (AiGatewayStatus parts) → Memory → Option (AiGatewayStatus parts) × Memory
  unfolding deep_copy_into_status
  deep_copy_status = deep_copy deep_copy_into_status

  unfoldable pub deep_copy_gateway :
      Option (AiGateway parts) → Memory → Option (AiGateway parts) × Memory
  unfolding deep_copy
  deep_copy_gateway = deep_copy deep_copy_into_gateway

  unfoldable pub deep_copy_list :
      Option (AiGatewayList parts) → Memory → Option (AiGatewayList parts) × Memory
  unfolding deep_copy
  deep_copy_list = deep_copy deep_copy_into_list

  -- A value of the interface `runtime.Object` that is not nil.
  pub data RuntimeObject : Type 0 where
    gateway_object : AiGateway parts → RuntimeObject
    list_object : AiGatewayList parts → RuntimeObject

  unfoldable pub deep_copy_object_gateway :
      Option (AiGateway parts) → Memory → Option RuntimeObject × Memory
  unfolding deep_copy_gateway
  deep_copy_object_gateway g st =
      let (copied, st') = deep_copy_gateway g st in (Option.map gateway_object copied, st')

  unfoldable pub deep_copy_object_list :
      Option (AiGatewayList parts) → Memory → Option RuntimeObject × Memory
  unfolding deep_copy_list
  deep_copy_object_list l st =
      let (copied, st') = deep_copy_list l st in (Option.map list_object copied, st')
