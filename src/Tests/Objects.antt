-- ===== src/Tests/Objects.antt =====
-- The theorems on the API objects at concrete inputs: a part of another module holds texts and the address of
-- further texts.
use opendatahub_ai_gateway_o.Api.Objects.DeepCopy.{
  deep_copy_into_list, deep_copy_into_gateway, deep_copy_into_status, deep_copy_into_module_status,
  copy_items, copy_gateways, copy_sources, copy_part, alloc_sources, copy_array,
  deep_copy_object_list, list_object,
}
use opendatahub_ai_gateway_o.Base.{
  ℕ, ◌<◌, List, [], ◌∷◌, ◌++◌, inl, none, some, ◌≡◌, refl, ap, arith, length,
}
use opendatahub_ai_gateway_o.Api.Objects.{PartsLib, array_at, AiGateway, AiGatewayList, Store}
use opendatahub_ai_gateway_o.Api.Objects.DeepCopy.Memory.{
  IsPartsLib, ListFits, list_value, gateway_value,
}
use opendatahub_ai_gateway_o.Api.Objects.DeepCopy.Values.{list_value-deep_copy_object_list}
use opendatahub_ai_gateway_o.Api.Objects.DeepCopy.Apart.{deep_copy_into_list_apart}
use opendatahub_ai_gateway_o.Api.Objects.DeepCopy.Writes.{write_sources, apply}
use opendatahub_ai_gateway_o.Api.Objects.DeepCopy.Memory.{
  append-Keeps, length-append_one, array_at-append_length,
}
use opendatahub_ai_gateway_o.Text.{Text, codes}

abbrev small_parts : PartsLib
small_parts = record {
  TypeMeta = Text;
  Part = λ k. List Text × ℕ;
  Rest = List (List Text);
  copy = λ k p m. ((p.0, length m), m ++ array_at m p.1 ∷ []);
  Conditions = List Text;
  Releases = List Text;
  get_conditions = λ s. s.0;
  set_conditions = λ cs s. (cs, s.1);
  releases = λ s. s.0;
  set_releases = λ rs s. (rs, s.1);
}

abbrev small_parts_laws : IsPartsLib small_parts
small_parts_laws = record {
  Value = λ k. List Text × List Text;
  value = λ k m p. (p.0, array_at m p.1);
  IsAlive = λ k m p. p.1 < length m;
  copy_IsAlive = λ k p m a. length-append_one m (array_at m p.1);
  copy_value = λ k p m a. ap (λ t. (p.0, t)) (array_at-append_length m (array_at m p.1));
  copy_keeps = λ k p m a j q b.
      let (h, e) = append-Keeps m (array_at m p.1) q.1 b in (h, ap (λ t. (q.0, t)) e);
}

abbrev small_gateway : AiGateway small_parts
small_gateway = record {
  type_meta = codes "AIGateway";
  meta = (codes "default-aigateway" ∷ [], 0);
  spec = record { batch_gateway = record { management_state = codes "Managed" } };
  gateway_status = record {
    common_status = (codes "Ready" ∷ [], 0);
    component_release = ([], 0);
    module_status = record {
      version = codes "1.0.0";
      build_source = codes "abc";
      platform = record { name = codes "odh"; version = codes "3.0.0" };
      sources = some 0;
    };
  };
}

abbrev small_list : AiGatewayList small_parts
small_list = record { type_meta = codes "AIGatewayList"; meta = ([], 0); items = some 0 }

abbrev small_store : Store small_parts
small_store = record {
  source_arrays = (record { path = codes "batch-gateway"; renderer = [] } ∷ []) ∷ [];
  item_arrays = (small_gateway ∷ []) ∷ [];
  rest = (codes "label" ∷ []) ∷ [];
}

small_list-ListFits : ListFits small_parts small_parts_laws small_store small_list
small_list-ListFits = let h : 0 < 1 = omega arith in (h, (h, ((h, (h, h, h)), tt)))

abbrev copied_list : AiGatewayList small_parts
unfolding deep_copy_into_list deep_copy_into_gateway deep_copy_into_status
    deep_copy_into_module_status copy_items copy_gateways copy_sources copy_part alloc_sources
    copy_array
copied_list = (deep_copy_into_list small_parts small_list small_store).0

abbrev copied_store : Store small_parts
unfolding deep_copy_into_list deep_copy_into_gateway deep_copy_into_status
    deep_copy_into_module_status copy_items copy_gateways copy_sources copy_part alloc_sources
    copy_array
copied_store = (deep_copy_into_list small_parts small_list small_store).1

copied_items : copied_list.items ≡ some 1
unfolding copied_list
copied_items = refl

copied_sources : length copied_store.source_arrays ≡ 2
unfolding copied_store
copied_sources = refl

list_value-deep_copy_object_list_example :
    let st' = (deep_copy_object_list small_parts (some small_list) small_store).1 in
    (deep_copy_object_list small_parts none small_store ≡ (none, small_store))
    × ((l' : AiGatewayList small_parts) × ((deep_copy_object_list small_parts
            (some small_list)
            small_store).0
          ≡ some (list_object l'))
        × (list_value small_parts small_parts_laws st' l'
            ≡ list_value small_parts small_parts_laws small_store small_list)
        × ListFits small_parts small_parts_laws st' l')
    × (list_value small_parts small_parts_laws st' small_list
        ≡ list_value small_parts small_parts_laws small_store small_list)
    × (gateway_value small_parts small_parts_laws st' small_gateway
        ≡ gateway_value small_parts small_parts_laws small_store small_gateway)
list_value-deep_copy_object_list_example =
    let h : 0 < 1 = omega arith in
    list_value-deep_copy_object_list small_parts small_parts_laws small_list small_list
      small_gateway small_store small_list-ListFits small_list-ListFits (h, (h, h, h))

deep_copy_into_list_apart_example :
    list_value small_parts small_parts_laws
      (apply small_parts (write_sources 1 []) copied_store)
      small_list
    ≡ list_value small_parts small_parts_laws small_store small_list
unfolding copied_list copied_store
deep_copy_into_list_apart_example =
    deep_copy_into_list_apart small_parts small_parts_laws small_list small_list small_store
      (write_sources 1 []) small_list-ListFits small_list-ListFits (inl refl)
