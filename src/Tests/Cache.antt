-- ===== src/Tests/Cache.antt =====
-- pkg/cache/transform.go at concrete inputs.
use opendatahub_ai_gateway_o.Base.{[], ◌∷◌, some, ◌≡◌}
use opendatahub_ai_gateway_o.Cache.{
  annotation_last_applied_configuration, Cached, kube, strip_unused_fields,
}
use opendatahub_ai_gateway_o.Cache.Strip.{managed_fields_of, annotation_of, strip_unused_fields_lem}
use opendatahub_ai_gateway_o.Text.{codes, equal}

abbrev an_object : Cached
an_object = kube (record {
  managed_fields = codes "kubectl" ∷ [];
  annotations =
      some ((annotation_last_applied_configuration, codes "{}") ∷ (codes "team", codes "a") ∷ []);
  Body = Unit;
  body = tt;
})

strip_unused_fields_lem_example :
    (managed_fields_of (strip_unused_fields an_object) ≡ [])
    × (annotation_of (codes "team") (strip_unused_fields an_object) ≡ some (codes "a"))
unfolding equal
strip_unused_fields_lem_example = strip_unused_fields_lem (codes "team") an_object
