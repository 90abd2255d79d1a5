-- ===== src/Tests/Groups.antt =====
-- cmd/chartgen/chartgen.go at concrete inputs.
use opendatahub_ai_gateway_o.Chartgen.Groups.Filename.{gvk_to_filename-injective}
use opendatahub_ai_gateway_o.Chartgen.Groups.{gvk_to_filename, group_part}
use opendatahub_ai_gateway_o.Chartgen.Libraries.{Gvk}
use opendatahub_ai_gateway_o.Text.{Text, to_lower}
use opendatahub_ai_gateway_o.Base.{List, [], ◌∷◌, ◌≡◌, refl, ok}
use opendatahub_ai_gateway_o.Chartgen.Groups.{document, decode_resources, group_by_gvk, Chunk}
use opendatahub_ai_gateway_o.Chartgen.Groups.Partition.{lookup_group, group_by_gvk_lem}
use opendatahub_ai_gateway_o.Chartgen.Object.{Fields, end, get_field, as_string}
use opendatahub_ai_gateway_o.Chartgen.Libraries.{same_gvk}
use opendatahub_ai_gateway_o.Tests.Example.{example_lib, of_kind, text_field, kind_of}
use opendatahub_ai_gateway_o.Text.{codes, equal, trim_space}

abbrev a_service : Fields
a_service = text_field "kind" "Service" end

abbrev a_namespace : Fields
a_namespace = text_field "kind" "Namespace" end

abbrev a_job : Fields
a_job = text_field "kind" "Job" end

abbrev three_objects : List Fields
three_objects = a_service ∷ a_namespace ∷ a_job ∷ []

group_by_gvk_lem_example :
    lookup_group (of_kind "Job") (group_by_gvk example_lib three_objects) ≡ a_job ∷ []
unfolding same_gvk equal kind_of get_field as_string
group_by_gvk_lem_example = group_by_gvk_lem example_lib (of_kind "Job") three_objects

abbrev four_chunks : List Chunk
four_chunks =
    document (codes "Service")
    ∷ document (codes " \n")
    ∷ document (codes "null")
    ∷ document (codes "Job")
    ∷ []

four_chunks_decoded : decode_resources example_lib four_chunks ≡ ok (a_service ∷ a_job ∷ [])
unfolding decode_resources trim_space equal
four_chunks_decoded = refl

abbrev lease_of : Text → Gvk
lease_of group = record { group = group; version = codes "v1"; kind = codes "Lease" }

same_filename :
    gvk_to_filename (lease_of (codes "Coordination.k8s.io"))
    ≡ gvk_to_filename (lease_of (codes "coordination.k8s.io"))
unfolding gvk_to_filename
same_filename = refl

gvk_to_filename-injective_example :
    (group_part (lease_of (codes "Coordination.k8s.io"))
      ≡ group_part (lease_of (codes "coordination.k8s.io")))
    × (to_lower (codes "v1") ≡ to_lower (codes "v1"))
    × (to_lower (codes "Lease") ≡ to_lower (codes "Lease"))
unfolding group_part to_lower
gvk_to_filename-injective_example =
    gvk_to_filename-injective (lease_of (codes "Coordination.k8s.io"))
      (lease_of (codes "coordination.k8s.io")) refl refl refl refl same_filename
