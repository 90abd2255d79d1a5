-- ===== src/Tests/Blocks.antt =====
-- The blocks of a chart with a Deployment.
use opendatahub_ai_gateway_o.Chartgen.Libraries.{Gvk}
use opendatahub_ai_gateway_o.Chartgen.Run.Blocks.{HoldsBlocks, run_balances_blocks}
use opendatahub_ai_gateway_o.Chartgen.Transform.Balanced.{AllNeutral}
use opendatahub_ai_gateway_o.Chartgen.Blocks.{opens, behind_lines, closes, behind_line}
use opendatahub_ai_gateway_o.Base.{List, [], ◌∷◌, none, some, ◌≡◌, refl, All, ok}
use opendatahub_ai_gateway_o.Text.{
  codes, equal, has_prefix, split, join, trim_space, contains, indent_of, trim_left, to_lower,
}
use opendatahub_ai_gateway_o.Chartgen.Helpers.{helpers_tpl}
use opendatahub_ai_gateway_o.Chartgen.Groups.{
  Chunk, document, decode_resources, group_by_gvk, gvk_to_filename,
}
use opendatahub_ai_gateway_o.Tests.Example.{
  example_lib, a_deployment, kind_of, name_of, namespace_of,
}
use opendatahub_ai_gateway_o.Tests.Run.{Disk, disk, disk_view, no_values, visited, with_chart}
use opendatahub_ai_gateway_o.Chartgen.Run.{
  run, template_file, in_order, make_templates_dir, during, write_missing_chart, write_helpers,
  write_helpers_tpl, write_values, write_values_yaml, write_schema, write_values_schema,
  write_templates,
}
use opendatahub_ai_gateway_o.Chartgen.Transform.{
  transform_resource, transform_deployment, render_group,
}
use opendatahub_ai_gateway_o.Chartgen.Fields.{
  replace_namespace, replace_image_field, replace_replicas, replace_service_account_name,
  add_image_pull_secrets,
}
use opendatahub_ai_gateway_o.Chartgen.Resources.{replace_resources}
use opendatahub_ai_gateway_o.Chartgen.Values.{extract_defaults}
use opendatahub_ai_gateway_o.Chartgen.Object.{get_field, as_string, as_object, Fields}
use mathlib.Core.List.Permᴰ

abbrev deployment_chunks : List Chunk
deployment_chunks = document (codes "Deployment") ∷ []

deployment_decoded : decode_resources example_lib deployment_chunks ≡ ok (a_deployment ∷ [])
unfolding decode_resources trim_space equal
deployment_decoded = refl

abbrev deployment_files : Disk
deployment_files =
    (
      codes "out/templates/core_v1_deployment.yaml",
      codes
          "kind: Deployment\nmetadata:\n  name: controller\n  namespace: {{ .Release.Namespace }}\nspec:\n  replicas: {{ .Values.replicas }}\n  resources:\n    {{- toYaml .Values.resources | nindent 4 }}\n  serviceAccountName: {{ default (include \"chart.fullname\" .) .Values.serviceAccount.name }}\n  {{- with .Values.imagePullSecret }}\n  imagePullSecrets:\n    - name: {{ . }}\n  {{- end }}",
    )
    ∷ (codes "out/values.schema.json", codes "{}")
    ∷ (codes "out/values.yaml", codes "replicas: 1")
    ∷ (codes "out/templates/_helpers.tpl", helpers_tpl)
    ∷ with_chart

deployment_chart :
    run disk example_lib no_values visited deployment_chunks
      (codes "out")
      (codes "chart")
      (codes "0.1.0")
      with_chart
    ≡ some (deployment_files, none)
unfolding run trim_space equal kind_of name_of namespace_of get_field as_string as_object to_lower
    decode_resources extract_defaults in_order make_templates_dir during write_missing_chart
    write_helpers write_helpers_tpl write_values write_values_yaml write_schema write_values_schema
    write_templates group_by_gvk render_group gvk_to_filename join transform_deployment
    replace_namespace replace_image_field replace_replicas replace_resources
    replace_service_account_name add_image_pull_secrets has_prefix contains indent_of split
    trim_left transform_resource
deployment_chart = refl

a_deployment-Neutral : AllNeutral example_lib (a_deployment ∷ [])
unfolding opens closes has_prefix trim_space split
a_deployment-Neutral = (
  (
    _,
    refl,
    (
      (refl, refl),
      (
        (refl, refl),
        (
          (refl, refl),
          (
            (refl, refl),
            ((refl, refl), ((refl, refl), ((refl, refl), ((refl, refl), ((refl, refl), tt))))),
          ),
        ),
      ),
    ),
  ),
  tt,
)

run_balances_blocks_example :
    HoldsBlocks disk disk_view example_lib no_values
      (codes "out")
      deployment_files
      (codes "out/templates/_helpers.tpl")
    × All
        (λ (x : Gvk × List Fields).
          HoldsBlocks disk disk_view example_lib no_values
            (codes "out")
            deployment_files
            (template_file disk (codes "out") x.0))
        (group_by_gvk example_lib (a_deployment ∷ []))
unfolding disk_view group_by_gvk gvk_to_filename equal kind_of get_field as_string to_lower
run_balances_blocks_example =
    run_balances_blocks disk disk_view example_lib no_values (codes "out") visited deployment_chunks
      (codes "chart") (codes "0.1.0") with_chart deployment_files deployment_decoded
      a_deployment-Neutral (Permᴰ.cons refl Permᴰ.nil) (tt, tt)
      (refl, refl, refl, (refl, tt), (refl, tt), (refl, tt)) deployment_chart

-- A block that is not closed is found.
open_block_found :
    behind_lines (codes "{{- with .Values.x }}" ∷ codes "a: b" ∷ []) (some 0) ≡ some 1
unfolding behind_lines behind_line opens closes trim_space has_prefix
open_block_found = refl
