-- ===== src/Tests/Run.antt =====
-- `run` of cmd/chartgen at a concrete input, on a small file system.
use opendatahub_ai_gateway_o.Chartgen.Run.Again.{run_again}
use opendatahub_ai_gateway_o.Base.{
  Bool, true, false, List, [], ◌∷◌, ◌++◌, Option, none, some, ◌≡◌, refl, if◌then◌else◌, All, ok,
}
use opendatahub_ai_gateway_o.Chartgen.Groups.{
  Chunk, document, Groups, decode_resources, group_by_gvk, gvk_to_filename,
}
use opendatahub_ai_gateway_o.Chartgen.Transform.{render_group}
use opendatahub_ai_gateway_o.Chartgen.Object.{Fields, end, get_field, as_string, as_object, pos}
use opendatahub_ai_gateway_o.Chartgen.Run.{
  FileLib, run, in_order, make_templates_dir, during, write_missing_chart, write_helpers,
  write_helpers_tpl, write_values, write_values_yaml, write_schema, write_values_schema,
  write_templates,
}
use opendatahub_ai_gateway_o.Chartgen.Run.Others.{run_keeps_others}
use opendatahub_ai_gateway_o.Chartgen.Run.Order.{run_any_order}
use mathlib.Core.List.Permᴰ
use opendatahub_ai_gateway_o.Chartgen.Run.Steps.{FileView}
use opendatahub_ai_gateway_o.Chartgen.Run.Contents.{Filled, run_writes_values}
use opendatahub_ai_gateway_o.Chartgen.Run.Written.{Written, run_keeps_chart, run_writes_templates}
use opendatahub_ai_gateway_o.Chartgen.Helpers.{helpers_tpl}
use opendatahub_ai_gateway_o.Chartgen.Values.{Values, ValueLib, extract_defaults}
use opendatahub_ai_gateway_o.Tests.Example.{example_lib, text_field, kind_of, name_of, namespace_of}
use opendatahub_ai_gateway_o.Text.Equality.{equal_refl}
use opendatahub_ai_gateway_o.Text.{Text, codes, equal, to_lower, trim_space, join}

-- The files, the latest first.
abbrev pub Disk : Type 0
Disk = List (Text × Text)

abbrev content_at : Disk → Text → Option Text
content_at [] q = none
content_at ((p, c) ∷ disk) q = if equal p q then some c else content_at disk q

abbrev is_missing : Option Text → Bool
is_missing none = true
is_missing (some c) = false

-- Every write succeeds.
abbrev pub disk : FileLib
disk = record {
  World = Disk;
  join_path = λ directory name. directory ++ (codes "/" ++ name);
  mkdir_all = λ p w. (w, none);
  not_exist = λ p w. is_missing (content_at w p);
  write_file = λ p c w. ((p, c) ∷ w, none);
  marshal_values = λ v. ok (codes "replicas: 1");
  values_schema = ok (codes "{}");
}

unfoldable pub disk_view : FileView disk
disk_view = record {
  read = content_at;
  write_file_lem = λ p c w h. rw (equal_refl p) refl;
  write_file_other = λ p q c w ne. rw ne refl;
  mkdir_all_lem = λ p q w. refl;
  not_exist_lem = λ p w h. rw h refl;
}

abbrev pub no_values : ValueLib
no_values = record {
  nested_slice = λ obj path. none;
  nested_int64 = λ obj path. none;
  multiply = λ a b. 0;
  truncate = λ f. pos 0;
  milli_quantity = λ n. [];
}

abbrev pub two_chunks : List Chunk
two_chunks = document (codes "Service") ∷ document (codes "Job") ∷ []

abbrev two_objects : List Fields
two_objects = text_field "kind" "Service" end ∷ text_field "kind" "Job" end ∷ []

two_chunks_decoded : decode_resources example_lib two_chunks ≡ ok two_objects
unfolding decode_resources trim_space equal
two_chunks_decoded = refl

abbrev pub visited : Groups → Groups
visited groups = groups

abbrev pub with_chart : Disk
with_chart = (codes "out/Chart.yaml", codes "name: mine") ∷ []

abbrev pub written_files : Disk
written_files =
    (codes "out/templates/core_v1_job.yaml", codes "kind: Job")
    ∷ (codes "out/templates/core_v1_service.yaml", codes "kind: Service")
    ∷ (codes "out/values.schema.json", codes "{}")
    ∷ (codes "out/values.yaml", codes "replicas: 1")
    ∷ (codes "out/templates/_helpers.tpl", helpers_tpl)
    ∷ with_chart

two_templates :
    run disk example_lib no_values visited two_chunks
      (codes "out")
      (codes "chart")
      (codes "0.1.0")
      with_chart
    ≡ some (written_files, none)
unfolding run trim_space equal kind_of name_of namespace_of get_field as_string as_object to_lower
    decode_resources extract_defaults in_order make_templates_dir during write_missing_chart
    write_helpers write_helpers_tpl write_values write_values_yaml write_schema write_values_schema
    write_templates group_by_gvk render_group gvk_to_filename join
two_templates = refl

run_keeps_chart_example :
    content_at written_files (codes "out/Chart.yaml") ≡ some (codes "name: mine")
unfolding disk_view group_by_gvk gvk_to_filename equal kind_of get_field as_string to_lower
run_keeps_chart_example =
    run_keeps_chart disk disk_view example_lib no_values (codes "out") visited two_chunks
      (codes "chart") (codes "0.1.0") (codes "name: mine") with_chart written_files
      two_chunks_decoded (refl, refl, refl) (refl, (refl, tt)) refl two_templates

run_writes_templates_example :
    All
      (Written disk disk_view example_lib no_values (codes "out") written_files)
      (group_by_gvk example_lib two_objects)
unfolding group_by_gvk gvk_to_filename equal kind_of get_field as_string to_lower
run_writes_templates_example =
    run_writes_templates disk disk_view example_lib no_values (codes "out") visited two_chunks
      (codes "chart") (codes "0.1.0") with_chart written_files two_chunks_decoded
      ((refl, tt), (tt, tt)) two_templates

run_writes_values_example :
    (values : Values) × (extract_defaults no_values example_lib two_objects ≡ some values)
    × Filled disk disk_view example_lib no_values (codes "out") values written_files
unfolding group_by_gvk gvk_to_filename equal kind_of get_field as_string to_lower
run_writes_values_example =
    run_writes_values disk disk_view example_lib no_values (codes "out") visited two_chunks
      (codes "chart") (codes "0.1.0") with_chart written_files two_chunks_decoded
      (refl, refl, refl, (refl, (refl, tt)), (refl, (refl, tt)), (refl, (refl, tt))) two_templates

run_keeps_others_example : content_at written_files (codes "README.md") ≡ none
unfolding disk_view decode_resources group_by_gvk gvk_to_filename trim_space equal kind_of get_field
    as_string to_lower
run_keeps_others_example =
    run_keeps_others disk disk_view example_lib no_values (codes "out") visited two_chunks
      (codes "chart") (codes "0.1.0") (codes "README.md") with_chart written_files
      (refl, (refl, refl, refl), (refl, (refl, tt))) two_templates

-- The other order of two groups.
abbrev turned : Groups → Groups
turned (x ∷ y ∷ []) = y ∷ x ∷ []
turned groups = groups

abbrev turned_files : Disk
turned_files =
    (codes "out/templates/core_v1_service.yaml", codes "kind: Service")
    ∷ (codes "out/templates/core_v1_job.yaml", codes "kind: Job")
    ∷ (codes "out/values.schema.json", codes "{}")
    ∷ (codes "out/values.yaml", codes "replicas: 1")
    ∷ (codes "out/templates/_helpers.tpl", helpers_tpl)
    ∷ with_chart

two_templates_turned :
    run disk example_lib no_values turned two_chunks
      (codes "out")
      (codes "chart")
      (codes "0.1.0")
      with_chart
    ≡ some (turned_files, none)
unfolding run trim_space equal kind_of name_of namespace_of get_field as_string as_object to_lower
    decode_resources extract_defaults in_order make_templates_dir during write_missing_chart
    write_helpers write_helpers_tpl write_values write_values_yaml write_schema write_values_schema
    write_templates group_by_gvk render_group gvk_to_filename join
two_templates_turned = refl

run_any_order_example :
    content_at written_files (codes "out/templates/core_v1_job.yaml")
    ≡ content_at turned_files (codes "out/templates/core_v1_job.yaml")
unfolding disk_view group_by_gvk gvk_to_filename equal kind_of get_field as_string to_lower
run_any_order_example =
    run_any_order disk disk_view example_lib no_values (codes "out") visited turned two_chunks
      (codes "chart") (codes "0.1.0") (codes "out/templates/core_v1_job.yaml") with_chart
      written_files turned_files two_chunks_decoded (Permᴰ.swap refl refl) ((refl, tt), (tt, tt))
      two_templates two_templates_turned

abbrev files_again : Disk
files_again =
    (codes "out/templates/core_v1_service.yaml", codes "kind: Service")
    ∷ (codes "out/templates/core_v1_job.yaml", codes "kind: Job")
    ∷ (codes "out/values.schema.json", codes "{}")
    ∷ (codes "out/values.yaml", codes "replicas: 1")
    ∷ (codes "out/templates/_helpers.tpl", helpers_tpl)
    ∷ written_files

two_templates_again :
    run disk example_lib no_values turned two_chunks
      (codes "out")
      (codes "chart")
      (codes "0.1.0")
      written_files
    ≡ some (files_again, none)
unfolding run trim_space equal kind_of name_of namespace_of get_field as_string as_object to_lower
    decode_resources extract_defaults in_order make_templates_dir during write_missing_chart
    write_helpers write_helpers_tpl write_values write_values_yaml write_schema write_values_schema
    write_templates group_by_gvk render_group gvk_to_filename join
two_templates_again = refl

run_again_example :
    content_at files_again (codes "out/templates/core_v1_job.yaml")
    ≡ content_at written_files (codes "out/templates/core_v1_job.yaml")
unfolding disk_view group_by_gvk gvk_to_filename equal kind_of get_field as_string to_lower
run_again_example =
    run_again disk disk_view example_lib no_values (codes "out") visited turned two_chunks
      (codes "chart") (codes "0.1.0") (codes "out/templates/core_v1_job.yaml") with_chart
      written_files files_again two_chunks_decoded (Permᴰ.swap refl refl) ((refl, tt), (tt, tt))
      (refl, refl, refl, (refl, (refl, tt)), (refl, (refl, tt)), (refl, (refl, tt))) refl
      two_templates two_templates_again
