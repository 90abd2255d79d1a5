-- ===== src/Chartgen/Run.antt =====
-- `run` of cmd/chartgen/chartgen.go and the functions that write its files. A step works on the file
-- system and returns its error; what it wrote before an error stays written.
pub mod Steps
pub mod Keeps
pub mod Written
pub mod Contents
pub mod Others
pub mod Order
pub mod Blocks
pub mod Again
use opendatahub_ai_gateway_o.Base.{
  ℕ, zero, suc, ◌+◌, ◌-◌, ◌*◌, ◌/◌, ◌%◌, ◌≤◌, ◌<◌, Bool, true, false, not, ◌&&◌, ◌||◌, List, [],
  ◌∷◌, ◌++◌, map, append-nil, append_assoc, ◌≢◌, ◌↔◌, ◌⊎◌, inl, inr, Option, none, some, ◌≡◌, refl,
  sym, ap, ◌∙◌, arith, ltb, leb, ◌==◌, if◌then◌else◌, ==_iff, Bool-cases, &&-true, length, take,
  length-append, take-append_length, sub_length, All, All-append, All-intro, All-map, All-flat_map,
  Result, ok, err, ◌>>=◌, map_err, >>=-eq-ok, ok-injective, err-ne-ok, map_err-eq-ok,
  some-injective, none-ne-some,
}
use opendatahub_ai_gateway_o.Chartgen.Groups.{
  Chunk, Groups, decode_resources, group_by_gvk, gvk_to_filename,
}
use opendatahub_ai_gateway_o.Chartgen.Helpers.{helpers_tpl, chart_yaml}
use opendatahub_ai_gateway_o.Chartgen.Libraries.{Libraries, Gvk}
use opendatahub_ai_gateway_o.Chartgen.Object.{Fields}
use opendatahub_ai_gateway_o.Chartgen.Transform.{render_group}
use opendatahub_ai_gateway_o.Chartgen.Values.{Values, ValueLib, extract_defaults}
use opendatahub_ai_gateway_o.Text.{Text, codes}

-- Go's packages os and path/filepath, as far as `run` calls them, the YAML printer for `Values`, and
-- the printed JSON schema that is reflected from it.
pub record FileLib : Type 1 where
  pub World : Type 0
  pub join_path : Text → Text → Text
  pub mkdir_all : Text → World → World × Option Text
  -- `os.IsNotExist` of the error of `os.Stat`
  pub not_exist : Text → World → Bool
  pub write_file : Text → Text → World → World × Option Text
  pub marshal_values : Values → Result Text
  pub values_schema : Result Text

module _ (files : FileLib) where
  open files use {World, join_path, mkdir_all, not_exist, write_file, marshal_values, values_schema}

  abbrev pub Outcome : Type 0
  Outcome = World × Option Text

  -- The next step, unless there is an error: `if err := …; err != nil { return … }`.
  unfoldable pub continue : Outcome → (World → Outcome) → Outcome
  continue (world, none) step = step world
  continue (world, some e) step = (world, some e)

  -- `fmt.Errorf("…: %w", err)` around a step's error.
  unfoldable pub during : Text → Outcome → Outcome
  during what (world, none) = (world, none)
  during what (world, some e) = (world, some (what ++ e))

  unfoldable pub with_content : Result Text → (Text → World → Outcome) → World → Outcome
  with_content (err e) step world = (world, some e)
  with_content (ok content) step world = step content world

  unfoldable pub write_helpers_tpl : Text → World → Outcome
  write_helpers_tpl path = write_file path helpers_tpl

  unfoldable pub write_chart_yaml : Text → Text → Text → World → Outcome
  write_chart_yaml path name version = write_file path (chart_yaml name version)

  unfoldable pub write_values_yaml : Values → Text → World → Outcome
  unfolding with_content
  write_values_yaml v path =
      with_content (map_err (λ e. codes "marshaling values: " ++ e) (marshal_values v))
        (write_file path)

  unfoldable pub write_values_schema : Text → World → Outcome
  unfolding with_content
  write_values_schema path =
      with_content (map_err (λ e. codes "marshaling schema: " ++ e) values_schema) (write_file path)

  abbrev pub templates_dir : Text → Text
  templates_dir output_dir = join_path output_dir (codes "templates")

  abbrev pub chart_file : Text → Text
  chart_file output_dir = join_path output_dir (codes "Chart.yaml")

  abbrev pub helpers_file : Text → Text
  helpers_file output_dir = join_path (templates_dir output_dir) (codes "_helpers.tpl")

  abbrev pub values_file : Text → Text
  values_file output_dir = join_path output_dir (codes "values.yaml")

  abbrev pub schema_file : Text → Text
  schema_file output_dir = join_path output_dir (codes "values.schema.json")

  abbrev pub template_file : Text → Gvk → Text
  template_file output_dir g = join_path (templates_dir output_dir) (gvk_to_filename g)

  -- Steps one behind the other, up to the first error.
  unfoldable pub in_order : List (World → Outcome) → World → Outcome
  unfolding continue
  in_order [] world = (world, none)
  in_order (step ∷ steps) world = continue (step world) (in_order steps)

  unfoldable pub make_templates_dir : Text → World → Outcome
  make_templates_dir output_dir world =
      during (codes "creating templates directory: ") (mkdir_all (templates_dir output_dir) world)

  -- `Chart.yaml` is written only if it is missing.
  unfoldable pub write_missing_chart : Text → Text → Text → World → Outcome
  write_missing_chart output_dir chart_name chart_version world =
      if not_exist (chart_file output_dir) world
      then during (codes "writing Chart.yaml: ")
          (write_chart_yaml (chart_file output_dir) chart_name chart_version world)
      else (world, none)

  unfoldable pub write_helpers : Text → World → Outcome
  write_helpers output_dir world =
      during (codes "writing _helpers.tpl: ") (write_helpers_tpl (helpers_file output_dir) world)

  unfoldable pub write_values : Text → Values → World → Outcome
  write_values output_dir values world =
      during (codes "writing values.yaml: ")
        (write_values_yaml values (values_file output_dir) world)

  unfoldable pub write_schema : Text → World → Outcome
  write_schema output_dir world =
      during (codes "writing values.schema.json: ")
        (write_values_schema (schema_file output_dir) world)

  abbrev pub writing : Text → Gvk → Text
  writing output_dir g = codes "writing " ++ (template_file output_dir g ++ codes ": ")

  unfoldable pub write_content : Text → Gvk → Text → World → Outcome
  unfolding during
  write_content output_dir g content world =
      during (writing output_dir g) (write_file (template_file output_dir g) content world)

  module _ (lib : Libraries) (values_lib : ValueLib) where
    abbrev pub rendered : Gvk → List Fields → Result Text
    rendered g resources =
        map_err (λ e. codes "rendering " ++ (gvk_to_filename g ++ (codes ": " ++ e)))
          (render_group lib g resources)

    -- The body of the loop over the groups.
    unfoldable pub write_template : Text → Gvk → List Fields → World → Outcome
    unfolding write_content with_content
    write_template output_dir g resources =
        with_content (rendered g resources) (write_content output_dir g)

    unfoldable pub write_templates : Text → Groups → World → Outcome
    unfolding write_template continue
    write_templates output_dir [] world = (world, none)
    write_templates output_dir ((g, resources) ∷ groups) world =
        continue (write_template output_dir g resources world) (write_templates output_dir groups)

    -- `run` behind `ExtractDefaults`.
    unfoldable pub write_chart : Text → Text → Text → Values → Groups → World → Outcome
    write_chart output_dir chart_name chart_version values groups = in_order (
        make_templates_dir output_dir
        ∷ write_missing_chart output_dir chart_name chart_version
        ∷ write_helpers output_dir
        ∷ write_values output_dir values
        ∷ write_schema output_dir
        ∷ write_templates output_dir groups
        ∷ [])

    -- `none` is the panic of `ExtractDefaults`.
    unfoldable pub write_extracted :
        Text → Text → Text → Groups → Option Values → World → Option Outcome
    unfolding write_chart
    write_extracted output_dir chart_name chart_version groups none world = none
    write_extracted output_dir chart_name chart_version groups (some values) world =
        some (write_chart output_dir chart_name chart_version values groups world)

    -- `iterate` is the order in which the loop over the map visits the groups.
    unfoldable pub run_decoded :
        (Groups → Groups) → Text → Text → Text → Result (List Fields) → World → Option Outcome
    unfolding write_extracted
    run_decoded iterate output_dir chart_name chart_version (err e) world =
        some (world, some (codes "decoding resources: " ++ e))
    run_decoded iterate output_dir chart_name chart_version (ok resources) world =
        write_extracted output_dir chart_name chart_version (iterate (group_by_gvk lib resources))
          (extract_defaults values_lib lib resources) world

    unfoldable pub run :
        (Groups → Groups) → List Chunk → Text → Text → Text → World → Option Outcome
    unfolding run_decoded
    run iterate chunks output_dir chart_name chart_version world =
        run_decoded iterate output_dir chart_name chart_version (decode_resources lib chunks) world
