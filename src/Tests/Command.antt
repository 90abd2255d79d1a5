-- ===== src/Tests/Command.antt =====
-- The theorems on the command line at concrete arguments, with a small reader of them.
use opendatahub_ai_gateway_o.Base.{
  Bool, true, false, List, [], ◌∷◌, Option, none, some, ◌≡◌, refl, ap, ok, err,
}
use opendatahub_ai_gateway_o.Command.{
  Command, CobraLib, ProcessWorld, main, CommandRun, exit_code, output_flag, name_flag,
  version_flag,
}
use opendatahub_ai_gateway_o.Command.Dispatch.{
  Settings, flag_value, find_command, arg_list, IsCobraLib, main_chartgen, main_operator,
}
use opendatahub_ai_gateway_o.Operator.{Ending, returned}
use opendatahub_ai_gateway_o.Chartgen.Run.{run}
use opendatahub_ai_gateway_o.Tests.Run.{
  Disk, disk, no_values, visited, two_chunks, with_chart, written_files,
}
use opendatahub_ai_gateway_o.Tests.Example.{example_lib}
use opendatahub_ai_gateway_o.Chartgen.Groups.{decode_resources, group_by_gvk, gvk_to_filename}
use opendatahub_ai_gateway_o.Chartgen.Transform.{render_group}
use opendatahub_ai_gateway_o.Chartgen.Object.{get_field, as_string, as_object}
use opendatahub_ai_gateway_o.Chartgen.Run.{
  in_order, make_templates_dir, during, write_missing_chart, write_helpers, write_helpers_tpl,
  write_values, write_values_yaml, write_schema, write_values_schema, write_templates,
}
use opendatahub_ai_gateway_o.Chartgen.Values.{extract_defaults}
use opendatahub_ai_gateway_o.Tests.Example.{kind_of, name_of, namespace_of}
use opendatahub_ai_gateway_o.Api.Semver.{new_sem_ver}
use opendatahub_ai_gateway_o.Config.{load, load_from_fs, is_structured}
use opendatahub_ai_gateway_o.Controller.{new_module}
use opendatahub_ai_gateway_o.Controller.Reconciler.{new_reconciler}
use opendatahub_ai_gateway_o.Operator.{
  run_loaded, with_config, register, on_result, unless_error, add_checks, start_manager,
}
use opendatahub_ai_gateway_o.Text.{has_prefix}
use opendatahub_ai_gateway_o.Operator
use opendatahub_ai_gateway_o.Command.{finish, operator_command}
use opendatahub_ai_gateway_o.Config.{ViperLib, Entry, Directory, merge_entries, merge_entry}
use opendatahub_ai_gateway_o.Config.Broken.{IsBroken}
use opendatahub_ai_gateway_o.Command.Exit.{main_operator-IsBroken, main_operator-Ran}
use opendatahub_ai_gateway_o.Operator.Ended.{Ran}
use opendatahub_ai_gateway_o.Config.{load}
use opendatahub_ai_gateway_o.Tests.Operator.{tracked, an_operator, mounted, config_path}
use opendatahub_ai_gateway_o.Tests.Config.{small}
use opendatahub_ai_gateway_o.Tests.Reconciler.{small_framework}
use opendatahub_ai_gateway_o.Tests.Controller.{unary, a_build}
use opendatahub_ai_gateway_o.Text.{equal, to_lower, trim_space, join}
use opendatahub_ai_gateway_o.Text.{Text, codes}

abbrev flag_name : Text → Text
flag_name (a ∷ b ∷ name) = name
flag_name _ = []

abbrev read_settings : List Text → Settings
read_settings (a ∷ v ∷ args) = (flag_name a, v) ∷ read_settings args
read_settings _ = []

read_settings-arg_list : (settings : Settings) → read_settings (arg_list settings) ≡ settings
read_settings-arg_list [] = refl
read_settings-arg_list ((n, v) ∷ settings) = ap (◌∷◌ (n, v)) (read_settings-arg_list settings)

abbrev run_found : Option (Command Disk Bool) → Settings → CommandRun Disk Bool
run_found none settings w = some (w, returned (some (codes "unknown command")))
run_found (some c) settings w = c.run_e (flag_value settings) w

abbrev small_cobra : CobraLib Disk Bool
small_cobra root cs [] w = some (w, returned none)
small_cobra root cs (name ∷ args) w = run_found (find_command name cs) (read_settings args) w

small_cobra-IsCobraLib : IsCobraLib small_cobra
small_cobra-IsCobraLib root name cs c settings w found declared = rw (found, read_settings-arg_list)

abbrev chart_run : Text → Text → Text → Disk → Option (Disk × Option Text)
chart_run = run disk example_lib no_values visited two_chunks

abbrev failing_run : Bool → Bool × Ending
failing_run started = (started, returned (some (codes "loading operator config: no such file")))

abbrev before : ProcessWorld Disk Bool
before = record { files = with_chart; cluster = false }

main_chartgen_example :
    main Disk Bool small_cobra chart_run failing_run
      (codes "chartgen" ∷ codes "--output" ∷ codes "out" ∷ [])
      before
    ≡ some (record { files = written_files; cluster = false }, exit_code 0)
unfolding run trim_space equal kind_of name_of namespace_of get_field as_string as_object to_lower
    decode_resources extract_defaults in_order make_templates_dir during write_missing_chart
    write_helpers write_helpers_tpl write_values write_values_yaml write_schema write_values_schema
    write_templates group_by_gvk render_group gvk_to_filename join output_flag name_flag
    version_flag flag_value
main_chartgen_example =
    main_chartgen small_cobra small_cobra-IsCobraLib chart_run failing_run
      ((codes "output", codes "out") ∷ []) before (refl, tt)

main_operator_failing :
    main Disk Bool small_cobra chart_run failing_run (codes "operator" ∷ []) before
    ≡ some (before, exit_code 1)
main_operator_failing =
    main_operator small_cobra small_cobra-IsCobraLib chart_run failing_run before

abbrev started_run : Bool → Bool × Ending
started_run =
    Operator.run unary tracked (small_framework tracked) an_operator a_build 0 small config_path
      mounted

abbrev after : ProcessWorld Disk Bool
after = record { files = with_chart; cluster = true }

main_operator-Ran_example :
    Ran unary tracked
      (small_framework tracked)
      an_operator
      a_build
      0
      (load small config_path mounted)
      false
      true
unfolding Operator.run main finish operator_command run_loaded with_config register on_result
    unless_error add_checks start_manager load load_from_fs is_structured equal to_lower trim_space
    has_prefix new_reconciler new_module new_sem_ver
main_operator-Ran_example =
    main_operator-Ran unary tracked (small_framework tracked) an_operator a_build 0 small
      config_path mounted small_cobra small_cobra-IsCobraLib chart_run before after refl

-- A viper that finds no settings in any structured file.
abbrev strict : ViperLib
strict = record small { read_settings = λ ext content. err (codes "not yaml") }

abbrev bad_file : Entry
bad_file = record {
  name = codes "config.yaml";
  is_dir = false;
  extension = codes "yaml";
  content = ok (codes "{");
}

abbrev with_bad_file : Text → Directory
with_bad_file path = ok (
    record {
      name = codes "platform-type";
      is_dir = false;
      extension = [];
      content = ok (codes "odh");
    }
    ∷ bad_file
    ∷ [])

bad_file-IsBroken : IsBroken strict bad_file (codes "not yaml")
unfolding has_prefix is_structured
bad_file-IsBroken = record {
  no_directory = refl;
  not_hidden = refl;
  structured = refl;
  text_of = codes "{";
  readable = refl;
  unparsed = refl;
}

abbrev broken_run : Bool → Bool × Ending
broken_run =
    Operator.run unary tracked (small_framework tracked) an_operator a_build 0 strict config_path
      with_bad_file

main_operator-IsBroken_example :
    (main Disk Bool small_cobra chart_run broken_run (codes "operator" ∷ []) before
      ≡ some (before, exit_code 1))
    × (broken_run false ≡ (
      false,
      returned (
          some (
            codes
              "loading operator config: loading config from filesystem: parsing config file config.yaml: not yaml")),
    ))
unfolding merge_entries merge_entry has_prefix is_structured equal
main_operator-IsBroken_example =
    main_operator-IsBroken unary tracked (small_framework tracked) an_operator a_build 0 strict
      config_path with_bad_file small_cobra small_cobra-IsCobraLib chart_run
      (record {
        name = codes "platform-type";
        is_dir = false;
        extension = [];
        content = ok (codes "odh");
      }
        ∷ [])
      [] bad_file (codes "not yaml") before refl refl refl bad_file-IsBroken
