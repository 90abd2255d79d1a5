-- ===== src/Chartgen/Run/Contents.antt =====
-- What stands in the files of the chart that are no templates behind a successful `run`.
use opendatahub_ai_gateway_o.Base.{
  false, List, Option, none, some, ◌≡◌, refl, sym, ap, ◌∙◌, All, Result, ok, map_err-eq-ok,
  some-injective, none-ne-some,
}
use opendatahub_ai_gateway_o.Chartgen.Run.{
  FileLib, Outcome, write_helpers, write_values, write_schema, helpers_file, write_chart, run,
  write_helpers_tpl, write_values_yaml, write_values_schema, values_file, run_decoded, schema_file,
  write_extracted, in_order,
}
use opendatahub_ai_gateway_o.Chartgen.Groups.{Groups, Chunk, group_by_gvk, decode_resources}
use opendatahub_ai_gateway_o.Chartgen.Libraries.{Libraries}
use opendatahub_ai_gateway_o.Chartgen.Object.{Fields}
use opendatahub_ai_gateway_o.Chartgen.Helpers.{helpers_tpl}
use opendatahub_ai_gateway_o.Chartgen.Values.{Values, ValueLib, extract_defaults}
use opendatahub_ai_gateway_o.Chartgen.Run.Steps.{
  FileView, during-write, during-with_content, in_order-none, in_order-first,
}
use opendatahub_ai_gateway_o.Chartgen.Run.Keeps.{
  NotTemplate, Keeps, in_order-Keeps, write_templates-Has, write_schema-Keeps, write_values-Keeps,
}
use opendatahub_ai_gateway_o.Text.{Text, equal}

module _ (files : FileLib) (view : FileView files) (lib : Libraries) (values_lib : ValueLib)
    (output_dir : Text) where
  open view use {read}

  -- The file holds the text that was made for it.
  abbrev pub Holds : Text → Result Text → files.World → Type 0
  Holds q made w = (c : Text) × (made ≡ ok c) × (read w q ≡ some c)

  write_helpers-Holds :
      (w : files.World) {v : files.World}
      → write_helpers files output_dir w ≡ (v, none)
      → read v (helpers_file files output_dir) ≡ some helpers_tpl
  unfolding write_helpers write_helpers_tpl
  write_helpers-Holds w h = during-write files view _ _ helpers_tpl w h

  write_values-Holds :
      (values : Values) (w : files.World) {v : files.World}
      → write_values files output_dir values w ≡ (v, none)
      → Holds (values_file files output_dir) (files.marshal_values values) v
  unfolding write_values write_values_yaml
  write_values-Holds values w h =
      let (c, made, held) = during-with_content files view _ _ _ w h in
      (c, map_err-eq-ok _ _ made, held)

  write_schema-Holds :
      (w : files.World) {v : files.World}
      → write_schema files output_dir w ≡ (v, none)
      → Holds (schema_file files output_dir) files.values_schema v
  unfolding write_schema write_values_schema
  write_schema-Holds w h =
      let (c, made, held) = during-with_content files view _ _ _ w h in
      (c, map_err-eq-ok _ _ made, held)

  -- The files of the chart have paths of their own.
  abbrev pub OwnPaths : Groups → Type 0
  OwnPaths gs =
      let helpers = helpers_file files output_dir in
      let values = values_file files output_dir in
      let schema = schema_file files output_dir in
      (equal values helpers ≡ false)
      × (equal schema helpers ≡ false)
      × (equal schema values ≡ false)
      × NotTemplate files view lib values_lib output_dir helpers gs
      × NotTemplate files view lib values_lib output_dir values gs
      × NotTemplate files view lib values_lib output_dir schema gs

  abbrev pub Filled : Values → files.World → Type 0
  Filled values v =
      (read v (helpers_file files output_dir) ≡ some helpers_tpl)
      × Holds (values_file files output_dir) (files.marshal_values values) v
      × Holds (schema_file files output_dir) files.values_schema v

  kept :
      (q : Text) (d : Option Text) (steps : List (files.World → Outcome files)) (w : files.World)
      {v : files.World}
      → All (Keeps files view lib values_lib output_dir q d) steps
      → in_order files steps w ≡ (v, none)
      → read w q ≡ d
      → read v q ≡ d
  kept q d steps w ks ran h =
      ap (λ (r : Outcome files). read r.0 q) (sym ran)
      ∙ in_order-Keeps files view lib values_lib output_dir q d steps ks w h

  write_chart-Filled :
      (name version : Text) (values : Values) (gs : Groups) (w v : files.World)
      → OwnPaths gs
      → write_chart files lib values_lib output_dir name version values gs w ≡ (v, none)
      → Filled values v
  unfolding write_chart
  write_chart-Filled name version values gs w v (vh, sh, sv, th, tv, ts) ran =
      let helpers = helpers_file files output_dir in
      let vfile = values_file files output_dir in
      let sfile = schema_file files output_dir in
      let from_helpers = in_order-none files view _ _ _ (in_order-none files view _ _ w ran) in
      let from_values = in_order-none files view _ _ _ from_helpers in
      let from_schema = in_order-none files view _ _ _ from_values in
      let from_templates = in_order-none files view _ _ _ from_schema in
      let held = write_helpers-Holds _ (in_order-first files view _ _ _ from_helpers) in
      let (c, made, in_values) =
        write_values-Holds values _ (in_order-first files view _ _ _ from_values) in
      let (t, reflected, in_schema) =
        write_schema-Holds _ (in_order-first files view _ _ _ from_schema) in
      let templates =
        λ (q : Text) (d : Option Text) (n : NotTemplate files view lib values_lib output_dir q gs).
          write_templates-Has files view lib values_lib output_dir gs q d n in
      let schema = λ (q : Text) (d : Option Text) (n : equal sfile q ≡ false).
        write_schema-Keeps files view lib values_lib output_dir q d n in
      (
        kept helpers _ _ _
            (
              write_values-Keeps files view lib values_lib output_dir values helpers _ vh,
              (schema helpers _ sh, (templates helpers _ th, tt)),
            )
            from_values held,
        (
          c,
          made,
          kept vfile _ _ _ (schema vfile _ sv, (templates vfile _ tv, tt)) from_schema in_values,
        ),
        (t, reflected, kept sfile _ _ _ (templates sfile _ ts, tt) from_templates in_schema),
      )

  extracted-Filled :
      (name version : Text) (gs : Groups) (values : Option Values) (w v : files.World)
      → OwnPaths gs
      → write_extracted files lib values_lib output_dir name version gs values w ≡ some (v, none)
      → (x : Values) × (values ≡ some x) × Filled x v
  unfolding write_extracted
  extracted-Filled name version gs none w v own r = absurd (none-ne-some r)
  extracted-Filled name version gs (some x) w v own r =
      (x, refl, write_chart-Filled name version x gs w v own (some-injective r))

  -- On a file system that behaves as documented: where `run` succeeds on resources that were decoded,
  -- their values were extracted without a panic, `_helpers.tpl` holds the helpers, `values.yaml` the
  -- printed values, and `values.schema.json` the schema, if the files of the chart have different paths.
  pub run_writes_values :
      (iterate : Groups → Groups) (chunks : List Chunk) (name version : Text) (w v : files.World)
      {resources : List Fields}
      → decode_resources lib chunks ≡ ok resources
      → OwnPaths (iterate (group_by_gvk lib resources))
      → run files lib values_lib iterate chunks output_dir name version w ≡ some (v, none)
      → (values : Values) × (extract_defaults values_lib lib resources ≡ some values)
        × Filled values v
  unfolding run run_decoded
  run_writes_values iterate chunks name version w v {resources} decoded own ran =
      extracted-Filled name version (iterate (group_by_gvk lib resources)) _ w v own
        (rw decoded at ran)
