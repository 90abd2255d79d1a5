-- ===== src/Chartgen/Run/Keeps.antt =====
-- What the steps of `run` leave of the other files.
use opendatahub_ai_gateway_o.Base.{
  false, List, [], ◌∷◌, ◌++◌, Option, some, ◌≡◌, ap, ◌∙◌, All, map_err,
}
use opendatahub_ai_gateway_o.Chartgen.Groups.{Groups}
use opendatahub_ai_gateway_o.Chartgen.Libraries.{Libraries, Gvk}
use opendatahub_ai_gateway_o.Chartgen.Object.{Fields}
use opendatahub_ai_gateway_o.Chartgen.Helpers.{helpers_tpl}
use opendatahub_ai_gateway_o.Chartgen.Run.{
  in_order, make_templates_dir, write_helpers, write_values, write_schema, writing, rendered,
  write_content, FileLib, Outcome, template_file, write_template, write_templates, helpers_file,
  write_missing_chart, values_file, chart_file, write_helpers_tpl, schema_file, write_values_yaml,
  write_values_schema, Values, codes, templates_dir,
}
use opendatahub_ai_gateway_o.Chartgen.Values.{ValueLib}
use opendatahub_ai_gateway_o.Text.{Text, equal}
use opendatahub_ai_gateway_o.Chartgen.Run.Steps.{
  FileView, during_world, continue-keeps, write-Has, content-Has, during-Has, Has,
}

module _ (files : FileLib) (view : FileView files) where
  open view use {read}

  module _ (lib : Libraries) (values_lib : ValueLib) (output_dir : Text) where
    -- No template file of the groups is this one.
    abbrev pub NotTemplate : Text → Groups → Type 0
    NotTemplate q gs =
        All (λ (x : Gvk × List Fields). equal (template_file files output_dir x.0) q ≡ false) gs

    pub write_template-Has :
        (g : Gvk) (rs : List Fields) (q : Text) (d : Option Text)
        → equal (template_file files output_dir g) q ≡ false
        → (w : files.World) → Has files view q d w
        → Has files view q d (write_template files lib values_lib output_dir g rs w).0
    unfolding write_template write_content
    write_template-Has g rs q d ne =
        content-Has files view (rendered files lib values_lib g rs)
          (write_content files output_dir g) q d
          (λ c w h.
            ap (λ u. read u q)
              (during_world files view (writing files output_dir g)
                (files.write_file (template_file files output_dir g) c w))
            ∙ write-Has files view _ q c d w ne h)

    pub write_templates-Has :
        (gs : Groups) (q : Text) (d : Option Text)
        → NotTemplate q gs
        → (w : files.World) → Has files view q d w
        → Has files view q d (write_templates files lib values_lib output_dir gs w).0
    unfolding write_templates
    write_templates-Has [] q d a w h = h
    write_templates-Has ((g, rs) ∷ gs) q d a w h =
        continue-keeps files view (Has files view q d) _ _ (write_template-Has g rs q d a.0 w h)
          (write_templates-Has gs q d a.1)

    -- The files that `run` writes besides the templates and `Chart.yaml` are not this one.
    abbrev pub NotFixed : Text → Type 0
    NotFixed q =
        (equal (helpers_file files output_dir) q ≡ false)
        × (equal (values_file files output_dir) q ≡ false)
        × (equal (schema_file files output_dir) q ≡ false)

    -- The step keeps the content of the file.
    abbrev pub Keeps : Text → Option Text → (files.World → Outcome files) → Type 0
    Keeps q d step = (w : files.World) → Has files view q d w → Has files view q d (step w).0

    pub make_templates_dir-Keeps :
        (q : Text) (d : Option Text) → Keeps q d (make_templates_dir files output_dir)
    unfolding make_templates_dir
    make_templates_dir-Keeps q d w h =
        during-Has files view (codes "creating templates directory: ") q d
          (files.mkdir_all (templates_dir files output_dir) w) (view.mkdir_all_lem _ q w ∙ h)

    pub write_missing_chart-Keeps :
        (name version c : Text)
        → Keeps
            (chart_file files output_dir)
            (some c)
            (write_missing_chart files output_dir name version)
    unfolding write_missing_chart
    write_missing_chart-Keeps name version c w h =
        rw (view.not_exist_lem (chart_file files output_dir) w h) h

    pub write_helpers-Keeps :
        (q : Text) (d : Option Text)
        → equal (helpers_file files output_dir) q ≡ false
        → Keeps q d (write_helpers files output_dir)
    unfolding write_helpers write_helpers_tpl
    write_helpers-Keeps q d ne w h =
        during-Has files view (codes "writing _helpers.tpl: ") q d
          (files.write_file (helpers_file files output_dir) helpers_tpl w)
          (write-Has files view _ q _ d w ne h)

    pub write_values-Keeps :
        (values : Values) (q : Text) (d : Option Text)
        → equal (values_file files output_dir) q ≡ false
        → Keeps q d (write_values files output_dir values)
    unfolding write_values write_values_yaml
    write_values-Keeps values q d ne w h =
        during-Has files view (codes "writing values.yaml: ") q d
          (write_values_yaml files values (values_file files output_dir) w)
          (content-Has files view
            (map_err (λ e. codes "marshaling values: " ++ e) (files.marshal_values values))
            (files.write_file (values_file files output_dir)) q d
            (λ t u. write-Has files view _ q t d u ne) w h)

    pub write_schema-Keeps :
        (q : Text) (d : Option Text)
        → equal (schema_file files output_dir) q ≡ false
        → Keeps q d (write_schema files output_dir)
    unfolding write_schema write_values_schema
    write_schema-Keeps q d ne w h =
        during-Has files view (codes "writing values.schema.json: ") q d
          (write_values_schema files (schema_file files output_dir) w)
          (content-Has files view
            (map_err (λ e. codes "marshaling schema: " ++ e) files.values_schema)
            (files.write_file (schema_file files output_dir)) q d
            (λ t u. write-Has files view _ q t d u ne) w h)

    pub in_order-Keeps :
        (q : Text) (d : Option Text) (steps : List (files.World → Outcome files))
        → All (Keeps q d) steps
        → Keeps q d (in_order files steps)
    unfolding in_order
    in_order-Keeps q d [] a w h = h
    in_order-Keeps q d (step ∷ steps) a w h =
        continue-keeps files view (Has files view q d) (step w) (in_order files steps) (a.0 w h)
          (in_order-Keeps q d steps a.1)
