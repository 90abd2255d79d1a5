-- ===== src/Chartgen/Run/Written.antt =====
-- What stands in the files behind `run`.
use opendatahub_ai_gateway_o.Base.{
  List, [], ◌∷◌, Option, none, some, ◌≡◌, refl, sym, ap, ◌∙◌, All, Result, ok, err, some-injective,
  none-ne-some,
}
use opendatahub_ai_gateway_o.Chartgen.Groups.{Groups, Chunk, group_by_gvk, decode_resources}
use opendatahub_ai_gateway_o.Chartgen.Libraries.{Libraries, Gvk}
use opendatahub_ai_gateway_o.Chartgen.Object.{Fields}
use opendatahub_ai_gateway_o.Chartgen.Run.{
  writing, rendered, write_content, FileLib, Outcome, with_content, template_file, write_template,
  write_templates, write_chart, run, chart_file, run_decoded, write_extracted, Values,
  extract_defaults,
}
use opendatahub_ai_gateway_o.Chartgen.Transform.{render_group}
use opendatahub_ai_gateway_o.Chartgen.Values.{ValueLib}
use opendatahub_ai_gateway_o.Text.{Text}
use opendatahub_ai_gateway_o.Chartgen.Run.Steps.{
  FileView, during-none, continue-none, in_order-none, in_order-last,
}
use opendatahub_ai_gateway_o.Chartgen.Run.Keeps.{
  NotTemplate, write_templates-Has, NotFixed, Keeps, make_templates_dir-Keeps,
  write_missing_chart-Keeps, write_helpers-Keeps, write_values-Keeps, write_schema-Keeps,
  in_order-Keeps,
}

module _ (files : FileLib) (view : FileView files) where
  open view use {read}

  module _ (lib : Libraries) (values_lib : ValueLib) (output_dir : Text) where
    -- The groups have template files of their own.
    abbrev pub NoClash : Groups → Type 0
    NoClash [] = Unit
    NoClash ((g, rs) ∷ gs) =
        NotTemplate files view lib values_lib output_dir (template_file files output_dir g) gs
        × NoClash gs

    -- The group's template file holds what the group is rendered to.
    abbrev pub Written : files.World → Gvk × List Fields → Type 0
    Written w (g, rs) =
        (content : Text) × (render_group lib g rs ≡ ok content)
        × (read w (template_file files output_dir g) ≡ some content)

    write_template-Written :
        (g : Gvk) (rs : List Fields) (w v : files.World)
        → write_template files lib values_lib output_dir g rs w ≡ (v, none)
        → Written v (g, rs)
    unfolding write_template with_content write_content
    write_template-Written g rs w v h = go (render_group lib g rs) refl
      where
        go : (r : Result Text) → render_group lib g rs ≡ r → Written v (g, rs)
        go (err e) p = absurd (none-ne-some (sym (ap (λ (r : Outcome files). r.1) (rw p at h))))
        go (ok c) p =
            let wrote =
              during-none files view (writing files output_dir g)
                (files.write_file (template_file files output_dir g) c w) (rw p at h) in
            (
              c,
              p,
              ap (λ (r : Outcome files). read r.0 (template_file files output_dir g)) (sym wrote)
                  ∙ view.write_file_lem _ c w (ap (λ (r : Outcome files). r.1) wrote),
            )

    pub write_templates-Written :
        (gs : Groups) (w v : files.World)
        → NoClash gs
        → write_templates files lib values_lib output_dir gs w ≡ (v, none)
        → All (Written v) gs
    unfolding write_templates
    write_templates-Written [] w v n h = tt
    write_templates-Written ((g, rs) ∷ gs) w v n h =
        let (first, rest) = continue-none files view _ _ h in
        let (c, rendered, at_path) = write_template-Written g rs w _ first in
        let kept =
          write_templates-Has files view lib values_lib output_dir gs
            (template_file files output_dir g) (some c) n.0 _ at_path in
        (
          (
            c,
            rendered,
            ap (λ (r : Outcome files). read r.0 (template_file files output_dir g)) (sym rest)
                ∙ kept,
          ),
          write_templates-Written gs _ v n.1 rest,
        )

    write_chart-Keeps :
        (name version c : Text) (values : Values) (gs : Groups)
        → NotFixed files view lib values_lib output_dir (chart_file files output_dir)
        → NotTemplate files view lib values_lib output_dir (chart_file files output_dir) gs
        → Keeps files view lib values_lib output_dir
            (chart_file files output_dir)
            (some c)
            (write_chart files lib values_lib output_dir name version values gs)
    unfolding write_chart
    write_chart-Keeps name version c values gs (nh, nv, ns) nt =
        let q = chart_file files output_dir in
        let d = some c in
        in_order-Keeps files view lib values_lib output_dir q d _ (
          make_templates_dir-Keeps files view lib values_lib output_dir q d,
          (
            write_missing_chart-Keeps files view lib values_lib output_dir name version c,
            (
              write_helpers-Keeps files view lib values_lib output_dir q d nh,
              (
                write_values-Keeps files view lib values_lib output_dir values q d nv,
                (
                  write_schema-Keeps files view lib values_lib output_dir q d ns,
                  (write_templates-Has files view lib values_lib output_dir gs q d nt, tt),
                ),
              ),
            ),
          ),
        )

    extracted-Keeps :
        (name version c : Text) (gs : Groups) (values : Option Values) (w v : files.World)
        {e : Option Text}
        → NotFixed files view lib values_lib output_dir (chart_file files output_dir)
        → NotTemplate files view lib values_lib output_dir (chart_file files output_dir) gs
        → read w (chart_file files output_dir) ≡ some c
        → write_extracted files lib values_lib output_dir name version gs values w ≡ some (v, e)
        → read v (chart_file files output_dir) ≡ some c
    unfolding write_extracted
    extracted-Keeps name version c gs none w v nf nt h r = absurd (none-ne-some r)
    extracted-Keeps name version c gs (some values) w v nf nt h r =
        ap (λ (o : Outcome files). read o.0 (chart_file files output_dir)) (sym (some-injective r))
        ∙ write_chart-Keeps name version c values gs nf nt w h

    -- On a file system that behaves as documented: a `Chart.yaml` that stands in the output
    -- directory keeps its content through `run` on resources that can be decoded, whether or not
    -- the files can be written, where no other file of the chart has its path.
    pub run_keeps_chart :
        (iterate : Groups → Groups) (chunks : List Chunk) (name version c : Text)
        (w v : files.World) {resources : List Fields} {e : Option Text}
        → decode_resources lib chunks ≡ ok resources
        → NotFixed files view lib values_lib output_dir (chart_file files output_dir)
        → NotTemplate files view lib values_lib output_dir
            (chart_file files output_dir)
            (iterate (group_by_gvk lib resources))
        → read w (chart_file files output_dir) ≡ some c
        → run files lib values_lib iterate chunks output_dir name version w ≡ some (v, e)
        → read v (chart_file files output_dir) ≡ some c
    unfolding run run_decoded
    run_keeps_chart iterate chunks name version c w v {resources} decoded nf nt h ran =
        extracted-Keeps name version c (iterate (group_by_gvk lib resources))
          (extract_defaults values_lib lib resources) w v nf nt h (rw decoded at ran)

    extracted-Written :
        (name version : Text) (gs : Groups) (values : Option Values) (w v : files.World)
        → NoClash gs
        → write_extracted files lib values_lib output_dir name version gs values w ≡ some (v, none)
        → All (Written v) gs
    unfolding write_extracted write_chart
    extracted-Written name version gs none w v n r = absurd (none-ne-some r)
    extracted-Written name version gs (some values) w v n r = write_templates-Written gs _ v n (
        in_order-last files view _ _ (
          in_order-none files view _ _ _ (
            in_order-none files view _ _ _ (
              in_order-none files view _ _ _ (
                in_order-none files view _ _ _
                  (in_order-none files view _ _ _ (some-injective r)))))))

    -- On a file system that behaves as documented: where `run` succeeds on resources that were
    -- decoded, the template file of each group holds what the group is rendered to, whatever the
    -- order in which the groups are visited, if no two of them have the same file.
    pub run_writes_templates :
        (iterate : Groups → Groups) (chunks : List Chunk) (name version : Text) (w v : files.World)
        {resources : List Fields}
        → decode_resources lib chunks ≡ ok resources
        → NoClash (iterate (group_by_gvk lib resources))
        → run files lib values_lib iterate chunks output_dir name version w ≡ some (v, none)
        → All (Written v) (iterate (group_by_gvk lib resources))
    unfolding run run_decoded
    run_writes_templates iterate chunks name version w v {resources} decoded n ran =
        extracted-Written name version (iterate (group_by_gvk lib resources))
          (extract_defaults values_lib lib resources) w v n (rw decoded at ran)
