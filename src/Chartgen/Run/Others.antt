-- ===== src/Chartgen/Run/Others.antt =====
-- Which files `run` leaves alone, however it ends.
use opendatahub_ai_gateway_o.Base.{
  false, List, inl, inr, Option, none, some, ◌≡◌, refl, sym, ap, ◌∙◌, Bool-cases, Result, ok, err,
  some-injective, none-ne-some,
}
use opendatahub_ai_gateway_o.Chartgen.Run.{
  FileLib, Outcome, chart_file, write_missing_chart, write_chart, write_extracted, run_decoded, run,
  write_chart_yaml, codes, chart_yaml,
}
use opendatahub_ai_gateway_o.Chartgen.Groups.{Groups, Chunk, group_by_gvk, decode_resources}
use opendatahub_ai_gateway_o.Chartgen.Libraries.{Libraries}
use opendatahub_ai_gateway_o.Chartgen.Object.{Fields}
use opendatahub_ai_gateway_o.Chartgen.Values.{Values, ValueLib, extract_defaults}
use opendatahub_ai_gateway_o.Chartgen.Run.Steps.{FileView, during-Has, write-Has}
use opendatahub_ai_gateway_o.Chartgen.Run.Keeps.{
  NotTemplate, NotFixed, Keeps, in_order-Keeps, make_templates_dir-Keeps, write_helpers-Keeps,
  write_values-Keeps, write_schema-Keeps, write_templates-Has,
}
use opendatahub_ai_gateway_o.Text.{Text, equal}

module _ (files : FileLib) (view : FileView files) (lib : Libraries) (values_lib : ValueLib)
    (output_dir : Text) where
  open view use {read}

  -- The file is none of the chart's: neither one of the fixed files nor a template of these resources.
  abbrev pub IsOther : (Groups → Groups) → Result (List Fields) → Text → Type 0
  IsOther iterate (err e) q = Unit
  IsOther iterate (ok resources) q =
      (equal (chart_file files output_dir) q ≡ false)
      × NotFixed files view lib values_lib output_dir q
      × NotTemplate files view lib values_lib output_dir q (iterate (group_by_gvk lib resources))

  write_missing_chart-Keeps_other :
      (name version q : Text) (d : Option Text)
      → equal (chart_file files output_dir) q ≡ false
      → Keeps files view lib values_lib output_dir q d
          (write_missing_chart files output_dir name version)
  unfolding write_missing_chart write_chart_yaml
  write_missing_chart-Keeps_other name version q d ne w h =
      elim (Bool-cases (files.not_exist (chart_file files output_dir) w)) [
        | inl e ↦ rw e (
            during-Has files view (codes "writing Chart.yaml: ") q d
              (files.write_file (chart_file files output_dir) (chart_yaml name version) w)
              (write-Has files view _ q _ d w ne h))
        | inr e ↦ rw e h
      ]

  write_chart-Keeps_other :
      (name version q : Text) (d : Option Text) (values : Values) (gs : Groups)
      → equal (chart_file files output_dir) q ≡ false
      → NotFixed files view lib values_lib output_dir q
      → NotTemplate files view lib values_lib output_dir q gs
      → Keeps files view lib values_lib output_dir q d
          (write_chart files lib values_lib output_dir name version values gs)
  unfolding write_chart
  write_chart-Keeps_other name version q d values gs nc (nh, nv, ns) nt =
      in_order-Keeps files view lib values_lib output_dir q d _ (
        make_templates_dir-Keeps files view lib values_lib output_dir q d,
        (
          write_missing_chart-Keeps_other name version q d nc,
          (
            write_helpers-Keeps files view lib values_lib output_dir q d nh,
            (
              write_values-Keeps files view lib values_lib output_dir values q d nv,
              (
                write_schema-Keeps files view lib values_lib output_dir q d ns,
                (write_templates-Has files view lib values_lib output_dir gs q d nt, tt),
              ),
            ),
          ),
        ),
      )

  extracted-Keeps_other :
      (name version q : Text) (values : Option Values) (gs : Groups) (w v : files.World)
      {e : Option Text}
      → equal (chart_file files output_dir) q ≡ false
      → NotFixed files view lib values_lib output_dir q
      → NotTemplate files view lib values_lib output_dir q gs
      → write_extracted files lib values_lib output_dir name version gs values w ≡ some (v, e)
      → read v q ≡ read w q
  unfolding write_extracted
  extracted-Keeps_other name version q none gs w v nc nf nt r = absurd (none-ne-some r)
  extracted-Keeps_other name version q (some values) gs w v nc nf nt r =
      ap (λ (o : Outcome files). read o.0 q) (sym (some-injective r))
      ∙ write_chart-Keeps_other name version q (read w q) values gs nc nf nt w refl

  decoded-Keeps_other :
      (iterate : Groups → Groups) (decoded : Result (List Fields)) (name version q : Text)
      (w v : files.World) {e : Option Text}
      → IsOther iterate decoded q
      → run_decoded files lib values_lib iterate output_dir name version decoded w ≡ some (v, e)
      → read v q ≡ read w q
  unfolding run_decoded
  decoded-Keeps_other iterate (err f) name version q w v o r =
      ap (λ (r : Outcome files). read r.0 q) (sym (some-injective r))
  decoded-Keeps_other iterate (ok resources) name version q w v (nc, nf, nt) r =
      extracted-Keeps_other name version q (extract_defaults values_lib lib resources)
        (iterate (group_by_gvk lib resources)) w v nc nf nt r

  -- On a file system that behaves as documented: whether `run` succeeds or fails, and at whatever step, a
  -- file that is not one of the chart's reads as before; where the resources cannot be decoded, that is
  -- every file.
  pub run_keeps_others :
      (iterate : Groups → Groups) (chunks : List Chunk) (name version q : Text) (w v : files.World)
      {e : Option Text}
      → IsOther iterate (decode_resources lib chunks) q
      → run files lib values_lib iterate chunks output_dir name version w ≡ some (v, e)
      → read v q ≡ read w q
  unfolding run
  run_keeps_others iterate chunks name version q w v o r =
      decoded-Keeps_other iterate (decode_resources lib chunks) name version q w v o r
