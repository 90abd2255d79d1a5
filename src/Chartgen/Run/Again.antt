-- ===== src/Chartgen/Run/Again.antt =====
-- What a second `run` on the same resources changes in the chart.
use opendatahub_ai_gateway_o.Chartgen.Run.Keeps.{NotFixed}
use opendatahub_ai_gateway_o.Chartgen.Run.Steps.{FileView}
use mathlib.Core.List.Permᴰ
use mathlib.Core.List.{Permᴰ}
use opendatahub_ai_gateway_o.Base.{
  true, false, List, inl, inr, none, some, ◌≡◌, refl, sym, ap, ◌∙◌, Bool-cases, Result, ok,
  ok-injective, some-injective,
}
use opendatahub_ai_gateway_o.Text.{Text, equal}
use opendatahub_ai_gateway_o.Text.Equality.{equal_iff}
use opendatahub_ai_gateway_o.Chartgen.Helpers.{helpers_tpl}
use opendatahub_ai_gateway_o.Chartgen.Run.{
  FileLib, run, helpers_file, chart_file, values_file, schema_file, Libraries, Fields,
}
use opendatahub_ai_gateway_o.Chartgen.Run.Written.{NoClash, run_writes_templates}
use opendatahub_ai_gateway_o.Chartgen.Run.Contents.{OwnPaths, Holds, run_writes_values, Filled}
use mathlib.Core.Path.{subst}
use opendatahub_ai_gateway_o.Chartgen.Run.Others.{run_keeps_others}
use opendatahub_ai_gateway_o.Chartgen.Run.Order.{All-perm, agree, same_contents, NoClash-perm}
use opendatahub_ai_gateway_o.Chartgen.Groups.{Groups, Chunk, group_by_gvk, decode_resources}
use opendatahub_ai_gateway_o.Chartgen.Values.{Values, ValueLib}

module _ (files : FileLib) (view : FileView files) (lib : Libraries) (values_lib : ValueLib)
    (output_dir : Text) where
  open view use {read}

  same_made :
      (p q : Text) (made : Result Text) (v v' : files.World)
      → Holds files view lib values_lib output_dir p made v
      → Holds files view lib values_lib output_dir p made v'
      → equal p q ≡ true
      → read v' q ≡ read v q
  same_made p q made v v' (c, h, held) (d, h', held') e =
      let path = (equal_iff p q).0 e in
      sym (ap (read v') path)
      ∙ held'
      ∙ ap some (ok-injective (sym h' ∙ h))
      ∙ sym held
      ∙ ap (read v) path

  -- Where both worlds hold the same values and agree on the files that are not fixed, they agree.
  agree_fixed :
      (q : Text) (v v' : files.World) (values values' : Values)
      → values' ≡ values
      → Filled files view lib values_lib output_dir values v
      → Filled files view lib values_lib output_dir values' v'
      → (NotFixed files view lib values_lib output_dir q → read v' q ≡ read v q)
      → read v' q ≡ read v q
  agree_fixed q v v' values values' same (helpers, printed, schema) (helpers', printed', schema')
        other =
      elim (Bool-cases (equal (helpers_file files output_dir) q)) [
        | inl e ↦
            same_made _ q (ok helpers_tpl) v v' (helpers_tpl, refl, helpers)
              (helpers_tpl, refl, helpers') e
        | inr h ↦ elim (Bool-cases (equal (values_file files output_dir) q)) [
          | inl e ↦
              same_made _ q (files.marshal_values values) v v' printed
                (subst
                  (λ x.
                    Holds files view lib values_lib output_dir (values_file files output_dir)
                      (files.marshal_values x) v')
                  same printed')
                e
          | inr k ↦ elim (Bool-cases (equal (schema_file files output_dir) q)) [
            | inl e ↦ same_made _ q files.values_schema v v' schema schema' e
            | inr l ↦ other (h, k, l)
          ]
        ]
      ]

  own_in_order :
      {gs hs : Groups}
      → Permᴰ gs hs
      → OwnPaths files view lib values_lib output_dir gs
      → OwnPaths files view lib values_lib output_dir hs
  own_in_order p (a, b, c, h, v, s) = (a, b, c, All-perm _ p h, All-perm _ p v, All-perm _ p s)

  -- On a file system that behaves as documented: a second run on the same resources, which may visit the
  -- groups in another order, leaves every file but `Chart.yaml` as the first run did, if both succeed and
  -- the files of the chart have different paths.
  pub run_again :
      (iterate iterate' : Groups → Groups) (chunks : List Chunk) (name version q : Text)
      (w v v' : files.World) {resources : List Fields}
      → decode_resources lib chunks ≡ ok resources
      → Permᴰ (iterate (group_by_gvk lib resources)) (iterate' (group_by_gvk lib resources))
      → NoClash files view lib values_lib output_dir (iterate (group_by_gvk lib resources))
      → OwnPaths files view lib values_lib output_dir (iterate (group_by_gvk lib resources))
      → equal (chart_file files output_dir) q ≡ false
      → run files lib values_lib iterate chunks output_dir name version w ≡ some (v, none)
      → run files lib values_lib iterate' chunks output_dir name version v ≡ some (v', none)
      → read v' q ≡ read v q
  run_again iterate iterate' chunks name version q w v v' {resources} decoded order clash own
        not_chart ran again =
      let gs = iterate (group_by_gvk lib resources) in
      let (values, extracted, filled) =
        run_writes_values files view lib values_lib output_dir iterate chunks name version w v
          decoded own ran in
      let (values', extracted', filled') =
        run_writes_values files view lib values_lib output_dir iterate' chunks name version v v'
          decoded (own_in_order order own) again in
      let templates =
        run_writes_templates files view lib values_lib output_dir iterate chunks name version w v
          decoded clash ran in
      let templates' =
        run_writes_templates files view lib values_lib output_dir iterate' chunks name version v v'
          decoded (NoClash-perm files view lib values_lib output_dir order clash) again in
      sym (
        agree files view lib values_lib output_dir q v v' gs
          (same_contents files view lib values_lib output_dir q v v' gs templates
            (All-perm _ (Permᴰ.symm order) templates'))
          (λ no_template. sym (
            agree_fixed q v v' values values' (some-injective (sym extracted' ∙ extracted)) filled
              filled'
              (λ not_fixed.
                run_keeps_others files view lib values_lib output_dir iterate' chunks name version q
                  v v' (rw decoded (not_chart, not_fixed, All-perm _ order no_template)) again))))
