-- ===== src/Chartgen/Run/Blocks.antt =====
-- The blocks of the templates that `run` leaves on disk.
use opendatahub_ai_gateway_o.Chartgen.Run.Order.{All-perm}
use opendatahub_ai_gateway_o.Chartgen.Transform.Balanced.{AllNeutral, render_group-RendersBlocks}
use opendatahub_ai_gateway_o.Chartgen.Libraries.{same_gvk}
use opendatahub_ai_gateway_o.Chartgen.Blocks.{
  behind_lines, behind_line, IsBalanced, close_block, opens, closes,
}
use opendatahub_ai_gateway_o.Chartgen.Run.Steps.{FileView}
use mathlib.Core.List.{Permᴰ}
use opendatahub_ai_gateway_o.Chartgen.Helpers.{helpers_tpl}
use opendatahub_ai_gateway_o.Base.{
  List, [], ◌∷◌, inl, inr, none, some, ◌≡◌, refl, sym, ap, ◌∙◌, Bool-cases, All, All-append, ok,
  ok-injective,
}
use opendatahub_ai_gateway_o.Text.{Text, split, join, trim_space, has_prefix}
use opendatahub_ai_gateway_o.Chartgen.Run.{
  FileLib, run, template_file, helpers_file, Fields, Gvk, Libraries,
}
use opendatahub_ai_gateway_o.Chartgen.Run.Written.{Written, NoClash, run_writes_templates}
use opendatahub_ai_gateway_o.Chartgen.Run.Contents.{OwnPaths, run_writes_values}
use opendatahub_ai_gateway_o.Chartgen.Groups.{
  Groups, Chunk, group_by_gvk, group_loop, add_to_group, decode_resources,
}
use opendatahub_ai_gateway_o.Chartgen.Values.{ValueLib}

-- What holds of every resource holds in every group.
module _ (P : Fields → Type 0) where
  add_to_group-All :
      (key : Gvk) (r : Fields) (groups : Groups)
      → P r
      → All (λ (x : Gvk × List Fields). All P x.1) groups
      → All (λ (x : Gvk × List Fields). All P x.1) (add_to_group key r groups)
  unfolding add_to_group
  add_to_group-All key r [] h a = ((h, tt), tt)
  add_to_group-All key r ((k, rs) ∷ groups) h (a, more) = elim (Bool-cases (same_gvk k key)) [
    | inl e ↦ rw e (All-append P rs (r ∷ []) a (h, tt), more)
    | inr e ↦ rw e (a, add_to_group-All key r groups h more)
  ]

  group_loop-All :
      (lib : Libraries) (rs : List Fields) (groups : Groups)
      → All P rs
      → All (λ (x : Gvk × List Fields). All P x.1) groups
      → All (λ (x : Gvk × List Fields). All P x.1) (group_loop lib rs groups)
  unfolding group_loop
  group_loop-All lib [] groups h a = a
  group_loop-All lib (r ∷ rs) groups (h, hs) a =
      let key = lib.group_version_kind r in
      elim (Bool-cases (same_gvk key lib.namespace)) [
        | inl e ↦ rw e (group_loop-All lib rs groups hs a)
        | inr e ↦ rw e (group_loop-All lib rs _ hs (add_to_group-All key r groups h a))
      ]

helpers_tpl-IsBalanced : IsBalanced helpers_tpl
unfolding helpers_tpl join split behind_lines behind_line close_block opens closes trim_space
    has_prefix
helpers_tpl-IsBalanced n = refl

module _ (files : FileLib) (view : FileView files) (lib : Libraries) (values_lib : ValueLib)
    (output_dir : Text) where
  open view use {read}

  -- The file holds a template whose blocks are nested and closed.
  abbrev pub HoldsBlocks : files.World → Text → Type 0
  HoldsBlocks v path = (content : Text) × (read v path ≡ some content) × IsBalanced content

  templates-HoldsBlocks :
      (v : files.World) (groups : Groups)
      → All (λ (x : Gvk × List Fields). AllNeutral lib x.1) groups
      → All (Written files view lib values_lib output_dir v) groups
      → All (λ (x : Gvk × List Fields). HoldsBlocks v (template_file files output_dir x.0)) groups
  templates-HoldsBlocks v [] a w = tt
  templates-HoldsBlocks v ((g, rs) ∷ groups) (a, more) ((content, rendered, held), ws) =
      let (out, made, balanced) = render_group-RendersBlocks lib g rs a in
      (
        (out, held ∙ ap some (ok-injective (sym rendered ∙ made)), balanced),
        templates-HoldsBlocks v groups more ws,
      )

  -- On a file system that behaves as documented: where `run` succeeds on resources that can be
  -- marshalled, and no line of their manifests begins with an action that opens or closes a block, every
  -- template file of the chart, the helpers included, is on disk, and its blocks, as the lines that begin
  -- with such an action tell them, are nested and closed, whatever the order in which the groups are
  -- visited, if the files of the chart have different paths.
  pub run_balances_blocks :
      (iterate : Groups → Groups) (chunks : List Chunk) (name version : Text) (w v : files.World)
      {resources : List Fields}
      → decode_resources lib chunks ≡ ok resources
      → AllNeutral lib resources
      → Permᴰ (group_by_gvk lib resources) (iterate (group_by_gvk lib resources))
      → NoClash files view lib values_lib output_dir (iterate (group_by_gvk lib resources))
      → OwnPaths files view lib values_lib output_dir (iterate (group_by_gvk lib resources))
      → run files lib values_lib iterate chunks output_dir name version w ≡ some (v, none)
      → HoldsBlocks v (helpers_file files output_dir)
        × All
            (λ (x : Gvk × List Fields). HoldsBlocks v (template_file files output_dir x.0))
            (iterate (group_by_gvk lib resources))
  unfolding group_by_gvk
  run_balances_blocks iterate chunks name version w v {resources} decoded neutral order clash own
        ran =
      let (values, extracted, (helpers, _, _)) =
        run_writes_values files view lib values_lib output_dir iterate chunks name version w v
          decoded own ran in
      let grouped = group_loop-All _ lib resources [] neutral tt in
      (
        (helpers_tpl, helpers, helpers_tpl-IsBalanced),
        templates-HoldsBlocks v (iterate (group_by_gvk lib resources)) (All-perm _ order grouped) (
            run_writes_templates files view lib values_lib output_dir iterate chunks name version w
              v decoded clash ran),
      )
