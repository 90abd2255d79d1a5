-- ===== src/Chartgen/Idempotence.antt =====
-- A second run of a pass that has settled its lines changes nothing.
use opendatahub_ai_gateway_o.Base.{
  Bool, true, false, not, ◌&&◌, List, [], ◌∷◌, map, inl, inr, ◌≡◌, refl, arith, Bool-cases, All,
}
use opendatahub_ai_gateway_o.Chartgen.Fields.{replace_namespace}
use opendatahub_ai_gateway_o.Chartgen.Marks.Laws.{on_lines_same}
use opendatahub_ai_gateway_o.Chartgen.Marks.{set_field, tpl_release_namespace, yaml_field_namespace}
use opendatahub_ai_gateway_o.Chartgen.Sections.{
  subject_lines, replace_subjects_namespace, ends_subjects,
}
use opendatahub_ai_gateway_o.Chartgen.Settled.{namespace, IsSettled}
use opendatahub_ai_gateway_o.Chartgen.Steps.{namespace_own}
use opendatahub_ai_gateway_o.Text.{Text, has_prefix, trim_space}

settled_same : (text l : Text) → IsSettled namespace l → set_field yaml_field_namespace text l ≡ l
unfolding set_field
settled_same text l h = elim (Bool-cases (has_prefix (trim_space l) yaml_field_namespace)) [
  | inl e ↦ rw (e, h e)
  | inr e ↦ rw e
]

map_same :
    (text : Text) (ls : List Text)
    → All (IsSettled namespace) ls
    → map (set_field yaml_field_namespace text) ls ≡ ls
map_same text [] a = refl
map_same text (l ∷ ls) a = cc (settled_same text l a.0, map_same text ls a.1)

subject_lines_same :
    (text : Text) (inside : Bool) (ls : List Text)
    → All (IsSettled namespace) ls
    → subject_lines (set_field yaml_field_namespace text) inside ls ≡ ls
unfolding subject_lines
subject_lines_same text inside [] a = refl
subject_lines_same text inside (l ∷ ls) a = ground (
  arith,
  settled_same text l a.0,
  subject_lines_same text true ls a.1,
  subject_lines_same text (inside && not (ends_subjects l)) ls a.1,
)

-- Replacing the namespaces a second time changes nothing.
pub replace_namespace-replace_namespace :
    (raw : Text) → replace_namespace (replace_namespace raw) ≡ replace_namespace raw
unfolding replace_namespace
replace_namespace-replace_namespace raw =
    on_lines_same (map (set_field yaml_field_namespace tpl_release_namespace))
      (replace_namespace raw) (map_same tpl_release_namespace _ (namespace_own raw))

-- Behind `replaceNamespace`, which `transformRoleBinding` calls first, `replaceSubjectsNamespace` finds
-- nothing to do, in the subjects or elsewhere.
pub replace_subjects_namespace_redundant :
    (raw : Text) → replace_subjects_namespace (replace_namespace raw) ≡ replace_namespace raw
unfolding replace_subjects_namespace
replace_subjects_namespace_redundant raw =
    on_lines_same (subject_lines (set_field yaml_field_namespace tpl_release_namespace) false) _
      (subject_lines_same tpl_release_namespace false _ (namespace_own raw))
