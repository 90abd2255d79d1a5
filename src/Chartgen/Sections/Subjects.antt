-- ===== src/Chartgen/Sections/Subjects.antt =====
-- Which lines `replaceSubjectsServiceAccount` changes.
use opendatahub_ai_gateway_o.Base.{
  true, false, List, [], ◌∷◌, ◌++◌, map, ◌≡◌, refl, ap, ◌∙◌, arith, All,
}
use opendatahub_ai_gateway_o.Chartgen.Sections.{subject_lines, ends_subjects, account_name_text}
use opendatahub_ai_gateway_o.Chartgen.Marks.{set_field, yaml_field_name}
use mathlib.Core.List.{flat_map}
use opendatahub_ai_gateway_o.Chartgen.Sections.Account.{name_line, trim_name_line}
use opendatahub_ai_gateway_o.Text.Trim.{IsSpaces, trim_space-indent, indent_of-append}
use opendatahub_ai_gateway_o.Chartgen.Sections.{replace_subjects_service_account}
use opendatahub_ai_gateway_o.Chartgen.Marks.{on_lines}
use opendatahub_ai_gateway_o.Text.{
  split, join, newline, Text, codes, has_prefix, trim_space, trim_space_right, equal, contains,
}

abbrev pub NoSubjects : Text → Type 0
NoSubjects line = equal (trim_space line) (codes "subjects:") ≡ false

-- A line of the section, behind its header.
abbrev pub IsInside : Text → Type 0
IsInside line = NoSubjects line × (ends_subjects line ≡ false)

-- The lines behind the section: none, or others that a line with no indentation begins.
abbrev pub IsBehind : List Text → Type 0
IsBehind [] = Unit
IsBehind (line ∷ lines) = (ends_subjects line ≡ true) × All NoSubjects (line ∷ lines)

module _ (rewrite : Text → Text) where
  before_subjects :
      (ls rest : List Text)
      → All NoSubjects ls
      → subject_lines rewrite false (ls ++ rest) ≡ ls ++ subject_lines rewrite false rest
  unfolding subject_lines
  before_subjects [] rest h = refl
  before_subjects (l ∷ ls) rest (h, hs) = rw h (ap (◌∷◌ l) (before_subjects ls rest hs))

  inside_subjects :
      (ls rest : List Text)
      → All IsInside ls
      → subject_lines rewrite true (ls ++ rest) ≡ map rewrite ls ++ subject_lines rewrite true rest
  unfolding subject_lines
  inside_subjects [] rest h = refl
  inside_subjects (l ∷ ls) rest ((h, k), hs) =
      rw (h, k) (ap (◌∷◌ (rewrite l)) (inside_subjects ls rest hs))

  no_subjects : (ls : List Text) → All NoSubjects ls → subject_lines rewrite false ls ≡ ls
  unfolding subject_lines
  no_subjects [] h = refl
  no_subjects (l ∷ ls) (h, hs) = rw h (ap (◌∷◌ l) (no_subjects ls hs))

  behind_subjects : (ls : List Text) → IsBehind ls → subject_lines rewrite true ls ≡ ls
  unfolding subject_lines
  behind_subjects [] h = refl
  behind_subjects (l ∷ ls) (e, (h, hs)) = rw (h, e) (ap (◌∷◌ l) (no_subjects ls hs))

  subjects_header :
      (rest : List Text)
      → subject_lines rewrite false (codes "subjects:" ∷ rest)
        ≡ codes "subjects:" ∷ subject_lines rewrite true rest
  unfolding subject_lines equal trim_space
  subjects_header rest = refl

  -- The loop rewrites the lines of the section, and these only.
  subject_lines_section :
      (before inside behind : List Text)
      → All NoSubjects before
      → All IsInside inside
      → IsBehind behind
      → subject_lines rewrite false (before ++ codes "subjects:" ∷ (inside ++ behind))
        ≡ before ++ codes "subjects:" ∷ (map rewrite inside ++ behind)
  subject_lines_section before inside behind hb hi he = rw (
    before_subjects before _ hb,
    subjects_header,
    inside_subjects inside behind hi,
    behind_subjects behind he,
  )

-- A ServiceAccount among the subjects: a name with no template that is not empty and ends in no space.
pub record Subject : Type 0 where
  pub name : Text
  pub name_ends : trim_space_right (codes " " ++ name) ≡ codes " " ++ name
  pub no_template : contains (codes "name: " ++ name) (codes "{{") ≡ false

-- Its lines in an indentation, and those that the chart wants in their place.
abbrev pub subject_entry : Text → Subject → List Text
subject_entry i s =
    (i ++ codes "- kind: ServiceAccount")
    ∷ name_line s.name (b' ' ∷ b' ' ∷ i)
    ∷ (b' ' ∷ b' ' ∷ (i ++ codes "namespace: {{ .Release.Namespace }}"))
    ∷ []

abbrev pub chart_entry : Text → List Text
chart_entry i =
    (i ++ codes "- kind: ServiceAccount")
    ∷ (b' ' ∷ b' ' ∷ (i ++ account_name_text))
    ∷ (b' ' ∷ b' ' ∷ (i ++ codes "namespace: {{ .Release.Namespace }}"))
    ∷ []

abbrev pub rewrite_name : Text → Text
rewrite_name = set_field yaml_field_name account_name_text

module _ (i : Text) (spaces : IsSpaces i) where
  kind_line_kept :
      rewrite_name (i ++ codes "- kind: ServiceAccount") ≡ i ++ codes "- kind: ServiceAccount"
  unfolding set_field trim_space has_prefix
  kind_line_kept = rw (trim_space-indent i (codes "- kind: ServiceAccount") spaces)

  kind_line-IsInside : IsInside (i ++ codes "- kind: ServiceAccount")
  unfolding ends_subjects trim_space has_prefix equal
  kind_line-IsInside =
      let e = trim_space-indent i (codes "- kind: ServiceAccount") spaces in
      (rw e, rw e (ground arith))

module _ (i : Text) (spaces : IsSpaces (b' ' ∷ b' ' ∷ i)) where
  name_line_rewritten :
      (s : Subject)
      → rewrite_name (name_line s.name (b' ' ∷ b' ' ∷ i)) ≡ b' ' ∷ b' ' ∷ (i ++ account_name_text)
  unfolding set_field has_prefix
  name_line_rewritten s = rw (
    trim_name_line s.name (b' ' ∷ b' ' ∷ i) spaces s.name_ends,
    s.no_template,
    indent_of-append (b' ' ∷ b' ' ∷ i) b'n' (codes "ame: " ++ s.name) spaces refl,
  )

  name_line-IsInside : (s : Subject) → IsInside (name_line s.name (b' ' ∷ b' ' ∷ i))
  unfolding ends_subjects has_prefix equal
  name_line-IsInside s = (rw (trim_name_line s.name (b' ' ∷ b' ' ∷ i) spaces s.name_ends), refl)

  abbrev namespace_text : Text
  namespace_text = codes "namespace: {{ .Release.Namespace }}"

  namespace_line_kept :
      rewrite_name (b' ' ∷ b' ' ∷ (i ++ namespace_text)) ≡ b' ' ∷ b' ' ∷ (i ++ namespace_text)
  unfolding set_field trim_space has_prefix
  namespace_line_kept = rw (trim_space-indent (b' ' ∷ b' ' ∷ i) namespace_text spaces)

  namespace_line-IsInside : IsInside (b' ' ∷ b' ' ∷ (i ++ namespace_text))
  unfolding ends_subjects trim_space has_prefix equal
  namespace_line-IsInside = (rw (trim_space-indent (b' ' ∷ b' ' ∷ i) namespace_text spaces), refl)

  entries-IsInside : (ss : List Subject) → All IsInside (flat_map (subject_entry i) ss)
  unfolding flat_map
  entries-IsInside [] = tt
  entries-IsInside (s ∷ ss) = (
    kind_line-IsInside i spaces.1.1,
    (name_line-IsInside s, (namespace_line-IsInside, entries-IsInside ss)),
  )

  entries_rewritten :
      (ss : List Subject)
      → map rewrite_name (flat_map (subject_entry i) ss) ≡ flat_map (λ s. chart_entry i) ss
  unfolding flat_map
  entries_rewritten [] = refl
  entries_rewritten (s ∷ ss) = rw (
    kind_line_kept i spaces.1.1,
    name_line_rewritten s,
    namespace_line_kept,
    entries_rewritten ss,
  )

  subject_lines_accounts :
      (before behind : List Text) (ss : List Subject)
      → All NoSubjects before
      → IsBehind behind
      → subject_lines rewrite_name false
          (before ++ codes "subjects:" ∷ (flat_map (subject_entry i) ss ++ behind))
        ≡ before ++ codes "subjects:" ∷ (flat_map (λ s. chart_entry i) ss ++ behind)
  subject_lines_accounts before behind ss hb he =
      subject_lines_section rewrite_name before (flat_map (subject_entry i) ss) behind hb
        (entries-IsInside ss) he
      ∙ ap (λ ls. before ++ codes "subjects:" ∷ (ls ++ behind)) (entries_rewritten ss)

  -- In a binding each ServiceAccount of the subjects, with its kind, name and templated namespace in an
  -- indentation of spaces, gets the chart's name in place of its own, in its indentation; its kind and
  -- namespace, the lines before the subjects, such as those of the role, and the sections behind stay.
  pub replace_subjects_service_account_lem :
      (raw : Text) (before behind : List Text) (ss : List Subject)
      → All NoSubjects before
      → IsBehind behind
      → split raw newline ≡ before ++ codes "subjects:" ∷ (flat_map (subject_entry i) ss ++ behind)
      → replace_subjects_service_account raw
        ≡ join
            (before ++ codes "subjects:" ∷ (flat_map (λ s. chart_entry i) ss ++ behind))
            (newline ∷ [])
  unfolding replace_subjects_service_account on_lines
  replace_subjects_service_account_lem raw before behind ss hb he lines =
      ap (λ ls. join (subject_lines rewrite_name false ls) (newline ∷ [])) lines
      ∙ ap (λ ls. join ls (newline ∷ [])) (subject_lines_accounts before behind ss hb he)
