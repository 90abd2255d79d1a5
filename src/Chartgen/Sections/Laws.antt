-- ===== src/Chartgen/Sections/Laws.antt =====
-- What the loops with a section's flag keep of their lines.
use opendatahub_ai_gateway_o.Text.Parts.{split_n-IsLine, trim_prefix-IsLine, trim_space-IsLine}
use opendatahub_ai_gateway_o.Chartgen.Marks.Laws.{KeepsLines, indent-IsLine, format_decimal-IsLine}
use opendatahub_ai_gateway_o.Text.Lines.{IsLine, has_char-append}
use opendatahub_ai_gateway_o.Base.{
  ◌+◌, Bool, true, false, not, ◌&&◌, List, [], ◌∷◌, ◌++◌, inl, inr, refl, ◌∙◌, if◌then◌else◌,
  Bool-cases, length, All, All-append,
}
use opendatahub_ai_gateway_o.Chartgen.Marks.{yaml_field_subjects, yaml_field_name, format_decimal}
use opendatahub_ai_gateway_o.Chartgen.Sections.{
  ends_subjects, subject_lines, account_lines, still_metadata, metadata_lines, set_namespace_part,
  dns_entry, dns_lines, account_name_text,
}
use opendatahub_ai_gateway_o.Text.{
  Text, codes, equal, has_prefix, contains, trim_space, trim_prefix, indent_of, split_n, newline,
}

module _ (P : Text → Type 0) where
  pub subject_lines-All :
      (rewrite : Text → Text)
      → ((l : Text) → P l → P (rewrite l))
      → (inside : Bool) (ls : List Text) → All P ls
      → All P (subject_lines rewrite inside ls)
  unfolding subject_lines
  subject_lines-All rewrite keep inside [] a = tt
  subject_lines-All rewrite keep inside (l ∷ ls) a =
      elim (Bool-cases (equal (trim_space l) yaml_field_subjects)) [
        | inl e ↦ rw e (a.0, subject_lines-All rewrite keep true ls a.1)
        | inr e ↦ rw e (
          body (inside && not (ends_subjects l)),
          subject_lines-All rewrite keep (inside && not (ends_subjects l)) ls a.1,
        )
      ]
    where
      body : (b : Bool) → P (if b then rewrite l else l)
      body true = keep l a.0
      body false = a.0

  pub metadata_lines-All :
      (original_name : Text)
      → ((l : Text) → All P (account_lines (indent_of l)))
      → (inside : Bool) (ls : List Text) → All P ls
      → All P (metadata_lines original_name inside ls)
  unfolding metadata_lines
  metadata_lines-All original_name new inside [] a = tt
  metadata_lines-All original_name new inside (l ∷ ls) a =
      All-append P _ _
        (body (
          still_metadata inside l
          && has_prefix (trim_space l) yaml_field_name
          && contains (trim_space l) original_name))
        (metadata_lines-All original_name new (still_metadata inside l) ls a.1)
    where
      body : (b : Bool) → All P (if b then account_lines (indent_of l) else l ∷ [])
      body true = new l
      body false = (a.0, tt)

  pub dns_lines-All :
      ((l : Text) → P l → P (dns_entry l))
      → (inside : Bool) (ls : List Text) → All P ls
      → All P (dns_lines inside ls)
  unfolding dns_lines
  dns_lines-All keep inside [] a = tt
  dns_lines-All keep inside (l ∷ ls) a =
      elim (Bool-cases (equal (trim_space l) (codes "dnsNames:"))) [
        | inl e ↦ rw e (a.0, dns_lines-All keep true ls a.1)
        | inr e ↦ rw e (body _, dns_lines-All keep _ ls a.1)
      ]
    where
      body : (b : Bool) → P (if b then dns_entry l else l)
      body true = keep l a.0
      body false = a.0

  -- An entry stays as it is, or is put together from the parts of its name.
  pub dns_entry-of :
      (Q : Text → Type 0) (l : Text)
      → All Q (split_n (trim_prefix (trim_space l) (codes "- ")) b'.' 3)
      → ((service suffix : Text)
          → Q service
          → Q suffix
          → P (
              indent_of l
              ++ (codes "- " ++ (service ++ (codes ".{{ .Release.Namespace }}." ++ suffix)))))
      → P l
      → P (dns_entry l)
  unfolding dns_entry
  dns_entry-of Q l parts new old =
      by_parts (split_n (trim_prefix (trim_space l) (codes "- ")) b'.' 3) parts
    where
      by_parts : (parts : List Text) → All Q parts → P (set_namespace_part l parts)
      by_parts (a ∷ b ∷ c ∷ []) h = new a c h.0 h.1.1.0
      by_parts _ h = old

pub account_lines-IsLine : (l : Text) → All IsLine (account_lines (indent_of l))
unfolding account_lines
account_lines-IsLine l = (
  indent-IsLine l account_name_text refl,
  (
    indent-IsLine l (codes "{{- with .Values.serviceAccount.annotations }}") refl,
    (
      indent-IsLine l (codes "annotations:") refl,
      (
        indent-IsLine l _ (
            rw (
              has_char-append newline (format_decimal (length (indent_of l) + 2)) (codes " }}"),
              format_decimal-IsLine (length (indent_of l) + 2),
            )),
        (indent-IsLine l (codes "{{- end }}") refl, tt),
      ),
    ),
  ),
)

pub metadata_lines-KeepsLines :
    (original_name : Text) → KeepsLines (metadata_lines original_name false)
metadata_lines-KeepsLines original_name =
    metadata_lines-All IsLine original_name account_lines-IsLine false

dns_entry-IsLine : (l : Text) → IsLine l → IsLine (dns_entry l)
dns_entry-IsLine l h =
    dns_entry-of IsLine IsLine l
      (split_n-IsLine _ b'.' 3
        (trim_prefix-IsLine (trim_space l) (codes "- ") (trim_space-IsLine l h)))
      (λ a c ha hc.
        indent-IsLine l _
          (has_char-append newline a (codes ".{{ .Release.Namespace }}." ++ c) ∙ rw (ha, hc)))
      h

pub dns_lines-KeepsLines : KeepsLines (dns_lines false)
dns_lines-KeepsLines = dns_lines-All IsLine dns_entry-IsLine false
