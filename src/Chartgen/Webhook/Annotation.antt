-- ===== src/Chartgen/Webhook/Annotation.antt =====
-- The line of the annotation `cert-manager.io/inject-ca-from` behind `replaceWebhookNamespace`.
use opendatahub_ai_gateway_o.Base.{
  ℕ, false, [], ◌∷◌, ◌++◌, append_assoc, ◌≡◌, refl, sym, ap, ◌∙◌, arith,
}
use opendatahub_ai_gateway_o.Chartgen.Marks.{annotation_inject_ca_from}
use opendatahub_ai_gateway_o.Chartgen.Webhook.{ca_line}
use opendatahub_ai_gateway_o.Text.Lines.{has_char}
use opendatahub_ai_gateway_o.Text.Parts.{split_n_first, contains-append, trim_space_right-append}
use opendatahub_ai_gateway_o.Text.Trim.{
  IsSpaces, trim_space-indent, trim_space_first, indent_of-append,
}
use opendatahub_ai_gateway_o.Text.{
  Text, codes, trim_space, trim_space_right, has_prefix, is_space, split_n,
}

-- `<namespace>/<certificate>`, as cert-manager wants it: no slash in the namespace, no white space around.
pub record CaName : Type 0 where
  pub first : ℕ
  pub others : Text
  pub certificate : Text
  pub first_is_no_space : is_space first ≡ false
  pub namespace_has_no_slash : has_char b'/' (first ∷ others) ≡ false
  pub certificate_ends : trim_space_right certificate ≡ certificate

abbrev pub annotation_line : Text → CaName → Text
annotation_line indent n =
    indent
    ++ (annotation_inject_ca_from ++ (b':' ∷ b' ' ∷ n.first ∷ (n.others ++ (b'/' ∷ n.certificate))))

abbrev pub chart_annotation : Text → CaName → Text
chart_annotation indent n =
    indent ++ (annotation_inject_ca_from ++ (codes ": {{ .Release.Namespace }}/" ++ n.certificate))

no_colon : (i : Text) → IsSpaces i → has_char b':' (i ++ annotation_inject_ca_from) ≡ false
no_colon [] h = refl
no_colon (c ∷ i) h = ground (arith, no_colon i h.1)

trim_value :
    (n : CaName)
    → trim_space (b' ' ∷ n.first ∷ (n.others ++ (b'/' ∷ n.certificate)))
      ≡ n.first ∷ (n.others ++ (b'/' ∷ n.certificate))
unfolding is_space
trim_value n =
    trim_space-indent (b' ' ∷ []) (n.first ∷ (n.others ++ (b'/' ∷ n.certificate))) (refl, tt)
    ∙ trim_space_first n.first _ n.first_is_no_space
    ∙ ap (λ t. n.first ∷ t)
        (trim_space_right-append n.others n.certificate b'/' refl
          ∙ ap (λ t. n.others ++ b'/' ∷ t) n.certificate_ends)

split_line :
    (i : Text) (n : CaName)
    → IsSpaces i
    → split_n (annotation_line i n) b':' 2
      ≡ (i ++ annotation_inject_ca_from)
        ∷ (b' ' ∷ n.first ∷ (n.others ++ (b'/' ∷ n.certificate)))
        ∷ []
unfolding split_n
split_line i n h =
    ap (λ l. split_n l b':' 2) (sym (append_assoc i annotation_inject_ca_from _))
    ∙ split_n_first (i ++ annotation_inject_ca_from) _ b':' 0 (no_colon i h)

split_value :
    (n : CaName)
    → split_n (n.first ∷ (n.others ++ (b'/' ∷ n.certificate))) b'/' 2
      ≡ (n.first ∷ n.others) ∷ n.certificate ∷ []
unfolding split_n
split_value n = split_n_first (n.first ∷ n.others) n.certificate b'/' 0 n.namespace_has_no_slash

trim_key :
    (i : Text)
    → IsSpaces i
    → trim_space (i ++ annotation_inject_ca_from) ≡ annotation_inject_ca_from
unfolding trim_space
trim_key i h = trim_space-indent i annotation_inject_ca_from h

-- The line of the annotation gets the release's namespace in place of its own and keeps the indentation
-- and the certificate, where the indentation is of spaces, no slash stands in the namespace, and no white
-- space around the value.
pub ca_line_annotation :
    (i : Text) (n : CaName) → IsSpaces i → ca_line (annotation_line i n) ≡ chart_annotation i n
unfolding ca_line has_prefix
ca_line_annotation i n h =
    rw
      (
        contains-append i
            (annotation_inject_ca_from
              ++ (b':' ∷ b' ' ∷ n.first ∷ (n.others ++ (b'/' ∷ n.certificate))))
            annotation_inject_ca_from refl,
        split_line i n h,
        trim_value n,
        split_value n,
        indent_of-append i b'c'
            (codes "ert-manager.io/inject-ca-from"
              ++ (b':' ∷ b' ' ∷ n.first ∷ (n.others ++ (b'/' ∷ n.certificate))))
            h refl,
        trim_key i h,
      )
      refl
