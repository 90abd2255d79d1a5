-- ===== src/Chartgen/Webhook/Laws.antt =====
-- What `replaceWebhookNamespace` makes of the annotation's line.
use opendatahub_ai_gateway_o.Base.{
  ℕ, Bool, true, false, List, [], ◌∷◌, ◌++◌, ◌∙◌, if◌then◌else◌, All,
}
use opendatahub_ai_gateway_o.Chartgen.Marks.Laws.{indent-IsLine}
use opendatahub_ai_gateway_o.Chartgen.Marks.{annotation_inject_ca_from}
use opendatahub_ai_gateway_o.Chartgen.Webhook.{set_ca_namespace, set_ca_value, ca_line}
use opendatahub_ai_gateway_o.Text.Lines.{IsLine, has_char-append}
use opendatahub_ai_gateway_o.Text.Parts.{split_n-IsLine, trim_space-IsLine}
use opendatahub_ai_gateway_o.Text.{Text, newline, codes, contains, trim_space, indent_of, split_n}

-- The line stays as it is, or is put together from the key and the certificate's name.
pub ca_line-of :
    (P Q : Text → Type 0) (l : Text)
    → ((s : Text) (sep : ℕ) → Q s → All Q (split_n s sep 2))
    → ((s : Text) → Q s → Q (trim_space s))
    → ((k certificate : Text)
        → Q k
        → Q certificate
        → P (indent_of l ++ (k ++ (codes ": {{ .Release.Namespace }}/" ++ certificate))))
    → Q l
    → P l
    → P (ca_line l)
unfolding ca_line
ca_line-of P Q l cut trim new q old = by_test (contains l annotation_inject_ca_from)
  where
    by_value : (k : Text) → Q k → (parts : List Text) → All Q parts → P (set_ca_namespace l k parts)
    by_value k hk (n ∷ c ∷ []) h = new (trim_space k) c (trim k hk) h.1.0
    by_value k hk _ h = old

    by_parts : (parts : List Text) → All Q parts → P (set_ca_value l parts)
    by_parts (k ∷ v ∷ []) h =
        by_value k h.0 (split_n (trim_space v) b'/' 2) (cut _ b'/' (trim v h.1.0))
    by_parts _ h = old

    by_test : (b : Bool) → P (if b then set_ca_value l (split_n l b':' 2) else l)
    by_test true = by_parts (split_n l b':' 2) (cut l b':' q)
    by_test false = old

pub ca_line-IsLine : (l : Text) → IsLine l → IsLine (ca_line l)
ca_line-IsLine l h =
    ca_line-of IsLine IsLine l (λ s sep. split_n-IsLine s sep 2) trim_space-IsLine
      (λ k c hk hc.
        indent-IsLine l _
          (has_char-append newline k (codes ": {{ .Release.Namespace }}/" ++ c) ∙ rw (hk, hc)))
      h h
