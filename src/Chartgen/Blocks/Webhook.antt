-- ===== src/Chartgen/Blocks/Webhook.antt =====
-- `replaceWebhookNamespace` puts no action that opens or closes a block into a manifest.
use opendatahub_ai_gateway_o.Chartgen.Webhook.Laws.{ca_line-IsLine}
use opendatahub_ai_gateway_o.Chartgen.Fields.{replace_namespace}
use opendatahub_ai_gateway_o.Chartgen.Marks.{annotation_inject_ca_from}
use opendatahub_ai_gateway_o.Chartgen.Marks.Laws.{on_lines-AllLines}
use opendatahub_ai_gateway_o.Chartgen.Webhook.{
  set_ca_namespace, ca_line, replace_webhook_namespace, set_ca_value,
}
use opendatahub_ai_gateway_o.Text.Parts.{trim_space-append}
use opendatahub_ai_gateway_o.Chartgen.Blocks.{opens, closes, IsNeutral, IsLine}
use opendatahub_ai_gateway_o.Text.Lines.{has_char}
use opendatahub_ai_gateway_o.Base.{
  ℕ, Bool, true, false, ◌&&◌, ◌||◌, [], ◌∷◌, ◌++◌, map, ◌⊎◌, inl, inr, ◌≡◌, refl, ap, ◌∙◌, arith,
  ◌==◌, ==_iff, Bool-cases, All-map,
}
use opendatahub_ai_gateway_o.Text.{
  Text, codes, has_prefix, trim_space, trim_space_left, trim_space_right, contains, is_space,
  split_n, is_empty,
}
use opendatahub_ai_gateway_o.Chartgen.Blocks.Neutral.{
  Neutral, IsNeutral-indent, blank-IsNeutral, namespace-Neutral,
}

-- Either the separator does not occur, or the text is cut at its first occurrence.
two_parts :
    (s : Text) (sep : ℕ)
    → (split_n s sep 2 ≡ s ∷ [])
      ⊎ ((k : Text) × (v : Text) × (split_n s sep 2 ≡ k ∷ v ∷ []) × (s ≡ k ++ sep ∷ v))
unfolding split_n
two_parts [] sep = inl refl
two_parts (c ∷ s) sep = elim (Bool-cases (c == sep)) [
  | inl e ↦ inr ([], s, rw e, ap (λ d. d ∷ s) ((==_iff c sep).0 e))
  | inr e ↦ elim (two_parts s sep) [
    | inl h ↦ inl (rw (e, h))
    | inr (k, v, h, cut) ↦ inr (c ∷ k, v, rw (e, h), ap (◌∷◌ c) cut)
  ]
]

prefix_before :
    (sep : ℕ) (a y z p : Text)
    → has_char sep p ≡ false
    → has_prefix (trim_space_right a ++ sep ∷ y) p ≡ true
    → has_prefix (a ++ sep ∷ z) p ≡ true
unfolding has_prefix trim_space_right
prefix_before sep a y z [] n h = unfold has_prefix in refl
prefix_before sep [] y z (c ∷ p) n h = ground arith
prefix_before sep (d ∷ a) y z (c ∷ p) n h =
    elim (Bool-cases (is_empty (trim_space_right a) && is_space d)) [
      | inl e ↦ absurd (ground (arith, rw e at h))
      | inr e ↦ ground (arith, prefix_before sep a y z p, rw e at h)
    ]

trim_space_left-trim_space : (k : Text) → trim_space_left (trim_space k) ≡ trim_space k
unfolding trim_space trim_space_left trim_space_right
trim_space_left-trim_space [] = refl
trim_space_left-trim_space (c ∷ k) = ground (arith, trim_space_left-trim_space k)

or_mono :
    (a b : Bool) {c d : Bool}
    → (a ≡ true → c ≡ true)
    → (b ≡ true → d ≡ true)
    → (a || b) ≡ true
    → (c || d) ≡ true
or_mono true b f g h = ground (arith, f refl)
or_mono false b f g h = ground (arith, g h)

opens_before :
    (a y z : Text) → opens (trim_space_right a ++ b':' ∷ y) ≡ true → opens (a ++ b':' ∷ z) ≡ true
unfolding opens
opens_before a y z =
    or_mono _ _
      (or_mono _ _
        (or_mono _ _ (prefix_before b':' a y z (codes "{{- with") refl)
          (prefix_before b':' a y z (codes "{{- range") refl))
        (prefix_before b':' a y z (codes "{{- if") refl))
      (prefix_before b':' a y z (codes "{{- define") refl)

closes_before :
    (a y z : Text) → closes (trim_space_right a ++ b':' ∷ y) ≡ true → closes (a ++ b':' ∷ z) ≡ true
unfolding closes
closes_before a y z = prefix_before b':' a y z (codes "{{- end") refl

key_line_trimmed :
    (k x : Text) → trim_space (trim_space k ++ b':' ∷ x) ≡ trim_space k ++ b':' ∷ trim_space_right x
unfolding is_space
key_line_trimmed k x =
    trim_space-append (trim_space k) x b':' refl
    ∙ ap (λ t. t ++ b':' ∷ trim_space_right x) (trim_space_left-trim_space k)

-- What stands for a value behind a key and a colon neither opens nor closes a block, if the line did not.
key_line-IsNeutral :
    (k v x : Text) → IsNeutral (k ++ b':' ∷ v) → IsNeutral (trim_space k ++ b':' ∷ x)
unfolding is_space trim_space
key_line-IsNeutral k v x (h, h') =
    let a = trim_space_left k in
    let opened = opens_before a (trim_space_right x) (trim_space_right v) in
    let closed = closes_before a (trim_space_right x) (trim_space_right v) in
    let cut = trim_space-append k v b':' refl in
    let old = rw cut at h in
    let old' = rw cut at h' in
    rw (key_line_trimmed k x) (ground (arith, opened, old), ground (arith, closed, old'))

ca_value-IsNeutral :
    (l k v : Text)
    → l ≡ k ++ b':' ∷ v
    → IsNeutral l
    → IsNeutral (set_ca_namespace l k (split_n (trim_space v) b'/' 2))
unfolding set_ca_namespace
ca_value-IsNeutral l k v cut h = elim (two_parts (trim_space v) b'/') [
  | inl e ↦ rw e h
  | inr (n, c, e, _) ↦ rw e (IsNeutral-indent l _ (key_line-IsNeutral k v _ (rw cut at h)))
]

ca_line-IsNeutral : (l : Text) → IsNeutral l → IsNeutral (ca_line l)
unfolding ca_line set_ca_value
ca_line-IsNeutral l h = elim (Bool-cases (contains l annotation_inject_ca_from)) [
  | inl e ↦ rw e (elim (two_parts l b':') [
    | inl p ↦ rw p h
    | inr (k, v, p, cut) ↦ rw p (ca_value-IsNeutral l k v cut h)
  ])
  | inr e ↦ rw e h
]

pub webhook-Neutral : (raw : Text) → Neutral raw → Neutral (replace_webhook_namespace raw)
unfolding replace_webhook_namespace
webhook-Neutral raw old =
    on_lines-AllLines IsNeutral (map ca_line) (replace_namespace raw) blank-IsNeutral
      (All-map IsLine IsLine ca_line ca_line-IsLine)
      (All-map IsNeutral IsNeutral ca_line ca_line-IsNeutral _ (namespace-Neutral raw old))
