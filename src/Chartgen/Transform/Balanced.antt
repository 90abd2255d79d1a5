-- ===== src/Chartgen/Transform/Balanced.antt =====
-- The blocks of the template files.
use opendatahub_ai_gateway_o.Chartgen.Blocks.Webhook.{webhook-Neutral}
use opendatahub_ai_gateway_o.Chartgen.Blocks.Added.{
  metadata-IsBalanced, config_map-IsBalanced, Neutral-IsBalanced, pull_secrets-IsBalanced,
}
use opendatahub_ai_gateway_o.Text.Lines.{split-newline}
use opendatahub_ai_gateway_o.Chartgen.Transform.{
  transform_resource, Fields, transform_deployment, transform_service_account, transform_config_map,
  transform_role_binding, transform_webhook, transform_certificate, transform_generic, render_group,
  rewrite_deployment, is_empty, replace_namespace,
}
use opendatahub_ai_gateway_o.Chartgen.Libraries.{Libraries, Gvk, same_gvk}
use opendatahub_ai_gateway_o.Chartgen.Blocks.{
  IsBalanced, behind_lines, behind_line, opens, AreBalanced-append, closes,
}
use opendatahub_ai_gateway_o.Base.{
  Bool, true, false, ◌||◌, List, [], ◌∷◌, ◌++◌, inl, inr, ◌≡◌, refl, if◌then◌else◌, Bool-cases, All,
  Result, ok,
}
use opendatahub_ai_gateway_o.Text.{Text, codes, trim_space, join, split, newline, has_prefix}
use opendatahub_ai_gateway_o.Chartgen.Transform.Errors.{Rendered, render_group-ok}
use opendatahub_ai_gateway_o.Chartgen.Blocks.Neutral.{
  Neutral, namespace-Neutral, subjects_account-Neutral, dns-Neutral, rewritten-Neutral,
  subjects_namespace-Neutral,
}

-- The function succeeds, with a template whose blocks are balanced.
abbrev pub RendersBlocks : Result Text → Type 0
RendersBlocks r = (out : Text) × (r ≡ ok out) × IsBalanced out

if_RendersBlocks :
    (b : Bool) (r s : Result Text)
    → RendersBlocks r
    → RendersBlocks s
    → RendersBlocks (if b then r else s)
if_RendersBlocks true r s hr hs = hr
if_RendersBlocks false r s hr hs = hs

module _ (lib : Libraries) (obj : Fields) {raw : Text} (marshalled : lib.marshal obj ≡ ok raw)
    (old : Neutral (trim_space raw)) where
  deployment-RendersBlocks : RendersBlocks (transform_deployment lib obj)
  unfolding transform_deployment rewrite_deployment
  deployment-RendersBlocks = (_, rw marshalled, pull_secrets-IsBalanced _ (rewritten-Neutral _ old))

  service_account-RendersBlocks : RendersBlocks (transform_service_account lib obj)
  unfolding transform_service_account
  service_account-RendersBlocks =
      (_, rw marshalled, metadata-IsBalanced _ (namespace-Neutral _ old) (lib.get_name obj))

  config_map-RendersBlocks : RendersBlocks (transform_config_map lib obj)
  unfolding transform_config_map
  config_map-RendersBlocks = (_, rw marshalled, config_map-IsBalanced _ (namespace-Neutral _ old))

  role_binding-RendersBlocks : RendersBlocks (transform_role_binding lib obj)
  unfolding transform_role_binding
  role_binding-RendersBlocks = (
    _,
    rw marshalled,
    Neutral-IsBalanced _
        (subjects_account-Neutral _ (subjects_namespace-Neutral _ (namespace-Neutral _ old))),
  )

  webhook-RendersBlocks : RendersBlocks (transform_webhook lib obj)
  unfolding transform_webhook
  webhook-RendersBlocks = (_, rw marshalled, Neutral-IsBalanced _ (webhook-Neutral _ old))

  certificate-RendersBlocks : RendersBlocks (transform_certificate lib obj)
  unfolding transform_certificate
  certificate-RendersBlocks =
      (_, rw marshalled, Neutral-IsBalanced _ (dns-Neutral _ (namespace-Neutral _ old)))

  generic-RendersBlocks : RendersBlocks (transform_generic lib obj)
  unfolding transform_generic
  generic-RendersBlocks = elim (Bool-cases (is_empty (lib.get_namespace obj))) [
    | inl e ↦ (trim_space raw, rw (marshalled, e), Neutral-IsBalanced _ old)
    | inr e ↦ (
      replace_namespace (trim_space raw),
      rw (marshalled, e),
      Neutral-IsBalanced _ (namespace-Neutral _ old),
    )
  ]

transform_resource-RendersBlocks :
    (lib : Libraries) (resource_gvk : Gvk) (obj : Fields) {raw : Text}
    → lib.marshal obj ≡ ok raw
    → Neutral (trim_space raw)
    → RendersBlocks (transform_resource lib resource_gvk obj)
unfolding transform_resource
transform_resource-RendersBlocks lib g obj m h =
    if_RendersBlocks (same_gvk g lib.deployment) _ _ (deployment-RendersBlocks lib obj m h) (
      if_RendersBlocks (same_gvk g lib.service_account) _ _
        (service_account-RendersBlocks lib obj m h)
        (if_RendersBlocks (same_gvk g lib.config_map) _ _ (config_map-RendersBlocks lib obj m h) (
          if_RendersBlocks (same_gvk g lib.cluster_role_binding || same_gvk g lib.role_binding) _ _
            (role_binding-RendersBlocks lib obj m h)
            (if_RendersBlocks
              (same_gvk g lib.mutating_webhook_configuration
                || same_gvk g lib.validating_webhook_configuration)
              _ _ (webhook-RendersBlocks lib obj m h)
              (if_RendersBlocks (same_gvk g lib.certificate) _ _
                (certificate-RendersBlocks lib obj m h) (generic-RendersBlocks lib obj m h))))))

-- The objects can be marshalled, and no line of their manifests opens or closes a block.
abbrev pub AllNeutral : Libraries → List Fields → Type 0
AllNeutral lib = All (λ obj. (raw : Text) × (lib.marshal obj ≡ ok raw) × Neutral (trim_space raw))

group-Rendered :
    (lib : Libraries) (g : Gvk) (os : List Fields)
    → AllNeutral lib os
    → (ts : List Text) × Rendered lib g os ts × All IsBalanced ts
group-Rendered lib g [] a = ([], tt, tt)
group-Rendered lib g (o ∷ os) ((raw, m, h), a) =
    let (t, e, b) = transform_resource-RendersBlocks lib g o m h in
    let (ts, es, bs) = group-Rendered lib g os a in (t ∷ ts, (e, es), (b, bs))

separator-IsBalanced : IsBalanced (codes "---")
unfolding split behind_lines behind_line opens closes trim_space has_prefix
separator-IsBalanced n = refl

nothing-IsBalanced : IsBalanced []
unfolding split behind_lines behind_line opens closes trim_space has_prefix
nothing-IsBalanced n = refl

join-IsBalanced : (ts : List Text) → All IsBalanced ts → IsBalanced (join ts (codes "\n---\n"))
unfolding join
join-IsBalanced [] a = nothing-IsBalanced
join-IsBalanced (t ∷ []) a = a.0
join-IsBalanced (t ∷ u ∷ ts) a =
    rw
      (
        split-newline t (codes "---\n" ++ join (u ∷ ts) (codes "\n---\n")),
        split-newline (codes "---") (join (u ∷ ts) (codes "\n---\n")),
      )
      (AreBalanced-append (split t newline) _ a.0 (
        AreBalanced-append (split (codes "---") newline) _ separator-IsBalanced
          (join-IsBalanced (u ∷ ts) a.1)))

-- Where every object of a group can be marshalled and no line of its manifest is an action that opens or
-- closes a block, the group is rendered, and in its template file the blocks that the chart adds are
-- nested, and each is closed.
pub render_group-RendersBlocks :
    (lib : Libraries) (resource_gvk : Gvk) (resources : List Fields)
    → AllNeutral lib resources
    → RendersBlocks (render_group lib resource_gvk resources)
render_group-RendersBlocks lib g os a =
    let (ts, rendered, balanced) = group-Rendered lib g os a in
    (join ts (codes "\n---\n"), render_group-ok lib g os ts rendered, join-IsBalanced ts balanced)
