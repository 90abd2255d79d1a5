-- ===== src/Chartgen/Transform.antt =====
-- `renderGroup`, `transformResource` and the function for each kind, of cmd/chartgen/chart.go.
pub mod Deployment
pub mod Namespace
pub mod Errors
pub mod Balanced
use opendatahub_ai_gateway_o.Base.{
  Bool, ◌||◌, List, [], ◌∷◌, ◌++◌, Result, ok, err, ◌>>=◌, map_err, if◌then◌else◌,
}
use opendatahub_ai_gateway_o.Chartgen.Fields.{
  replace_namespace, replace_image_field, replace_replicas, replace_service_account_name,
  add_image_pull_secrets, inject_config_map_values,
}
use opendatahub_ai_gateway_o.Chartgen.Libraries.{Libraries, Gvk, same_gvk}
use opendatahub_ai_gateway_o.Chartgen.Object.{Fields}
use opendatahub_ai_gateway_o.Chartgen.Resources.{replace_resources}
use opendatahub_ai_gateway_o.Chartgen.Sections.{
  replace_subjects_namespace, replace_subjects_service_account, replace_service_account_metadata,
  replace_certificate_dns_names,
}
use opendatahub_ai_gateway_o.Chartgen.Webhook.{replace_webhook_namespace}
use opendatahub_ai_gateway_o.Text.{Text, codes, is_empty, trim_space, join}

-- The steps of `transformDeployment` on the text.
unfoldable pub rewrite_deployment : Text → Text
rewrite_deployment raw =
    let namespaced = replace_namespace raw in
    let with_image = replace_image_field namespaced in
    let with_replicas = replace_replicas with_image in
    let with_resources = replace_resources with_replicas in
    let with_account = replace_service_account_name with_resources in
    add_image_pull_secrets with_account

module _ (lib : Libraries) where
  open lib use {
    get_name, get_namespace, marshal, deployment, service_account, config_map, cluster_role_binding,
    role_binding, mutating_webhook_configuration, validating_webhook_configuration, certificate,
  }

  unfoldable pub marshal_resource : Fields → Result Text
  marshal_resource obj = do
    data_text ← map_err (λ e. codes "marshaling resource: " ++ e) (marshal obj)
    ok (trim_space data_text)

  unfoldable pub transform_deployment : Fields → Result Text
  unfolding marshal_resource rewrite_deployment
  transform_deployment obj = do raw ← marshal_resource obj; ok (rewrite_deployment raw)

  unfoldable pub transform_service_account : Fields → Result Text
  unfolding marshal_resource
  transform_service_account obj = do
    raw ← marshal_resource obj
    ok (replace_service_account_metadata (replace_namespace raw) (get_name obj))

  unfoldable pub transform_config_map : Fields → Result Text
  unfolding marshal_resource
  transform_config_map obj = do
    raw ← marshal_resource obj
    ok (inject_config_map_values (replace_namespace raw))

  unfoldable pub transform_role_binding : Fields → Result Text
  unfolding marshal_resource
  transform_role_binding obj = do
    raw ← marshal_resource obj
    let namespaced = replace_namespace raw
    let with_subjects = replace_subjects_namespace namespaced
    ok (replace_subjects_service_account with_subjects)

  unfoldable pub transform_webhook : Fields → Result Text
  unfolding marshal_resource
  transform_webhook obj = do raw ← marshal_resource obj; ok (replace_webhook_namespace raw)

  unfoldable pub transform_certificate : Fields → Result Text
  unfolding marshal_resource
  transform_certificate obj = do
    raw ← marshal_resource obj
    ok (replace_certificate_dns_names (replace_namespace raw))

  unfoldable pub transform_generic : Fields → Result Text
  unfolding marshal_resource
  transform_generic obj = do
    raw ← marshal_resource obj
    ok (if is_empty (get_namespace obj) then raw else replace_namespace raw)

  unfoldable pub transform_resource : Gvk → Fields → Result Text
  unfolding same_gvk transform_deployment transform_service_account transform_config_map
      transform_role_binding transform_webhook transform_certificate transform_generic
  transform_resource resource_gvk obj =
      if same_gvk resource_gvk deployment
      then transform_deployment obj
      else if same_gvk resource_gvk service_account
      then transform_service_account obj
      else if same_gvk resource_gvk config_map
      then transform_config_map obj
      else if same_gvk resource_gvk cluster_role_binding || same_gvk resource_gvk role_binding
      then transform_role_binding obj
      else if same_gvk resource_gvk mutating_webhook_configuration
          || same_gvk resource_gvk validating_webhook_configuration
      then transform_webhook obj
      else if same_gvk resource_gvk certificate
      then transform_certificate obj
      else transform_generic obj

  -- The loop of `renderGroup`.
  unfoldable pub render_parts : Gvk → List Fields → List Text → Result (List Text)
  unfolding transform_resource
  render_parts resource_gvk [] parts = ok parts
  render_parts resource_gvk (obj ∷ resources) parts = do
    transformed ←
        map_err
          (λ e.
            codes "transforming "
            ++ (resource_gvk.kind ++ (codes "/" ++ (get_name obj ++ (codes ": " ++ e)))))
          (transform_resource resource_gvk obj)
    render_parts resource_gvk resources (parts ++ transformed ∷ [])

  unfoldable pub render_group : Gvk → List Fields → Result Text
  unfolding render_parts
  render_group resource_gvk resources = do
    parts ← render_parts resource_gvk resources []
    ok (join parts (codes "\n---\n"))
