-- ===== src/Chartgen/Transform/Deployment.antt =====
-- What holds of the template of a Deployment.
use opendatahub_ai_gateway_o.Base.{All-intro, ◌≡◌, ok}
use opendatahub_ai_gateway_o.Chartgen.Settled.{
  Field, namespace, image, image_pull_policy, replicas, service_account_name,
}
use opendatahub_ai_gateway_o.Chartgen.Steps.{
  Settles, namespace_own, replicas_own, account_own, image_step, replicas_step, resources_step,
  account_step, pull_secret_step,
}
use opendatahub_ai_gateway_o.Chartgen.Transform.{
  rewrite_deployment, transform_deployment, Libraries, Fields, trim_space,
}
use opendatahub_ai_gateway_o.Text.{Text, newline, split}

-- In the text that the steps make, every line that sets a namespace, an image, the replicas or the
-- service account's name sets it to a Helm expression, and every pull policy is `Always`.
pub rewrite_deployment-Settles : (f : Field) (raw : Text) → Settles f (rewrite_deployment raw)
unfolding rewrite_deployment
rewrite_deployment-Settles namespace raw =
    let f = namespace in
    pull_secret_step f _ (
      account_step f _
        (resources_step f _ (replicas_step f _ (image_step f _ (namespace_own raw)))))
rewrite_deployment-Settles image raw =
    let f = image in
    pull_secret_step f _ (
      account_step f _ (
        resources_step f _
          (replicas_step f _ (image_step f _ (All-intro _ (λ l. tt) (split _ newline))))))
rewrite_deployment-Settles image_pull_policy raw =
    let f = image_pull_policy in
    pull_secret_step f _ (
      account_step f _ (
        resources_step f _
          (replicas_step f _ (image_step f _ (All-intro _ (λ l. tt) (split _ newline))))))
rewrite_deployment-Settles replicas raw =
    let f = replicas in
    pull_secret_step f _ (account_step f _ (resources_step f _ (replicas_own _)))
rewrite_deployment-Settles service_account_name raw =
    pull_secret_step service_account_name _ (account_own _)

-- A Deployment that can be marshalled is rendered, and in the template each line that begins with
-- `namespace:`, `image:`, `replicas:` or `serviceAccountName:` holds a Helm expression, and each
-- that begins with `imagePullPolicy:` is `imagePullPolicy: Always`.
pub transform_deployment-Settles :
    (lib : Libraries) (obj : Fields) {raw : Text}
    → lib.marshal obj ≡ ok raw
    → (out : Text) × (transform_deployment lib obj ≡ ok out) × ((f : Field) → Settles f out)
unfolding transform_deployment
transform_deployment-Settles lib obj {raw} h =
    (rewrite_deployment (trim_space raw), rw h, λ f. rewrite_deployment-Settles f (trim_space raw))
