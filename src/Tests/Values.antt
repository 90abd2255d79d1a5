-- ===== src/Tests/Values.antt =====
-- cmd/chartgen/values.go at concrete inputs.
use opendatahub_ai_gateway_o.Chartgen.Values.ImageRef.{split_image_tag_tagged}
use opendatahub_ai_gateway_o.Chartgen.Values.{split_image_tag}
use opendatahub_ai_gateway_o.Base.{
  [], ◌∷◌, Option, none, some, ◌≡◌, refl, ap, arith, some-injective, none-ne-some,
}
use opendatahub_ai_gateway_o.Chartgen.Object.{
  ℤ, pos, Value, int64, float64, slice, object, Items, nil, cons, Fields, end, field, get_field,
  as_object, as_string,
}
use opendatahub_ai_gateway_o.Chartgen.Values.{Values, ValueLib, default_values, extract_defaults}
use opendatahub_ai_gateway_o.Chartgen.Values.Extract.{
  path_value, IsValueLib, extract_defaults_replicas,
}
use opendatahub_ai_gateway_o.Tests.Example.{example_lib, text_field, object_field, kind_of}
use opendatahub_ai_gateway_o.Text.{codes, equal}

abbrev as_int64 : Option Value → Option ℤ
as_int64 (some (int64 n)) = some n
as_int64 _ = none

abbrev as_slice : Option Value → Option Items
as_slice (some (slice items)) = some items
as_slice _ = none

abbrev example_values : ValueLib
example_values = record {
  nested_slice = λ obj path. as_slice (path_value path obj);
  nested_int64 = λ obj path. as_int64 (path_value path obj);
  multiply = λ a b. 0;
  truncate = λ f. pos 0;
  milli_quantity = λ n. [];
}

int64_sound : (found : Option Value) {n : ℤ} → as_int64 found ≡ some n → found ≡ some (int64 n)
int64_sound (some (int64 m)) h = ap (λ n. some (int64 n)) (some-injective h)
int64_sound _ h = absurd (none-ne-some h)

example_values-IsValueLib : IsValueLib example_values
example_values-IsValueLib = record {
  nested_int64_sound = λ obj path. int64_sound (path_value path obj);
}

-- A Deployment of one container, with these replicas.
abbrev deployment_of : Value → Fields
deployment_of replicas = text_field "kind" "Deployment" (
    object_field "spec"
      (field (codes "replicas") replicas (
        object_field "template"
          (object_field "spec"
            (field (codes "containers")
              (slice (cons (object (text_field "image" "quay.io/odh/operator:v2" end)) nil)) end)
            end)
          end))
      end)

abbrev a_service : Fields
a_service =
    text_field "kind" "Service" (object_field "spec" (field (codes "replicas") (float64 0) end) end)

abbrev float_values : Values
float_values = record default_values {
  image = record { repository = codes "quay.io/odh/operator"; tag = codes "v2"; full_ref = [] };
  resources = record {
    limits = record { cpu = codes "500m"; memory = codes "128Mi" };
    requests = record { cpu = codes "10m"; memory = codes "64Mi" };
  };
}

-- `0x4008000000000000` is 3.0.
extract_defaults_replicas_example : float_values.replicas ≡ pos 1
unfolding extract_defaults path_value equal kind_of get_field as_object as_string
extract_defaults_replicas_example =
    extract_defaults_replicas example_values example_lib example_values-IsValueLib
      (a_service ∷ deployment_of (float64 0x4008000000000000) ∷ [])
      ((λ d. (_, refl)), ((λ d. (_, refl)), tt)) refl

split_image_tag_tagged_example :
    split_image_tag (codes "registry:5000/operator:v2")
    ≡ (codes "registry:5000/operator", codes "v2")
split_image_tag_tagged_example =
    split_image_tag_tagged (codes "registry:5000/operator") (codes "v2") refl refl (omega arith)
