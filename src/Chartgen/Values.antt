-- ===== src/Chartgen/Values.antt =====
-- `Values`, `DefaultValues`, `ExtractDefaults` and what it calls, of cmd/chartgen/values.go. `none` is a
-- panic: a type assertion with no `ok`.
pub mod ImageRef
pub mod Extract
use opendatahub_ai_gateway_o.Base.{
  ℕ, zero, suc, ◌+◌, ◌-◌, ◌*◌, ◌/◌, ◌%◌, ◌≤◌, ◌<◌, Bool, true, false, not, ◌&&◌, ◌||◌, List, [],
  ◌∷◌, ◌++◌, map, append-nil, append_assoc, ◌≢◌, ◌↔◌, ◌⊎◌, inl, inr, Option, none, some, ◌≡◌, refl,
  sym, ap, ◌∙◌, arith, ltb, leb, ◌==◌, if◌then◌else◌, ==_iff, Bool-cases, &&-true, length, take,
  length-append, take-append_length, sub_length, All, All-append, All-intro, All-map, All-flat_map,
  Result, ok, err, ◌>>=◌, map_err, >>=-eq-ok, ok-injective, err-ne-ok, map_err-eq-ok,
  some-injective, none-ne-some,
}
use mathlib.Core.List.{reverse}
use opendatahub_ai_gateway_o.Chartgen.Libraries.{Libraries, same_gvk}
use opendatahub_ai_gateway_o.Chartgen.Object.{
  ℤ, pos, negsuc, Value, null, boolean, int64, float64, string, slice, object, Items, nil, cons,
  Fields, get_field,
}
use opendatahub_ai_gateway_o.Text.{Text, codes}

pub record ImageSpec : Type 0 where
  pub repository : Text
  pub tag : Text
  pub full_ref : Text

pub record ResourceList : Type 0 where
  pub cpu : Text
  pub memory : Text

pub record ResourceSpec : Type 0 where
  pub limits : ResourceList
  pub requests : ResourceList

pub record ServiceAccountSpec : Type 0 where
  pub name : Text
  pub annotations : List (Text × Text)

pub record Values : Type 0 where
  pub image : ImageSpec
  pub replicas : ℤ
  pub resources : ResourceSpec
  pub leader_elect : Bool
  pub service_account : ServiceAccountSpec
  pub image_pull_secret : Text
  pub config : List (Text × Text)

abbrev pub default_image_tag : Text
default_image_tag = codes "latest"

abbrev pub default_values : Values
default_values = record {
  image = record { repository = codes "controller"; tag = default_image_tag; full_ref = [] };
  replicas = pos 1;
  resources = record {
    limits = record { cpu = codes "500m"; memory = codes "128Mi" };
    requests = record { cpu = codes "10m"; memory = codes "64Mi" };
  };
  leader_elect = true;
  service_account = record { name = []; annotations = [] };
  image_pull_secret = [];
  config =
      (codes "platform-type", codes "OpenDataHub")
      ∷ (codes "platform-version", codes "unknown")
      ∷ [];
}

-- The loop of `splitImageTag`, from the last character backwards: what is not yet read, last
-- character first, and what has been read.
unfoldable pub scan_tag : Text → Text → Option (Text × Text)
scan_tag [] tail = none
scan_tag (c ∷ before) tail =
    let next = scan_tag before (c ∷ tail) in
    if c == b':' then some (reverse before, tail) else if c == b'/' then none else next

or_latest : Text → Option (Text × Text) → Text × Text
or_latest image none = (image, default_image_tag)
or_latest image (some parts) = parts

-- `splitImageTag`
unfoldable pub split_image_tag : Text → Text × Text
unfolding scan_tag or_latest
split_image_tag image =
    or_latest image (if ltb 1 (length image) then scan_tag (reverse image) [] else none)

-- `int32(n)` of an int64: the low 32 bits, as a signed number.
unfoldable pub signed32 : ℕ → ℤ
signed32 m = if ltb m 0x80000000 then pos m else negsuc (0xffffffff - m)

unfoldable pub to_int32 : ℤ → ℤ
unfolding signed32
to_int32 (pos n) = signed32 (n % 0x100000000)
to_int32 (negsuc n) = signed32 (0xffffffff - n % 0x100000000)

-- The accessors of k8s.io/apimachinery, with none for "not found" and for an error, which the code treats
-- alike, the arithmetic of Go on a float64's bits, and the text of a quantity.
pub record ValueLib : Type 0 where
  pub nested_slice : Fields → List Text → Option Items
  pub nested_int64 : Fields → List Text → Option ℤ
  -- `*` and the conversion `int64` of Go on float64, by its bits
  pub multiply : ℕ → ℕ → ℕ
  pub truncate : ℕ → ℤ
  -- the text of `NewMilliQuantity` with `DecimalSI`
  pub milli_quantity : ℤ → Text

-- The bits of 1000.0.
abbrev float64_1000 : ℕ
float64_1000 = 0x408f400000000000

abbrev string_or_empty : Option Value → Text
string_or_empty (some (string s)) = s
string_or_empty _ = []

module _ (values_lib : ValueLib) where
  open values_lib use {nested_slice, nested_int64, multiply, truncate, milli_quantity}

  unfoldable pub cpu_of : Option Value → Option Text
  cpu_of none = some []
  cpu_of (some (string s)) = some s
  cpu_of (some (float64 f)) = some (milli_quantity (truncate (multiply f float64_1000)))
  cpu_of (some _) = none

  with_memory : Option Value → Option Text → Option ResourceList
  with_memory memory none = none
  with_memory memory (some cpu) = some (record { cpu = cpu; memory = string_or_empty memory })

  unfoldable pub resource_list : Option Value → Option ResourceList
  unfolding cpu_of with_memory get_field
  resource_list (some (object fields)) =
      with_memory (get_field (codes "memory") fields) (cpu_of (get_field (codes "cpu") fields))
  resource_list _ = some (record { cpu = []; memory = [] })

  both : Option ResourceList → Option ResourceList → Option ResourceSpec
  both (some limits) (some requests) = some (record { limits = limits; requests = requests })
  both _ _ = none

  -- `extractResources`
  unfoldable pub extract_resources : Fields → Option ResourceSpec
  unfolding resource_list both get_field
  extract_resources res =
      both (resource_list (get_field (codes "limits") res))
        (resource_list (get_field (codes "requests") res))

  unfoldable pub set_image : Option Value → Values → Values
  unfolding split_image_tag
  set_image (some (string img)) values =
      let parts = split_image_tag img in
      record values { image = record (values.image) { repository = parts.0; tag = parts.1 } }
  set_image _ values = values

  with_resources : Values → Option ResourceSpec → Option Values
  with_resources values none = none
  with_resources values (some spec) = some (record values { resources = spec })

  unfoldable pub set_resources : Option Value → Values → Option Values
  unfolding extract_resources with_resources
  set_resources (some (object res)) values = with_resources values (extract_resources res)
  set_resources _ values = some values

  -- On `containers`, if it was found.
  unfoldable pub set_container : Option Items → Values → Option Values
  unfolding set_image set_resources get_field
  set_container (some (cons (object c) others)) values =
      set_resources (get_field (codes "resources") c)
        (set_image (get_field (codes "image") c) values)
  set_container _ values = some values

  unfoldable pub set_replicas : Option ℤ → Option Values → Option Values
  unfolding to_int32
  set_replicas (some n) (some values) = some (record values { replicas = to_int32 n })
  set_replicas none (some values) = some values
  set_replicas found none = none

  -- The body of the loop for a Deployment.
  unfoldable pub from_deployment : Fields → Values → Option Values
  unfolding set_container set_replicas
  from_deployment obj values =
      set_replicas (nested_int64 obj (codes "spec" ∷ codes "replicas" ∷ [])) (
        set_container
          (nested_slice obj
            (codes "spec" ∷ codes "template" ∷ codes "spec" ∷ codes "containers" ∷ []))
          values)

  -- `ExtractDefaults`
  unfoldable pub extract_defaults : Libraries → List Fields → Option Values
  unfolding from_deployment same_gvk
  extract_defaults lib [] = some default_values
  extract_defaults lib (r ∷ resources) =
      let later = extract_defaults lib resources in
      if same_gvk (lib.group_version_kind r) lib.deployment
      then from_deployment r default_values
      else later
