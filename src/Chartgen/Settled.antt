-- ===== src/Chartgen/Settled.antt =====
-- The fields of a Deployment that the chart sets by itself, and what it means that a line has been
-- dealt with: the value of the field is a Helm expression (`imagePullPolicy`: is `Always`).
use opendatahub_ai_gateway_o.Base.{
  true, false, not, ◌&&◌, List, ◌++◌, ◌≡◌, ◌≢◌, refl, inl, inr, arith, Bool-cases, All, All-map,
}
use opendatahub_ai_gateway_o.Chartgen.Fields.{
  image_text, always_text, image_lines, pull_secret_texts, pull_secret_lines,
}
use opendatahub_ai_gateway_o.Chartgen.Marks.Laws.{trim_space-indent_of}
use opendatahub_ai_gateway_o.Chartgen.Marks.{
  yaml_field_namespace, yaml_field_service_account_name, yaml_field_image,
  yaml_field_image_pull_policy, yaml_field_replicas, open_braces, set_field, below,
}
use opendatahub_ai_gateway_o.Text.{Text, has_prefix, contains, trim_space, indent_of}

pub data Field : Type 0 where
  namespace image image_pull_policy replicas service_account_name : Field

abbrev pub key : Field → Text
key namespace = yaml_field_namespace
key image = yaml_field_image
key image_pull_policy = yaml_field_image_pull_policy
key replicas = yaml_field_replicas
key service_account_name = yaml_field_service_account_name

abbrev pub IsChartValue : Field → Text → Type 0
IsChartValue image_pull_policy trimmed = trimmed ≡ always_text
IsChartValue _ trimmed = contains trimmed open_braces ≡ true

-- A line that sets the field sets it to what the chart wants.
abbrev pub IsSettled : Field → Text → Type 0
IsSettled f line = has_prefix (trim_space line) (key f) ≡ true → IsChartValue f (trim_space line)

-- A text that stands for a line, behind any indentation.
pub IsSettled-indent :
    (f : Field) (l text : Text) → IsSettled f text → IsSettled f (indent_of l ++ text)
IsSettled-indent f l text h = rw trim_space-indent_of h

unset_IsSettled :
    (f : Field) (line : Text)
    → f ≢ image_pull_policy
    → (has_prefix (trim_space line) (key f) && not (contains (trim_space line) open_braces)) ≡ false
    → IsSettled f line
unset_IsSettled image_pull_policy line ne e = absurd (ne refl)
unset_IsSettled namespace line ne e = λ h. ground arith
unset_IsSettled image line ne e = λ h. ground arith
unset_IsSettled replicas line ne e = λ h. ground arith
unset_IsSettled service_account_name line ne e = λ h. ground arith

-- Setting a field settles it.
pub set_field_own :
    (f : Field) (text line : Text)
    → f ≢ image_pull_policy
    → IsSettled f text
    → IsSettled f (set_field (key f) text line)
unfolding set_field
set_field_own f text line ne h =
    elim (Bool-cases
      (has_prefix (trim_space line) (key f) && not (contains (trim_space line) open_braces))) [
        | inl e ↦ rw e (IsSettled-indent f line text h)
        | inr e ↦ rw e (unset_IsSettled f line ne e)
      ]

-- Setting another field leaves it settled.
pub set_field_other :
    (f : Field) (k text line : Text)
    → IsSettled f text
    → IsSettled f line
    → IsSettled f (set_field k text line)
unfolding set_field
set_field_other f k text line h old =
    elim (Bool-cases
      (has_prefix (trim_space line) k && not (contains (trim_space line) open_braces))) [
        | inl e ↦ rw e (IsSettled-indent f line text h)
        | inr e ↦ rw e old
      ]

image_text-IsSettled : (f : Field) → IsSettled f image_text
unfolding has_prefix contains trim_space
image_text-IsSettled namespace h = cc
image_text-IsSettled _ h = cc

always_text-IsSettled : (f : Field) → IsSettled f always_text
unfolding has_prefix contains trim_space
always_text-IsSettled namespace h = cc
always_text-IsSettled _ h = cc

-- The line is settled, if the field is not one that the image replacement sets.
abbrev pub IsSettledBut : Field → Text → Type 0
IsSettledBut image line = Unit
IsSettledBut image_pull_policy line = Unit
IsSettledBut f line = IsSettled f line

kept_IsSettled :
    (f : Field) (line : Text)
    → IsSettledBut f line
    → (has_prefix (trim_space line) yaml_field_image
        && not (contains (trim_space line) open_braces))
      ≡ false
    → has_prefix (trim_space line) yaml_field_image_pull_policy ≡ false
    → IsSettled f line
kept_IsSettled image line h e p = unset_IsSettled image line (cc) e
kept_IsSettled image_pull_policy line h e p = λ q. cc
kept_IsSettled f line h e p = h

-- The replacement of an image settles the image and its pull policy, and leaves the other fields
-- settled.
pub image_lines-IsSettled :
    (f : Field) (line : Text) → IsSettledBut f line → All (IsSettled f) (image_lines line)
unfolding image_lines
image_lines-IsSettled f line h =
    elim (Bool-cases (
      has_prefix (trim_space line) yaml_field_image
      && not (contains (trim_space line) open_braces))) [
        | inl e ↦ rw e (
          IsSettled-indent f line image_text (image_text-IsSettled f),
          (IsSettled-indent f line always_text (always_text-IsSettled f), tt),
        )
        | inr e ↦
            rw e (elim (Bool-cases (has_prefix (trim_space line) yaml_field_image_pull_policy)) [
              | inl p ↦ rw p tt
              | inr p ↦ rw p (kept_IsSettled f line h e p, tt)
            ])
      ]

pull_secret_texts-IsSettled : (f : Field) → All (IsSettled f) pull_secret_texts
unfolding has_prefix contains trim_space
pull_secret_texts-IsSettled namespace = ((λ h. cc), ((λ h. cc), ((λ h. cc), ((λ h. cc), tt))))
pull_secret_texts-IsSettled _ = ((λ h. cc), ((λ h. cc), ((λ h. cc), ((λ h. cc), tt))))

pub below-IsSettled :
    (f : Field) (line : Text) (texts : List Text)
    → All (IsSettled f) texts
    → All (IsSettled f) (below (indent_of line) texts)
below-IsSettled f line = All-map _ _ _ (IsSettled-indent f line)

pub pull_secret_lines-IsSettled :
    (f : Field) (line : Text) → IsSettled f line → All (IsSettled f) (pull_secret_lines line)
unfolding pull_secret_lines
pull_secret_lines-IsSettled f line h =
    elim (Bool-cases (has_prefix (trim_space line) yaml_field_service_account_name)) [
      | inl e ↦ rw e (h, below-IsSettled f line pull_secret_texts (pull_secret_texts-IsSettled f))
      | inr e ↦ rw e (h, tt)
    ]
