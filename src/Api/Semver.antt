-- ===== src/Api/Semver.antt =====
-- `SemVer` of api/components/v1alpha1/semver.go. Versions are parsed, compared and printed by the package
-- blang/semver and JSON strings are encoded by encoding/json: both are parameters.
pub mod Laws
use opendatahub_ai_gateway_o.Base.{
  ℕ, zero, suc, ◌+◌, ◌-◌, ◌*◌, ◌/◌, ◌%◌, ◌≤◌, ◌<◌, Bool, true, false, not, ◌&&◌, ◌||◌, List, [],
  ◌∷◌, ◌++◌, map, append-nil, append_assoc, ◌≢◌, ◌↔◌, ◌⊎◌, inl, inr, Option, none, some, ◌≡◌, refl,
  sym, ap, ◌∙◌, arith, ltb, leb, ◌==◌, if◌then◌else◌, ==_iff, Bool-cases, &&-true, length, take,
  length-append, take-append_length, sub_length, All, All-append, All-intro, All-map, All-flat_map,
  Result, ok, err, ◌>>=◌, map_err, >>=-eq-ok,
}
use opendatahub_ai_gateway_o.Text.{Text, codes, is_empty}

-- What the code calls, and what those packages document of it.
pub record SemverLib : Type 1 where
  pub Version : Type 0
  pub parse_tolerant : Text → Result Version
  pub print : Version → Text
  pub gt : Version → Version → Bool
  -- `%q` of fmt, for the error's text.
  pub go_quote : Text → Text
  pub quote : Text → Text
  pub unquote : Text → Result Text

-- The documented behaviour that the theorems name: a parsed version is printed as a text that
-- is not empty and is read back, the order is strict, and a quoted string is read back.
pub record IsSemverLib (lib : SemverLib) : Type 0 where
  pub parse-print :
      (s : Text) {v : lib.Version}
      → lib.parse_tolerant s ≡ ok v
      → lib.parse_tolerant (lib.print v) ≡ ok v
  pub print_not_empty : (v : lib.Version) → is_empty (lib.print v) ≡ false
  pub gt_irrefl : (v : lib.Version) → lib.gt v v ≡ false
  pub gt_trans : (u v w : lib.Version) → lib.gt u v ≡ true → lib.gt v w ≡ true → lib.gt u w ≡ true
  pub unquote-quote : (s : Text) → lib.unquote (lib.quote s) ≡ ok s

-- `type SemVer string`
abbrev pub SemVer : Type 0
SemVer = Text

unfoldable pub is_zero : SemVer → Bool
is_zero v = is_empty v

module _ (lib : SemverLib) where
  open lib use {Version, parse_tolerant, print, gt, go_quote, quote, unquote}

  invalid : Text → Text → Text
  invalid s e = codes "invalid semver " ++ (go_quote s ++ (codes ": " ++ e))

  unfoldable pub new_sem_ver : Text → Result SemVer
  unfolding invalid
  new_sem_ver s = do parsed ← map_err (invalid s) (parse_tolerant s); ok (print parsed)

  unfoldable pub parse : SemVer → Result Version
  parse v = parse_tolerant v

  -- `GT` on what the two versions are parsed to: false if either is an error.
  gt_parsed : Result Version → Result Version → Bool
  gt_parsed (ok cv) (ok ov) = gt cv ov
  gt_parsed _ _ = false

  -- `v.GT(other)`
  unfoldable pub sem_ver_gt : SemVer → SemVer → Bool
  unfolding parse gt_parsed
  sem_ver_gt v other = gt_parsed (parse v) (parse other)

  unfoldable pub marshal_json : SemVer → Result Text
  marshal_json v = ok (quote v)

  -- The new value of `*v`; on an error it keeps its value.
  unfoldable pub unmarshal_json : Text → Result SemVer
  unfolding invalid
  unmarshal_json json = do
    s ← unquote json
    if is_empty s
        then ok []
        else do parsed ← map_err (invalid s) (parse_tolerant s); ok (print parsed)
