-- ===== src/Api/Semver/Laws.antt =====
-- What `SemVer` guarantees, with the packages' documented behaviour as hypothesis.
use opendatahub_ai_gateway_o.Base.{
  true, false, [], ◌↔◌, ◌⊎◌, inl, inr, ◌≡◌, refl, sym, arith, Result, ok, err, ok-injective,
  err-ne-ok,
}
use opendatahub_ai_gateway_o.Api.Semver.{
  SemverLib, IsSemverLib, SemVer, is_zero, new_sem_ver, sem_ver_gt, marshal_json, unmarshal_json,
  parse, gt_parsed,
}
use opendatahub_ai_gateway_o.Text.{Text}

-- A canonical version: what it is parsed to is printed as it.
abbrev pub IsCanonical : (lib : SemverLib) → SemVer → Type 0
IsCanonical lib s = (v : lib.Version) × (lib.parse_tolerant s ≡ ok v) × (lib.print v ≡ s)

module _ (lib : SemverLib) (laws : IsSemverLib lib) where
  -- With a semver that behaves as documented: a version that `NewSemVer` returns is set and
  -- canonical, and `NewSemVer` returns it again unchanged.
  pub new_sem_ver-IsCanonical :
      (s : Text) {v : SemVer}
      → new_sem_ver lib s ≡ ok v
      → (is_zero v ≡ false) × IsCanonical lib v × (new_sem_ver lib v ≡ ok v)
  unfolding new_sem_ver is_zero
  new_sem_ver-IsCanonical s {v} h = go (lib.parse_tolerant s) refl
    where
      go :
          (r : Result lib.Version)
          → lib.parse_tolerant s ≡ r
          → (is_zero v ≡ false) × IsCanonical lib v × (new_sem_ver lib v ≡ ok v)
      go (err e) p = absurd (err-ne-ok (rw p at h))
      go (ok w) p =
          let q : lib.print w ≡ v = ok-injective (rw p at h) in
          rw (← q)
            (laws.print_not_empty w, (w, laws.parse-print s p, refl), rw (laws.parse-print s p))

  -- With a semver and a string codec that behave as documented: what `MarshalJSON` writes for an
  -- unset or a canonical version, `UnmarshalJSON` reads back.
  pub unmarshal_json-marshal_json :
      (v : SemVer) {json : Text}
      → (v ≡ []) ⊎ IsCanonical lib v
      → marshal_json lib v ≡ ok json
      → unmarshal_json lib json ≡ ok v
  unfolding marshal_json unmarshal_json
  unmarshal_json-marshal_json v (inl unset) m = rw (← ok-injective m, laws.unquote-quote v, unset)
  unmarshal_json-marshal_json v (inr (w, parsed, printed)) m =
      rw (← ok-injective m, laws.unquote-quote v, ← printed, laws.print_not_empty w)
        (rw (printed, parsed, printed))

  gt_parsed_irrefl : (b : Result lib.Version) → gt_parsed lib b b ≡ false
  unfolding gt_parsed
  gt_parsed_irrefl (ok x) = laws.gt_irrefl x
  gt_parsed_irrefl (err e) = refl

  gt_parsed_trans :
      (a b c : Result lib.Version)
      → gt_parsed lib a b ≡ true
      → gt_parsed lib b c ≡ true
      → gt_parsed lib a c ≡ true
  unfolding gt_parsed
  gt_parsed_trans (ok x) (ok y) (ok z) h k = laws.gt_trans x y z h k
  gt_parsed_trans _ _ _ h k = ground arith

  gt_parsed_err :
      (a b : Result lib.Version) {e : Text}
      → a ≡ err e
      → (gt_parsed lib a b ≡ false) × (gt_parsed lib b a ≡ false)
  unfolding gt_parsed
  gt_parsed_err (err e) (ok y) h = (refl, refl)
  gt_parsed_err (err e) (err d) h = (refl, refl)
  gt_parsed_err (ok x) b h = absurd (err-ne-ok (sym h))

  pub sem_ver_gt_irrefl : (v : SemVer) → sem_ver_gt lib v v ≡ false
  unfolding sem_ver_gt
  sem_ver_gt_irrefl v = gt_parsed_irrefl (parse lib v)

  -- Where semver's order is strict, as documented, `GT` is transitive, and no version is greater
  -- than itself or than one that is greater.
  pub sem_ver_gt_strict :
      (u v w : SemVer)
      → sem_ver_gt lib u v ≡ true
      → sem_ver_gt lib v w ≡ true
      → (sem_ver_gt lib u w ≡ true) × (sem_ver_gt lib w u ≡ false) × (sem_ver_gt lib u u ≡ false)
  unfolding sem_ver_gt
  sem_ver_gt_strict u v w h k =
      let a = parse lib u in
      let b = parse lib v in
      let c = parse lib w in
      let up = gt_parsed_trans a b c h k in
      (up, ground (arith, gt_parsed_trans a c a up, gt_parsed_irrefl a), gt_parsed_irrefl a)

module _ (lib : SemverLib) where
  gt_parsed_iff :
      (a b : Result lib.Version)
      → (gt_parsed lib a b ≡ true)
        ↔ ((x : lib.Version) × (y : lib.Version) × (a ≡ ok x) × (b ≡ ok y) × (lib.gt x y ≡ true))
  unfolding gt_parsed
  gt_parsed_iff (ok x) (ok y) =
      ((λ h. (x, y, refl, refl, h)), λ (u, v, p, q, h). rw (ok-injective p, ok-injective q) h)
  gt_parsed_iff (err e) b = ((λ h. absurd (ground arith)), λ (u, v, p, q, h). absurd (err-ne-ok p))
  gt_parsed_iff (ok x) (err e) =
      ((λ h. absurd (ground arith)), λ (u, v, p, q, h). absurd (err-ne-ok q))

  -- `GT` holds exactly if both versions can be parsed and the first is parsed to the greater one.
  pub sem_ver_gt_iff :
      (u v : SemVer)
      → (sem_ver_gt lib u v ≡ true) ↔ (
          (x : lib.Version) × (y : lib.Version) × (parse lib u ≡ ok x)
          × (parse lib v ≡ ok y)
          × (lib.gt x y ≡ true))
  unfolding sem_ver_gt
  sem_ver_gt_iff u v = gt_parsed_iff (parse lib u) (parse lib v)
