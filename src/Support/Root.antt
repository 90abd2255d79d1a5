-- ===== src/Support/Root.antt =====
-- Which directory `FindProjectRoot` finds.
use opendatahub_ai_gateway_o.Base.{
  ℕ, zero, suc, ◌<◌, true, false, ◌⊎◌, inl, inr, Option, some, ◌≡◌, refl, sym, arith, Bool-cases,
  length, Result, ok, err,
}
use mathlib.Core.Path.{subst}
use opendatahub_ai_gateway_o.Text.{Text, codes, equal, has_prefix}
use opendatahub_ai_gateway_o.Support.{
  ProjectLib, has_go_mod, find_from, find_project_root, not_found, search_root,
}

module _ (lib : ProjectLib) where
  open lib use {getwd, dir_of, join_path}

  -- The directory `n` levels above.
  abbrev pub above : ℕ → Text → Text
  above zero dir = dir
  above (suc n) dir = above n (dir_of dir)

  -- `filepath.Dir` of an absolute path is absolute, and shorter, but for the root, which is its own parent.
  abbrev pub DirShortens : Type 0
  DirShortens =
      (dir : Text)
      → has_prefix dir (codes "/") ≡ true
      → (equal (dir_of dir) dir ≡ true)
        ⊎ ((length (dir_of dir) < length dir) × (has_prefix (dir_of dir) (codes "/") ≡ true))

  -- The search ends at the level `n`: no directory below has the file, and the directory is found, or it
  -- has no parent of its own.
  abbrev pub EndsAt : Text → Option (Result Text) → ℕ → Type 0
  EndsAt dir result n =
      ((m : ℕ) → m < n → has_go_mod lib (above m dir) ≡ false)
      × (((has_go_mod lib (above n dir) ≡ true) × (result ≡ some (ok (above n dir))))
          ⊎ ((has_go_mod lib (above n dir) ≡ false)
              × (equal (dir_of (above n dir)) (above n dir) ≡ true)
              × (result ≡ some (err not_found))))

  one_level :
      (dir : Text) (result : Option (Result Text)) (n : ℕ)
      → has_go_mod lib dir ≡ false
      → EndsAt (dir_of dir) result n
      → EndsAt dir result (suc n)
  one_level dir result n h (none_below, ended) = (below_top, ended)
    where
      below_top : (m : ℕ) → m < suc n → has_go_mod lib (above m dir) ≡ false
      below_top zero lt = h
      below_top (suc m) lt = none_below m (omega arith)

  find_from-EndsAt :
      (fuel : ℕ) (dir : Text)
      → DirShortens
      → has_prefix dir (codes "/") ≡ true
      → length dir < fuel
      → (n : ℕ) × EndsAt dir (find_from lib fuel dir) n
  unfolding find_from
  find_from-EndsAt zero dir law abs enough = absurd (omega arith)
  find_from-EndsAt (suc fuel) dir law abs enough = elim (Bool-cases (has_go_mod lib dir)) [
    | inl e ↦ (0, ((λ m lt. absurd (omega arith)), inl (e, rw e refl)))
    | inr e ↦ elim (Bool-cases (equal (dir_of dir) dir)) [
      | inl p ↦ (0, ((λ m lt. absurd (omega arith)), inr (e, p, rw (e, p) refl)))
      | inr p ↦ elim (law dir abs) [
        | inl same ↦ absurd (ground (arith, p, same))
        | inr (shorter, abs') ↦
            let (n, ended) =
              find_from-EndsAt fuel (dir_of dir) law abs' (omega (arith, shorter, enough)) in
            (suc n, rw (e, p) (one_level dir (find_from lib fuel (dir_of dir)) n e ended))
      ]
    ]
  ]

  -- From an absolute working directory the search ends, at the nearest directory, itself or above, that
  -- has a `go.mod`, or with an error at the root of the file system, if there is none.
  pub find_project_root-EndsAt :
      (dir : Text)
      → DirShortens
      → getwd ≡ ok dir
      → has_prefix dir (codes "/") ≡ true
      → (n : ℕ) × EndsAt dir (find_project_root lib) n
  unfolding find_project_root search_root
  find_project_root-EndsAt dir law here abs =
      subst (λ r. (n : ℕ) × EndsAt dir (search_root lib r) n) (sym here)
        (find_from-EndsAt (suc (length dir)) dir law abs (omega arith))
