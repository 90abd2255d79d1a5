-- ===== src/Chartgen/Run/Steps.antt =====
-- The steps of `run` on files: what is documented of them, and what a step keeps.
use opendatahub_ai_gateway_o.Base.{
  false, List, [], ◌∷◌, Option, none, some, ◌≡◌, refl, sym, ap, ◌∙◌, Result, ok, err, none-ne-some,
}
use opendatahub_ai_gateway_o.Chartgen.Run.{
  in_order, FileLib, Outcome, continue, during, with_content,
}
use opendatahub_ai_gateway_o.Text.{Text, equal}

-- What is documented of the file system, by the content of its files: a successful write stores the
-- content, a write, failed or not, and the creation of a directory touch no other file, and a file that
-- can be read exists.
pub record FileView (files : FileLib) : Type 0 where
  pub read : files.World → Text → Option Text
  pub write_file_lem :
      (p c : Text) (w : files.World)
      → (files.write_file p c w).1 ≡ none
      → read (files.write_file p c w).0 p ≡ some c
  pub write_file_other :
      (p q c : Text) (w : files.World)
      → equal p q ≡ false
      → read (files.write_file p c w).0 q ≡ read w q
  pub mkdir_all_lem : (p q : Text) (w : files.World) → read (files.mkdir_all p w).0 q ≡ read w q
  pub not_exist_lem :
      (p : Text) (w : files.World) {c : Text} → read w p ≡ some c → files.not_exist p w ≡ false

module _ (files : FileLib) (view : FileView files) where
  open view use {read}

  pub during_world : (what : Text) (r : Outcome files) → (during files what r).0 ≡ r.0
  unfolding during
  during_world what (w, none) = refl
  during_world what (w, some e) = refl

  pub during-none :
      (what : Text) (r : Outcome files) {w : files.World}
      → during files what r ≡ (w, none)
      → r ≡ (w, none)
  unfolding during
  during-none what (w, none) h = h
  during-none what (w, some e) h = absurd (none-ne-some (sym (ap (λ (r : Outcome files). r.1) h)))

  pub continue-none :
      (r : Outcome files) (step : files.World → Outcome files) {w : files.World}
      → continue files r step ≡ (w, none)
      → (r ≡ (r.0, none)) × (step r.0 ≡ (w, none))
  unfolding continue
  continue-none (v, none) step h = (refl, h)
  continue-none (v, some e) step h = absurd (none-ne-some (sym (ap (λ (r : Outcome files). r.1) h)))

  -- What one step keeps and the next keeps both keep.
  pub continue-keeps :
      (P : files.World → Type 0) (r : Outcome files) (step : files.World → Outcome files)
      → P r.0
      → ((w : files.World) → P w → P (step w).0)
      → P (continue files r step).0
  unfolding continue
  continue-keeps P (v, none) step h k = k v h
  continue-keeps P (v, some e) step h k = h

  -- A file has this content.
  abbrev pub Has : Text → Option Text → files.World → Type 0
  Has q c w = read w q ≡ c

  pub write-Has :
      (p q c : Text) (d : Option Text) (w : files.World)
      → equal p q ≡ false
      → Has q d w
      → Has q d (files.write_file p c w).0
  write-Has p q c d w ne h = view.write_file_other p q c w ne ∙ h

  pub content-Has :
      (r : Result Text) (step : Text → files.World → Outcome files) (q : Text) (d : Option Text)
      → ((c : Text) (w : files.World) → Has q d w → Has q d (step c w).0)
      → (w : files.World) → Has q d w
      → Has q d (with_content files r step w).0
  unfolding with_content
  content-Has (err e) step q d k w h = h
  content-Has (ok c) step q d k w h = k c w h

  pub during-Has :
      (what q : Text) (d : Option Text) (r : Outcome files)
      → Has q d r.0
      → Has q d (during files what r).0
  during-Has what q d r h = ap (λ u. read u q) (during_world what r) ∙ h

  pub in_order-none :
      (step : files.World → Outcome files) (steps : List (files.World → Outcome files))
      (w : files.World) {v : files.World}
      → in_order files (step ∷ steps) w ≡ (v, none)
      → in_order files steps (step w).0 ≡ (v, none)
  unfolding in_order
  in_order-none step steps w h = (continue-none (step w) (in_order files steps) h).1

  pub in_order-last :
      (step : files.World → Outcome files) (w : files.World) {v : files.World}
      → in_order files (step ∷ []) w ≡ (v, none)
      → step w ≡ (v, none)
  unfolding in_order
  in_order-last step w h =
      let (ran, end) = continue-none (step w) (in_order files []) h in ran ∙ end

  pub in_order-first :
      (step : files.World → Outcome files) (steps : List (files.World → Outcome files))
      (w : files.World) {v : files.World}
      → in_order files (step ∷ steps) w ≡ (v, none)
      → step w ≡ ((step w).0, none)
  unfolding in_order
  in_order-first step steps w h = (continue-none (step w) (in_order files steps) h).0

  -- What a successful write stores.
  pub during-write :
      (what p c : Text) (w : files.World) {v : files.World}
      → during files what (files.write_file p c w) ≡ (v, none)
      → Has p (some c) v
  during-write what p c w h =
      let wrote = during-none what (files.write_file p c w) h in
      ap (λ (r : Outcome files). read r.0 p) (sym wrote)
      ∙ view.write_file_lem p c w (ap (λ (r : Outcome files). r.1) wrote)

  pub during-with_content :
      (what p : Text) (r : Result Text) (w : files.World) {v : files.World}
      → during files what (with_content files r (files.write_file p) w) ≡ (v, none)
      → (c : Text) × (r ≡ ok c) × Has p (some c) v
  unfolding with_content during
  during-with_content what p (err e) w h =
      absurd (none-ne-some (sym (ap (λ (r : Outcome files). r.1) h)))
  during-with_content what p (ok c) w h = (c, refl, during-write what p c w h)
