-- ===== src/Support/Installed.antt =====
-- What `InstallCRDs` leaves in the cluster.
use opendatahub_ai_gateway_o.Base.{
  true, false, List, [], ◌∷◌, ◌++◌, ◌⊎◌, inl, inr, Option, none, some, ◌≡◌, refl, sym, ap, ◌∙◌, All,
  ok, none-ne-some,
}
use mathlib.Core.Path.{subst}
use opendatahub_ai_gateway_o.Text.{Text, codes, equal}
use opendatahub_ai_gateway_o.Config.{Entry}
use opendatahub_ai_gateway_o.Support.Cluster.{
  Lookup, found, not_found, failed, ClusterLib, wrapped, by_lookup, install_crd, decode_entry,
  is_skipped, install_decoded, install_entry, next, install_entries, install_crds,
}

-- What the cluster holds under a definition's name, and the client's documented behaviour: a creation or an
-- update that succeeds stores the object's content under its name, and leaves the other names.
pub record ClusterView (lib : ClusterLib) : Type 1 where
  pub Content : Type 0
  pub content_of : lib.Crd → Content
  pub held : lib.World → Text → Option Content
  pub create_lem :
      (c : lib.Crd) (w v : lib.World)
      → lib.create c w ≡ (v, none)
      → held v (lib.crd_name c) ≡ some (content_of c)
  pub update_lem :
      (c : lib.Crd) (w v : lib.World)
      → lib.update c w ≡ (v, none)
      → held v (lib.crd_name c) ≡ some (content_of c)
  pub create_other :
      (c : lib.Crd) (w v : lib.World) (name : Text)
      → lib.create c w ≡ (v, none)
      → equal (lib.crd_name c) name ≡ false
      → held v name ≡ held w name
  pub update_other :
      (c : lib.Crd) (w v : lib.World) (name : Text)
      → lib.update c w ≡ (v, none)
      → equal (lib.crd_name c) name ≡ false
      → held v name ≡ held w name
  -- Another resource version changes neither the name nor the content.
  pub version_name : (c e : lib.Crd) → lib.crd_name (lib.set_resource_version c e) ≡ lib.crd_name c
  pub version_content : (c e : lib.Crd) → content_of (lib.set_resource_version c e) ≡ content_of c

module _ (lib : ClusterLib) (view : ClusterView lib) where
  open lib use {World, Crd, crd_name, set_resource_version}
  open view use {content_of, held}

  abbrev pub Holds : World → Crd → Type 0
  Holds v c = held v (crd_name c) ≡ some (content_of c)

  wrapped-none :
      (what : Text) (r : World × Option Text) {v : World}
      → wrapped lib what r ≡ (v, none)
      → r ≡ (v, none)
  unfolding wrapped
  wrapped-none what (w, none) h = h
  wrapped-none what (w, some e) h =
      absurd (none-ne-some (sym (ap (λ (r : World × Option Text). r.1) h)))

  next-none :
      (r : World × Option Text) (rest : World → World × Option Text) {v : World}
      → next lib r rest ≡ (v, none)
      → (u : World) × (r ≡ (u, none)) × (rest u ≡ (v, none))
  unfolding next
  next-none (w, none) rest h = (w, refl, h)
  next-none (w, some e) rest h =
      absurd (none-ne-some (sym (ap (λ (r : World × Option Text). r.1) h)))

  by_lookup-Holds :
      (c : Crd) (w v : World) (l : Lookup Crd)
      → by_lookup lib c w l ≡ (v, none)
      → Holds v c × ((name : Text) → equal (crd_name c) name ≡ false → held v name ≡ held w name)
  unfolding by_lookup
  by_lookup-Holds c w v (found e) h =
      let updated =
        wrapped-none (codes "updating CRD " ++ crd_name c) (lib.update (set_resource_version c e) w)
          h in
      (
        ap (held v) (sym (view.version_name c e))
            ∙ view.update_lem _ w v updated
            ∙ ap some (view.version_content c e),
        λ name n. view.update_other _ w v name updated (rw view.version_name n),
      )
  by_lookup-Holds c w v not_found h =
      let created = wrapped-none (codes "creating CRD " ++ crd_name c) (lib.create c w) h in
      (view.create_lem c w v created, λ name. view.create_other c w v name created)
  by_lookup-Holds c w v (failed e) h =
      absurd (none-ne-some (sym (ap (λ (r : World × Option Text). r.1) h)))

  -- These definitions stand in the directory's files that are not skipped, one in each.
  abbrev pub Decoded : List Entry → List Crd → Type 0
  Decoded [] [] = Unit
  Decoded [] (c ∷ crds) = ⊥
  Decoded (entry ∷ entries) crds =
      ((is_skipped lib entry ≡ true) × Decoded entries crds)
      ⊎ ((c : Crd) × (rest : List Crd) × (crds ≡ c ∷ rest)
          × (is_skipped lib entry ≡ false)
          × (decode_entry lib entry ≡ ok c)
          × Decoded entries rest)

  -- No two of the definitions have the same name.
  abbrev pub OwnNames : List Crd → Type 0
  OwnNames [] = Unit
  OwnNames (c ∷ crds) = All (λ d. equal (crd_name d) (crd_name c) ≡ false) crds × OwnNames crds

  entries-Holds :
      (entries : List Entry) (crds : List Crd) (w v : World)
      → Decoded entries crds
      → OwnNames crds
      → install_entries lib entries w ≡ (v, none)
      → All (Holds v) crds
        × ((name : Text)
            → All (λ d. equal (crd_name d) name ≡ false) crds
            → held v name ≡ held w name)
  unfolding install_entries install_entry install_decoded install_crd
  entries-Holds [] [] w v d o h =
      (tt, λ name a. ap (λ (r : World × Option Text). held r.0 name) (sym h))
  entries-Holds [] (c ∷ crds) w v d o h = absurd d
  entries-Holds (entry ∷ entries) crds w v (inl (skipped, d)) o h =
      entries-Holds entries crds w v d o (rw skipped at h)
  entries-Holds (entry ∷ entries) crds w v (inr (c, rest, e, read, decoded, d)) o h =
      let (u, first, others) = next-none _ _ (rw (read, decoded) at h) in
      let (own, kept) = by_lookup-Holds c w u (lib.get c w) first in
      let (apart, o') = subst OwnNames e o in
      let (held_rest, kept_rest) = entries-Holds entries rest u v d o' others in
      (
        subst (All (Holds v)) (sym e) (kept_rest (crd_name c) apart ∙ own, held_rest),
        λ name a.
            let (n, more) = subst (All (λ x. equal (crd_name x) name ≡ false)) e a in
            kept_rest name more ∙ kept name n,
      )

  -- Where the client does what it is documented to do, the definitions in the directory's `.yaml` files
  -- have names of their own, and `InstallCRDs` returns no error: the cluster holds each of them as its
  -- file says, created or updated, and holds under every other name what it held before.
  pub install_crds-Holds :
      (crd_dir : Text) (entries : List Entry) (crds : List Crd) (w v : World)
      → Decoded entries crds
      → OwnNames crds
      → install_crds lib crd_dir (ok entries) w ≡ (v, none)
      → All (Holds v) crds
        × ((name : Text)
            → All (λ d. equal (crd_name d) name ≡ false) crds
            → held v name ≡ held w name)
  unfolding install_crds
  install_crds-Holds crd_dir entries crds w v d o h = entries-Holds entries crds w v d o h
