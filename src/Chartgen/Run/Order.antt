-- ===== src/Chartgen/Run/Order.antt =====
-- The order in which `run` visits the groups does not show in the chart.
use mathlib.Core.List.Permᴰ
use mathlib.Core.List.{Permᴰ}
use mathlib.Core.List.Permᴰ.{nil, cons, swap, trans}
use mathlib.Core.Path.{subst}
use opendatahub_ai_gateway_o.Base.{
  true, false, List, [], ◌∷◌, inl, inr, Option, none, some, ◌≡◌, refl, sym, ap, ◌∙◌, arith,
  Bool-cases, All, ok, ok-injective, some-injective, none-ne-some,
}
use opendatahub_ai_gateway_o.Chartgen.Run.{
  FileLib, Outcome, template_file, write_templates, write_chart, write_extracted, run, run_decoded,
}
use opendatahub_ai_gateway_o.Chartgen.Groups.{Groups, Chunk, group_by_gvk, decode_resources}
use opendatahub_ai_gateway_o.Chartgen.Libraries.{Libraries, Gvk}
use opendatahub_ai_gateway_o.Chartgen.Object.{Fields}
use opendatahub_ai_gateway_o.Chartgen.Values.{Values, ValueLib, extract_defaults}
use opendatahub_ai_gateway_o.Chartgen.Run.Steps.{FileView, in_order-last, in_order-none}
use opendatahub_ai_gateway_o.Chartgen.Run.Keeps.{NotTemplate, write_templates-Has}
use opendatahub_ai_gateway_o.Chartgen.Run.Written.{NoClash, Written, write_templates-Written}
use opendatahub_ai_gateway_o.Text.Equality.{equal_iff, not_equal, equal_refl}
use opendatahub_ai_gateway_o.Text.{Text, equal}

not_equal_sym : (s t : Text) → equal s t ≡ false → equal t s ≡ false
not_equal_sym s t h =
    not_equal t s (λ e. ground (arith, equal_refl t, ap (equal s) e, h, equal_refl s))

module _ {ℓ κ} {A : Type ℓ} (P : A → Type κ) where
  pub All-perm : {xs ys : List A} → Permᴰ xs ys → All P xs → All P ys
  All-perm nil a = a
  All-perm (cons e p) (h, a) = (subst P e h, All-perm p a)
  All-perm (swap e d) (h, (k, a)) = (subst P d k, (subst P e h, a))
  All-perm (trans p q) a = All-perm q (All-perm p a)

module _ (files : FileLib) (view : FileView files) (lib : Libraries) (values_lib : ValueLib)
    (output_dir : Text) where
  open view use {read}

  abbrev file_of : Gvk × List Fields → Text
  file_of x = template_file files output_dir x.0

  -- Where both worlds hold the templates and agree elsewhere, they agree.
  pub agree :
      (q : Text) (v v' : files.World) (gs : Groups)
      → All (λ (x : Gvk × List Fields). equal (file_of x) q ≡ true → read v q ≡ read v' q) gs
      → (NotTemplate files view lib values_lib output_dir q gs → read v q ≡ read v' q)
      → read v q ≡ read v' q
  agree q v v' [] a h = h tt
  agree q v v' (x ∷ gs) (k, a) h = elim (Bool-cases (equal (file_of x) q)) [
    | inl e ↦ k e
    | inr e ↦ agree q v v' gs a (λ n. h (e, n))
  ]

  same_content :
      (q : Text) (v v' : files.World) (x : Gvk × List Fields)
      → Written files view lib values_lib output_dir v x
      → Written files view lib values_lib output_dir v' x
      → equal (file_of x) q ≡ true
      → read v q ≡ read v' q
  same_content q v v' (g, rs) (c, made, held) (d, made', held') e =
      let path : file_of (g, rs) ≡ q = (equal_iff (file_of (g, rs)) q).0 e in
      let same : c ≡ d = ok-injective (sym made ∙ made') in
      sym (ap (read v) path) ∙ held ∙ ap some same ∙ sym held' ∙ ap (read v') path

  pub same_contents :
      (q : Text) (v v' : files.World) (gs : Groups)
      → All (Written files view lib values_lib output_dir v) gs
      → All (Written files view lib values_lib output_dir v') gs
      → All (λ (x : Gvk × List Fields). equal (file_of x) q ≡ true → read v q ≡ read v' q) gs
  same_contents q v v' [] a b = tt
  same_contents q v v' (x ∷ gs) (h, a) (k, b) =
      (same_content q v v' x h k, same_contents q v v' gs a b)

  swapped :
      (x y : Gvk × List Fields) (gs : Groups)
      → NoClash files view lib values_lib output_dir (x ∷ y ∷ gs)
      → NoClash files view lib values_lib output_dir (y ∷ x ∷ gs)
  swapped x y gs ((h, nx), (ny, n)) = ((not_equal_sym (file_of y) (file_of x) h, ny), (nx, n))

  pub NoClash-perm :
      {gs hs : Groups}
      → Permᴰ gs hs
      → NoClash files view lib values_lib output_dir gs
      → NoClash files view lib values_lib output_dir hs
  NoClash-perm nil n = n
  NoClash-perm (cons {l₁ = gs} e p) (h, n) = (
    All-perm _ p (subst (λ x. NotTemplate files view lib values_lib output_dir (file_of x) gs) e h),
    NoClash-perm p n,
  )
  NoClash-perm (swap {a} {b} {a'} {b'} {l} e d) n =
      subst (λ x. NoClash files view lib values_lib output_dir (x ∷ b' ∷ l)) d
        (subst (λ y. NoClash files view lib values_lib output_dir (b ∷ y ∷ l)) e (swapped a b l n))
  NoClash-perm (trans p q) n = NoClash-perm q (NoClash-perm p n)

  outside :
      (q : Text) (gs : Groups) (w v : files.World)
      → write_templates files lib values_lib output_dir gs w ≡ (v, none)
      → NotTemplate files view lib values_lib output_dir q gs
      → read v q ≡ read w q
  outside q gs w v ran n =
      ap (λ (r : Outcome files). read r.0 q) (sym ran)
      ∙ write_templates-Has files view lib values_lib output_dir gs q (read w q) n w refl

  write_templates_any_order :
      (q : Text) (gs hs : Groups) (w v v' : files.World)
      → Permᴰ gs hs
      → NoClash files view lib values_lib output_dir gs
      → write_templates files lib values_lib output_dir gs w ≡ (v, none)
      → write_templates files lib values_lib output_dir hs w ≡ (v', none)
      → read v q ≡ read v' q
  write_templates_any_order q gs hs w v v' p n ran ran' =
      let first = write_templates-Written files view lib values_lib output_dir gs w v n ran in
      let second =
        write_templates-Written files view lib values_lib output_dir hs w v' (NoClash-perm p n)
          ran' in
      agree q v v' gs (same_contents q v v' gs first (All-perm _ (Permᴰ.symm p) second))
        (λ m. outside q gs w v ran m ∙ sym (outside q hs w v' ran' (All-perm _ p m)))

  last_step :
      (name version : Text) (values : Values) (w : files.World)
      → (u : files.World) × ((hs : Groups) (v : files.World)
          → write_chart files lib values_lib output_dir name version values hs w ≡ (v, none)
          → write_templates files lib values_lib output_dir hs u ≡ (v, none))
  unfolding write_chart
  last_step name version values w = (
    _,
    λ hs v ran. in_order-last files view _ _ (
        in_order-none files view _ _ _ (
          in_order-none files view _ _ _ (
            in_order-none files view _ _ _
              (in_order-none files view _ _ _ (in_order-none files view _ _ w ran))))),
  )

  extracted_any_order :
      (name version q : Text) (gs hs : Groups) (values : Option Values) (w v v' : files.World)
      → Permᴰ gs hs
      → NoClash files view lib values_lib output_dir gs
      → write_extracted files lib values_lib output_dir name version gs values w ≡ some (v, none)
      → write_extracted files lib values_lib output_dir name version hs values w ≡ some (v', none)
      → read v q ≡ read v' q
  unfolding write_extracted
  extracted_any_order name version q gs hs none w v v' p n r r' = absurd (none-ne-some r)
  extracted_any_order name version q gs hs (some values) w v v' p n r r' =
      let (u, last) = last_step name version values w in
      write_templates_any_order q gs hs u v v' p n (last gs v (some-injective r))
        (last hs v' (some-injective r'))

  -- On a file system that behaves as documented: two runs on the same resources that visit the groups in
  -- different orders, as the loop over a Go map may, and that both succeed, leave the same content in
  -- every file, if no two groups have the same file.
  pub run_any_order :
      (iterate iterate' : Groups → Groups) (chunks : List Chunk) (name version q : Text)
      (w v v' : files.World) {resources : List Fields}
      → decode_resources lib chunks ≡ ok resources
      → Permᴰ (iterate (group_by_gvk lib resources)) (iterate' (group_by_gvk lib resources))
      → NoClash files view lib values_lib output_dir (iterate (group_by_gvk lib resources))
      → run files lib values_lib iterate chunks output_dir name version w ≡ some (v, none)
      → run files lib values_lib iterate' chunks output_dir name version w ≡ some (v', none)
      → read v q ≡ read v' q
  unfolding run run_decoded
  run_any_order iterate iterate' chunks name version q w v v' {resources} decoded p n ran ran' =
      extracted_any_order name version q (iterate (group_by_gvk lib resources))
        (iterate' (group_by_gvk lib resources)) (extract_defaults values_lib lib resources) w v v' p
        n (rw decoded at ran) (rw decoded at ran')
