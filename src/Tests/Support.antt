-- ===== src/Tests/Support.antt =====
-- `FindProjectRoot` on a small file system.
use opendatahub_ai_gateway_o.Base.{
  ℕ, ◌≤◌, false, List, [], ◌∷◌, ◌++◌, inl, inr, Option, none, some, ◌≡◌, refl, sym, ap, ◌∙◌, arith,
  if◌then◌else◌, Bool-cases, length, All, ok, err,
}
use opendatahub_ai_gateway_o.Text.{Text, codes, equal, has_prefix}
use Prim.Native.String.{String}
use opendatahub_ai_gateway_o.Config.{Entry}
use opendatahub_ai_gateway_o.Text.Equality.{equal_refl}
use opendatahub_ai_gateway_o.Support.Cluster.{
  Lookup, found, not_found, ClusterLib, decode_entry, install_crds, install_entries, install_entry,
  install_decoded, install_crd, by_lookup, wrapped, next,
}
use opendatahub_ai_gateway_o.Support.Installed.{ClusterView, Holds, install_crds-Holds}
use opendatahub_ai_gateway_o.Text.Lines.{has_char}
use opendatahub_ai_gateway_o.Support.{
  ProjectLib, find_project_root, search_root, find_from, has_go_mod,
}
use opendatahub_ai_gateway_o.Support.Root.{DirShortens, EndsAt, find_project_root-EndsAt}

-- The text before the last slash behind its first character.
abbrev before_slash : Text → Text
before_slash [] = []
before_slash (c ∷ s) = let rest = before_slash s in if has_char b'/' s then c ∷ rest else []

abbrev or_root : Text → Text
or_root [] = codes "/"
or_root (c ∷ s) = c ∷ s

abbrev after_slash : List Text → Text
after_slash [] = []
after_slash (p ∷ ps) = codes "/" ++ (p ++ after_slash ps)

abbrev joined : List Text → Text
joined [] = []
joined (p ∷ ps) = p ++ after_slash ps

-- There is one file, `/a/go.mod`, and the working directory is `/a/b`.
abbrev small_project : ProjectLib
small_project = record {
  getwd = ok (codes "/a/b");
  exists = λ p. equal p (codes "/a/go.mod");
  join_path = joined;
  dir_of = λ dir. or_root (before_slash dir);
  read_file = λ p. err (codes "no such file");
  unmarshal_data = λ s. ok [];
}

length-before_slash : (c : ℕ) (s : Text) → length (before_slash (c ∷ s)) ≤ length s
length-before_slash c [] = omega arith
length-before_slash c (d ∷ s) = ground (arith, length-before_slash d s)

small_project-DirShortens : DirShortens small_project
unfolding has_prefix equal
small_project-DirShortens [] abs = absurd (ground (arith, abs))
small_project-DirShortens (c ∷ []) abs = inl (ground (arith, abs))
small_project-DirShortens (c ∷ d ∷ s) abs = elim (Bool-cases (has_char b'/' (d ∷ s))) [
  | inl e ↦ inr (rw e (omega (arith, length-before_slash d s)), rw e (ground (arith, abs)))
  | inr e ↦ inr (rw e (omega arith), rw e refl)
]

find_project_root_found : find_project_root small_project ≡ some (ok (codes "/a"))
unfolding find_project_root search_root find_from has_go_mod equal
find_project_root_found = refl

find_project_root-EndsAt_example :
    (n : ℕ) × EndsAt small_project (codes "/a/b") (find_project_root small_project) n
unfolding has_prefix
find_project_root-EndsAt_example =
    find_project_root-EndsAt small_project (codes "/a/b") small_project-DirShortens refl refl

-- A definition is its name with its content; the cluster holds the latest first.
abbrev content_at : List (Text × Text) → Text → Option Text
content_at [] name = none
content_at ((n, c) ∷ w) name = if equal n name then some c else content_at w name

abbrev look_up : Text → Option Text → Lookup (Text × Text)
look_up name none = not_found
look_up name (some c) = found (name, c)

abbrev small_cluster : ClusterLib
small_cluster = record {
  World = List (Text × Text);
  Crd = Text × Text;
  crd_name = λ c. c.0;
  set_resource_version = λ c e. c;
  decode = λ s. ok (codes "gateways", s);
  get = λ c w. look_up c.0 (content_at w c.0);
  create = λ c w. (c ∷ w, none);
  update = λ c w. (c ∷ w, none);
  create_namespace = λ name w. (w, none);
}

stored : (c : Text × Text) (w v : List (Text × Text)) → c ∷ w ≡ v → content_at v c.0 ≡ some c.1
stored c w v h = ap (λ u. content_at u c.0) (sym h) ∙ rw (equal_refl c.0) refl

others_stay :
    (c : Text × Text) (w v : List (Text × Text)) (name : Text)
    → c ∷ w ≡ v
    → equal c.0 name ≡ false
    → content_at v name ≡ content_at w name
others_stay c w v name h ne = ap (λ u. content_at u name) (sym h) ∙ rw ne refl

abbrev world_of : List (Text × Text) × Option Text → List (Text × Text)
world_of r = r.0

small_cluster_view : ClusterView small_cluster
small_cluster_view = record {
  Content = Text;
  content_of = λ c. c.1;
  held = content_at;
  create_lem = λ c w v h. stored c w v (ap world_of h);
  update_lem = λ c w v h. stored c w v (ap world_of h);
  create_other = λ c w v name h ne. others_stay c w v name (ap world_of h) ne;
  update_other = λ c w v name h ne. others_stay c w v name (ap world_of h) ne;
  version_name = λ c e. refl;
  version_content = λ c e. refl;
}

abbrev file_named : String → String → Entry
file_named name extension = record {
  name = codes name;
  is_dir = false;
  extension = codes extension;
  content = ok (codes "v2");
}

install_crds-Holds_example :
    All
      (Holds small_cluster small_cluster_view
        ((codes "gateways", codes "v2") ∷ (codes "gateways", codes "v1") ∷ []))
      ((codes "gateways", codes "v2") ∷ [])
    × ((name : Text)
        → All (λ (d : Text × Text). equal d.0 name ≡ false) ((codes "gateways", codes "v2") ∷ [])
        → content_at ((codes "gateways", codes "v2") ∷ (codes "gateways", codes "v1") ∷ []) name
          ≡ content_at ((codes "gateways", codes "v1") ∷ []) name)
unfolding small_cluster_view decode_entry equal install_crds install_entries install_entry
    install_decoded install_crd by_lookup wrapped next
install_crds-Holds_example =
    install_crds-Holds small_cluster small_cluster_view (codes "config/crd")
      (file_named "kustomization" "md" ∷ file_named "gateways" "yaml" ∷ [])
      ((codes "gateways", codes "v2") ∷ []) ((codes "gateways", codes "v1") ∷ []) _
      (inl (refl, inr (_, _, refl, refl, refl, tt))) (tt, tt) refl
