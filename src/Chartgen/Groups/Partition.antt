-- ===== src/Chartgen/Groups/Partition.antt =====
-- The groups partition the resources.
use opendatahub_ai_gateway_o.Base.{
  true, false, List, [], ◌∷◌, ◌++◌, append-nil, append_assoc, ◌↔◌, inl, inr, ◌≡◌, refl, ap, ◌∙◌,
  arith, if◌then◌else◌, Bool-cases,
}
use opendatahub_ai_gateway_o.Chartgen.Groups.{Groups, add_to_group, group_loop, group_by_gvk}
use opendatahub_ai_gateway_o.Chartgen.Libraries.{Libraries, Gvk, same_gvk}
use opendatahub_ai_gateway_o.Chartgen.Object.{Fields}
use opendatahub_ai_gateway_o.Text.Equality.{equal_iff}

pub same_gvk_iff : (a b : Gvk) → (same_gvk a b ≡ true) ↔ (a ≡ b)
unfolding same_gvk
same_gvk_iff a b =
    ground
      (arith, equal_iff a.group b.group, equal_iff a.version b.version, equal_iff a.kind b.kind)

-- `groups[key]`; a missing key has no resources.
abbrev pub lookup_group : Gvk → Groups → List Fields
lookup_group key [] = []
lookup_group key ((k, rs) ∷ groups) = if same_gvk k key then rs else lookup_group key groups

lookup-add :
    (key k : Gvk) (r : Fields) (groups : Groups)
    → lookup_group key (add_to_group k r groups)
      ≡ (if same_gvk k key then lookup_group key groups ++ r ∷ [] else lookup_group key groups)
unfolding add_to_group
lookup-add key k r [] = ground arith
lookup-add key k r ((j, rs) ∷ groups) =
    ground
      (arith, same_gvk_iff k key, same_gvk_iff j key, same_gvk_iff j k, lookup-add key k r groups)

-- The resources of one kind, in their order.
abbrev pub of_kind : Libraries → Gvk → List Fields → List Fields
of_kind lib key [] = []
of_kind lib key (r ∷ rs) =
    if same_gvk (lib.group_version_kind r) key then r ∷ of_kind lib key rs else of_kind lib key rs

other_kind :
    (lib : Libraries) (key k : Gvk)
    → same_gvk key lib.namespace ≡ false
    → same_gvk k lib.namespace ≡ true
    → same_gvk k key ≡ false
other_kind lib key k h e =
    ground (arith, same_gvk_iff k lib.namespace, same_gvk_iff k key, same_gvk_iff key lib.namespace)

lookup-group_loop :
    (lib : Libraries) (key : Gvk) (rs : List Fields) (groups : Groups)
    → same_gvk key lib.namespace ≡ false
    → lookup_group key (group_loop lib rs groups) ≡ lookup_group key groups ++ of_kind lib key rs
unfolding group_loop
lookup-group_loop lib key [] groups h = rw append-nil
lookup-group_loop lib key (r ∷ rs) groups h =
    let k = lib.group_version_kind r in
    elim (Bool-cases (same_gvk k lib.namespace)) [
      | inl e ↦ rw (e, other_kind lib key k h e) (lookup-group_loop lib key rs groups h)
      | inr e ↦ rw e (
          lookup-group_loop lib key rs (add_to_group k r groups) h
          ∙ ap (λ l. l ++ of_kind lib key rs) (lookup-add key k r groups)
          ∙ elim (Bool-cases (same_gvk k key)) [
            | inl f ↦ rw f (append_assoc (lookup_group key groups) (r ∷ []) (of_kind lib key rs))
            | inr f ↦ rw f
          ])
    ]

lookup_namespace :
    (lib : Libraries) (rs : List Fields) (groups : Groups)
    → lookup_group lib.namespace (group_loop lib rs groups) ≡ lookup_group lib.namespace groups
unfolding group_loop
lookup_namespace lib [] groups = refl
lookup_namespace lib (r ∷ rs) groups =
    let k = lib.group_version_kind r in
    elim (Bool-cases (same_gvk k lib.namespace)) [
      | inl e ↦ rw e (lookup_namespace lib rs groups)
      | inr e ↦ rw e (
          lookup_namespace lib rs (add_to_group k r groups)
          ∙ lookup-add lib.namespace k r groups
          ∙ rw e)
    ]

-- Each kind's group holds the resources of that kind, all of them and in their order; Namespaces are
-- left out.
pub group_by_gvk_lem :
    (lib : Libraries) (key : Gvk) (rs : List Fields)
    → lookup_group key (group_by_gvk lib rs)
      ≡ (if same_gvk key lib.namespace then [] else of_kind lib key rs)
unfolding group_by_gvk
group_by_gvk_lem lib key rs = elim (Bool-cases (same_gvk key lib.namespace)) [
  | inl e ↦ rw (e, (same_gvk_iff key lib.namespace).0 e) (lookup_namespace lib rs [])
  | inr e ↦ rw e (lookup-group_loop lib key rs [] e)
]
