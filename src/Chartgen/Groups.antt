-- ===== src/Chartgen/Groups.antt =====
-- `decodeResources`, `groupByGVK` and `gvkToFilename` of cmd/chartgen/chartgen.go.
pub mod Partition
pub mod Decode
pub mod Filename
use opendatahub_ai_gateway_o.Base.{
  ℕ, zero, suc, ◌+◌, ◌-◌, ◌*◌, ◌/◌, ◌%◌, ◌≤◌, ◌<◌, Bool, true, false, not, ◌&&◌, ◌||◌, List, [],
  ◌∷◌, ◌++◌, map, append-nil, append_assoc, ◌≢◌, ◌↔◌, ◌⊎◌, inl, inr, Option, none, some, ◌≡◌, refl,
  sym, ap, ◌∙◌, arith, ltb, leb, ◌==◌, if◌then◌else◌, ==_iff, Bool-cases, &&-true, length, take,
  length-append, take-append_length, sub_length, All, All-append, All-intro, All-map, All-flat_map,
  Result, ok, err, ◌>>=◌, map_err, >>=-eq-ok,
}
use opendatahub_ai_gateway_o.Chartgen.Libraries.{Libraries, Gvk, same_gvk}
use opendatahub_ai_gateway_o.Chartgen.Object.{Fields}
use opendatahub_ai_gateway_o.Text.{Text, codes, is_empty, trim_space, to_lower}

-- What one `Read` of the YAML reader returns before the end of its input.
pub data Chunk : Type 0 where
  document : Text → Chunk
  broken : Text → Chunk

-- The map, as an association list: a key's resources stand in the order of their arrival.
abbrev pub Groups : Type 0
Groups = List (Gvk × List Fields)

-- `groups[key] = append(groups[key], r)`
unfoldable pub add_to_group : Gvk → Fields → Groups → Groups
unfolding same_gvk
add_to_group key r [] = (key, r ∷ []) ∷ []
add_to_group key r ((k, rs) ∷ groups) =
    let rest = add_to_group key r groups in
    if same_gvk k key then (k, rs ++ r ∷ []) ∷ groups else (k, rs) ∷ rest

module _ (lib : Libraries) where
  -- `obj.Object == nil` is the nil map of a document that is `null`.
  decoded : Option Fields → List Fields → List Fields
  decoded none resources = resources
  decoded (some obj) resources = resources ++ obj ∷ []

  -- The loop of `decodeResources`, with the resources so far.
  unfoldable pub decode_loop : List Chunk → List Fields → Result (List Fields)
  unfolding decoded
  decode_loop [] resources = ok resources
  decode_loop (broken e ∷ chunks) resources = err (codes "reading YAML document: " ++ e)
  decode_loop (document s ∷ chunks) resources =
      let skip = decode_loop chunks resources in
      let keep = (do
        obj ← map_err (λ e. codes "unmarshaling resource: " ++ e) (lib.unmarshal (trim_space s))
        decode_loop chunks (decoded obj resources)) in
      if is_empty (trim_space s) then skip else keep

  unfoldable pub decode_resources : List Chunk → Result (List Fields)
  unfolding decode_loop
  decode_resources chunks = decode_loop chunks []

  unfoldable pub group_loop : List Fields → Groups → Groups
  unfolding add_to_group
  group_loop [] groups = groups
  group_loop (r ∷ resources) groups =
      let key = lib.group_version_kind r in
      group_loop resources
        (if same_gvk key lib.namespace then groups else add_to_group key r groups)

  unfoldable pub group_by_gvk : List Fields → Groups
  unfolding group_loop
  group_by_gvk resources = group_loop resources []

abbrev pub core_api_group : Text
core_api_group = codes "core"

unfoldable pub group_part : Gvk → Text
group_part gvk = if is_empty (to_lower gvk.group) then core_api_group else to_lower gvk.group

unfoldable pub gvk_to_filename : Gvk → Text
unfolding group_part to_lower
gvk_to_filename gvk =
    group_part gvk
    ++ (codes "_" ++ (to_lower gvk.version ++ (codes "_" ++ (to_lower gvk.kind ++ codes ".yaml"))))
