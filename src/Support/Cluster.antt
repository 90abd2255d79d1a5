-- ===== src/Support/Cluster.antt =====
-- test/support/cluster.go. The client of controller-runtime and the decoder of custom resource definitions
-- are parameters.
use opendatahub_ai_gateway_o.Base.{
  Bool, not, ◌||◌, List, [], ◌∷◌, ◌++◌, Option, none, some, if◌then◌else◌, Result, ok, err, ◌>>=◌,
  map_err,
}
use opendatahub_ai_gateway_o.Text.{Text, codes, equal}
use opendatahub_ai_gateway_o.Config.{Entry, Directory}

-- What `Get` of an object returns.
pub data Lookup (A : Type 0) : Type 0 where
  found : A → Lookup A
  not_found : Lookup A
  failed : Text → Lookup A

-- An error of `Create`, and whether `IsAlreadyExists` tells so.
pub data CreateError : Type 0 where
  already_exists other : Text → CreateError

pub record ClusterLib : Type 1 where
  pub World : Type 0
  pub Crd : Type 0
  pub crd_name : Crd → Text
  -- `crd.ResourceVersion = existing.ResourceVersion`
  pub set_resource_version : Crd → Crd → Crd
  -- `runtime.DecodeInto` with a scheme that knows the definitions
  pub decode : Text → Result Crd
  -- `Get` by the key of the object
  pub get : Crd → World → Lookup Crd
  pub create : Crd → World → World × Option Text
  pub update : Crd → World → World × Option Text
  pub create_namespace : Text → World → World × Option CreateError

module _ (lib : ClusterLib) where
  open lib use {
    World, Crd, crd_name, set_resource_version, decode, get, create, update, create_namespace,
  }

  -- `fmt.Errorf("…: %w", err)` around an error of the client.
  unfoldable pub wrapped : Text → World × Option Text → World × Option Text
  wrapped what (w, none) = (w, none)
  wrapped what (w, some e) = (w, some (what ++ (codes ": " ++ e)))

  -- The body of the loop from `Get` on.
  unfoldable pub by_lookup : Crd → World → Lookup Crd → World × Option Text
  unfolding wrapped
  by_lookup crd w (found existing) =
      wrapped (codes "updating CRD " ++ crd_name crd) (update (set_resource_version crd existing) w)
  by_lookup crd w not_found = wrapped (codes "creating CRD " ++ crd_name crd) (create crd w)
  by_lookup crd w (failed e) =
      (w, some (codes "checking CRD " ++ (crd_name crd ++ (codes ": " ++ e))))

  unfoldable pub install_crd : Crd → World → World × Option Text
  unfolding by_lookup
  install_crd crd w = by_lookup crd w (get crd w)

  unfoldable pub decode_entry : Entry → Result Crd
  decode_entry entry = do
    content ←
        map_err (λ e. codes "reading CRD file " ++ (entry.name ++ (codes ": " ++ e))) entry.content
    map_err (λ e. codes "decoding CRD from " ++ (entry.name ++ (codes ": " ++ e))) (decode content)

  abbrev pub is_skipped : Entry → Bool
  is_skipped entry = entry.is_dir || not (equal entry.extension (codes "yaml"))

  unfoldable pub install_decoded : Result Crd → World → World × Option Text
  unfolding install_crd
  install_decoded (err e) w = (w, some e)
  install_decoded (ok crd) w = install_crd crd w

  unfoldable pub install_entry : Entry → World → World × Option Text
  unfolding install_decoded decode_entry
  install_entry entry w =
      if is_skipped entry then (w, none) else install_decoded (decode_entry entry) w

  -- The next round, unless there is an error.
  unfoldable pub next : World × Option Text → (World → World × Option Text) → World × Option Text
  next (w, none) rest = rest w
  next (w, some e) rest = (w, some e)

  -- The loop of `InstallCRDs`.
  unfoldable pub install_entries : List Entry → World → World × Option Text
  unfolding install_entry next
  install_entries [] w = (w, none)
  install_entries (entry ∷ entries) w = next (install_entry entry w) (install_entries entries)

  -- `InstallCRDs`, with what `os.ReadDir` returns for the directory.
  unfoldable pub install_crds : Text → Directory → World → World × Option Text
  unfolding install_entries
  install_crds crd_dir (err e) w =
      (w, some (codes "reading CRD directory " ++ (crd_dir ++ (codes ": " ++ e))))
  install_crds crd_dir (ok entries) w = install_entries entries w

  namespace_error : Text → Option CreateError → Option Text
  namespace_error name none = none
  namespace_error name (some (already_exists e)) = none
  namespace_error name (some (other e)) =
      some (codes "creating namespace " ++ (name ++ (codes ": " ++ e)))

  unfoldable pub ensure_namespace : Text → World → World × Option Text
  unfolding namespace_error
  ensure_namespace name w = let (w', e) = create_namespace name w in (w', namespace_error name e)
