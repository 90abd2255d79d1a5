-- ===== src/Config/Precedence.antt =====
-- The value that each field of the configuration ends up with.
use opendatahub_ai_gateway_o.Config.View.{env_name, variable_name, as_setting}
use opendatahub_ai_gateway_o.Base.{
  ◌||◌, List, [], ◌∷◌, inl, inr, Option, none, some, ◌≡◌, refl, ap, ◌∙◌, if◌then◌else◌, Bool-cases,
  Result, ok, err, >>=-eq-ok, ok-injective, err-ne-ok, map_err-eq-ok,
}
use opendatahub_ai_gateway_o.Config.View.{
  or_else, last_setting, ViperView, is_some, Key, pprof_addr, read, text_or_empty, effective,
  key_name, same_key,
}
use opendatahub_ai_gateway_o.Config.{
  Setting, text, Settings, ViperLib, Entry, is_structured, merge_content, merge_entry,
  merge_entries, Directory, load_files, set_defaults, load_from_fs, Config, defaults, env_prefix,
}
use opendatahub_ai_gateway_o.Text.{Text, codes, equal, has_prefix, trim_space, to_lower}
use opendatahub_ai_gateway_o.Config.Environment.{
  Holds, set_each-Holds, bind_envs-Holds, env_value_bound, variable_name_lem, all_keys_bound,
  effective_value,
}

module _ (viper : ViperLib) (view : ViperView viper) where
  open view use {environ, as_text, default_of, file_of, bound, env_of}

  -- What the settings of a file give a key; a file that is not parsed gives none.
  abbrev pub parsed_setting : Result Settings → Text → Option Setting
  parsed_setting (err e) j = none
  parsed_setting (ok m) j = last_setting j m

  abbrev pub content_setting : Entry → Result Text → Text → Option Setting
  content_setting entry (err e) j = none
  content_setting entry (ok content) j =
      if is_structured entry.extension
      then parsed_setting (viper.read_settings entry.extension content) j
      else if same_key entry.name j
      then some (text (trim_space content))
      else none

  -- What one entry gives a key: directories, hidden files and unreadable files nothing, a YAML or JSON
  -- file its setting, any other file its trimmed content, if the key is its name.
  abbrev pub entry_setting : Entry → Text → Option Setting
  entry_setting entry j =
      if entry.is_dir || has_prefix entry.name (codes ".")
      then none
      else content_setting entry entry.content j

  -- A later file wins.
  abbrev pub files_setting : List Entry → Text → Option Setting
  files_setting [] j = none
  files_setting (entry ∷ entries) j = or_else (files_setting entries j) (entry_setting entry j)

  merge_content-Holds :
      (entry : Entry) (content : Result Text) (v w : viper.Viper) (j : Text)
      → merge_content viper entry content v ≡ ok w
      → Holds viper view w j
          (default_of v j)
          (or_else (content_setting entry content j) (file_of v j))
          (bound v j)
  unfolding merge_content
  merge_content-Holds entry (err e) v w j h = rw (← ok-injective h) (refl, refl, refl)
  merge_content-Holds entry (ok c) v w j h = elim (Bool-cases (is_structured entry.extension)) [
    | inl s ↦
        let (m, p, q) = >>=-eq-ok _ _ (rw s at h) in
        rw (s, map_err-eq-ok _ (viper.read_settings entry.extension c) p)
          (view.merge_lem m j v w (map_err-eq-ok _ _ q))
    | inr s ↦ rw s (view.merge_lem _ j v w (map_err-eq-ok _ _ (rw s at h)))
  ]

  merge_entries-Holds :
      (entries : List Entry) (v w : viper.Viper) (j : Text)
      → merge_entries viper entries v ≡ ok w
      → Holds viper view w j
          (default_of v j)
          (or_else (files_setting entries j) (file_of v j))
          (bound v j)
  unfolding merge_entries
  merge_entries-Holds [] v w j h = rw (← ok-injective h) (refl, refl, refl)
  merge_entries-Holds (entry ∷ entries) v w j h =
      let (u, p, q) = >>=-eq-ok _ (merge_entries viper entries) h in
      let (d, f, b) = merge_entries-Holds entries u w j q in
      let (d', f', b') = one u p in
      (d ∙ d', f ∙ regroup (files_setting entries j) (entry_setting entry j) f', b ∙ b')
    where
      one :
          (u : viper.Viper)
          → merge_entry viper entry v ≡ ok u
          → Holds viper view u j
              (default_of v j)
              (or_else (entry_setting entry j) (file_of v j))
              (bound v j)
      one u p = elim (Bool-cases (entry.is_dir || has_prefix entry.name (codes "."))) [
        | inl s ↦ rw (s, ← ok-injective (rw s at p)) (refl, refl, refl)
        | inr s ↦ rw s (merge_content-Holds entry entry.content v u j (rw s at p))
      ]

      regroup :
          (x y : Option Setting) {z : Option Setting}
          → z ≡ or_else y (file_of v j)
          → or_else x z ≡ or_else (or_else x y) (file_of v j)
      regroup (some a) y e = refl
      regroup none y e = e

  -- The entries of the file system; there are none if it is nil or cannot be listed.
  abbrev pub entries_of : Option Directory → List Entry
  entries_of none = []
  entries_of (some (err e)) = []
  entries_of (some (ok entries)) = entries

  load_files-Holds :
      (fsys : Option Directory) (v w : viper.Viper) (j : Text)
      → load_files viper fsys v ≡ ok w
      → Holds viper view w j
          (default_of v j)
          (or_else (files_setting (entries_of fsys) j) (file_of v j))
          (bound v j)
  unfolding load_files
  load_files-Holds none v w j h = rw (← ok-injective h) (refl, refl, refl)
  load_files-Holds (some (err e)) v w j h = absurd (err-ne-ok h)
  load_files-Holds (some (ok entries)) v w j h =
      merge_entries-Holds entries v w j (map_err-eq-ok _ (merge_entries viper entries v) h)

  loaded-Holds :
      (fsys : Option Directory) (w : viper.Viper) (j : Text)
      → load_files viper fsys (set_defaults viper viper.new) ≡ ok w
      → Holds viper view w j (last_setting j defaults) (files_setting (entries_of fsys) j) none
  unfolding set_defaults
  loaded-Holds fsys w j h =
      let (d, f, b) = load_files-Holds fsys _ w j h in
      let (d', f', b') = set_each-Holds viper view defaults viper.new j in
      let (d'', f'', b'') = view.new_empty j in
      (
        d ∙ d' ∙ no_more (last_setting j defaults) d'',
        f ∙ no_more (files_setting (entries_of fsys) j) (f' ∙ f''),
        b ∙ b' ∙ b'',
      )
    where
      no_more : (x : Option Setting) {y : Option Setting} → y ≡ none → or_else x y ≡ x
      no_more (some a) e = refl
      no_more none e = e

  -- With a viper that behaves as documented: where the configuration is loaded, each field that is
  -- a text has the value of the environment's variable of its name, such as
  -- `ODH_MODULE_OPERATOR_PLATFORM_TYPE`, if that is set and the key has a default or stands in a
  -- file; else the value of the last file that sets it, else the default, else the empty text.
  pub load_from_fs-reads :
      (fsys : Option Directory) (k : Key) {cfg : Config}
      → load_from_fs viper fsys ≡ ok cfg
      → read cfg k
        ≡ text_or_empty as_text (
            effective
              (is_some (files_setting (entries_of fsys) (key_name k))
                || is_some (last_setting (key_name k) defaults))
              (as_setting (environ (variable_name k)))
              (files_setting (entries_of fsys) (key_name k))
              (last_setting (key_name k) defaults))
  unfolding load_from_fs
  load_from_fs-reads fsys k {cfg} h =
      let (v, loaded, rest) = >>=-eq-ok _ _ h in
      let (w, binds, last) = >>=-eq-ok _ _ rest in
      let (held, s) =
        bind_envs-Holds viper view v w (key_name k) (loaded-Holds fsys v (key_name k) loaded)
          (map_err-eq-ok _ _ binds) in
      let (d, f, b) = held in
      let file = files_setting (entries_of fsys) (key_name k) in
      let default = last_setting (key_name k) defaults in
      view.unmarshal_lem w cfg (map_err-eq-ok _ _ last) k
      ∙ rw
          (
            all_keys_bound viper view w (key_name k) (env_name env_prefix (key_name k)) held,
            d,
            f,
            b,
            env_value_bound viper view (variable_name k) (key_name k)
                (is_some file || is_some default) (env_of w) s (variable_name_lem viper view k),
          )
          (ap (text_or_empty as_text) (
            effective_value viper view (is_some file || is_some default) (environ (variable_name k))
              file default))

  -- With a viper that behaves as documented and no configuration directory, the profiler's address
  -- is empty, whatever the environment says: the key has no default, so no variable is bound to it.
  pub pprof_addr_unbound : {cfg : Config} → load_from_fs viper none ≡ ok cfg → cfg.pprof_addr ≡ []
  unfolding equal to_lower
  pprof_addr_unbound h = load_from_fs-reads none pprof_addr h
