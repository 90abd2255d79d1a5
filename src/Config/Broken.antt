-- ===== src/Config/Broken.antt =====
-- A configuration directory with a file that cannot be parsed.
use opendatahub_ai_gateway_o.Base.{
  true, false, List, [], ◌∷◌, ◌++◌, ◌≡◌, ok, err, >>=-eq-ok, ok-injective,
}
use opendatahub_ai_gateway_o.Config.{
  Directory, Entry, ViperLib, load, load_from_fs, load_directory, merge_entries, merge_entry,
  merge_structured_file, is_structured, set_defaults, load_files, is_empty,
}
use opendatahub_ai_gateway_o.Text.{Text, codes, has_prefix}

module _ (viper : ViperLib) where
  -- The entry is a file that the loop reads, and its content is no settings.
  pub record IsBroken (entry : Entry) (problem : Text) : Type 0 where
    pub no_directory : entry.is_dir ≡ false
    pub not_hidden : has_prefix entry.name (codes ".") ≡ false
    pub structured : is_structured entry.extension ≡ true
    pub text_of : Text
    pub readable : entry.content ≡ ok text_of
    pub unparsed : viper.read_settings entry.extension text_of ≡ err problem

  abbrev pub parse_failure : Entry → Text → Text
  parse_failure entry problem =
      codes "parsing config file " ++ (entry.name ++ (codes ": " ++ problem))

  merge_entry-IsBroken :
      (entry : Entry) (problem : Text) (v : viper.Viper)
      → IsBroken entry problem
      → merge_entry viper entry v ≡ err (parse_failure entry problem)
  unfolding merge_entry merge_structured_file
  merge_entry-IsBroken entry problem v b =
      rw (b.no_directory, b.not_hidden, b.readable, b.structured, b.unparsed)

  merge_entries_stop :
      (before behind : List Entry) (entry : Entry) (e : Text) (v w : viper.Viper)
      → merge_entries viper before v ≡ ok w
      → merge_entry viper entry w ≡ err e
      → merge_entries viper (before ++ entry ∷ behind) v ≡ err e
  unfolding merge_entries
  merge_entries_stop [] behind entry e v w h k = rw (ok-injective h, k)
  merge_entries_stop (x ∷ before) behind entry e v w h k =
      let (u, first, rest) = >>=-eq-ok (merge_entry viper x v) (merge_entries viper before) h in
      rw first (merge_entries_stop before behind entry e u w rest k)

  abbrev pub load_failure : Entry → Text → Text
  load_failure entry problem =
      codes "loading config from filesystem: " ++ parse_failure entry problem

  -- Where the configuration's path is set and the files before it can be merged, the first file of the
  -- directory that cannot be parsed ends the loading with an error that names it, whatever stands behind.
  pub load-IsBroken :
      (config_path : Text) (dir_fs : Text → Directory) (before behind : List Entry) (entry : Entry)
      (problem : Text) {w : viper.Viper}
      → is_empty config_path ≡ false
      → dir_fs config_path ≡ ok (before ++ entry ∷ behind)
      → merge_entries viper before (set_defaults viper viper.new) ≡ ok w
      → IsBroken entry problem
      → load viper config_path dir_fs ≡ err (load_failure entry problem)
  unfolding load load_from_fs load_files load_directory
  load-IsBroken config_path dir_fs before behind entry problem {w} set found merged broken =
      let stopped =
        merge_entries_stop before behind entry (parse_failure entry problem)
          (set_defaults viper viper.new) w merged (merge_entry-IsBroken entry problem w broken) in
      rw (set, found, stopped)
