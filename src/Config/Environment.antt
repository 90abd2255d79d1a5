-- ===== src/Config/Environment.antt =====
-- What setting the defaults and binding the environment make of a viper.
use opendatahub_ai_gateway_o.Config.View.{
  metrics_addr, health_probe_addr, leader_election_id, manifests_path, applications_namespace,
  platform_type, platform_version,
}
use opendatahub_ai_gateway_o.Config.View.{EnvState, env_name, env_value, variable_name, as_setting}
use opendatahub_ai_gateway_o.Config.{underscored}
use opendatahub_ai_gateway_o.Base.{
  Bool, true, false, ◌||◌, List, [], ◌∷◌, Option, none, some, ◌≡◌, refl, ◌∙◌, if◌then◌else◌, ok,
  >>=-eq-ok, ok-injective, map_err-eq-ok,
}
use opendatahub_ai_gateway_o.Config.View.{
  or_else, last_setting, has_key, ViperView, is_some, Key, pprof_addr, effective, key_name,
  same_key,
}
use opendatahub_ai_gateway_o.Config.{
  Setting, Settings, ViperLib, set_each, bind_each, bind_envs, env_prefix,
}
use opendatahub_ai_gateway_o.Text.{Text, to_lower}

module _ (viper : ViperLib) (view : ViperView viper) where
  open view use {environ, as_text, default_of, file_of, bound, env_of}

  -- What a viper holds for a key: the default, the file's value, the binding.
  abbrev pub Holds : viper.Viper → Text → Option Setting → Option Setting → Option Text → Type 0
  Holds v j default file b = (default_of v j ≡ default) × (file_of v j ≡ file) × (bound v j ≡ b)

  pub set_each-Holds :
      (ds : Settings) (v : viper.Viper) (j : Text)
      → Holds
          (set_each viper ds v)
          j
          (or_else (last_setting j ds) (default_of v j))
          (file_of v j)
          (bound v j)
  unfolding set_each
  set_each-Holds [] v j = (refl, refl, refl)
  set_each-Holds ((k, s) ∷ ds) v j =
      let (d, f, b) = set_each-Holds ds (viper.set_default k s v) j in
      let (d', f', b') = view.set_default_lem k j s v in
      (d ∙ shift (last_setting j ds) (same_key k j) d', f ∙ f', b ∙ b')
    where
      shift :
          (last : Option Setting) (test : Bool) {x : Option Setting}
          → x ≡ (if test then some s else default_of v j)
          → or_else last x ≡ or_else (or_else last (if test then some s else none)) (default_of v j)
      shift (some a) test e = refl
      shift none true e = e
      shift none false e = e

  bind_each-Holds :
      (ks : List Text) (v w : viper.Viper) (j : Text)
      → bind_each viper ks v ≡ ok w
      → Holds w j
          (default_of v j)
          (file_of v j)
          (or_else (bound v j) (if has_key j ks then some (env_name (env_of v).prefix j) else none))
        × (env_of w ≡ env_of v)
  unfolding bind_each
  bind_each-Holds [] v w j e = rw (← ok-injective e) ((refl, refl, no_more (bound v j)), refl)
    where
      no_more : (x : Option Text) → x ≡ or_else x none
      no_more (some a) = refl
      no_more none = refl
  bind_each-Holds (k ∷ ks) v w j e =
      let (u, bind, rest) = >>=-eq-ok _ (bind_each viper ks) e in
      let ((d, f, b), s) = bind_each-Holds ks u w j rest in
      let (d', f', b', s') = view.bind_env_lem k j v u (map_err-eq-ok _ _ bind) in
      (
        (
          d ∙ d',
          f ∙ f',
          b
              ∙ rw (s', b')
                  (regroup (bound v j) (same_key k j) (has_key j ks)
                    (env_name (env_of v).prefix j)),
        ),
        s ∙ s',
      )
    where
      regroup :
          (x : Option Text) (p q : Bool) (n : Text)
          → or_else (or_else x (if p then some n else none)) (if q then some n else none)
            ≡ or_else x (if p || q then some n else none)
      regroup (some a) p q n = refl
      regroup none true q n = refl
      regroup none false q n = refl

  pub bind_envs-Holds :
      (v w : viper.Viper) (j : Text) {d f : Option Setting}
      → Holds v j d f none
      → bind_envs viper v ≡ ok w
      → Holds w j d f (if is_some f || is_some d then some (env_name env_prefix j) else none)
        × (env_of w ≡ record { prefix = env_prefix; replacer = underscored; automatic = true })
  unfolding bind_envs
  bind_envs-Holds v w j {d} {f} (hd, hf, hb) e =
      let p = viper.set_env_prefix env_prefix v in
      let r = viper.set_env_key_replacer underscored p in
      let a = viper.automatic_env r in
      let (pd, pf, pb, ps) = view.set_env_prefix_lem env_prefix j v in
      let (rd, rf, rb, rs) = view.set_env_key_replacer_lem underscored j p in
      let (ad, af, ab, sa) = view.automatic_env_lem j r in
      let ((bd, bf, bb), bs) = bind_each-Holds (viper.all_keys a) a w j e in
      let ed = ad ∙ rd ∙ pd ∙ hd in
      let ef = af ∙ rf ∙ pf ∙ hf in
      let eb = ab ∙ rb ∙ pb ∙ hb in
      let es = sa ∙ rw (rs, ps) refl in
      ((bd ∙ ed, bf ∙ ef, bb ∙ rw (view.all_keys_lem j a, eb, ef, ed, es) refl), bs ∙ es)

  -- What the bound viper reads from the environment for a key.
  pub env_value_bound :
      (name j : Text) (present : Bool) (env : EnvState)
      → env ≡ record { prefix = env_prefix; replacer = underscored; automatic = true }
      → underscored (env_name env_prefix j) ≡ name
      → env_value env environ present (if present then some (env_name env_prefix j) else none) j
        ≡ (if present then environ name else none)
  env_value_bound name j true env e h = rw (e, h) (twice (environ name))
    where
      twice : (x : Option Text) → or_else x x ≡ x
      twice (some a) = refl
      twice none = refl
  env_value_bound name j false env e h = rw e refl

  pub variable_name_lem :
      (k : Key) → underscored (env_name env_prefix (key_name k)) ≡ variable_name k
  unfolding underscored to_lower
  variable_name_lem metrics_addr = refl
  variable_name_lem health_probe_addr = refl
  variable_name_lem pprof_addr = refl
  variable_name_lem leader_election_id = refl
  variable_name_lem manifests_path = refl
  variable_name_lem applications_namespace = refl
  variable_name_lem platform_type = refl
  variable_name_lem platform_version = refl

  pub all_keys_bound :
      (w : viper.Viper) (j : Text) (n : Text) {d f : Option Setting}
      → Holds w j d f (if is_some f || is_some d then some n else none)
      → has_key j (viper.all_keys w) ≡ (is_some f || is_some d)
  all_keys_bound w j n {d} {f} (hd, hf, hb) = rw (view.all_keys_lem j w, hd, hf, hb) (same f d)
    where
      same :
          (f d : Option Setting)
          → (is_some (if is_some f || is_some d then some n else none) || (is_some f || is_some d))
            ≡ (is_some f || is_some d)
      same (some a) d = refl
      same none (some b) = refl
      same none none = refl

  pub effective_value :
      (b : Bool) (env : Option Text) (file default : Option Setting)
      → or_else (as_setting (if b then env else none)) (or_else file default)
        ≡ effective b (as_setting env) file default
  effective_value true env file default = refl
  effective_value false env file default = refl
