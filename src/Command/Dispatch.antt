-- ===== src/Command/Dispatch.antt =====
-- Which command the process runs, and how its end is reported.
use opendatahub_ai_gateway_o.Base.{
  Bool, true, false, ◌||◌, List, [], ◌∷◌, ◌++◌, Option, none, some, ◌≡◌, refl, ap, ◌∙◌,
  if◌then◌else◌, All,
}
use opendatahub_ai_gateway_o.Operator.{Ending, returned, exited}
use opendatahub_ai_gateway_o.Command.{
  Flag, Command, CobraLib, ProcessWorld, ProcessEnd, main, exit_code, chartgen_command,
  operator_command, finish, output_flag, name_flag, version_flag, died,
}
use opendatahub_ai_gateway_o.Text.{Text, codes, equal}

-- What the command line gives a flag, by its name.
abbrev pub Settings : Type 0
Settings = List (Text × Text)

-- The last setting of the flag, or else its default.
unfoldable pub flag_value : Settings → Flag → Text
flag_value [] f = f.default
flag_value ((n, v) ∷ settings) f =
    if equal n f.name then flag_value settings (record f { default = v }) else flag_value settings f

abbrev pub arg_list : Settings → List Text
arg_list [] = []
arg_list ((n, v) ∷ settings) = (codes "--" ++ n) ∷ v ∷ arg_list settings

-- All the settings are of flags that the command declares.
abbrev pub declares : List Flag → Text → Bool
declares [] n = false
declares (f ∷ flags) n = equal f.name n || declares flags n

abbrev pub Declared : List Flag → Settings → Type 0
Declared flags = All (λ s. declares flags s.0 ≡ true)

module _ {Files Cluster : Type 0} where
  -- The command of that name.
  abbrev pub find_command : Text → List (Command Files Cluster) → Option (Command Files Cluster)
  find_command name [] = none
  find_command name (c ∷ cs) = if equal name c.use_name then some c else find_command name cs

  -- cobra runs the command that the first argument names, with the flags that follow it: a flag has its last
  -- setting, or else its default.
  abbrev pub IsCobraLib : CobraLib Files Cluster → Type 0
  IsCobraLib cobra =
      (root name : Text) (cs : List (Command Files Cluster)) (c : Command Files Cluster)
      (settings : Settings) (w : ProcessWorld Files Cluster)
      → find_command name cs ≡ some c
      → Declared c.flags settings
      → cobra root cs (name ∷ arg_list settings) w ≡ c.run_e (flag_value settings) w

  module _ (cobra : CobraLib Files Cluster) (laws : IsCobraLib cobra)
      (chartgen_run : Text → Text → Text → Files → Option (Files × Option Text))
      (operator_run : Cluster → Cluster × Ending) where
    -- 0 where there is no error, 1 where there is one; a panic stays one.
    abbrev pub chartgen_end :
        ProcessWorld Files Cluster
        → Option (Files × Option Text)
        → Option (ProcessWorld Files Cluster × ProcessEnd)
    chartgen_end w none = none
    chartgen_end w (some (files, none)) = some (record w { files = files }, exit_code 0)
    chartgen_end w (some (files, some e)) = some (record w { files = files }, exit_code 1)

    abbrev pub operator_end : Ending → ProcessEnd
    operator_end (returned none) = exit_code 0
    operator_end (returned (some e)) = exit_code 1
    operator_end exited = died

    finish-chartgen :
        (settings : Settings) (w : ProcessWorld Files Cluster) (x : Option (Files × Option Text))
        → chartgen_run
            (flag_value settings output_flag)
            (flag_value settings name_flag)
            (flag_value settings version_flag)
            w.files
          ≡ x
        → finish Files Cluster
            ((chartgen_command Files Cluster chartgen_run).run_e (flag_value settings) w)
          ≡ chartgen_end w x
    unfolding finish chartgen_command
    finish-chartgen settings w none e = rw e
    finish-chartgen settings w (some (files, none)) e = rw e
    finish-chartgen settings w (some (files, some f)) e = rw e

    finish-operator :
        (w : ProcessWorld Files Cluster) (ending : Ending)
        → finish Files Cluster (some (w, ending)) ≡ some (w, operator_end ending)
    unfolding finish
    finish-operator w (returned none) = refl
    finish-operator w (returned (some e)) = refl
    finish-operator w exited = refl

    -- `manager chartgen` with settings of its flags runs `run` with the last setting of each flag or its
    -- default; the exit code is 0 where it returns no error and 1 where it returns one, and the cluster
    -- stays as it is.
    pub main_chartgen :
        (settings : Settings) (w : ProcessWorld Files Cluster)
        → Declared (output_flag ∷ name_flag ∷ version_flag ∷ []) settings
        → main Files Cluster cobra chartgen_run operator_run
            (codes "chartgen" ∷ arg_list settings)
            w
          ≡ chartgen_end w (
              chartgen_run
                (flag_value settings output_flag)
                (flag_value settings name_flag)
                (flag_value settings version_flag)
                w.files)
    unfolding main chartgen_command operator_command equal
    main_chartgen settings w h =
        ap (finish Files Cluster)
          (laws _ _ _ (chartgen_command Files Cluster chartgen_run) settings w refl h)
        ∙ finish-chartgen settings w _ refl

    -- `manager operator` runs `run`; the exit code is 0 where it returns no error and 1 where it returns
    -- one, and the files stay as they are.
    pub main_operator :
        (w : ProcessWorld Files Cluster)
        → let (cluster, ending) = operator_run w.cluster in
          main Files Cluster cobra chartgen_run operator_run (codes "operator" ∷ []) w
          ≡ some (record w { cluster = cluster }, operator_end ending)
    unfolding main chartgen_command operator_command equal
    main_operator w =
        ap (finish Files Cluster)
          (laws _ _ _ (operator_command Files Cluster operator_run) [] w refl tt)
        ∙ finish-operator _ (operator_run w.cluster).1
