-- ===== src/Command.antt =====
-- The command line: cmd/main.go and NewCommand of cmd/chartgen/chartgen.go and cmd/operator/operator.go,
-- over the package cobra, which reads the arguments.
pub mod Dispatch
pub mod Exit
use opendatahub_ai_gateway_o.Base.{
  ℕ, zero, suc, ◌+◌, ◌-◌, ◌*◌, ◌/◌, ◌%◌, ◌≤◌, ◌<◌, Bool, true, false, not, ◌&&◌, ◌||◌, List, [],
  ◌∷◌, ◌++◌, map, append-nil, append_assoc, ◌≢◌, ◌↔◌, ◌⊎◌, inl, inr, Option, none, some, ◌≡◌, refl,
  sym, ap, ◌∙◌, arith, ltb, leb, ◌==◌, if◌then◌else◌, ==_iff, Bool-cases, &&-true, length, take,
  length-append, take-append_length, sub_length, All, All-append, All-intro, All-map, All-flat_map,
  Result, ok, err, ◌>>=◌, map_err, >>=-eq-ok, ok-injective, err-ne-ok, map_err-eq-ok,
  some-injective, none-ne-some,
}
use opendatahub_ai_gateway_o.Operator.{Ending, returned, exited}
use opendatahub_ai_gateway_o.Text.{Text, codes, equal}

pub record Flag : Type 0 where
  pub name : Text
  pub shorthand : Text
  pub default : Text

unfoldable pub output_flag : Flag
output_flag = record {
  name = codes "output";
  shorthand = codes "o";
  default = codes "config/chart";
}

unfoldable pub name_flag : Flag
name_flag = record {
  name = codes "name";
  shorthand = [];
  default = codes "opendatahub-ai-gateway-operator";
}

unfoldable pub version_flag : Flag
version_flag = record { name = codes "version"; shorthand = []; default = codes "0.1.0" }

-- How the process ends: with an exit code of `main`, or in a library that exits.
pub data ProcessEnd : Type 0 where
  exit_code : ℕ → ProcessEnd
  died : ProcessEnd

-- What the commands do to the file system and to the cluster; `none` is a panic.
module _ (Files Cluster : Type 0) where
  pub record ProcessWorld : Type 0 where
    pub files : Files
    pub cluster : Cluster

  abbrev pub CommandRun : Type 0
  CommandRun = ProcessWorld → Option (ProcessWorld × Ending)

  -- `cobra.Command`: its function takes the values of its flags.
  pub record Command : Type 0 where
    pub use_name : Text
    pub flags : List Flag
    pub run_e : (Flag → Text) → CommandRun

  -- `chartgen.NewCommand`, with `run` on the standard input.
  unfoldable pub chartgen_command :
      (Text → Text → Text → Files → Option (Files × Option Text)) → Command
  chartgen_command chartgen_run = record {
    use_name = codes "chartgen";
    flags = output_flag ∷ name_flag ∷ version_flag ∷ [];
    run_e = λ value w.
        elim (chartgen_run (value output_flag) (value name_flag) (value version_flag) w.files) [
          | none ↦ none
          | some (files, e) ↦ some (record w { files = files }, returned e)
        ];
  }

  -- `operator.NewCommand`
  unfoldable pub operator_command : (Cluster → Cluster × Ending) → Command
  operator_command operator_run = record {
    use_name = codes "operator";
    flags = [];
    run_e = λ value w.
        let (cluster, ending) = operator_run w.cluster in
        some (record w { cluster = cluster }, ending);
  }

  -- `root.ExecuteContext` of cobra: the root's name, its commands, the arguments.
  abbrev pub CobraLib : Type 0
  CobraLib = Text → List Command → List Text → CommandRun

  -- `os.Exit(1)` behind an error.
  unfoldable pub finish : Option (ProcessWorld × Ending) → Option (ProcessWorld × ProcessEnd)
  finish none = none
  finish (some (w, returned none)) = some (w, exit_code 0)
  finish (some (w, returned (some e))) = some (w, exit_code 1)
  finish (some (w, exited)) = some (w, died)

  unfoldable pub main :
      CobraLib
      → (Text → Text → Text → Files → Option (Files × Option Text))
      → (Cluster → Cluster × Ending)
      → List Text
      → ProcessWorld
      → Option (ProcessWorld × ProcessEnd)
  main cobra chartgen_run operator_run args w = finish (
      cobra (codes "opendatahub-ai-gateway-operator")
        (operator_command operator_run ∷ chartgen_command chartgen_run ∷ []) args w)
