-- ===== src/Tests/Controller.antt =====
-- internal/controller/aigateway and api/components/v1alpha1/semver.go at concrete inputs.
use opendatahub_ai_gateway_o.Base.{
  ℕ, zero, suc, true, false, List, [], ◌∷◌, ◌++◌, ◌↔◌, inr, none, ◌≡◌, refl, ap, arith, ltb, length,
  Result, ok, err,
}
use mathlib.Core.List.Permᴰ
use mathlib.Core.List.{Permᴰ}
use opendatahub_ai_gateway_o.Api.Semver.{SemverLib, IsSemverLib, marshal_json, unmarshal_json}
use opendatahub_ai_gateway_o.Api.Semver.Laws.{unmarshal_json-marshal_json}
use opendatahub_ai_gateway_o.Api.Status.{ModuleStatus}
use opendatahub_ai_gateway_o.Config.{Config}
use opendatahub_ai_gateway_o.Controller.{
  Build, default_build, DeployLib, Gateway, gateway, Request, Release, Module,
}
use opendatahub_ai_gateway_o.Controller.Status.{module_status, report_status}
use opendatahub_ai_gateway_o.Controller.Status.Bag.{module_status_iff, asked_bag, AreInOrder}
use mathlib.Core.Quot
use opendatahub_ai_gateway_o.Controller.Status.Order.{module_status-perm}
use opendatahub_ai_gateway_o.Controller.Upgrade.{needs_upgrade}
use opendatahub_ai_gateway_o.Controller.Upgrade.Once.{report_status-needs_upgrade}
use opendatahub_ai_gateway_o.Text.{Text, codes}

-- Versions in unary: `v`, `v1`, `v11` and so on.
abbrev pub ones : ℕ → Text
ones zero = []
ones (suc n) = b'1' ∷ ones n

abbrev pub parse_unary : Text → Result ℕ
parse_unary [] = err (codes "empty version")
parse_unary (c ∷ s) = ok (length s)

length-ones : (n : ℕ) → length (ones n) ≡ n
length-ones zero = refl
length-ones (suc n) = ap suc (length-ones n)

abbrev pub unary : SemverLib
unary = record {
  Version = ℕ;
  parse_tolerant = parse_unary;
  print = λ n. b'v' ∷ ones n;
  gt = λ m n. ltb n m;
  go_quote = λ s. s;
  quote = λ s. s;
  unquote = λ s. ok s;
}

pub unary-IsSemverLib : IsSemverLib unary
unary-IsSemverLib = record {
  parse-print = λ s {v} h. ap ok (length-ones v);
  print_not_empty = λ v. refl;
  gt_irrefl = λ v. ground arith;
  gt_trans = λ u v w h k. ground arith;
  unquote-quote = λ s. refl;
}

unmarshal_json-marshal_json_example : unmarshal_json unary (codes "v1") ≡ ok (codes "v1")
unfolding marshal_json
unmarshal_json-marshal_json_example =
    unmarshal_json-marshal_json unary unary-IsSemverLib (codes "v1") (inr (1, refl, refl)) refl

-- The number of files written; each write succeeds.
abbrev pub files : DeployLib
files = record {
  World = ℕ;
  manifest_string = λ m. m.path ++ (codes "/" ++ (m.context_dir ++ (codes "/" ++ m.source_path)));
  apply_params = λ path file images values world. (suc world, none);
}

abbrev pub a_config : Config
a_config = record {
  metrics_addr = codes ":8080";
  health_probe_addr = codes ":8081";
  pprof_addr = [];
  leader_elect = true;
  leader_election_id = codes "lock";
  manifests_path = codes "/opt/manifests";
  applications_namespace = codes "opendatahub";
  platform_type = codes "OpenDataHub";
  platform_version = codes "v1";
}

abbrev pub a_module : Module
a_module = record {
  cfg = a_config;
  version = codes "v11";
  batch_gateway_manifest_info = record {
    path = codes "/opt/manifests";
    context_dir = codes "batchgateway";
    source_path = codes "base";
  };
}

abbrev pub old_status : ModuleStatus
old_status = record {
  version = codes "v1";
  build_source = [];
  platform = record { name = codes "OpenDataHub"; version = codes "v1" };
  sources = [];
}

abbrev pub object_in : Text → Gateway
object_in state = record { management_state = state; status = old_status }

abbrev pub a_release : Release unary
a_release = record { name = codes "OpenDataHub"; version = 1 }

abbrev pub request_for : Text → List Text → List Text → Request unary
request_for state templates charts = record {
  instance_object = gateway (object_in state);
  manifests = [];
  templates = templates;
  helm_charts = charts;
  release = a_release;
}

abbrev pub managed : Request unary
managed = request_for (codes "Managed") (codes "b" ∷ codes "a" ∷ []) (codes "c" ∷ [])

abbrev pub removed : Request unary
removed = request_for (codes "Removed") [] []

abbrev pub a_build : Build
a_build = record default_build { version = codes "v11" }

report_status-needs_upgrade_example :
    needs_upgrade unary files a_module removed (module_status unary files a_build a_module managed)
    ≡ false
unfolding report_status
report_status-needs_upgrade_example =
    report_status-needs_upgrade unary unary-IsSemverLib files a_build a_module managed removed 0
      refl refl

abbrev rearranged : Request unary
rearranged = request_for (codes "Removed") (codes "a" ∷ codes "b" ∷ []) (codes "c" ∷ [])

module_status_iff_example :
    AreInOrder (module_status unary files a_build a_module managed).sources
    × (Quot.mk (module_status unary files a_build a_module managed).sources
        ≡ asked_bag unary files a_build a_module managed)
    × ((module_status unary files a_build a_module managed
          ≡ module_status unary files a_build a_module rearranged)
        ↔ (asked_bag unary files a_build a_module managed
            ≡ asked_bag unary files a_build a_module rearranged))
module_status_iff_example = module_status_iff unary files a_build a_module managed rearranged refl

rearranged_same :
    module_status unary files a_build a_module managed
    ≡ module_status unary files a_build a_module rearranged
rearranged_same =
    module_status-perm unary files a_build a_module managed rearranged refl (Permᴰ.refl _)
      (Permᴰ.swap refl refl) (Permᴰ.refl _)
