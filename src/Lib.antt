-- ===== src/Lib.antt =====
-- The AI Gateway module operator of Open Data Hub: a Kubernetes operator that deploys the batch gateway
-- for an AIGateway object and reports its own version, and a command that turns the operator's kustomize
-- manifests into a Helm chart.
--
-- The parts and the files that model them:
--
--   Chartgen     cmd/chartgen: the command `manager chartgen`.
--     Marks, Fields, Resources, Sections, Webhook
--                cmd/chartgen/chart.go, the functions replace... and addImagePullSecrets,
--                injectConfigMapValues: a text is cut into lines, the lines are rewritten, and joined.
--                Loops that keep a flag (inSubjects, inMetadata, inDNSNames) are functions of the flag.
--     Transform  cmd/chartgen/chart.go, transformResource and the function of each kind, and renderGroup.
--     Blocks     what it means that the blocks of a template are nested and closed.
--     Groups     cmd/chartgen/chartgen.go, decodeResources, groupByGVK, gvkToFilename.
--     Values     cmd/chartgen/values.go, DefaultValues, ExtractDefaults, splitImageTag, extractResources.
--     Run, Helpers
--                cmd/chartgen/chartgen.go, run, and the functions that write its files (helpers.go,
--                values.go). The order in which the loop over the map visits the groups is an argument.
--     Object     the decoded YAML, map[string]any.
--     Libraries  what chart.go and chartgen.go call of other modules.
--   Api          api/components/v1alpha1: SemVer (semver.go) and the status as values (status_types.go).
--     Objects    the objects in memory and their accessors (aigateway_types.go), and DeepCopyInto, DeepCopy
--                and DeepCopyObject of each type (zz_generated.deepcopy.go). A slice is nil or the address
--                of an array in a store that the copies extend.
--     Scheme     the registration of the types (groupversion_info.go, and init of aigateway_types.go).
--   Config       pkg/config/config.go: Load, LoadFromFS and what they call, and Config.Release.
--   Controller   internal/controller/aigateway: NewModule, initialize, reportStatus (aigateway.go),
--                upgradeIfNeeded (aigateway_upgrade.go). An action is a function of the request and the
--                world to both and an error. pkg/version is the record Build.
--     Reconciler NewReconciler (aigateway_controller.go), the actions as one pipeline, and what sequences
--                of reconciliations and edits of the object lead to.
--   Operator     cmd/operator/operator.go: run, from the configuration to the start of the manager.
--     Scheme     init, which fills the scheme that the manager is given.
--   Command      cmd/main.go and the functions NewCommand of cmd/chartgen and cmd/operator.
--   Cache        pkg/cache/transform.go: StripUnusedFields.
--   Support      test/support: the project's files, the namespaces, InstallCRDs and EnsureNamespace.
--   Sorting      sort.Slice, which reportStatus calls.
--   Text         the functions of Go's package strings that the code calls.
--   Base         names and lemmas that the parts share.
--   Tests        the theorems at concrete inputs.
--
-- How they interact: Config is read once and given to the controller's Module; its Release is what the
-- platform framework puts into each request; initialize adds to the request's manifests, upgradeIfNeeded
-- reads the status that reportStatus wrote in an earlier run, and reportStatus collects the manifests.
-- Operator loads the Config, creates the manager with it, whose cache runs the transform of Cache, and has
-- the reconciler built with the configuration's Release. Command runs Operator or Chartgen, by the first
-- argument, and reports their errors by the exit code. Chartgen is independent of the others: run decodes
-- the resources, groups them, extracts the values, and writes the files of the chart; renderGroup renders
-- each group with transformResource.
--
-- Conventions. A text is the list of the code points of valid UTF-8; ToLower is that of ASCII. A Go map is
-- an association list, nil maps and nil slices are told apart from empty ones where the code does. An error
-- is its message. A type assertion without `ok` is a panic, `none`. A float64 is its bit pattern. An int32
-- is an integer, with the conversion from int64 written out.
--
-- Fuel. The loop of replaceResources runs on fuel, one more than the lines: each round takes a line at
-- least, and Chartgen/Resources/Block shows that the fuel is enough. The loop of FindProjectRoot runs on
-- one more than the characters of the path: a parent's path is shorter, and Support/Root shows that it
-- is enough.
--
-- Parameters. Code of other modules is a record that the definitions take: Libraries (the YAML codec, the
-- accessors of an unstructured object, the known kinds), ValueLib (the nested accessors, the arithmetic of
-- float64, quantities), FileLib (os, filepath, the printed values and schema), SemverLib (blang/semver and
-- the JSON string codec), DeployLib (ApplyParams of opendatahub-operator, and the world that all calls work
-- on), ViperLib, ReconcilerLib (the builder and the actions of opendatahub-operator), OperatorLib
-- (controller-runtime), PartsLib (the embedded types of apimachinery and opendatahub-operator), SchemeLib
-- and KubernetesTypes (the scheme, and what fills it), ProjectLib (os, filepath, the YAML codec),
-- ClusterLib (the client of controller-runtime) and CobraLib. What is documented of them stands in
-- IsSemverLib, IsValueLib, FileView, ViperView, ClusterView, IsReconcilerLib, IsFramework, IsPartsLib,
-- IsSchemeLib and IsCobraLib, and is a hypothesis where it is used. IsHealthy says that a cluster accepts
-- what the actions do; Observes is an observation of the world that only the start of a manager makes true.
-- ReconcilerLib.store is the write of the new reconciler's Release, which the manager's reconciler is an
-- alias of; Operator/Prepared follows the worlds up to the start. ViperView has the prefix, the replacer
-- and the bound names of a viper, by which it reads the environment.
--
-- Not modelled: descriptions and usage texts of the commands, log lines, and the tests themselves.
pub mod Base
pub mod Text
pub mod Chartgen
pub mod Sorting
pub mod Api
pub mod Config
pub mod Controller
pub mod Cache
pub mod Operator
pub mod Command
pub mod Support
pub mod Tests
