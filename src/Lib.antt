-- ===== src/Lib.antt =====
-- kleym: an operator that gives the pods behind an inference pool a SPIFFE identity, by one managed
-- ClusterSPIFFEID per InferenceIdentityBinding.
--
-- The parts and their files:
--   Prelude, Errors, Value: shared tests, lists, text (a list of code points), sorting, errors as values,
--     and unstructured values.
--   Api: api/v1alpha1/inferenceidentitybinding_types.go.
--   Identity: internal/identity. Selectors is UniqueAndSorted and SelectorFingerprint, Boundary is boundary.go
--     with its pair rule, Conflicts is EvaluateVariantConflicts, Planning is PlanIdentity. It is pure.
--   Gaie: internal/gaie. Gaie itself is types.go and gvk.go; Selector derives selectors from a pool, and
--     Resolver is the loop over the candidate kinds.
--   Spirecm: internal/spirecm/clusterspiffeid.go.
--   Platform: what is taken from k8s.io/apimachinery, client-go, controller-runtime and the hash functions, as
--     the fields of a record, which the definitions that use them take as an argument.
--   Cluster: the calls of the Kubernetes API, and programs as trees of calls. A call goes on with any answer.
--   Controller: internal/controller. A method on the binding is an action: it takes the binding, and gives a
--     program that ends in a result and the binding as it was left. Status, Ownership, Output (spiffe.go), Render
--     (render.go and resolver.go), Failure and Reconcile (controller.go) and Conflict are its files.
--     Evidence holds the histories of calls and answers and the rules by which a method is shown safe; each
--     Safety module is about its parent. Config is operator_config.go, Watch is watch.go and Metrics is metrics.go:
--     the requests of a watch are the result of a program that lists bindings, and the gauge is a list of values.
--   Inspection: internal/inspection. Inspection itself and Print are report.go, Status and Status/Print are
--     status_report.go. Config, Findings, Selection and Binding are the steps of InspectBinding in inspection.go;
--     Status/Dependencies, Status/Operator, Status/Bindings and Status/Run are those of Status in status.go. A step
--     takes the report and gives it back, and an error comes beside the report.
--   Cli: internal/cli, from the checked options to the exit code.
--   Examples: concrete runs.
--
-- How the parts interact: Reconcile renders an identity from the pool that Gaie resolves, compares it with
-- the peers of the namespace by Identity.Conflicts, and brings the object of Spirecm into the cluster
-- under the record that Ownership keeps in the binding's status. Watch turns the changes of pools, outputs and
-- bindings into requests for Reconcile, and Metrics counts the statuses that Reconcile leaves. Inspection reads the
-- cluster as Reconcile does, with the planning of Identity and the names of Spirecm, and writes nothing. Cli runs
-- it and turns its outcome into an exit code.
--
-- Bounds: RetryOnConflict runs its function again as often as the field `retries` of Platform says; every
-- other loop is structural recursion.
--
-- What is simplified: logs are left out; nil and empty lists are not told apart; a generation is a natural
-- number; %q keeps a printable character; ToLower is modelled as far as the sanitised label can show it; the
-- reconciler's recorders are present or not.
--
-- Printed numbers and the text of a kind are arguments; a clock is a text; texts are printed as lines.
--
-- Not modelled: the registration of indexes and of metrics, JSON output, the construction of Kubernetes clients,
-- the parsing of arguments, and the wiring of the controller manager.
pub mod Prelude
pub mod Errors
pub mod Value
pub mod Api
pub mod Identity
pub mod Platform
pub mod Gaie
pub mod Cluster
pub mod Spirecm
pub mod Controller
pub mod Inspection
pub mod Cli
pub mod Examples
