-- ===== src/Cluster.antt =====
-- The Kubernetes API as the controller meets it: a program is a tree of calls, and each call goes on with
-- whatever the cluster answers. Nothing is assumed of the answers, so what holds of every path of a tree
-- holds whatever other controllers and users do between two calls.
use kleym.Prelude.{◌≡◌, refl, ℕ, List, Option}
use kleym.Prelude.Text.{Text}
use kleym.Errors.{Result, ok, err}
use kleym.Value.{Value}
use kleym.Identity.{NamespacedName}
use kleym.Api.{InferenceIdentityBinding}
use kleym.Gaie.{GroupVersionKind}
use kleym.Gaie.Selector.{InferencePool}

-- A ClusterSPIFFEID, an unstructured object: of its metadata what the code reads or writes.
pub record ClusterSpiffeId : Type 0 where
  pub name : Text
  pub uid : Text
  pub generation : ℕ
  pub labels : List (Text × Text)
  pub annotations : List (Text × Text)
  pub spec : Value

-- Of a Pod what the inspection reads: its containers by their names.
pub record Pod : Type 0 where
  pub name : Text
  pub namespace : Text
  pub service_account_name : Text
  pub labels : List (Text × Text)
  pub containers : List Text

-- Of a Deployment what the status inspection reads.
pub record Container : Type 0 where
  pub name : Text
  pub image : Text
  pub args : List Text

pub record Deployment : Type 0 where
  pub name : Text
  pub namespace : Text
  pub replicas : Option ℕ
  pub ready_replicas : ℕ
  pub containers : List Container

pub data Call : Type 0 where
  get_binding : NamespacedName → Call
  list_bindings : Text → Call
  -- `List` with `MatchingFields` on an index: the bindings of a namespace by the name of their pool, and the
  -- bindings of the cluster by the name of their output.
  list_bindings_by_pool : Text → Text → Call
  list_bindings_by_output : Text → Call
  list_all_bindings : Call
  -- `List` of pods and of deployments with `MatchingLabels`.
  list_pods : Text → List (Text × Text) → Call
  list_deployments : List (Text × Text) → Call
  -- `RESTMapping`.
  rest_mapping : GroupVersionKind → Call
  update_binding : InferenceIdentityBinding → Call
  -- `Status().Patch` with an optimistic lock: the object that was read, and the one that is wanted.
  patch_status : InferenceIdentityBinding → InferenceIdentityBinding → Call
  get_pool : GroupVersionKind → NamespacedName → Call
  get_output : Text → Call
  create_output : ClusterSpiffeId → Call
  update_output : ClusterSpiffeId → Call
  -- `Delete` with the precondition that the live object has the given UID.
  delete_output : Text → Text → Call
  -- `uuid.NewUUID`.
  new_uuid : Call
  -- `MetricsRecorder.RecordTerminalOutcome` and `Recorder.Eventf`: event type, reason and message.
  record_outcome : InferenceIdentityBinding → Call
  record_event : InferenceIdentityBinding → Text → Text → Text → Call

abbrev pub Reply : Call → Type 0
Reply (get_binding key) = Result InferenceIdentityBinding
Reply (list_bindings namespace) = Result (List InferenceIdentityBinding)
Reply (list_bindings_by_pool namespace pool_name) = Result (List InferenceIdentityBinding)
Reply (list_bindings_by_output name) = Result (List InferenceIdentityBinding)
Reply list_all_bindings = Result (List InferenceIdentityBinding)
Reply (list_pods namespace labels) = Result (List Pod)
Reply (list_deployments labels) = Result (List Deployment)
Reply (rest_mapping gvk) = Result (Unit {0})
Reply (update_binding binding) = Result InferenceIdentityBinding
Reply (patch_status base target) = Result InferenceIdentityBinding
Reply (get_pool gvk key) = Result InferencePool
Reply (get_output name) = Result ClusterSpiffeId
Reply (create_output object) = Result ClusterSpiffeId
Reply (update_output object) = Result ClusterSpiffeId
Reply (delete_output name uid) = Result (Unit {0})
Reply new_uuid = Text
Reply (record_outcome binding) = Unit
Reply (record_event binding kind reason message) = Unit

pub data Prog (A : Type 0) : Type 0 where
  done : A → Prog A
  call : (c : Call) → (Reply c → Prog A) → Prog A

unfoldable pub bind : {A B : Type 0} → Prog A → (A → Prog B) → Prog B
bind (done a) f = f a
bind (call c k) f = call c (λ r. bind (k r) f)

-- A step that may fail: an error ends the chain.
unfoldable pub try_bind : {A B : Type 0} → Prog (Result A) → (A → Prog (Result B)) → Prog (Result B)
try_bind (done (ok a)) f = f a
try_bind (done (err e)) f = done (err e)
try_bind (call c k) f = call c (λ r. try_bind (k r) f)

abbrev pub perform : (c : Call) → Prog (Reply c)
perform c = call c done

-- The result when each call is answered by a function.
unfoldable pub run : {A : Type 0} → ((c : Call) → Reply c) → Prog A → A
run answer (done a) = a
run answer (call c k) = run answer (k (answer c))

pub run-bind :
    {A B : Type 0} (answer : (c : Call) → Reply c) (p : Prog A) (f : A → Prog B)
    → run answer (bind p f) ≡ run answer (f (run answer p))
unfolding run bind
run-bind answer (done a) f = refl
run-bind answer (call c k) f = run-bind answer (k (answer c)) f
