-- ===== src/Lib.antt =====
-- The AgentTask operator: a Kubernetes controller that runs untrusted code as pods or sandboxes, the
-- webhook that admits AgentTask objects, their API types, the process that hosts them, the command line
-- tool agentctl and the helpers of the end-to-end tests, modelled from the Go source.
--
-- The program's parts and the files that model them.
-- - api/v1alpha1/agenttask_types.go: Api/Task has the resource with every field of its spec and
--   status; a phase is one of the values of the definition's enum, or unset. Api/Core has the
--   Kubernetes objects that the code reads and writes, with the fields that it touches. int32 values
--   are integers, times and durations are integer nanoseconds.
-- - api/v1alpha1/zz_generated.deepcopy.go: DeepCopy has the objects as they lie in memory, behind pointers,
--   DeepCopy/Functions the copies, DeepCopy/Meaning what an object in memory stands for as a value of
--   Api/Task. DeepCopy/Regions is about statements that depend on some addresses only, DeepCopy/Parts
--   about pointers and slices, DeepCopy/StatusCopy and DeepCopy/Objects about the copies of the status and
--   of the other types, DeepCopy/Sharing about a task and DeepCopy/ListCopy about a list. The deep copies
--   of the Kubernetes types are a parameter, the record Library.
-- - sigs.k8s.io/controller-runtime's client, the clock and helpers of apimachinery are not part of
--   the repository. Platform is a record of them, taken as a parameter: `serve` answers each request
--   from a state of its own with a value or an error, so theorems without further assumptions hold
--   whatever the API server and other writers do. Platform/Exec has the program's steps: a step may
--   return a Go error, and the world keeps the requests sent, the readings of the clock and what the
--   metrics are told. An object that the client overwrites with the server's reply is the reply.
-- - internal/platform/sandbox/manager.go: Sandbox (EnsureSandbox).
-- - internal/webhook/v1alpha1/agenttask_webhook.go: Webhook (validateAgentTask, ValidateCreate,
--   ValidateUpdate, ValidateDelete). Webhook/Rules says what they accept, Webhook/Admission what that
--   means over time in a namespace.
-- - internal/controller/agenttask_controller.go: Controller/Backend (selectBackend,
--   checkSandboxAvailability, resolveRuntimeProfile), Controller/Resources (ensureCodeConfigMap,
--   ensureNetworkPolicy, ensurePod), Controller/Outcome (handlePodFailure, handlePodSuccess,
--   updatePhaseFailure, the metrics), Controller/Cleanup (reconcileCanceled, checkTimeout,
--   reconcileTimeout, finalizeAgentTask), Controller/Phases (reconcilePending, reconcileScheduled,
--   reconcileRunning) and Controller/Reconcile (Reconcile). A handler that changes the task in place
--   passes the changed task on; what the source computes and then drops is dropped too.
--   Controller/Safety has the requests that a reconciliation may send, as the relation `Allowed`, the
--   traversal of every handler that shows that it sends no others, and what follows;
--   Controller/Deadlines and Controller/Expiry are about time limits and expiry, Controller/Selection
--   about the backend, Controller/Profiles about the image, Controller/Reports about what is reported
--   of a pod, Controller/Counts about the metrics, Controller/Finalizer about the removal of a task
--   and Controller/Progress about what becomes of a task when the API server is in order.
--   Controller/Permissions has the file's +kubebuilder:rbac markers and compares them with the requests
--   that the handlers send, Controller/Admitted those requests with what the webhook accepts, and
--   Controller/Metrics the two collectors with their labels.
--   Platform/Sends and Platform/Ends have the rules by which steps are followed: which requests they
--   may send, and that they return no error.
-- - Cluster is a small cluster to run the model on, an instance of Platform with the documented
--   behaviour that the code relies on: a deletion marks a task that has finalizers, and the task goes
--   with the last of them; a creation takes no status from the client, an update keeps
--   the status and the mark; a deletion of a pod marks it, and the node agent ends it; a pod with a volume of a config map that has no name is refused. It has no
--   quotas and no other validation, so theorems on it are about a server that admits the rest. It has
--   its store (Cluster/Store), what a whole reconciliation leaves in it (Cluster/Versions,
--   Cluster/Lifecycle), the abstract machine of a task's phases that it follows (Cluster/Refinement),
--   sequences of reconciliations (Cluster/Termination), what becomes of a placed task by its pod
--   (Cluster/Progress, with Cluster/Writes and Cluster/Looks for the handlers), what is left when a
--   task is deleted, canceled or late (Cluster/Endings, with Cluster/Cleanup), and how a new task is
--   placed (Cluster/Arrival, with Cluster/Placement and Cluster/Serving). Cluster/Events adds the
--   others who act on it: clients, whose updates pass the webhook, and the node agent, which reports
--   the phases of pods and ends them. Cluster/System adds creations in flight: the webhook validates a
--   creation against what is stored then, and the server stores it later. Cluster/Story follows a task
--   from its arrival to its end by the steps of Cluster/Stations (Cluster/PodPlacement, with
--   Cluster/Scene, has what becomes of the pods on the way); Cluster/Journey starts from the command
--   line, and Cluster/Deletion is about a task's deletion by a client; Cluster/Race is about two
--   creations in flight. Cluster/Soundness and Cluster/Heirs are about all of them in any order, by
--   what an event does to the list of the stored tasks (Cluster/Changes and Cluster/Exchange, with
--   Cluster/Clients for the requests of clients). Cluster/Leaves has the rules for a part of the store
--   that a step leaves alone.
-- - cmd/main.go: Startup has the flags, the options of the two servers and of the manager, and the calls
--   that may fail. Startup/Protocols is about TLS, Startup/Calls about the order of the calls. What
--   controller-runtime returns is a parameter, the record Runtime.
-- - cmd/agentctl/cmd: Agentctl has the flags, the reports and, as the record Tools, the packages that the
--   commands call; Agentctl/Names derives a task's name from a path (run.go), Agentctl/Commands has the
--   commands (run.go, list.go, get.go, describe.go, delete.go, logs.go, root.go). Agentctl/Requests is
--   about what they send, Agentctl/Stems about the name, Agentctl/Reports about what they print.
-- - test/utils/utils.go: TestUtils, over the record Host of the machine it runs on; TestUtils/Uncomment
--   and TestUtils/Commands say what the helpers make of texts.
-- - Text has bytes and the functions of Go's packages strings and bufio that these use, written from
--   their documentation; Text/Search and Text/Lines say what they find.
-- - Tests has the theorems at concrete inputs.
--
-- How the parts interact: the webhook's step and the controller's writes act on the same tasks, which
-- Webhook/Admission puts together in one relation, for any platform, and Cluster/Events runs together on
-- the small cluster in any order; the controller relies on the webhook for the
-- profiles that it can resolve. The commands of agentctl send requests to the same platform, and what
-- `run` submits is what the webhook validates.
--
-- Bounds: durations are int64 and wrap as `wrap64` says. Every loop of the program runs over a list
-- that it was given and is structural recursion here, so nothing needs fuel. The scanner of
-- lines has bufio's limit of 64 KiB on a line.
--
-- Not modelled: the memory of objects outside DeepCopy (elsewhere an object is the value that it stands
-- for), the log lines, the parsing of flags and the registration of schemes, the layout that a tabwriter
-- gives to lines, the suites of tests, the manifests under config (the role is modelled by the markers that
-- it is generated from), the buckets of the histogram, and the conversion of a duration to a floating-point
-- number of seconds in the metrics, which keep the duration itself.
pub mod Base
pub mod Api
pub mod Platform
pub mod Sandbox
pub mod Webhook
pub mod Controller
pub mod Cluster
pub mod Text
pub mod TestUtils
pub mod Agentctl
pub mod Startup
pub mod DeepCopy
pub mod Tests
