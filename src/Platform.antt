-- ===== src/Platform.antt =====
-- What the operator runs against and does not implement: the Kubernetes API behind controller-
-- runtime's client, the clock, the metrics registry. `Platform` is a parameter of every component:
-- it answers each request from a state of its own, so a reply may be an error at any point and two
-- reads of one object may differ, as they do when other writers are at work.
pub mod Exec
pub mod Sends
pub mod Ends
use agenttask_operator.Base.{ℕ, ◌≡◌, refl, ◌⊎◌, inl, inr, Bool, false, String, ◌<>◌, Option, List}
use agenttask_operator.Api.Core.{
  Time, Duration, NamespacedName, ObjectMeta, OwnerReference, ConfigMap, NetworkPolicy, Pod,
}
use agenttask_operator.Api.Task.{AgentTask}

-- A Go error, by what the operator asks of it: errors.IsNotFound(err) and err.Error().
pub record Error : Type 0 where
  pub not_found : Bool
  pub text : String

-- fmt.Errorf(text)
abbrev pub errorf : String → Error
errorf text = record { not_found = false; text = text }

-- fmt.Errorf(prefix + "%w", err), which errors.IsNotFound looks through
abbrev pub errorf_wrap : String → Error → Error
errorf_wrap prefix e = record e { text = prefix <> e.text }

pub data Result {ℓ} (A : Type ℓ) : Type ℓ where
  ok : A → Result A
  err : Error → Result A

pub Result-cases {ℓ} :
    {A : Type ℓ} (r : Result A) → ((a : A) × (r ≡ ok a)) ⊎ ((e : Error) × (r ≡ err e))
Result-cases (ok a) = inl (a, refl)
Result-cases (err e) = inr (e, refl)

-- The unstructured object that internal/platform/sandbox builds.
pub record Sandbox : Type 0 where
  pub name : String
  pub namespace : String
  pub image : String
  pub command : List String
  pub owner_references : List OwnerReference

-- The calls of client.Client that the repository makes, by the type of the object.
pub data Request : Type 0 where
  get_task : NamespacedName → Request
  list_tasks : String → Request
  create_task : AgentTask → Request
  update_task : AgentTask → Request
  update_status : AgentTask → Request
  delete_task : NamespacedName → Request
  get_pod : NamespacedName → Request
  create_pod : Pod → Request
  delete_pod : NamespacedName → Request
  get_config_map : NamespacedName → Request
  create_config_map : ConfigMap → Request
  get_network_policy : NamespacedName → Request
  create_network_policy : NetworkPolicy → Request
  get_sandbox : NamespacedName → Request
  create_sandbox : Sandbox → Request
  get_crd : String → Request

-- What the server sends back: the object as it is stored, which the client decodes into the caller's
-- variable.
abbrev pub Answer : Request → Type 0
Answer (get_task _) = AgentTask
Answer (list_tasks _) = List AgentTask
Answer (create_task _) = AgentTask
Answer (update_task _) = AgentTask
Answer (update_status _) = AgentTask
Answer (get_pod _) = Pod
Answer (create_pod _) = Pod
Answer (get_config_map _) = ConfigMap
Answer (create_config_map _) = ConfigMap
Answer (get_network_policy _) = NetworkPolicy
Answer (create_network_policy _) = NetworkPolicy
Answer (get_sandbox _) = Sandbox
Answer (create_sandbox _) = Sandbox
Answer _ = Unit

pub record GroupVersionKind : Type 0 where
  pub group : String
  pub version : String
  pub kind : String

-- `clock n` is the n-th reading of time.Now. The rest are functions of the packages that the code
-- calls: metav1.NewControllerRef, errors.NewBadRequest, metav1.Time.IsZero, and ContainsFinalizer,
-- AddFinalizer and RemoveFinalizer of controllerutil, on the object's list of finalizers.
pub record Platform : Type 1 where
  pub State : Type 0
  pub serve : (r : Request) → State → Result (Answer r) × State
  pub clock : ℕ → Time
  pub new_controller_ref : ObjectMeta → GroupVersionKind → OwnerReference
  pub bad_request : String → Error
  pub is_zero_time : Option Time → Bool
  pub contains_finalizer : List String → String → Bool
  pub add_finalizer : List String → String → List String
  pub remove_finalizer : List String → String → List String

-- What the metrics registry is told: tasksTotal.WithLabelValues(phase, reason).Inc() and
-- taskDuration.WithLabelValues(phase).Observe(duration). The duration is kept in nanoseconds.
pub data Metric : Type 0 where
  inc : String → String → Metric
  observe : String → Duration → Metric
