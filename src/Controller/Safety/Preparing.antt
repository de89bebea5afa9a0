-- ===== src/Controller/Safety/Preparing.antt =====
-- internal/controller/agenttask_controller.go: the requests of the handlers that choose a backend and an
-- image and create what a task needs. They read, and create the task's objects.
use agenttask_operator.Base.{Bool, String, lookup}
use agenttask_operator.Api.Core.{NamespacedName, ConfigMap, Pod}
use agenttask_operator.Api.Task.{AgentTask}
use agenttask_operator.Platform
use agenttask_operator.Platform.{Platform, Request, create_pod}
use agenttask_operator.Platform.Exec.{Exec, send}
use agenttask_operator.Platform.Sends.{
  Sends, Sends-bind_attempt, Sends-Option, Sends-send, sends_rules,
}
use agenttask_operator.Sandbox.{new_sandbox, create, ensure_sandbox}
use agenttask_operator.Controller.Backend.{
  check_sandbox_availability, sandbox_available, choose_backend, select_backend, default_image,
  fallback_image, profile_key, resolve_runtime_profile,
}
use agenttask_operator.Controller.Resources.{
  ensure_source_config_map, ensure_code_config_map, ensure_network_policy, find_or_create_pod,
  ensure_pod, new_pod, new_code_config_map, new_network_policy,
}

pub data Preparing (P : Platform) (task : AgentTask) : Request → Type 0 where
  reads_pod : (k : NamespacedName) → Preparing P task (Platform.get_pod k)
  reads_config_map : (k : NamespacedName) → Preparing P task (Platform.get_config_map k)
  reads_network_policy : (k : NamespacedName) → Preparing P task (Platform.get_network_policy k)
  reads_sandbox : (k : NamespacedName) → Preparing P task (Platform.get_sandbox k)
  reads_crd : (name : String) → Preparing P task (Platform.get_crd name)
  creates_config_map : Preparing P task (Platform.create_config_map (new_code_config_map P task))
  creates_network_policy :
      Preparing P task (Platform.create_network_policy (new_network_policy P task))
  creates_pod :
      (cm_name image : String)
      → Preparing P task (Platform.create_pod (new_pod P task cm_name image))
  creates_sandbox :
      (image : String) → Preparing P task (Platform.create_sandbox (new_sandbox P task image))

ruleset requests = (
  sends_rules, reads_pod, reads_config_map, reads_network_policy, reads_sandbox, reads_crd,
  creates_config_map, creates_network_policy, creates_pod, creates_sandbox,
)

abbrev pub Prepares {ℓ} : (P : Platform) → AgentTask → {A : Type ℓ} → Exec P A → Type 1
Prepares P task {A = A} m = Sends {P = P} {A = A} (Preparing P task) m

module _ (P : Platform) (task : AgentTask) where
  create-Prepares : (image : String) → Prepares P task (create task image)
  unfolding create
  create-Prepares image = search requests

  pub ensure_sandbox-Prepares :
      (cm_name image : String) → Prepares P task (ensure_sandbox task cm_name image)
  unfolding ensure_sandbox
  ensure_sandbox-Prepares cm_name image = search (requests, create-Prepares)

  check_sandbox_availability-Prepares : Prepares P task check_sandbox_availability
  unfolding check_sandbox_availability
  check_sandbox_availability-Prepares = search requests

  sandbox_available-Prepares : Prepares P task sandbox_available
  unfolding sandbox_available
  sandbox_available-Prepares = search (requests, check_sandbox_availability-Prepares)

  choose_backend-Prepares :
      (requested : String) (available : Bool) → Prepares P task (choose_backend requested available)
  unfolding choose_backend
  choose_backend-Prepares requested available = search requests

  pub select_backend-Prepares : Prepares P task (select_backend task)
  unfolding select_backend
  select_backend-Prepares = search (requests, sandbox_available-Prepares, choose_backend-Prepares)

  fallback_image-Prepares :
      (profile backend : String) → Prepares P task (fallback_image profile backend)
  unfolding fallback_image
  fallback_image-Prepares profile backend =
      Sends-Option (default_image profile backend) _ _ (search requests) (λ image. search requests)

  pub resolve_runtime_profile-Prepares :
      (profile backend namespace : String)
      → Prepares P task (resolve_runtime_profile profile backend namespace)
  unfolding resolve_runtime_profile
  resolve_runtime_profile-Prepares profile backend namespace =
      Sends-bind_attempt _ _ (search requests)
        (λ (cm : ConfigMap).
          Sends-Option (lookup (profile_key profile backend) cm.contents) _ _
            (fallback_image-Prepares profile backend) (λ image. search requests))
        (λ e. fallback_image-Prepares profile backend)

  ensure_source_config_map-Prepares : Prepares P task (ensure_source_config_map task)
  unfolding ensure_source_config_map
  ensure_source_config_map-Prepares = search requests

  pub ensure_code_config_map-Prepares : Prepares P task (ensure_code_config_map task)
  unfolding ensure_code_config_map
  ensure_code_config_map-Prepares =
      Sends-Option task.spec.code.config_map_ref _ _
        (search (sends_rules, ensure_source_config_map-Prepares)) (λ ref. search sends_rules)

  pub ensure_network_policy-Prepares : Prepares P task (ensure_network_policy task)
  unfolding ensure_network_policy
  ensure_network_policy-Prepares = search requests

  create_pod-Prepares :
      (cm_name image : String)
      → Prepares P task {A = Pod} (send (create_pod (new_pod P task cm_name image)))
  create_pod-Prepares cm_name image =
      Sends-send {Q = Preparing P task} (create_pod (new_pod P task cm_name image))
        (creates_pod cm_name image)

  find_or_create_pod-Prepares :
      (cm_name image : String) → Prepares P task (find_or_create_pod task cm_name image)
  unfolding find_or_create_pod
  find_or_create_pod-Prepares cm_name image = search (requests, create_pod-Prepares)

  pub ensure_pod-Prepares :
      (cm_name image : String) → Prepares P task (ensure_pod task cm_name image)
  unfolding ensure_pod
  ensure_pod-Prepares cm_name image = search (requests, find_or_create_pod-Prepares)
