-- ===== src/Controller/Safety/Traversal.antt =====
-- internal/controller/agenttask_controller.go: the requests of the handlers that choose and create, as
-- requests that a reconciliation may send.
use agenttask_operator.Base.{String}
use agenttask_operator.Api.Task.{AgentTask}
use agenttask_operator.Platform.{Platform, Request}
use agenttask_operator.Platform.Sends.{Sends, Sends-weaken}
use agenttask_operator.Sandbox.{ensure_sandbox}
use agenttask_operator.Controller.Backend.{select_backend, resolve_runtime_profile}
use agenttask_operator.Controller.Resources.{
  ensure_code_config_map, ensure_network_policy, ensure_pod,
}
use agenttask_operator.Controller.Safety.Allowed.{Allowed}
use agenttask_operator.Controller.Safety.Preparing.{
  Preparing, ensure_sandbox-Prepares, select_backend-Prepares, resolve_runtime_profile-Prepares,
  ensure_code_config_map-Prepares, ensure_network_policy-Prepares, ensure_pod-Prepares,
}

module _ (P : Platform) (task : AgentTask) where
  Preparing-Allowed : (r : Request) → Preparing P task r → Allowed P task r
  Preparing-Allowed _ (Preparing.reads_pod k) = Allowed.reads_pod k
  Preparing-Allowed _ (Preparing.reads_config_map k) = Allowed.reads_config_map k
  Preparing-Allowed _ (Preparing.reads_network_policy k) = Allowed.reads_network_policy k
  Preparing-Allowed _ (Preparing.reads_sandbox k) = Allowed.reads_sandbox k
  Preparing-Allowed _ (Preparing.reads_crd name) = Allowed.reads_crd name
  Preparing-Allowed _ Preparing.creates_config_map = Allowed.creates_config_map
  Preparing-Allowed _ Preparing.creates_network_policy = Allowed.creates_network_policy
  Preparing-Allowed _ (Preparing.creates_pod cm_name image) = Allowed.creates_pod cm_name image
  Preparing-Allowed _ (Preparing.creates_sandbox image) = Allowed.creates_sandbox image

  pub ensure_sandbox-Sends :
      (cm_name image : String) → Sends {P = P} (Allowed P task) (ensure_sandbox task cm_name image)
  ensure_sandbox-Sends cm_name image =
      Sends-weaken _ Preparing-Allowed (ensure_sandbox-Prepares P task cm_name image)

  pub select_backend-Sends : Sends {P = P} (Allowed P task) (select_backend task)
  select_backend-Sends = Sends-weaken _ Preparing-Allowed (select_backend-Prepares P task)

  pub resolve_runtime_profile-Sends :
      (profile backend namespace : String)
      → Sends {P = P} (Allowed P task) (resolve_runtime_profile profile backend namespace)
  resolve_runtime_profile-Sends profile backend namespace =
      Sends-weaken _ Preparing-Allowed
        (resolve_runtime_profile-Prepares P task profile backend namespace)

  pub ensure_code_config_map-Sends : Sends {P = P} (Allowed P task) (ensure_code_config_map task)
  ensure_code_config_map-Sends =
      Sends-weaken _ Preparing-Allowed (ensure_code_config_map-Prepares P task)

  pub ensure_network_policy-Sends : Sends {P = P} (Allowed P task) (ensure_network_policy task)
  ensure_network_policy-Sends =
      Sends-weaken _ Preparing-Allowed (ensure_network_policy-Prepares P task)

  pub ensure_pod-Sends :
      (cm_name image : String) → Sends {P = P} (Allowed P task) (ensure_pod task cm_name image)
  ensure_pod-Sends cm_name image =
      Sends-weaken _ Preparing-Allowed (ensure_pod-Prepares P task cm_name image)
