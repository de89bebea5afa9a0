-- ===== src/Controller/Resources.antt =====
-- internal/controller/agenttask_controller.go: the objects that a pending task needs, each looked up
-- by name and created if it is missing.
use agenttask_operator.Base.{
  ℕ, ◌*◌, true, false, String, ◌<>◌, none, some, List, [], ◌∷◌, ◌==◌, if◌then◌else◌,
}
use agenttask_operator.Base.Int.{pos}
use agenttask_operator.Api.Core.{
  NamespacedName, ObjectMeta, ObjectReference, ConfigMap, NetworkPolicy, ingress_type, egress_type,
  never, runtime_default, config_map, empty_dir, read_file, Container, pod_unknown, Pod, empty_meta,
  no_resources,
}
use agenttask_operator.Api.Task.{AgentTask}
use agenttask_operator.Platform.{
  Platform, ok, err, get_pod, create_pod, get_config_map, create_config_map, get_network_policy,
  create_network_policy,
}
use agenttask_operator.Platform.Exec.{Exec, pure, raise, attempt, send, ◌>>=◌, ◌>>◌}
use agenttask_operator.Sandbox.{agent_task_kind}

abbrev pub owned_meta : Platform → AgentTask → String → ObjectMeta
owned_meta P task suffix = record empty_meta {
  name = task.meta.name <> suffix;
  namespace = task.meta.namespace;
  owner_references = P.new_controller_ref task.meta agent_task_kind ∷ [];
}

abbrev pub owned_key : AgentTask → String → NamespacedName
owned_key task suffix = record { name = task.meta.name <> suffix; namespace = task.meta.namespace }

unfoldable pub new_code_config_map : Platform → AgentTask → ConfigMap
new_code_config_map P task = record {
  meta = owned_meta P task "-code";
  contents = ("entrypoint.py", task.spec.code.source) ∷ [];
}

unfoldable pub new_network_policy : Platform → AgentTask → NetworkPolicy
new_network_policy P task = record {
  meta = owned_meta P task "-netpol";
  pod_selector = ("agenttask.io/task", task.meta.name) ∷ [];
  policy_types = ingress_type ∷ egress_type ∷ [];
  ingress = [];
  egress = [];
}

unfoldable pub pod_labels : AgentTask → List (String × String)
pod_labels task =
    ("agenttask.io/task", task.meta.name)
    ∷ (if task.spec.tenant == "" then [] else ("agenttask.io/tenant", task.spec.tenant) ∷ [])

unfoldable pub task_container : AgentTask → String → Container
task_container task image = record {
  name = "task";
  image = image;
  command = "python" ∷ "/workspace/entrypoint.py" ∷ [];
  env = ("PYTHONDONTWRITEBYTECODE", "1") ∷ ("PYTHONUNBUFFERED", "1") ∷ [];
  termination_message_path = "/workspace/artifacts/result.json";
  termination_message_policy = some read_file;
  security_context = some (record {
    allow_privilege_escalation = some false;
    read_only_root_filesystem = some true;
    privileged = none;
    drop = "ALL" ∷ [];
    add = [];
  });
  volume_mounts =
      record { name = "code"; mount_path = "/workspace"; read_only = true }
      ∷ record { name = "tmp"; mount_path = "/tmp"; read_only = false }
      ∷ record { name = "artifacts"; mount_path = "/workspace/artifacts"; read_only = false }
      ∷ [];
  resources = task.spec.resources;
}

abbrev collector_script : String
collector_script =
    "while true; do if [ -d /workspace/artifacts ]; then for f in /workspace/artifacts/*; do if [ -f \"$f\" ]; then echo \"Uploading artifact: $(basename $f)\"; fi; done; fi; sleep 5; done"

-- The sidecar.
unfoldable pub collector_container : Container
collector_container = record {
  name = "artifacts-collector";
  image = "alpine:latest";
  command = "/bin/sh" ∷ "-c" ∷ collector_script ∷ [];
  env = [];
  termination_message_path = "";
  termination_message_policy = none;
  security_context = none;
  volume_mounts =
      record { name = "artifacts"; mount_path = "/workspace/artifacts"; read_only = true } ∷ [];
  resources = no_resources;
}

-- 100Mi
abbrev pub artifacts_size_limit : ℕ
artifacts_size_limit = 100 * 1024 * 1024

-- The status is the server's to fill in.
unfoldable pub new_pod : Platform → AgentTask → String → String → Pod
unfolding pod_labels task_container collector_container
new_pod P task cm_name image = record {
  meta = record (owned_meta P task "-pod") { labels = pod_labels task };
  restart_policy = never;
  security_context = some (record {
    run_as_non_root = some true;
    run_as_user = some (pos 1000);
    seccomp_profile = some runtime_default;
  });
  containers = task_container task image ∷ collector_container ∷ [];
  volumes =
      record { name = "code"; source = config_map cm_name }
      ∷ record { name = "tmp"; source = empty_dir none }
      ∷ record { name = "artifacts"; source = empty_dir (some artifacts_size_limit) }
      ∷ [];
  phase = pod_unknown;
  container_statuses = [];
}

-- task with Status.PodRef set
abbrev pub with_pod_ref : AgentTask → ObjectReference → AgentTask
with_pod_ref task ref = record task { status = record (task.status) { pod_ref = ref } }

abbrev pub pod_ref_of : Pod → ObjectReference
pod_ref_of pod = record { kind = "Pod"; name = pod.meta.name; namespace = pod.meta.namespace }

module _ {P : Platform} where
  unfoldable pub ensure_source_config_map : AgentTask → Exec P String
  ensure_source_config_map task = do
    let cm_name = task.meta.name <> "-code"
    found ← attempt (send (get_config_map (owned_key task "-code")))
    elim found [
      | ok _ ↦ pure cm_name
      | err e ↦
          if e.not_found
          then (do send (create_config_map (new_code_config_map P task)); pure cm_name)
          else raise e
    ]

  unfoldable pub ensure_code_config_map : AgentTask → Exec P String
  unfolding ensure_source_config_map new_code_config_map
  ensure_code_config_map task = elim task.spec.code.config_map_ref [
    | some ref ↦ pure ref.name
    | none ↦ if task.spec.code.source == "" then pure "" else ensure_source_config_map task
  ]

  unfoldable pub ensure_network_policy : AgentTask → Exec P (Unit {0})
  unfolding new_network_policy
  ensure_network_policy task = do
    found ← attempt (send (get_network_policy (owned_key task "-netpol")))
    elim found [
      | ok _ ↦ pure tt
      | err e ↦
          if e.not_found
          then (do send (create_network_policy (new_network_policy P task)); pure tt)
          else raise e
    ]

  unfoldable pub find_or_create_pod : AgentTask → String → String → Exec P Pod
  unfolding new_pod
  find_or_create_pod task cm_name image = do
    found ← attempt (send (get_pod (owned_key task "-pod")))
    elim found [
      | ok pod ↦ pure pod
      | err e ↦ if e.not_found then send (create_pod (new_pod P task cm_name image)) else raise e
    ]

  -- Returns the value that the source writes to task.Status.PodRef.
  unfoldable pub ensure_pod : AgentTask → String → String → Exec P ObjectReference
  unfolding find_or_create_pod
  ensure_pod task cm_name image = do
    pod ← find_or_create_pod task cm_name image
    pure (pod_ref_of pod)
