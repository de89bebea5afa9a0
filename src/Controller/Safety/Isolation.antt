-- ===== src/Controller/Safety/Isolation.antt =====
-- What a pod that the controller creates may do, and what the network lets it reach.
use agenttask_operator.Base.{
  ◌≡◌, ◌≢◌, refl, true, false, none, some, String, ◌<>◌, List, [], ◌∷◌, arith, All, All-weaken,
  lookup, eq_iff,
}
use agenttask_operator.Base.Int.{pos}
use agenttask_operator.Api.Core
use agenttask_operator.Api.Core.{
  ObjectMeta, NetworkPolicy, Container, Pod, Volume, VolumeSource, runtime_default, never,
  ingress_type, egress_type,
}
use agenttask_operator.Api.Task.{AgentTask}
use agenttask_operator.Platform
use agenttask_operator.Platform.{Platform, Request}
use agenttask_operator.Platform.Exec.{World}
use agenttask_operator.Platform.Sends.{sent, sent-All}
use agenttask_operator.Sandbox.{agent_task_kind}
use agenttask_operator.Controller.Resources.{new_pod, new_network_policy, new_code_config_map}
use agenttask_operator.Controller.Reconcile.{reconcile_task}
use agenttask_operator.Controller.Safety.Allowed.{Allowed}
use agenttask_operator.Controller.Safety.Whole.{reconcile_task-Sends}

-- The container that runs the task's code: no new privileges, a read-only root, no capabilities.
abbrev pub IsConfined : Container → Type 0
IsConfined c = elim c.security_context [
  | none ↦ ⊥
  | some s ↦
      (s.allow_privilege_escalation ≡ some false)
      × (s.read_only_root_filesystem ≡ some true)
      × (s.privileged ≢ some true)
      × (s.drop ≡ "ALL" ∷ [])
      × (s.add ≡ [])
]

-- A container that asks for no privileges beyond those of the pod.
abbrev pub IsModest : Container → Type 0
IsModest c = elim c.security_context [
  | none ↦ Unit
  | some s ↦ (s.allow_privilege_escalation ≢ some true) × (s.privileged ≢ some true) × (s.add ≡ [])
]

abbrev pub IsInCluster : VolumeSource → Type 0
IsInCluster (Core.host_path _) = ⊥
IsInCluster _ = Unit

abbrev pub IsUnprivileged : Pod → Type 0
IsUnprivileged pod = elim pod.security_context [
  | none ↦ ⊥
  | some s ↦
      (s.run_as_non_root ≡ some true)
      × (s.run_as_user ≡ some (pos 1000))
      × (s.seccomp_profile ≡ some runtime_default)
]

-- Each label that the selector asks for is on the pod.
abbrev pub Selects : List (String × String) → List (String × String) → Type 0
Selects selector labels = All (λ wanted. lookup wanted.0 labels ≡ some wanted.1) selector

pub record IsIsolated (P : Platform) (task : AgentTask) (pod : Pod) : Type 0 where
  pub unprivileged : IsUnprivileged pod
  pub confined : All (λ c. c.name ≡ "task" → IsConfined c) pod.containers
  pub modest : All IsModest pod.containers
  pub volumes : All (λ v. IsInCluster v.source) pod.volumes
  pub not_restarted : pod.restart_policy ≡ never
  pub selected : Selects (new_network_policy P task).pod_selector pod.meta.labels
  pub namespace : pod.meta.namespace ≡ (new_network_policy P task).meta.namespace

new_pod-IsIsolated :
    (P : Platform) (task : AgentTask) (cm_name image : String)
    → IsIsolated P task (new_pod P task cm_name image)
unfolding new_pod new_network_policy
new_pod-IsIsolated P task cm_name image = record {
  unprivileged = (refl, refl, refl);
  confined = (
    λ _. (refl, refl, λ e. cc (e), refl, refl),
    (λ e. absurd (ground (arith, eq_iff "artifacts-collector" "task")), tt),
  );
  modest = ((λ e. cc e, λ e. cc e, refl), (tt, tt));
  volumes = (tt, (tt, (tt, tt)));
  not_restarted = refl;
  selected = (refl, tt);
  namespace = refl;
}

-- No rule admits traffic, and both directions are governed.
pub record IsDenyAll (n : NetworkPolicy) : Type 0 where
  pub no_ingress : n.ingress ≡ []
  pub no_egress : n.egress ≡ []
  pub both : n.policy_types ≡ ingress_type ∷ egress_type ∷ []

new_network_policy-IsDenyAll :
    (P : Platform) (task : AgentTask) → IsDenyAll (new_network_policy P task)
unfolding new_network_policy
new_network_policy-IsDenyAll P task = record { no_ingress = refl; no_egress = refl; both = refl }

abbrev pub KeepsIsolation : Platform → AgentTask → Request → Type 0
KeepsIsolation P task (Platform.create_pod pod) = IsIsolated P task pod
KeepsIsolation P task (Platform.create_network_policy n) = IsDenyAll n
KeepsIsolation P task _ = Unit

-- Where a request creates an object, the object's name and namespace are derived from the task's,
-- and the task is its only owner.
pub record IsOwned (P : Platform) (task : AgentTask) (suffix : String) (m : ObjectMeta)
    : Type 0 where
  pub name : m.name ≡ task.meta.name <> suffix
  pub namespace : m.namespace ≡ task.meta.namespace
  pub owner : m.owner_references ≡ P.new_controller_ref task.meta agent_task_kind ∷ []

abbrev pub KeepsOwnership : Platform → AgentTask → Request → Type 0
KeepsOwnership P task (Platform.create_pod pod) = IsOwned P task "-pod" pod.meta
KeepsOwnership P task (Platform.create_config_map cm) = IsOwned P task "-code" cm.meta
KeepsOwnership P task (Platform.create_network_policy n) = IsOwned P task "-netpol" n.meta
KeepsOwnership P task (Platform.create_sandbox s) =
    (s.name ≡ task.meta.name <> "-sandbox")
    × (s.namespace ≡ task.meta.namespace)
    × (s.owner_references ≡ P.new_controller_ref task.meta agent_task_kind ∷ [])
KeepsOwnership P task (Platform.create_task t) = ⊥
KeepsOwnership P task _ = Unit

module _ (P : Platform) (task : AgentTask) where
  Allowed-isolates : (r : Request) → Allowed P task r → KeepsIsolation P task r
  Allowed-isolates _ (Allowed.creates_pod cm_name image) = new_pod-IsIsolated P task cm_name image
  Allowed-isolates _ Allowed.creates_network_policy = new_network_policy-IsDenyAll P task
  Allowed-isolates _ (Allowed.reads_pod k) = tt
  Allowed-isolates _ _ = tt

  Allowed-owns : (r : Request) → Allowed P task r → KeepsOwnership P task r
  unfolding new_pod new_network_policy new_code_config_map
  Allowed-owns _ (Allowed.creates_pod cm_name image) = record {
    name = refl;
    namespace = refl;
    owner = refl;
  }
  Allowed-owns _ Allowed.creates_network_policy = record {
    name = refl;
    namespace = refl;
    owner = refl;
  }
  Allowed-owns _ Allowed.creates_config_map = record { name = refl; namespace = refl; owner = refl }
  Allowed-owns _ (Allowed.creates_sandbox image) = (refl, refl, refl)
  Allowed-owns _ _ = tt

  -- Whatever the cluster answers, every pod that a reconciliation of the task creates runs as user
  -- 1000 and not as root under the default seccomp profile, is never restarted, mounts no host path,
  -- confines the container named "task" (no privilege escalation, a read-only root file system, every
  -- capability dropped), has no container that asks to be privileged, for privilege escalation or for
  -- further capabilities, and carries the labels, in the same namespace, that the task's network
  -- policy selects; and every network policy that it creates denies all traffic both ways. The other
  -- container has no settings of its own that forbid escalation or writes to its root file system.
  pub created_pods_isolated :
      (w : World P) → All (KeepsIsolation P task) (sent (reconcile_task task) w)
  created_pods_isolated w =
      All-weaken Allowed-isolates _ (sent-All (reconcile_task task) (reconcile_task-Sends P task) w)

  -- Whatever the cluster answers, every pod, config map, network policy and sandbox that a
  -- reconciliation of the task creates is named after the task with its own suffix, lies in the
  -- task's namespace and has the task's controller reference as its only owner; and no task is
  -- created.
  pub created_objects_owned :
      (w : World P) → All (KeepsOwnership P task) (sent (reconcile_task task) w)
  created_objects_owned w =
      All-weaken Allowed-owns _ (sent-All (reconcile_task task) (reconcile_task-Sends P task) w)
