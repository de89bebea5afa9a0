-- ===== src/Cluster/Events.antt =====
-- The small cluster with everyone who acts on it: clients, the webhook that their requests pass, the
-- controller and the node agent that runs the pods.
use agenttask_operator.Base.{arith, ℕ, ◌≡◌, refl, inl, inr, List, [], ◌∷◌, if◌then◌else◌}
use agenttask_operator.Api.Core.{NamespacedName, ContainerStatus, PodPhase}
use agenttask_operator.Api.Task.{AgentTask}
use agenttask_operator.Platform.{Result-cases, ok, err, delete_task, update_task}
use agenttask_operator.Webhook.{validate_update}
use agenttask_operator.Cluster.{
  Objects, world_at, serve, is_marked, find, replace, erase, pod_key, task_key,
}
use agenttask_operator.Controller.Reconcile.{reconcile}

-- An update of the object, which the webhook compares with the one that is stored. The server stores it only
-- if that is still the one, so the two are one step.
unfoldable pub edit : AgentTask → Objects → Objects
edit new s = elim (find task_key (task_key new) s.tasks) [
  | ok old ↦ elim (validate_update old new) [ ok _ ↦ (serve (update_task new) s).1 | err _ ↦ s ]
  | err _ ↦ s
]

-- The node agent ends a pod that is marked for deletion.
unfoldable pub end_pod : NamespacedName → Objects → Objects
end_pod k s = elim (find pod_key k s.pods) [
  | ok pod ↦ if is_marked pod.meta then record s { pods = erase pod_key k s.pods } else s
  | err _ ↦ s
]

-- The node agent reports the phase of a pod and the statuses of its containers, if the pod is there.
unfoldable pub report : NamespacedName → PodPhase → List ContainerStatus → Objects → Objects
report k phase statuses s = elim (find pod_key k s.pods) [
  | ok pod ↦ record s {
    pods = replace pod_key (record pod { phase = phase; container_statuses = statuses }) s.pods;
  }
  | err _ ↦ s
]

pub data Event : Type 0 where
  edits : AgentTask → Event
  deletes : NamespacedName → Event
  -- from a reading of the clock on
  reconciles : NamespacedName → ℕ → Event
  reports : NamespacedName → PodPhase → List ContainerStatus → Event
  ends : NamespacedName → Event

unfoldable pub happen : Event → Objects → Objects
unfolding edit report end_pod
happen (edits new) s = edit new s
happen (deletes k) s = (serve (delete_task k) s).1
happen (reconciles k n) s = (reconcile k (world_at n s)).1.api
happen (reports k phase statuses) s = report k phase statuses s
happen (ends k) s = end_pod k s

unfoldable pub play : List Event → Objects → Objects
unfolding happen
play [] s = s
play (event ∷ events) s = play events (happen event s)

pub report_tasks :
    (k : NamespacedName) (phase : PodPhase) (statuses : List ContainerStatus) (s : Objects)
    → (report k phase statuses s).tasks ≡ s.tasks
unfolding report
report_tasks k phase statuses s = elim (Result-cases (find pod_key k s.pods)) [
  | inl (pod, e) ↦ rw (e, report) refl
  | inr (x, e) ↦ rw (e, report) refl
]

pub end_pod_tasks : (k : NamespacedName) (s : Objects) → (end_pod k s).tasks ≡ s.tasks
unfolding end_pod
end_pod_tasks k s = ground arith
