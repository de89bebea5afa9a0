-- ===== src/Tests/Outcomes.antt =====
-- The choice of a backend, the end of a task and its removal on the small cluster.
use agenttask_operator.Base.{◌≡◌, refl, ◌↔◌, ◌⊎◌, ◌+◌, true, none, some, [], ◌∷◌, ◌++◌}
use agenttask_operator.Base.Int.{pos}
use agenttask_operator.Api.Core.{ContainerStatus, Terminated, Pod, empty_meta, never, pod_failed}
use agenttask_operator.Api.Task.{AgentTask, pending, running, pod_missing}
use agenttask_operator.Platform.{ok, update_task}
use agenttask_operator.Platform.Exec.{World, ◌>>=◌}
use agenttask_operator.Platform.Sends.{sent}
use agenttask_operator.Cluster.{small_cluster, world_at, no_objects, serve}
use agenttask_operator.Webhook.{validate_agent_task}
use agenttask_operator.Controller.Backend.{select_backend}
use agenttask_operator.Controller.Outcome.{
  success_details, failure_details, handle_pod_failure, handle_pod_success, update_phase_failure,
}
use agenttask_operator.Controller.Cleanup.{finalize_agent_task}
use agenttask_operator.Controller.Phases.{task_exit_code}
use agenttask_operator.Controller.Reconcile.{with_finalizers, reconcile_task}
use agenttask_operator.Controller.Selection.{
  IsInstalled, MayBeSandboxed, LeavesChoice, select_backend_iff,
}
use agenttask_operator.Controller.Reports.{task_container_reported}
use agenttask_operator.Controller.Counts.{counted, failure_counted_twice}
use agenttask_operator.Controller.Finalizer.{IsDeleting, updates_task, released_only_when_finalized}
use agenttask_operator.Tests.Fixtures.{in_phase, with_task, held_task}

select_backend_iff_example :
    (((select_backend (in_phase pending) (world_at 5 no_objects)).0 ≡ ok "sandbox")
      ↔ (IsInstalled small_cluster (world_at 5 no_objects) × MayBeSandboxed (in_phase pending)))
    × (((select_backend (in_phase pending) (world_at 5 no_objects)).0 ≡ ok "pod") ↔ (
        (¬ MayBeSandboxed (in_phase pending))
        ⊎ (LeavesChoice (in_phase pending) × ¬ IsInstalled small_cluster (world_at 5 no_objects))))
select_backend_iff_example = select_backend_iff (in_phase pending) (world_at 5 no_objects)

admitted : validate_agent_task held_task ≡ ok tt
unfolding validate_agent_task
admitted = refl

abbrev exit_one : Terminated
exit_one = record { exit_code = pos 1; reason = "Error"; message = "boom" }

abbrev ended_container : ContainerStatus
ended_container = record { name = "task"; image = ""; waiting = none; terminated = some exit_one }

abbrev sidecar : ContainerStatus
sidecar = record { name = "artifacts-collector"; image = ""; waiting = none; terminated = none }

task_container_reported_example :
    (task_exit_code ((sidecar ∷ []) ++ ended_container ∷ []) ≡ some (pos 1))
    × (success_details ((sidecar ∷ []) ++ ended_container ∷ []) held_task.status
        ≡ record held_task.status { result = some (record { json = "boom" }); exit_code = pos 1 })
    × ((failure_details ((sidecar ∷ []) ++ ended_container ∷ []) held_task.status).exit_code
        ≡ pos 1)
    × ((failure_details ((sidecar ∷ []) ++ ended_container ∷ []) held_task.status).reason ≡ "Error")
task_container_reported_example =
    task_container_reported ended_container [] exit_one refl (sidecar ∷ []) held_task.status
      (refl, tt)

abbrev ended_pod : Pod
ended_pod = record {
  meta = record empty_meta { name = "demo-pod"; namespace = "default" };
  restart_policy = never;
  security_context = none;
  containers = [];
  volumes = [];
  phase = pod_failed;
  container_statuses = sidecar ∷ ended_container ∷ [];
}

abbrev busy : World small_cluster
busy = world_at 5 (record (with_task (in_phase running)) { pods = ended_pod ∷ [] })

failure_handled : (handle_pod_failure (in_phase running) ended_pod busy).0 ≡ ok tt
unfolding handle_pod_failure ◌>>=◌ serve
failure_handled = refl

success_handled : (handle_pod_success (in_phase running) ended_pod busy).0 ≡ ok tt
unfolding handle_pod_success ◌>>=◌ serve
success_handled = refl

phase_failed : (update_phase_failure (in_phase running) pod_missing "gone" busy).0 ≡ ok tt
unfolding update_phase_failure ◌>>=◌ serve
phase_failed = refl

failure_counted_twice_example :
    counted (handle_pod_failure (in_phase running) ended_pod busy).1 ≡ 2 + counted busy
failure_counted_twice_example =
    failure_counted_twice (in_phase running) ended_pod busy failure_handled

abbrev deleted_task : AgentTask
deleted_task = record (in_phase running) {
  meta = record (in_phase running).meta { deletion_timestamp = some (pos 3) };
  status = record (in_phase running).status {
    pod_ref = record { kind = "Pod"; name = "demo-pod"; namespace = "default" };
  };
}

abbrev leaving : World small_cluster
leaving = world_at 5 (record (with_task deleted_task) { pods = ended_pod ∷ [] })

deleting : IsDeleting small_cluster deleted_task
deleting = record { gone = refl; held = refl }

task_updated : updates_task (sent (reconcile_task deleted_task) leaving) ≡ true
unfolding reconcile_task ◌>>=◌ serve
task_updated = refl

released_only_when_finalized_example :
    ((finalize_agent_task deleted_task leaving).0 ≡ ok tt)
    × (sent (reconcile_task deleted_task) leaving
        ≡ update_task (with_finalizers small_cluster.remove_finalizer deleted_task)
          ∷ sent (finalize_agent_task deleted_task) leaving)
released_only_when_finalized_example =
    released_only_when_finalized deleted_task leaving deleting task_updated
