-- ===== src/Tests/Lifecycle.antt =====
-- Reconciliation on the small cluster.
use agenttask_operator.Base.{◌≡◌, refl, ◌↔◌, true, false, some, [], ◌∷◌, List, All, arith}
use agenttask_operator.Base.Int.{pos, ◌+ℤ◌, ◌*ℤ◌, ◌<ℤ◌, ◌≤ℤ◌, wrap64}
use agenttask_operator.Api.Task.{pending, succeeded, timeout}
use agenttask_operator.Platform.{ok, Request, update_status}
use agenttask_operator.Platform.Exec.{◌>>=◌}
use agenttask_operator.Platform.Sends.{sent}
use agenttask_operator.Cluster.{small_cluster, world_at, serve}
use agenttask_operator.Controller.Cleanup.{
  ReconcileResult, second, seconds_duration, timeout_budget,
}
use agenttask_operator.Controller.Outcome.{with_status}
use agenttask_operator.Controller.Reconcile.{expiration, reconcile_task}
use agenttask_operator.Controller.Safety.Isolation.{
  KeepsIsolation, KeepsOwnership, created_pods_isolated, created_objects_owned,
}
use agenttask_operator.Controller.Safety.Lifecycle.{
  KeepsLifecycle, KeepsObject, status_writes_follow_edges, task_deleted_only_if_expired,
}
use agenttask_operator.Controller.Deadlines.{durations_exact}
use agenttask_operator.Controller.Expiry.{
  IsLive, IsFinished, deletes_task, deletion_window, unexpired_requeue, finished_task_overwritten,
}
use agenttask_operator.Tests.Fixtures.{in_phase, finished, with_task}

status_writes_follow_edges_example :
    All
      (KeepsLifecycle small_cluster (in_phase pending))
      (sent (reconcile_task (in_phase pending)) (world_at 5 (with_task (in_phase pending))))
status_writes_follow_edges_example =
    status_writes_follow_edges small_cluster (in_phase pending)
      (world_at 5 (with_task (in_phase pending)))

created_pods_isolated_example :
    All
      (KeepsIsolation small_cluster (in_phase pending))
      (sent (reconcile_task (in_phase pending)) (world_at 5 (with_task (in_phase pending))))
created_pods_isolated_example =
    created_pods_isolated small_cluster (in_phase pending)
      (world_at 5 (with_task (in_phase pending)))

created_objects_owned_example :
    All
      (KeepsOwnership small_cluster (in_phase pending))
      (sent (reconcile_task (in_phase pending)) (world_at 5 (with_task (in_phase pending))))
created_objects_owned_example =
    created_objects_owned small_cluster (in_phase pending)
      (world_at 5 (with_task (in_phase pending)))

task_deleted_only_if_expired_example :
    All
      (KeepsObject small_cluster (finished succeeded))
      (sent (reconcile_task (finished succeeded)) (world_at 50 (with_task (finished succeeded))))
task_deleted_only_if_expired_example =
    task_deleted_only_if_expired small_cluster (finished succeeded)
      (world_at 50 (with_task (finished succeeded)))

durations_exact_example :
    (seconds_duration (pos 60) ≡ pos 60 *ℤ second)
    × (timeout_budget (pos 60) ≡ pos 60 *ℤ second +ℤ pos 2000000000)
durations_exact_example = durations_exact (pos 60) (omega arith, omega arith)

live : IsLive small_cluster (finished succeeded)
live = record { kept = refl; held = refl }

facts : IsFinished (finished succeeded) (pos 0) (pos 10000000000) (pos 30)
facts = record {
  ended = refl;
  wanted = refl;
  limited = omega arith;
  started = refl;
  completed = refl;
  lives = refl;
}

deletion_window_example :
    (deletes_task
        (sent (reconcile_task (finished succeeded)) (world_at 50 (with_task (finished succeeded))))
      ≡ true)
    ↔ ((pos 50000000000 ≤ℤ pos 0 +ℤ timeout_budget (pos 60))
        × (expiration (pos 10000000000) (pos 30) <ℤ pos 51000000000))
deletion_window_example =
    deletion_window (finished succeeded) (world_at 50 (with_task (finished succeeded))) (pos 0)
      (pos 10000000000) (pos 30) live facts

unexpired_requeue_example :
    (r : ReconcileResult) × ((reconcile_task
        (finished succeeded)
        (world_at 20 (with_task (finished succeeded)))).0
      ≡ ok r)
    × (sent (reconcile_task (finished succeeded)) (world_at 20 (with_task (finished succeeded)))
        ≡ [])
    × (r.requeue ≡ false)
    × ((pos 0 <ℤ r.requeue_after) ↔ (pos 22000000000 <ℤ expiration (pos 10000000000) (pos 30)))
unfolding timeout_budget expiration seconds_duration wrap64 ◌+ℤ◌ ◌*ℤ◌
unexpired_requeue_example =
    unexpired_requeue (finished succeeded) (world_at 20 (with_task (finished succeeded))) (pos 0)
      (pos 10000000000) (pos 30) live facts (omega arith) (omega arith)

overwritten_result :
    (reconcile_task (finished succeeded) (world_at 70 (with_task (finished succeeded)))).0
    ≡ ok (record { requeue = false; requeue_after = pos 0 })
unfolding reconcile_task ◌>>=◌ serve timeout_budget seconds_duration wrap64 ◌+ℤ◌ ◌*ℤ◌
overwritten_result = refl

finished_task_overwritten_example :
    (before : List Request) × (sent
        (reconcile_task (finished succeeded))
        (world_at 70 (with_task (finished succeeded)))
      ≡ update_status (
          with_status (finished succeeded) (record (finished succeeded).status {
            phase = timeout;
            completion_time = some (pos 71000000000);
            reason = "Timeout";
            message = "Task execution exceeded the timeout limit.";
          }))
        ∷ before)
unfolding timeout_budget seconds_duration wrap64 ◌+ℤ◌ ◌*ℤ◌
finished_task_overwritten_example =
    finished_task_overwritten (finished succeeded) (world_at 70 (with_task (finished succeeded)))
      (pos 0) (pos 10000000000) (pos 30) live facts (omega arith)
      (record { requeue = false; requeue_after = pos 0 }) overwritten_result
