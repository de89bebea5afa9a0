-- ===== src/Tests/Runs.antt =====
-- Sequences of reconciliations on the small cluster.
use agenttask_operator.Base.{◌≡◌, ◌≢◌, refl, ap, ◌≤◌, [], ◌∷◌, some, none, true, false, inr}
use agenttask_operator.Api.Core.{
  ref_key, NamespacedName, ContainerStatus, never, pod_running, empty_meta,
}
use agenttask_operator.Api.Task.{canceled, pending, succeeded, AgentTask, running}
use agenttask_operator.Cluster.{world_at, find, small_cluster, pod_key, missing}
use agenttask_operator.Cluster.Events.{play, deletes, reconciles, ends}
use agenttask_operator.Cluster.Cleanup.{IsStopped}
use agenttask_operator.Cluster.{Objects}
use agenttask_operator.Cluster.Deletion.{deletion_completes}
use agenttask_operator.Cluster.Refinement.{
  life, doomed, Edge, stored_at, reconcile_refines_lifecycle, other_tasks_untouched,
}
use agenttask_operator.Cluster.Termination.{
  run_all, changes, IsOver, phase_changes_bounded, ended_tasks_stay_ended,
}
use agenttask_operator.Controller.Phases.{task_exit_code}
use agenttask_operator.Controller.Reconcile.{reconcile}
use agenttask_operator.Cluster.Progress.{IsUntroubled, placed_task_followed}
use agenttask_operator.Controller.Cleanup.{check_timeout, timeout_budget, seconds_duration}
use agenttask_operator.Tests.Fixtures.{in_phase, finished, with_task, new_task}
use agenttask_operator.Platform.{ok, err}
use agenttask_operator.Platform.Exec.{World, ◌>>=◌}
use agenttask_operator.Base.Int.{pos, wrap64, ◌+ℤ◌, ◌*ℤ◌}

abbrev demo : NamespacedName
demo = record { name = "demo"; namespace = "default" }

abbrev other : NamespacedName
other = record { name = "other"; namespace = "default" }

reconcile_refines_lifecycle_example :
    Edge
      (doomed (stored_at demo (with_task (in_phase pending))))
      (life (stored_at demo (with_task (in_phase pending))))
      (life (stored_at demo (reconcile demo (world_at 5 (with_task (in_phase pending)))).1.api))
reconcile_refines_lifecycle_example =
    reconcile_refines_lifecycle demo (world_at 5 (with_task (in_phase pending)))

demo-other : demo ≢ other
demo-other e = absurd (cc (ap (λ k. k.name) e))

other_tasks_untouched_example :
    stored_at demo (reconcile other (world_at 5 (with_task (in_phase pending)))).1.api
    ≡ stored_at demo (with_task (in_phase pending))
other_tasks_untouched_example =
    other_tasks_untouched other (world_at 5 (with_task (in_phase pending))) demo demo-other

phase_changes_bounded_example :
    changes demo ((demo, 1) ∷ (demo, 5) ∷ (other, 7) ∷ (demo, 9) ∷ []) (with_task new_task) ≤ 6
phase_changes_bounded_example =
    phase_changes_bounded demo ((demo, 1) ∷ (demo, 5) ∷ (other, 7) ∷ (demo, 9) ∷ [])
      (with_task new_task)

over : IsOver (life (stored_at demo (with_task (finished succeeded))))
unfolding find
over = refl

ended_tasks_stay_ended_example : IsOver (
    life (stored_at demo (run_all ((demo, 20) ∷ (demo, 70) ∷ []) (with_task (finished succeeded)))))
ended_tasks_stay_ended_example =
    ended_tasks_stay_ended demo ((demo, 20) ∷ (demo, 70) ∷ []) (with_task (finished succeeded)) over

-- A running task whose pod runs on after the task's container has ended with the code 0.
abbrev working : AgentTask
working = record (in_phase running) {
  status = record (in_phase running).status {
    pod_ref = record { kind = "Pod"; name = "demo-pod"; namespace = "default" };
  };
}

abbrev done : ContainerStatus
done = record {
  name = "task";
  image = "python";
  waiting = none;
  terminated = some (record { exit_code = pos 0; reason = "Completed"; message = "" });
}

abbrev served : World small_cluster
served = world_at 5 (record (with_task working) {
  pods =
      record {
        meta = record empty_meta { name = "demo-pod"; namespace = "default" };
        restart_policy = never;
        security_context = none;
        containers = [];
        volumes = [];
        phase = pod_running;
        container_statuses = done ∷ [];
      }
      ∷ [];
})

stored_working : stored_at demo served.api ≡ ok working
unfolding find
stored_working = refl

untroubled : IsUntroubled working served
unfolding check_timeout ◌>>=◌ timeout_budget seconds_duration wrap64 ◌+ℤ◌ ◌*ℤ◌
untroubled = record { live = record { kept = refl; held = refl }; wanted = refl; early = refl }

placed_task_followed_example :
    life (stored_at demo (reconcile demo served).1.api)
    ≡ some (record { phase = succeeded; canceled = false })
unfolding find task_exit_code
placed_task_followed_example =
    placed_task_followed working demo served stored_working untroubled (inr refl)

-- The same task, flagged as canceled.
abbrev flagged_task : AgentTask
flagged_task = record working { spec = record working.spec { canceled = true } }

abbrev flagged_world : World small_cluster
flagged_world = world_at 5 (record served.api { tasks = flagged_task ∷ [] })

-- The working task is deleted by a client.
abbrev released : Objects
released = play (deletes demo ∷ reconciles demo 6 ∷ []) served.api

abbrev later : Objects
later = play (ends (ref_key working.status.pod_ref) ∷ []) released

deletion_completes_example :
    (stored_at demo released ≡ err missing)
    × IsStopped (ref_key working.status.pod_ref) released.pods
    × (stored_at demo later ≡ err missing)
    × (find pod_key (ref_key working.status.pod_ref) later.pods ≡ err missing)
deletion_completes_example = deletion_completes working demo 6 served.api stored_working refl refl
