-- ===== src/Controller/Phases.antt =====
-- internal/controller/agenttask_controller.go: the handlers of the phases that are not terminal.
use agenttask_operator.Base.{String, Option, none, some, List, [], ◌∷◌, ◌==◌, if◌then◌else◌}
use agenttask_operator.Base.Int.{ℤ, pos, eqb_ℤ}
use agenttask_operator.Api.Core.{
  PodPhase, ObjectReference, ContainerStatus, Pod, pod_pending, pod_running, pod_succeeded,
  pod_failed, pod_unknown, ref_key,
}
use agenttask_operator.Api.Task.{
  AgentTask, AgentTaskPhase, scheduled, running, pod_missing, image_pull_failed,
  profile_resolution_failed, backend_selection_failed,
}
use agenttask_operator.Platform.{Platform, ok, err, get_pod, update_status}
use agenttask_operator.Platform.Exec.{Exec, pure, raise, attempt, send, ◌>>=◌, ◌>>◌}
use agenttask_operator.Sandbox.{ensure_sandbox, sandbox_kind}
use agenttask_operator.Controller.Backend.{backend_sandbox, select_backend, resolve_runtime_profile}
use agenttask_operator.Controller.Resources.{
  ensure_code_config_map, ensure_network_policy, ensure_pod, with_pod_ref,
}
use agenttask_operator.Controller.Outcome.{
  with_status, is_pull_error, pull_failure_message, task_terminated, handle_pod_failure,
  handle_pod_success, update_phase_failure,
}

-- The first container that cannot pull its image.
unfoldable pub find_pull_error : List ContainerStatus → Option ContainerStatus
find_pull_error [] = none
find_pull_error (c ∷ cs) =
    let rest = find_pull_error cs in if is_pull_error c.waiting then some c else rest

-- The exit code of the first container named "task" that has terminated.
unfoldable pub task_exit_code : List ContainerStatus → Option ℤ
task_exit_code [] = none
task_exit_code (c ∷ cs) = elim (task_terminated c) [
  | none ↦ task_exit_code cs
  | some t ↦ some t.exit_code
]

module _ {P : Platform} where
  -- task.Status.Phase = phase; r.Status().Update(ctx, task)
  unfoldable pub set_phase : AgentTask → AgentTaskPhase → Exec P (Unit {0})
  set_phase task phase = do
    send (update_status (with_status task (record (task.status) { phase = phase })))
    pure tt

  -- 4. Dispatch: the value of task.Status.PodRef after it.
  unfoldable pub dispatch : AgentTask → String → String → String → Exec P ObjectReference
  unfolding ensure_sandbox ensure_pod
  dispatch task backend cm_name image =
      if backend == backend_sandbox
      then ensure_sandbox task cm_name image
      else ensure_pod task cm_name image

  unfoldable pub schedule : AgentTask → String → String → String → Exec P (Unit {0})
  unfolding dispatch set_phase
  schedule task backend cm_name image = do
    ref ← dispatch task backend cm_name image
    set_phase (with_pod_ref task ref) scheduled

  unfoldable pub resolve_and_schedule : AgentTask → String → String → Exec P (Unit {0})
  unfolding resolve_runtime_profile schedule update_phase_failure
  resolve_and_schedule task cm_name backend = do
    resolved ←
        attempt (resolve_runtime_profile task.spec.runtime_profile backend task.meta.namespace)
    elim resolved [
      | ok image ↦ schedule task backend cm_name image
      | err e ↦ update_phase_failure task profile_resolution_failed e.text
    ]

  -- From 3. Select Backend on.
  unfoldable pub select_and_schedule : AgentTask → String → Exec P (Unit {0})
  unfolding select_backend resolve_and_schedule update_phase_failure
  select_and_schedule task cm_name = do
    selected ← attempt (select_backend task)
    elim selected [
      | ok backend ↦ resolve_and_schedule task cm_name backend
      | err e ↦ update_phase_failure task backend_selection_failed e.text
    ]

  unfoldable pub reconcile_pending : AgentTask → Exec P (Unit {0})
  unfolding ensure_code_config_map ensure_network_policy select_and_schedule
  reconcile_pending task = do
    cm_name ← ensure_code_config_map task
    ensure_network_policy task
    select_and_schedule task cm_name

  -- The `switch pod.Status.Phase` of reconcileScheduled.
  unfoldable pub scheduled_pod : PodPhase → AgentTask → Pod → Exec P (Unit {0})
  unfolding find_pull_error update_phase_failure set_phase handle_pod_success handle_pod_failure
  scheduled_pod pod_pending task pod = elim (find_pull_error pod.container_statuses) [
    | none ↦ pure tt
    | some c ↦ update_phase_failure task image_pull_failed (pull_failure_message c)
  ]
  scheduled_pod pod_running task pod = set_phase task running
  scheduled_pod pod_succeeded task pod = handle_pod_success task pod
  scheduled_pod pod_failed task pod = handle_pod_failure task pod
  scheduled_pod pod_unknown task pod = pure tt

  unfoldable pub reconcile_scheduled : AgentTask → Exec P (Unit {0})
  unfolding scheduled_pod
  reconcile_scheduled task =
      if task.status.pod_ref.kind == sandbox_kind then set_phase task running else do
        found ← attempt (send (get_pod (ref_key task.status.pod_ref)))
        elim found [
          | ok pod ↦ scheduled_pod pod.phase task pod
          | err e ↦
              if e.not_found
              then update_phase_failure task pod_missing
                  "The execution pod was deleted unexpectedly."
              else raise e
        ]

  -- The `switch pod.Status.Phase` of reconcileRunning.
  unfoldable pub running_pod : PodPhase → AgentTask → Pod → Exec P (Unit {0})
  unfolding task_exit_code handle_pod_success handle_pod_failure
  running_pod pod_running task pod = elim (task_exit_code pod.container_statuses) [
    | none ↦ pure tt
    | some code ↦
        if eqb_ℤ code (pos 0) then handle_pod_success task pod else handle_pod_failure task pod
  ]
  running_pod pod_succeeded task pod = handle_pod_success task pod
  running_pod pod_failed task pod = handle_pod_failure task pod
  running_pod _ task pod = pure tt

  unfoldable pub reconcile_running : AgentTask → Exec P (Unit {0})
  unfolding running_pod
  reconcile_running task = if task.status.pod_ref.kind == sandbox_kind then pure tt else do
    found ← attempt (send (get_pod (ref_key task.status.pod_ref)))
    elim found [
      | ok pod ↦ running_pod pod.phase task pod
      | err e ↦
          if e.not_found
          then update_phase_failure task pod_missing "The execution pod was deleted while running."
          else raise e
    ]
