-- ===== src/Controller/Safety/Handlers.antt =====
-- internal/controller/agenttask_controller.go: the requests of the handlers of the phases.
use agenttask_operator.Base.{
  ◌≡◌, ◌≢◌, refl, inl, inr, true, false, some, String, arith, ◌==◌, if◌then◌else◌,
}
use agenttask_operator.Api.Core.{Pod, PodPhase, pod_pending, pod_running, ObjectReference}
use agenttask_operator.Api.Task.{
  AgentTask, AgentTaskPhase, pending, scheduled, running, is_terminal,
}
use agenttask_operator.Platform.{Platform}
use agenttask_operator.Platform.Sends.{
  Sends, Sends-if, Sends-bind_after, Sends-Option, Sends-Option_eq, sends_rules,
}
use agenttask_operator.Sandbox.{sandbox_kind}
use agenttask_operator.Controller.Resources.{with_pod_ref}
use agenttask_operator.Controller.Outcome.{with_status}
use agenttask_operator.Controller.Phases.{
  find_pull_error, task_exit_code, set_phase, dispatch, schedule, resolve_and_schedule,
  select_and_schedule, reconcile_pending, scheduled_pod, reconcile_scheduled, running_pod,
  reconcile_running,
}
use agenttask_operator.Controller.Safety.Allowed.{
  IsWrite, IsExpired, IsFinalizerUpdate, Transition, accept, place, reject, launch, fail, cancel,
  expire, Allowed, reads_pod, writes_status, updates_finalizers, deletes_task,
}
use agenttask_operator.Controller.Safety.Traversal.{
  ensure_sandbox-Sends, select_backend-Sends, resolve_runtime_profile-Sends,
  ensure_code_config_map-Sends, ensure_network_policy-Sends, ensure_pod-Sends,
}
use agenttask_operator.Controller.Safety.Endings.{
  handle_pod_failure-Sends, handle_pod_success-Sends, update_phase_failure-Sends,
  finalize_agent_task-Sends, reconcile_canceled-Sends, reconcile_timeout-Sends, check_timeout-Sends,
  check_timeout-IsLate,
}

pub ruleset handler_rules = (
  sends_rules, reads_pod, writes_status, handle_pod_failure-Sends, handle_pod_success-Sends,
  update_phase_failure-Sends, reject, fail, inl, inr,
)

module _ (P : Platform) (task : AgentTask) where
  set_phase-IsWrite :
      (ref : ObjectReference) (phase : AgentTaskPhase)
      → Transition P task phase
      → is_terminal phase ≡ false
      → IsWrite P task (with_status task (record (task.status) { pod_ref = ref; phase = phase }))
  set_phase-IsWrite ref phase move live = record {
    meta = refl;
    spec = refl;
    move = move;
    completed = λ ended. cc (live, ended);
    start_kept = λ _. refl;
  }

  set_phase-Sends :
      (ref : ObjectReference) (phase : AgentTaskPhase)
      → Transition P task phase
      → is_terminal phase ≡ false
      → Sends {P = P} (Allowed P task) (set_phase (with_pod_ref task ref) phase)
  unfolding set_phase
  set_phase-Sends ref phase move live = search (handler_rules, set_phase-IsWrite)

  dispatch-Sends :
      (backend cm_name image : String)
      → Sends {P = P} (Allowed P task) (dispatch task backend cm_name image)
  unfolding dispatch
  dispatch-Sends backend cm_name image =
      search (sends_rules, ensure_sandbox-Sends, ensure_pod-Sends)

  schedule-Sends :
      (backend cm_name image : String)
      → Transition P task scheduled
      → Sends {P = P} (Allowed P task) (schedule task backend cm_name image)
  unfolding schedule
  schedule-Sends backend cm_name image move = search (sends_rules, dispatch-Sends, set_phase-Sends)

  resolve_and_schedule-Sends :
      (cm_name backend : String)
      → task.status.phase ≡ pending
      → Sends {P = P} (Allowed P task) (resolve_and_schedule task cm_name backend)
  unfolding resolve_and_schedule
  resolve_and_schedule-Sends cm_name backend from =
      search (handler_rules, resolve_runtime_profile-Sends, schedule-Sends, place)

  select_and_schedule-Sends :
      (cm_name : String)
      → task.status.phase ≡ pending
      → Sends {P = P} (Allowed P task) (select_and_schedule task cm_name)
  unfolding select_and_schedule
  select_and_schedule-Sends cm_name from =
      search (handler_rules, select_backend-Sends, resolve_and_schedule-Sends)

  pub reconcile_pending-Sends :
      task.status.phase ≡ pending → Sends {P = P} (Allowed P task) (reconcile_pending task)
  unfolding reconcile_pending
  reconcile_pending-Sends from = search (
    sends_rules, ensure_code_config_map-Sends, ensure_network_policy-Sends,
    select_and_schedule-Sends,
  )

  scheduled_pod-Sends :
      (phase : PodPhase) (pod : Pod)
      → task.status.phase ≡ scheduled
      → Sends {P = P} (Allowed P task) (scheduled_pod phase task pod)
  unfolding scheduled_pod
  scheduled_pod-Sends pod_pending pod from =
      Sends-Option (find_pull_error pod.container_statuses) _ _ (search sends_rules)
        (λ c. search handler_rules)
  scheduled_pod-Sends pod_running pod from =
      set_phase-Sends task.status.pod_ref running (launch from) refl
  scheduled_pod-Sends _ pod from = search handler_rules

  pub reconcile_scheduled-Sends :
      task.status.phase ≡ scheduled → Sends {P = P} (Allowed P task) (reconcile_scheduled task)
  unfolding reconcile_scheduled
  reconcile_scheduled-Sends from =
      Sends-if (task.status.pod_ref.kind == sandbox_kind) _ _
        (λ _. set_phase-Sends task.status.pod_ref running (launch from) refl)
        (λ _. search (handler_rules, scheduled_pod-Sends) depth 8)

  running_pod-Sends :
      (phase : PodPhase) (pod : Pod)
      → task.status.phase ≡ running
      → Sends {P = P} (Allowed P task) (running_pod phase task pod)
  unfolding running_pod
  running_pod-Sends pod_running pod from =
      Sends-Option (task_exit_code pod.container_statuses) _ _ (search sends_rules)
        (λ code. search handler_rules)
  running_pod-Sends _ pod from = search handler_rules

  pub reconcile_running-Sends :
      task.status.phase ≡ running → Sends {P = P} (Allowed P task) (reconcile_running task)
  unfolding reconcile_running
  reconcile_running-Sends from = search (handler_rules, running_pod-Sends) depth 8
