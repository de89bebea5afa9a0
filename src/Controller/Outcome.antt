-- ===== src/Controller/Outcome.antt =====
-- internal/controller/agenttask_controller.go: how a task ends, and what the metrics are told.
use agenttask_operator.Base.{
  Bool, String, ◌<>◌, Option, none, some, List, [], ◌∷◌, ◌==◌, ◌||◌, if◌then◌else◌,
}
use agenttask_operator.Base.Int.{◌-ℤ◌, ltb_ℤ, max_int64, min_int64}
use agenttask_operator.Api.Core.{Time, Duration, Waiting, Terminated, ContainerStatus, Pod, key_of}
use agenttask_operator.Api.Task.{
  AgentTask, AgentTaskStatus, AgentTaskReason, pod_failed, image_pull_failed, reason_text,
  succeeded, failed,
}
use agenttask_operator.Platform.{
  Platform, Error, errorf, ok, err, update_status, delete_pod, inc, observe,
}
use agenttask_operator.Platform.Exec.{
  Exec, pure, raise, attempt, send, now, record_metric, ◌>>=◌, ◌>>◌,
}
use agenttask_operator.Controller.Backend.{container_task_name}

-- t.Sub(u), which stops at the ends of int64.
unfoldable pub sub_time : Time → Time → Duration
sub_time t u =
    let d = t -ℤ u in
    if ltb_ℤ max_int64 d then max_int64 else if ltb_ℤ d min_int64 then min_int64 else d

-- The panic of a nil pointer, which the caller of Reconcile turns into an error.
abbrev pub nil_dereference : Error
nil_dereference = errorf "invalid memory address or nil pointer dereference"

abbrev pub with_status : AgentTask → AgentTaskStatus → AgentTask
with_status task st = record task { status = st }

-- status.State.Waiting.Reason == "ImagePullBackOff" || … == "ErrImagePull"
abbrev pub is_pull_error : Option Waiting → Bool
is_pull_error none = Bool.false
is_pull_error (some w) = w.reason == "ImagePullBackOff" || w.reason == "ErrImagePull"

abbrev pub waiting_message : Option Waiting → String
waiting_message none = ""
waiting_message (some w) = w.message

unfoldable pub pull_failure_message : ContainerStatus → String
pull_failure_message c = "Failed to pull image " <> (c.image <> (": " <> waiting_message c.waiting))

-- status.State.Terminated of the container that runs the task, nil for any other.
abbrev pub task_terminated : ContainerStatus → Option Terminated
task_terminated c = if c.name == container_task_name then c.terminated else none

-- The first `if` of the loop in handlePodFailure.
unfoldable pub note_pull_error : ContainerStatus → AgentTaskStatus → AgentTaskStatus
unfolding pull_failure_message
note_pull_error c st =
    if is_pull_error c.waiting
    then record st { reason = reason_text image_pull_failed; message = pull_failure_message c }
    else st

-- The second, which ends in `break`.
unfoldable pub take_termination : Terminated → AgentTaskStatus → AgentTaskStatus
take_termination t st = record st {
  exit_code = t.exit_code;
  message = if t.message == "" then st.message else t.message;
  reason = t.reason;
}

-- The loop over the container statuses in handlePodFailure.
unfoldable pub failure_details : List ContainerStatus → AgentTaskStatus → AgentTaskStatus
unfolding note_pull_error take_termination
failure_details [] st = st
failure_details (c ∷ cs) st = elim (task_terminated c) [
  | none ↦ failure_details cs (note_pull_error c st)
  | some t ↦ take_termination t (note_pull_error c st)
]

-- The loop over the container statuses in handlePodSuccess.
unfoldable pub success_details : List ContainerStatus → AgentTaskStatus → AgentTaskStatus
success_details [] st = st
success_details (c ∷ cs) st = elim (task_terminated c) [
  | none ↦ success_details cs st
  | some t ↦ record st {
    result = if t.message == "" then st.result else some (record { json = t.message });
    exit_code = t.exit_code;
  }
]

module _ {P : Platform} where
  -- if task.Status.StartTime != nil { … Observe(CompletionTime.Time.Sub(StartTime.Time)) }
  unfoldable pub observe_duration : String → AgentTaskStatus → Exec P (Unit {0})
  observe_duration phase st = elim st.start_time [
    | none ↦ pure tt
    | some start ↦ elim st.completion_time [
      | none ↦ raise nil_dereference
      | some completion ↦ record_metric (observe phase (sub_time completion start))
    ]
  ]

  -- tasksTotal…Inc() and the observation that follows it everywhere in the source.
  unfoldable pub record_end : String → String → AgentTaskStatus → Exec P (Unit {0})
  unfolding observe_duration
  record_end phase reason st = do record_metric (inc phase reason); observe_duration phase st

  -- r.Delete(ctx, pod), where a pod that is gone is no error.
  unfoldable pub delete_if_present : Pod → Exec P (Unit {0})
  delete_if_present pod = do
    deleted ← attempt (send (delete_pod (key_of pod.meta)))
    elim deleted [ ok _ ↦ pure tt | err e ↦ if e.not_found then pure tt else raise e ]

  unfoldable pub handle_pod_failure : AgentTask → Pod → Exec P (Unit {0})
  unfolding failure_details record_end delete_if_present
  handle_pod_failure task pod = do
    completion ← now
    let st : AgentTaskStatus = record (task.status) {
      phase = failed;
      completion_time = some completion;
      reason = reason_text pod_failed;
      message = "The execution pod failed.";
    }
    record_end "Failed" "PodFailed" st
    stored ← send (update_status (with_status task (failure_details pod.container_statuses st)))
    delete_if_present pod
    record_end "Failed" stored.status.reason stored.status

  unfoldable pub handle_pod_success : AgentTask → Pod → Exec P (Unit {0})
  unfolding success_details record_end delete_if_present
  handle_pod_success task pod = do
    completion ← now
    let st : AgentTaskStatus = record (task.status) {
      phase = succeeded;
      completion_time = some completion;
    }
    stored ← send (update_status (with_status task (success_details pod.container_statuses st)))
    delete_if_present pod
    record_end "Succeeded" "PodSucceeded" stored.status

  unfoldable pub update_phase_failure : AgentTask → AgentTaskReason → String → Exec P (Unit {0})
  unfolding record_end
  update_phase_failure task reason message = do
    completion ← now
    let st : AgentTaskStatus = record (task.status) {
      phase = failed;
      reason = reason_text reason;
      message = message;
      completion_time = some completion;
    }
    record_end "Failed" (reason_text reason) st
    send (update_status (with_status task st))
    pure tt
