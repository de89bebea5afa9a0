-- ===== src/Controller/Cleanup.antt =====
-- internal/controller/agenttask_controller.go: cancellation, timeout and finalization.
use agenttask_operator.Base.{Bool, true, false, none, some, ◌==◌, if◌then◌else◌}
use agenttask_operator.Base.Int.{ℤ, pos, ◌+ℤ◌, ◌*ℤ◌, ltb_ℤ, leb_ℤ, wrap64}
use agenttask_operator.Api.Core.{Duration, key_of, ref_key}
use agenttask_operator.Api.Task.{
  AgentTask, AgentTaskStatus, timeout, canceled, timed_out, cancel_requested, reason_text,
}
use agenttask_operator.Platform.{Platform, ok, err, get_pod, delete_pod, update_status}
use agenttask_operator.Platform.Exec.{Exec, pure, raise, attempt, send, now, ◌>>=◌, ◌>>◌}
use agenttask_operator.Controller.Outcome.{with_status, record_end, delete_if_present}

-- ctrl.Result; `requeue_after` is in nanoseconds
pub record ReconcileResult : Type 0 where
  pub requeue : Bool
  pub requeue_after : Duration

abbrev pub no_requeue : ReconcileResult
no_requeue = record { requeue = false; requeue_after = pos 0 }

abbrev pub requeue_now : ReconcileResult
requeue_now = record { requeue = true; requeue_after = pos 0 }

-- time.Second
abbrev pub second : Duration
second = pos 1000000000

-- time.Duration(seconds) * time.Second, on int64
unfoldable pub seconds_duration : ℤ → Duration
seconds_duration seconds = wrap64 (seconds *ℤ second)

-- time.Duration(task.Spec.TimeoutSeconds)*time.Second + 2*time.Second, on int64
unfoldable pub timeout_budget : ℤ → Duration
timeout_budget seconds = wrap64 (seconds_duration seconds +ℤ pos 2000000000)

module _ {P : Platform} where
  -- The clock is read only if the task has a limit and a start.
  unfoldable pub check_timeout : AgentTask → Exec P Bool
  check_timeout task =
      if leb_ℤ task.spec.timeout_seconds (pos 0) then pure false else elim task.status.start_time [
        | none ↦ pure false
        | some start ↦ do
          t ← now
          pure (ltb_ℤ (start +ℤ timeout_budget task.spec.timeout_seconds) t)
      ]

  -- finalizeAgentTask: a pod that is named and found is deleted.
  unfoldable pub finalize_agent_task : AgentTask → Exec P (Unit {0})
  unfolding delete_if_present
  finalize_agent_task task = if task.status.pod_ref.name == "" then pure tt else do
    found ← attempt (send (get_pod (ref_key task.status.pod_ref)))
    elim found [ ok pod ↦ delete_if_present pod | err e ↦ if e.not_found then pure tt else raise e ]

  -- reconcileCanceled begins with the code of finalizeAgentTask.
  unfoldable pub reconcile_canceled : AgentTask → Exec P ReconcileResult
  unfolding finalize_agent_task record_end
  reconcile_canceled task = do
    finalize_agent_task task
    completion ← now
    let st : AgentTaskStatus = record (task.status) {
      phase = canceled;
      completion_time = some completion;
      message = "Task was canceled by user request";
      reason = reason_text cancel_requested;
    }
    record_end "Canceled" (reason_text cancel_requested) st
    send (update_status (with_status task st))
    pure no_requeue

  -- Here a failed read of the pod is passed over, and any error of the deletion is returned.
  unfoldable pub delete_timed_out_pod : AgentTask → Exec P (Unit {0})
  delete_timed_out_pod task = if task.status.pod_ref.name == "" then pure tt else do
    found ← attempt (send (get_pod (ref_key task.status.pod_ref)))
    elim found [ ok pod ↦ send (delete_pod (key_of pod.meta)) | err _ ↦ pure tt ]

  unfoldable pub reconcile_timeout : AgentTask → Exec P ReconcileResult
  unfolding delete_timed_out_pod record_end
  reconcile_timeout task = do
    delete_timed_out_pod task
    completion ← now
    let st : AgentTaskStatus = record (task.status) {
      phase = timeout;
      completion_time = some completion;
      reason = reason_text timed_out;
      message = "Task execution exceeded the timeout limit.";
    }
    record_end "Timeout" (reason_text timed_out) st
    send (update_status (with_status task st))
    pure no_requeue
