-- ===== src/Controller/Reconcile.antt =====
-- internal/controller/agenttask_controller.go: Reconcile.
use agenttask_operator.Base.{Bool, true, false, String, none, some, List, if◌then◌else◌}
use agenttask_operator.Base.Int.{ℤ, ◌+ℤ◌, ltb_ℤ}
use agenttask_operator.Api.Core.{Time, NamespacedName, key_of}
use agenttask_operator.Api.Task.{
  AgentTask, AgentTaskStatus, AgentTaskPhase, unset, pending, scheduled, running, succeeded, failed,
  timeout, canceled,
}
use agenttask_operator.Platform.{
  Platform, ok, err, get_task, update_task, update_status, delete_task,
}
use agenttask_operator.Platform.Exec.{Exec, pure, raise, attempt, send, now, ◌>>=◌, ◌>>◌}
use agenttask_operator.Controller.Outcome.{with_status, sub_time}
use agenttask_operator.Controller.Cleanup.{
  ReconcileResult, no_requeue, requeue_now, seconds_duration, check_timeout, reconcile_canceled,
  reconcile_timeout, finalize_agent_task,
}
use agenttask_operator.Controller.Phases.{reconcile_pending, reconcile_scheduled, reconcile_running}

abbrev pub agent_task_finalizer : String
agent_task_finalizer = "execution.agenttask.io/finalizer"

abbrev pub with_finalizers : (List String → String → List String) → AgentTask → AgentTask
with_finalizers change task = record task {
  meta = record (task.meta) { finalizers = change task.meta.finalizers agent_task_finalizer };
}

-- CompletionTime.Add(ttl)
unfoldable pub expiration : Time → ℤ → Time
expiration completion ttl = completion +ℤ seconds_duration ttl

-- 0. Handle Cancellation: the phases that its test names.
abbrev pub ignores_cancel : AgentTaskPhase → Bool
ignores_cancel succeeded = true
ignores_cancel failed = true
ignores_cancel canceled = true
ignores_cancel _ = false

module _ {P : Platform} where
  unfoldable pub delete_expired : AgentTask → Exec P ReconcileResult
  delete_expired task = do
    deleted ← attempt (send (delete_task (key_of task.meta)))
    elim deleted [
      | ok _ ↦ pure no_requeue
      | err e ↦ if e.not_found then pure no_requeue else raise e
    ]

  -- The terminal states of the `switch`; the clock is read again for time.Until.
  unfoldable pub reconcile_finished : AgentTask → Exec P ReconcileResult
  unfolding delete_expired
  reconcile_finished task = elim task.spec.ttl_seconds_after_finished [
    | none ↦ pure no_requeue
    | some ttl ↦ elim task.status.completion_time [
      | none ↦ pure no_requeue
      | some completion ↦ do
        t ← now
        if ltb_ℤ (expiration completion ttl) t then delete_expired task else do
          u ← now
          pure (record { requeue = false; requeue_after = sub_time (expiration completion ttl) u })
    ]
  ]

  -- The `switch` on the phase.
  unfoldable pub run_phase : AgentTaskPhase → AgentTask → Exec P ReconcileResult
  unfolding reconcile_pending reconcile_scheduled reconcile_running reconcile_finished
  run_phase pending task = do reconcile_pending task; pure requeue_now
  run_phase scheduled task = do reconcile_scheduled task; pure no_requeue
  run_phase running task = do reconcile_running task; pure no_requeue
  run_phase succeeded task = reconcile_finished task
  run_phase failed task = reconcile_finished task
  run_phase timeout task = reconcile_finished task
  run_phase canceled task = reconcile_finished task
  run_phase unset task = pure no_requeue

  -- Initialize Phase if empty
  unfoldable pub initialize : AgentTask → Exec P ReconcileResult
  initialize task = do
    start ← now
    let st : AgentTaskStatus = record (task.status) { phase = pending; start_time = some start }
    send (update_status (with_status task st))
    pure requeue_now

  -- 1. Check Timeout, then the state machine
  unfoldable pub reconcile_started : AgentTask → Exec P ReconcileResult
  unfolding check_timeout reconcile_timeout run_phase
  reconcile_started task = do
    late ← check_timeout task
    if late then reconcile_timeout task else run_phase task.status.phase task

  unfoldable pub reconcile_canceled_flag : AgentTask → Exec P ReconcileResult
  unfolding reconcile_canceled
  reconcile_canceled_flag task =
      if ignores_cancel task.status.phase then pure no_requeue else reconcile_canceled task

  unfoldable pub reconcile_active : AgentTaskPhase → AgentTask → Exec P ReconcileResult
  unfolding initialize reconcile_started reconcile_canceled_flag
  reconcile_active unset task = initialize task
  reconcile_active _ task =
      if task.spec.canceled then reconcile_canceled_flag task else reconcile_started task

  unfoldable pub add_missing_finalizer : AgentTask → Exec P ReconcileResult
  add_missing_finalizer task = do
    send (update_task (with_finalizers P.add_finalizer task))
    pure no_requeue

  -- The branch of an object that is being deleted.
  unfoldable pub reconcile_deleted : AgentTask → Exec P ReconcileResult
  unfolding finalize_agent_task
  reconcile_deleted task =
      if P.contains_finalizer task.meta.finalizers agent_task_finalizer
      then (do
        finalize_agent_task task
        send (update_task (with_finalizers P.remove_finalizer task))
        pure no_requeue)
      else pure no_requeue

  -- Reconcile, once the object is fetched.
  unfoldable pub reconcile_task : AgentTask → Exec P ReconcileResult
  unfolding reconcile_active add_missing_finalizer reconcile_deleted
  reconcile_task task =
      if P.is_zero_time task.meta.deletion_timestamp
      then if P.contains_finalizer task.meta.finalizers agent_task_finalizer
        then reconcile_active task.status.phase task
        else add_missing_finalizer task
      else reconcile_deleted task

  unfoldable pub reconcile : NamespacedName → Exec P ReconcileResult
  unfolding reconcile_task
  reconcile request = do
    fetched ← attempt (send (get_task request))
    elim fetched [
      | ok task ↦ reconcile_task task
      | err e ↦ if e.not_found then pure no_requeue else raise e
    ]
