-- ===== src/Controller/Safety/Lifecycle.antt =====
-- Which phases follow which, and when a task is deleted.
use agenttask_operator.Base.{◌≡◌, refl, All, All-weaken}
use agenttask_operator.Api.Core.{key_of}
use agenttask_operator.Api.Task.{AgentTask}
use agenttask_operator.Platform
use agenttask_operator.Platform.{Platform, Request}
use agenttask_operator.Platform.Exec.{World}
use agenttask_operator.Platform.Sends.{sent, sent-All}
use agenttask_operator.Controller.Reconcile.{reconcile_task}
use agenttask_operator.Controller.Safety.Allowed.{Allowed, IsWrite, IsExpired, IsFinalizerUpdate}
use agenttask_operator.Controller.Safety.Whole.{reconcile_task-Sends}

abbrev pub KeepsLifecycle : Platform → AgentTask → Request → Type 0
KeepsLifecycle P task (Platform.update_status t) = IsWrite P task t
KeepsLifecycle P task _ = Unit

-- What becomes of the task object itself.
abbrev pub KeepsObject : Platform → AgentTask → Request → Type 0
KeepsObject P task (Platform.delete_task k) = (k ≡ key_of task.meta) × IsExpired P task
KeepsObject P task (Platform.update_task t) = IsFinalizerUpdate P task t
KeepsObject P task _ = Unit

module _ (P : Platform) (task : AgentTask) where
  Allowed-moves : (r : Request) → Allowed P task r → KeepsLifecycle P task r
  Allowed-moves _ (Allowed.writes_status t h) = h
  Allowed-moves _ _ = tt

  Allowed-keeps : (r : Request) → Allowed P task r → KeepsObject P task r
  Allowed-keeps _ (Allowed.deletes_task h) = (refl, h)
  Allowed-keeps _ (Allowed.updates_finalizers t h) = h
  Allowed-keeps _ _ = tt

  -- Whatever the cluster answers, each status that a reconciliation writes keeps the task's metadata
  -- and spec and moves its phase along an edge: unset to pending; pending to scheduled or failed;
  -- scheduled to running; scheduled or running to succeeded or failed; to canceled only if the spec
  -- asks for it, from pending, scheduled, running or timeout; to timeout only if the spec does not
  -- ask for cancellation, from any phase that is set, and after the start time, the limit and two
  -- seconds have passed by some reading of the clock. A terminal phase is written with a completion
  -- time, and once the phase is set the start time stays.
  pub status_writes_follow_edges :
      (w : World P) → All (KeepsLifecycle P task) (sent (reconcile_task task) w)
  status_writes_follow_edges w =
      All-weaken Allowed-moves _ (sent-All (reconcile_task task) (reconcile_task-Sends P task) w)

  -- Whatever the cluster answers, a reconciliation deletes no task but the one it fetched, and that
  -- one only if it is in a terminal phase, is not flagged as canceled, has a completion time and a
  -- time to live, and some reading of the clock lies past their sum. It updates the object beside
  -- its status only to add the finalizer to a task that lacks it and is not being deleted, or to
  -- remove it from one that has it and is.
  pub task_deleted_only_if_expired :
      (w : World P) → All (KeepsObject P task) (sent (reconcile_task task) w)
  task_deleted_only_if_expired w =
      All-weaken Allowed-keeps _ (sent-All (reconcile_task task) (reconcile_task-Sends P task) w)
