-- ===== src/Controller/Safety/Allowed.antt =====
-- The requests that a reconciliation of a fetched task may send, and the status writes among them.
use agenttask_operator.Base.{ℕ, ◌≡◌, ◌≢◌, ◌⊎◌, true, false, some, String, is_some}
use agenttask_operator.Base.Int.{ℤ, pos, ◌+ℤ◌, ◌<ℤ◌}
use agenttask_operator.Api.Core.{Time, NamespacedName, key_of}
use agenttask_operator.Api.Task.{
  AgentTask, AgentTaskPhase, unset, pending, scheduled, running, succeeded, failed, timeout,
  canceled, is_terminal,
}
use agenttask_operator.Platform
use agenttask_operator.Platform.{Platform, Request}
use agenttask_operator.Sandbox.{new_sandbox}
use agenttask_operator.Controller.Resources.{new_code_config_map, new_network_policy, new_pod}
use agenttask_operator.Controller.Cleanup.{timeout_budget}
use agenttask_operator.Controller.Reconcile.{agent_task_finalizer, expiration}

-- Some reading of the clock passed the task's start by more than its limit and the two seconds.
pub record IsLate (P : Platform) (task : AgentTask) : Type 0 where
  pub start : Time
  pub started : task.status.start_time ≡ some start
  pub limited : pos 0 <ℤ task.spec.timeout_seconds
  pub reading : ℕ
  pub passed : start +ℤ timeout_budget task.spec.timeout_seconds <ℤ P.clock reading

-- The phase that a status write may set, by the phase and the flags of the fetched task.
pub data Transition (P : Platform) (task : AgentTask) : AgentTaskPhase → Type 0 where
  accept : task.status.phase ≡ unset → Transition P task pending
  place : task.status.phase ≡ pending → Transition P task scheduled
  reject : task.status.phase ≡ pending → Transition P task failed
  launch : task.status.phase ≡ scheduled → Transition P task running
  succeed :
      (task.status.phase ≡ scheduled) ⊎ (task.status.phase ≡ running) → Transition P task succeeded
  fail : (task.status.phase ≡ scheduled) ⊎ (task.status.phase ≡ running) → Transition P task failed
  cancel :
      task.spec.canceled ≡ true
      → task.status.phase ≢ unset
      → task.status.phase ≢ succeeded
      → task.status.phase ≢ failed
      → task.status.phase ≢ canceled
      → Transition P task canceled
  expire :
      task.spec.canceled ≡ false
      → task.status.phase ≢ unset
      → IsLate P task
      → Transition P task timeout

pub record IsWrite (P : Platform) (task t : AgentTask) : Type 0 where
  pub meta : t.meta ≡ task.meta
  pub spec : t.spec ≡ task.spec
  pub move : Transition P task t.status.phase
  pub completed : is_terminal t.status.phase ≡ true → is_some t.status.completion_time ≡ true
  pub start_kept : task.status.phase ≢ unset → t.status.start_time ≡ task.status.start_time

-- The task is finished, has a time to live, and some reading of the clock passed its end.
pub record IsExpired (P : Platform) (task : AgentTask) : Type 0 where
  pub finished : is_terminal task.status.phase ≡ true
  pub wanted : task.spec.canceled ≡ false
  pub completion : Time
  pub completed : task.status.completion_time ≡ some completion
  pub ttl : ℤ
  pub limited : task.spec.ttl_seconds_after_finished ≡ some ttl
  pub reading : ℕ
  pub passed : expiration completion ttl <ℤ P.clock reading

-- Only the list of finalizers differs.
pub record IsFinalizerUpdate (P : Platform) (task t : AgentTask) : Type 0 where
  pub spec : t.spec ≡ task.spec
  pub status : t.status ≡ task.status
  pub meta : t.meta ≡ record (task.meta) { finalizers = t.meta.finalizers }
  pub change :
      ((P.is_zero_time task.meta.deletion_timestamp ≡ true)
        × (P.contains_finalizer task.meta.finalizers agent_task_finalizer ≡ false)
        × (t.meta.finalizers ≡ P.add_finalizer task.meta.finalizers agent_task_finalizer))
      ⊎ ((P.is_zero_time task.meta.deletion_timestamp ≡ false)
          × (P.contains_finalizer task.meta.finalizers agent_task_finalizer ≡ true)
          × (t.meta.finalizers ≡ P.remove_finalizer task.meta.finalizers agent_task_finalizer))

pub data Allowed (P : Platform) (task : AgentTask) : Request → Type 0 where
  reads_pod : (k : NamespacedName) → Allowed P task (Platform.get_pod k)
  reads_config_map : (k : NamespacedName) → Allowed P task (Platform.get_config_map k)
  reads_network_policy : (k : NamespacedName) → Allowed P task (Platform.get_network_policy k)
  reads_sandbox : (k : NamespacedName) → Allowed P task (Platform.get_sandbox k)
  reads_crd : (name : String) → Allowed P task (Platform.get_crd name)
  creates_config_map : Allowed P task (Platform.create_config_map (new_code_config_map P task))
  creates_network_policy :
      Allowed P task (Platform.create_network_policy (new_network_policy P task))
  creates_pod :
      (cm_name image : String) → Allowed P task (Platform.create_pod (new_pod P task cm_name image))
  creates_sandbox :
      (image : String) → Allowed P task (Platform.create_sandbox (new_sandbox P task image))
  deletes_pod : (k : NamespacedName) → Allowed P task (Platform.delete_pod k)
  writes_status : (t : AgentTask) → IsWrite P task t → Allowed P task (Platform.update_status t)
  updates_finalizers :
      (t : AgentTask) → IsFinalizerUpdate P task t → Allowed P task (Platform.update_task t)
  deletes_task : IsExpired P task → Allowed P task (Platform.delete_task (key_of task.meta))
