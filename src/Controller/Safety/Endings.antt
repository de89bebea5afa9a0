-- ===== src/Controller/Safety/Endings.antt =====
-- internal/controller/agenttask_controller.go: the requests of the handlers that end a task.
use agenttask_operator.Base.{
  ◌≡◌, refl, sym, ◌∙◌, ◌⊎◌, inl, inr, true, List, String, arith, is_some, Option-cases,
}
use mathlib.Core.Path.{subst, ap}
use agenttask_operator.Base.Int.{pos, leb_ℤ}
use agenttask_operator.Api.Core.{Pod, ContainerStatus, NamespacedName}
use agenttask_operator.Api.Task.{
  AgentTask, AgentTaskStatus, AgentTaskReason, scheduled, running, failed, timeout, canceled,
}
use agenttask_operator.Platform.{Platform, Request, ok, delete_pod}
use agenttask_operator.Platform.Exec.{World, send, ◌>>=◌}
use agenttask_operator.Platform.Sends.{Sends, Sends-send, Sends-Option, Sends-if, sends_rules}
use agenttask_operator.Controller.Outcome.{
  with_status, observe_duration, record_end, delete_if_present, handle_pod_failure,
  handle_pod_success, update_phase_failure, failure_details, success_details,
}
use agenttask_operator.Controller.Cleanup.{
  check_timeout, finalize_agent_task, reconcile_canceled, delete_timed_out_pod, reconcile_timeout,
}
use agenttask_operator.Controller.Safety.Details.{
  SameLife, failure_details-SameLife, success_details-SameLife,
}
use agenttask_operator.Controller.Safety.Allowed.{
  IsLate, IsWrite, Transition, succeed, fail, Allowed, reads_pod, deletes_pod, writes_status,
}

ruleset ending_rules = (sends_rules, reads_pod, deletes_pod, writes_status)

-- The metrics send nothing.
module _ {P : Platform} {Q : Request → Type 0} where
  observe_duration-Sends :
      (phase : String) (st : AgentTaskStatus) → Sends {P = P} Q (observe_duration phase st)
  unfolding observe_duration
  observe_duration-Sends phase st =
      Sends-Option st.start_time _ _ (search sends_rules) (λ start.
        Sends-Option st.completion_time _ _ (search sends_rules) (λ t. search sends_rules))

  pub record_end-Sends :
      (phase reason : String) (st : AgentTaskStatus) → Sends {P = P} Q (record_end phase reason st)
  unfolding record_end
  record_end-Sends phase reason st = search (sends_rules, observe_duration-Sends)

module _ (P : Platform) (task : AgentTask) where
  pub with_status-IsWrite :
      (st : AgentTaskStatus)
      → Transition P task st.phase
      → is_some st.completion_time ≡ true
      → st.start_time ≡ task.status.start_time
      → IsWrite P task (with_status task st)
  with_status-IsWrite st move done kept = record {
    meta = refl;
    spec = refl;
    move = move;
    completed = λ _. done;
    start_kept = λ _. kept;
  }

  module _ (st : AgentTaskStatus) where
    SameLife-IsWrite :
        (st' : AgentTaskStatus)
        → SameLife st' st
        → Transition P task st.phase
        → is_some st.completion_time ≡ true
        → st.start_time ≡ task.status.start_time
        → IsWrite P task (with_status task st')
    SameLife-IsWrite st' h move done kept =
        with_status-IsWrite st' (subst (Transition P task) (sym h.phase) move)
          (ap is_some h.completion_time ∙ done) (h.start_time ∙ kept)

    failure_details-IsWrite :
        (cs : List ContainerStatus)
        → Transition P task st.phase
        → is_some st.completion_time ≡ true
        → st.start_time ≡ task.status.start_time
        → IsWrite P task (with_status task (failure_details cs st))
    failure_details-IsWrite cs =
        SameLife-IsWrite (failure_details cs st) (failure_details-SameLife cs st)

    success_details-IsWrite :
        (cs : List ContainerStatus)
        → Transition P task st.phase
        → is_some st.completion_time ≡ true
        → st.start_time ≡ task.status.start_time
        → IsWrite P task (with_status task (success_details cs st))
    success_details-IsWrite cs =
        SameLife-IsWrite (success_details cs st) (success_details-SameLife cs st)

  pub send_delete_pod-Sends :
      (k : NamespacedName) → Sends {P = P} {A = Unit {0}} (Allowed P task) (send (delete_pod k))
  send_delete_pod-Sends k = Sends-send {Q = Allowed P task} (delete_pod k) (deletes_pod k)

  delete_if_present-Sends : (pod : Pod) → Sends {P = P} (Allowed P task) (delete_if_present pod)
  unfolding delete_if_present
  delete_if_present-Sends pod = search ending_rules

  pub handle_pod_failure-Sends :
      (pod : Pod)
      → (task.status.phase ≡ scheduled) ⊎ (task.status.phase ≡ running)
      → Sends {P = P} (Allowed P task) (handle_pod_failure task pod)
  unfolding handle_pod_failure
  handle_pod_failure-Sends pod from =
      search
        (ending_rules, record_end-Sends, delete_if_present-Sends, failure_details-IsWrite, fail)
        depth 10

  pub handle_pod_success-Sends :
      (pod : Pod)
      → (task.status.phase ≡ scheduled) ⊎ (task.status.phase ≡ running)
      → Sends {P = P} (Allowed P task) (handle_pod_success task pod)
  unfolding handle_pod_success
  handle_pod_success-Sends pod from =
      search
        (ending_rules, record_end-Sends, delete_if_present-Sends, success_details-IsWrite, succeed)
        depth 10

  pub update_phase_failure-Sends :
      (reason : AgentTaskReason) (message : String)
      → Transition P task failed
      → Sends {P = P} (Allowed P task) (update_phase_failure task reason message)
  unfolding update_phase_failure
  update_phase_failure-Sends reason message move =
      search (ending_rules, record_end-Sends, with_status-IsWrite) depth 10

  pub finalize_agent_task-Sends : Sends {P = P} (Allowed P task) (finalize_agent_task task)
  unfolding finalize_agent_task
  finalize_agent_task-Sends = search (ending_rules, delete_if_present-Sends)

  pub reconcile_canceled-Sends :
      Transition P task canceled → Sends {P = P} (Allowed P task) (reconcile_canceled task)
  unfolding reconcile_canceled
  reconcile_canceled-Sends move =
      search (ending_rules, record_end-Sends, with_status-IsWrite, finalize_agent_task-Sends) depth
        10

  delete_timed_out_pod-Sends : Sends {P = P} (Allowed P task) (delete_timed_out_pod task)
  unfolding delete_timed_out_pod
  delete_timed_out_pod-Sends = search (ending_rules, send_delete_pod-Sends)

  pub reconcile_timeout-Sends :
      Transition P task timeout → Sends {P = P} (Allowed P task) (reconcile_timeout task)
  unfolding reconcile_timeout
  reconcile_timeout-Sends move =
      search (ending_rules, record_end-Sends, with_status-IsWrite, delete_timed_out_pod-Sends) depth
        10

  pub check_timeout-Sends : Sends {P = P} (Allowed P task) (check_timeout task)
  unfolding check_timeout
  check_timeout-Sends =
      Sends-if (leb_ℤ task.spec.timeout_seconds (pos 0)) _ _ (λ _. search sends_rules)
        (λ _.
          Sends-Option task.status.start_time _ _ (search sends_rules)
            (λ start. search sends_rules))

  -- The test passes only if the task is late by some reading of the clock.
  pub check_timeout-IsLate :
      (w : World P) → (check_timeout {P = P} task w).0 ≡ ok true → IsLate P task
  unfolding check_timeout ◌>>=◌
  check_timeout-IsLate w h = elim (Option-cases task.status.start_time) [
    | inl e ↦ absurd (ground arith)
    | inr (start, e) ↦ record {
      start = start;
      started = e;
      limited = ground arith;
      reading = w.readings;
      passed = ground arith;
    }
  ]
