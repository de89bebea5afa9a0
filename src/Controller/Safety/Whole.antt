-- ===== src/Controller/Safety/Whole.antt =====
-- internal/controller/agenttask_controller.go: the requests of a whole reconciliation.
use agenttask_operator.Base.{◌≡◌, ◌≢◌, refl, inl, inr, true, false, some, arith, if◌then◌else◌}
use agenttask_operator.Base.Int.{ℤ, ltb_ℤ}
use agenttask_operator.Api.Core.{Time}
use agenttask_operator.Api.Task.{
  AgentTask, AgentTaskPhase, unset, pending, scheduled, running, is_terminal,
}
use agenttask_operator.Platform.{Platform, ok}
use agenttask_operator.Platform.Exec.{World, now}
use agenttask_operator.Platform.Sends.{
  Sends, Sends-if, Sends-bind_after, Sends-Option_eq, sends_rules,
}
use agenttask_operator.Controller.Outcome.{with_status}
use agenttask_operator.Controller.Reconcile.{
  expiration, delete_expired, reconcile_finished, run_phase, initialize, reconcile_started,
  ignores_cancel, reconcile_canceled_flag, reconcile_active, add_missing_finalizer,
  reconcile_deleted, reconcile_task, agent_task_finalizer, with_finalizers,
}
use agenttask_operator.Controller.Safety.Allowed.{
  IsWrite, IsExpired, IsFinalizerUpdate, accept, cancel, expire, Allowed, writes_status,
  updates_finalizers, deletes_task,
}
use agenttask_operator.Controller.Safety.Endings.{
  finalize_agent_task-Sends, reconcile_canceled-Sends, reconcile_timeout-Sends, check_timeout-Sends,
  check_timeout-IsLate,
}
use agenttask_operator.Controller.Safety.Handlers.{
  reconcile_pending-Sends, reconcile_scheduled-Sends, reconcile_running-Sends,
}

module _ (P : Platform) (task : AgentTask) where
  delete_expired-Sends : IsExpired P task → Sends {P = P} (Allowed P task) (delete_expired task)
  unfolding delete_expired
  delete_expired-Sends old = search (sends_rules, deletes_task)

  module _ (ended : is_terminal task.status.phase ≡ true)
      (wanted : task.spec.canceled ≡ false) where
    past_ttl :
        (ttl : ℤ) (completion : Time)
        → task.spec.ttl_seconds_after_finished ≡ some ttl
        → task.status.completion_time ≡ some completion
        → (w : World P) (t : Time) → (now {P = P} w).0 ≡ ok t
        → ltb_ℤ (expiration completion ttl) t ≡ true
        → IsExpired P task
    unfolding now
    past_ttl ttl completion limited completed w t read late = record {
      finished = ended;
      wanted = wanted;
      completion = completion;
      completed = completed;
      ttl = ttl;
      limited = limited;
      reading = w.readings;
      passed = ground arith;
    }

    reconcile_finished-Sends : Sends {P = P} (Allowed P task) (reconcile_finished task)
    unfolding reconcile_finished
    reconcile_finished-Sends =
        Sends-Option_eq task.spec.ttl_seconds_after_finished _ _ (search sends_rules)
          (λ ttl limited.
            Sends-Option_eq task.status.completion_time _ _ (search sends_rules)
              (λ completion completed. Sends-bind_after _ _ (search sends_rules) (λ w t read.
                Sends-if (ltb_ℤ (expiration completion ttl) t) _ _
                  (λ late.
                    delete_expired-Sends (past_ttl ttl completion limited completed w t read late))
                  (λ _. search sends_rules))))

  run_phase-Sends :
      (phase : AgentTaskPhase)
      → task.status.phase ≡ phase
      → task.spec.canceled ≡ false
      → Sends {P = P} (Allowed P task) (run_phase phase task)
  unfolding run_phase
  run_phase-Sends unset from wanted = search sends_rules
  run_phase-Sends pending from wanted = search (sends_rules, reconcile_pending-Sends)
  run_phase-Sends scheduled from wanted = search (sends_rules, reconcile_scheduled-Sends)
  run_phase-Sends running from wanted = search (sends_rules, reconcile_running-Sends)
  run_phase-Sends _ from wanted = reconcile_finished-Sends (rw from refl) wanted

  initialize-IsWrite :
      (start : Time)
      → task.status.phase ≡ unset
      → IsWrite P task
          (with_status task (record (task.status) { phase = pending; start_time = some start }))
  initialize-IsWrite start from = record {
    meta = refl;
    spec = refl;
    move = accept from;
    completed = λ ended. cc (ended);
    start_kept = λ begun. absurd (begun from);
  }

  initialize-Sends : task.status.phase ≡ unset → Sends {P = P} (Allowed P task) (initialize task)
  unfolding initialize
  initialize-Sends from = search (sends_rules, writes_status, initialize-IsWrite)

  reconcile_started-Sends :
      task.status.phase ≢ unset
      → task.spec.canceled ≡ false
      → Sends {P = P} (Allowed P task) (reconcile_started task)
  unfolding reconcile_started
  reconcile_started-Sends begun wanted =
      Sends-bind_after _ _ (check_timeout-Sends P task) (λ w late checked.
        Sends-if late _ _
          (λ passed.
            reconcile_timeout-Sends P task
              (expire wanted begun (check_timeout-IsLate P task w (rw passed at checked))))
          (λ _. run_phase-Sends task.status.phase refl wanted))

  reconcile_canceled_flag-Sends :
      task.status.phase ≢ unset
      → task.spec.canceled ≡ true
      → Sends {P = P} (Allowed P task) (reconcile_canceled_flag task)
  unfolding reconcile_canceled_flag
  reconcile_canceled_flag-Sends begun asked =
      Sends-if (ignores_cancel task.status.phase) _ _ (λ _. search sends_rules)
        (λ may.
          reconcile_canceled-Sends P task
            (cancel asked begun (λ e. cc (e, may)) (λ e. ground arith) (λ e. ground arith)))

  begun-Sends :
      task.status.phase ≢ unset
      → Sends {P = P}
          (Allowed P task)
          (if task.spec.canceled then reconcile_canceled_flag task else reconcile_started task)
  begun-Sends begun =
      Sends-if task.spec.canceled _ _ (reconcile_canceled_flag-Sends begun)
        (reconcile_started-Sends begun)

  reconcile_active-Sends :
      (phase : AgentTaskPhase)
      → task.status.phase ≡ phase
      → Sends {P = P} (Allowed P task) (reconcile_active phase task)
  unfolding reconcile_active
  reconcile_active-Sends unset from = initialize-Sends from
  reconcile_active-Sends _ from = begun-Sends (λ e. cc (e, from))

  added :
      P.is_zero_time task.meta.deletion_timestamp ≡ true
      → P.contains_finalizer task.meta.finalizers agent_task_finalizer ≡ false
      → IsFinalizerUpdate P task (with_finalizers P.add_finalizer task)
  added kept missing = record {
    spec = refl;
    status = refl;
    meta = refl;
    change = inl (kept, missing, refl);
  }

  removed :
      P.is_zero_time task.meta.deletion_timestamp ≡ false
      → P.contains_finalizer task.meta.finalizers agent_task_finalizer ≡ true
      → IsFinalizerUpdate P task (with_finalizers P.remove_finalizer task)
  removed gone there = record {
    spec = refl;
    status = refl;
    meta = refl;
    change = inr (gone, there, refl);
  }

  add_missing_finalizer-Sends :
      P.is_zero_time task.meta.deletion_timestamp ≡ true
      → P.contains_finalizer task.meta.finalizers agent_task_finalizer ≡ false
      → Sends {P = P} (Allowed P task) (add_missing_finalizer task)
  unfolding add_missing_finalizer
  add_missing_finalizer-Sends kept missing = search (sends_rules, updates_finalizers, added)

  reconcile_deleted-Sends :
      P.is_zero_time task.meta.deletion_timestamp ≡ false
      → Sends {P = P} (Allowed P task) (reconcile_deleted task)
  unfolding reconcile_deleted
  reconcile_deleted-Sends gone =
      search (sends_rules, updates_finalizers, removed, finalize_agent_task-Sends) depth 7

  pub reconcile_task-Sends : Sends {P = P} (Allowed P task) (reconcile_task task)
  unfolding reconcile_task
  reconcile_task-Sends =
      Sends-if (P.is_zero_time task.meta.deletion_timestamp) _ _
        (λ kept.
          Sends-if (P.contains_finalizer task.meta.finalizers agent_task_finalizer) _ _
            (λ _. reconcile_active-Sends task.status.phase refl) (add_missing_finalizer-Sends kept))
        reconcile_deleted-Sends
