-- ===== src/Cluster/Writes.antt =====
-- The small cluster, under the handlers that end a step with a write of the task's status: which phase is
-- stored after them.
use agenttask_operator.Base.{
  Bool-cases, ◌&&◌, if◌then◌else◌, inl, inr, ◌≡◌, refl, ap, ◌∙◌, Option-cases, String, List, some,
  arith,
}
use agenttask_operator.Api.Core.{NamespacedName, Pod, Time}
use agenttask_operator.Api.Task.{
  AgentTask, AgentTaskStatus, AgentTaskPhase, AgentTaskReason, succeeded, failed, reason_text,
  pod_failed as reason_failed,
}
use agenttask_operator.Platform.{Request, Result, ok, err, update_task, update_status, delete_pod}
use agenttask_operator.Platform.Exec.{World, Exec, send, now, pure, ◌>>=◌, ◌>>◌}
use agenttask_operator.Platform.Sends.{Sends, sends_rules}
use agenttask_operator.Cluster.{small_cluster, serve, find, task_key, is_marked, is_empty, missing}
use agenttask_operator.Cluster.Leaves.{Leaves, keeps}
use agenttask_operator.Cluster.Store.{find-replace, find-erase, same_key_iff}
use agenttask_operator.Controller.Outcome.{
  with_status, record_end, observe_duration, delete_if_present, handle_pod_success,
  handle_pod_failure, update_phase_failure,
}
use agenttask_operator.Controller.Phases.{set_phase}
use agenttask_operator.Controller.Reconcile.{with_finalizers}
use agenttask_operator.Controller.Safety.Details.{
  failure_details-SameLife, success_details-SameLife,
}
use agenttask_operator.Controller.Safety.Endings.{record_end-Sends}

-- A request that leaves the tasks as they are.
abbrev pub Aside : Request → Type 0
Aside = Leaves (λ s. s.tasks)

delete_pod-Aside : (k : NamespacedName) → Aside (delete_pod k)
unfolding serve
delete_pod-Aside k s = ground arith

delete_if_present-Sends : (pod : Pod) → Sends {P = small_cluster} Aside (delete_if_present pod)
unfolding delete_if_present
delete_if_present-Sends pod = search (sends_rules, delete_pod-Aside)

-- What is stored under the task's key.
abbrev pub own : AgentTask → World small_cluster → Result AgentTask
own task w = find task_key (task_key task) w.api.tasks

-- Where the task is stored, it is stored with the phase `q` after `m`.
pub record Moves {A : Type 0} (task : AgentTask) (q : AgentTaskPhase) (m : Exec small_cluster A)
    : Type 0 where
  pub from :
      (w : World small_cluster)
      → own task w ≡ ok task
      → (st : AgentTaskStatus) × (own task (m w).1 ≡ ok (with_status task st)) × (st.phase ≡ q)

module _ (task : AgentTask) where
  pub write_lem :
      {A : Type 0} (st : AgentTaskStatus) (f : AgentTask → Exec small_cluster A)
      (w : World small_cluster)
      → ((a : AgentTask) → Sends Aside (f a))
      → own task w ≡ ok task
      → own task ((send (update_status (with_status task st)) >>= f) w).1 ≡ ok (with_status task st)
  unfolding ◌>>=◌ serve
  write_lem st f w h e =
      rw (e, serve)
        (ap (find task_key (task_key task))
            (keeps (λ s. s.tasks) (f (with_status task st)) (h (with_status task st)) _)
          ∙ find-replace task_key (task_key task) (with_status task st) w.api.tasks
          ∙ rw ((same_key_iff (task_key task) (task_key task)).1 refl) (rw e refl))

  -- Where the task is stored, its finalizers are changed, and a marked task goes with the last of them.
  pub finalizers_lem :
      (change : List String → String → List String) (w : World small_cluster)
      → own task w ≡ ok task
      → own task (send (update_task (with_finalizers change task)) w).1 ≡ (
          if is_marked task.meta && is_empty (with_finalizers change task).meta.finalizers
          then err missing
          else ok (with_finalizers change task))
  unfolding send serve
  finalizers_lem change w e =
      rw (e, serve)
        (elim (Bool-cases
          (is_marked task.meta && is_empty (with_finalizers change task).meta.finalizers)) [
            | inl go ↦ rw go (
                find-erase task_key (task_key task) (task_key task) w.api.tasks
                ∙ rw ((same_key_iff (task_key task) (task_key task)).1 refl) refl)
            | inr stay ↦ rw stay (
                find-replace task_key (task_key task) (with_finalizers change task) w.api.tasks
                ∙ rw ((same_key_iff (task_key task) (task_key task)).1 refl) (rw e refl))
          ])

  pub Moves-write :
      {A : Type 0} {q : AgentTaskPhase} (st : AgentTaskStatus)
      (f : AgentTask → Exec small_cluster A)
      → st.phase ≡ q
      → ((a : AgentTask) → Sends Aside (f a))
      → Moves task q (send (update_status (with_status task st)) >>= f)
  Moves-write st f same h = record { from = λ w e. (st, write_lem st f w h e, same) }

  -- A step before that returns no error and leaves the tasks as they are.
  pub Moves-after :
      {A : Type 0} {q : AgentTaskPhase} (m : Exec small_cluster (Unit {0}))
      (k : Exec small_cluster A)
      → ((w : World small_cluster) → ((m w).0 ≡ ok tt) × ((m w).1.api.tasks ≡ w.api.tasks))
      → Moves task q k
      → Moves task q (m >> k)
  unfolding ◌>>=◌
  Moves-after m k quiet h = record {
    from = λ w e.
        let (fine, same) = quiet w in
        rw fine (h.from (m w).1 (ap (find task_key (task_key task)) same ∙ e));
  }

  pub Moves-now :
      {A : Type 0} {q : AgentTaskPhase} (f : Time → Exec small_cluster A)
      → ((t : Time) → Moves task q (f t))
      → Moves task q (now >>= f)
  unfolding ◌>>=◌
  Moves-now f h = record { from = λ w e. (h _).from _ e }

pub record_end-quiet :
    (phase reason : String) (st : AgentTaskStatus) (completion : Time)
    → st.completion_time ≡ some completion
    → (w : World small_cluster)
    → ((record_end phase reason st w).0 ≡ ok tt)
      × ((record_end phase reason st w).1.api.tasks ≡ w.api.tasks)
unfolding record_end observe_duration ◌>>=◌
record_end-quiet phase reason st completion done w = elim (Option-cases st.start_time) [
  | inl e ↦ rw e (refl, refl)
  | inr (start, e) ↦ rw e (rw done (refl, refl))
]

module _ (task : AgentTask) where
  pub success-Moves : (pod : Pod) → Moves task succeeded (handle_pod_success task pod)
  unfolding handle_pod_success
  success-Moves pod = Moves-now task _ (λ t.
      Moves-write task _ _ (success_details-SameLife pod.container_statuses _).phase
        (λ a. search (sends_rules, delete_if_present-Sends, record_end-Sends)))

  abbrev failed_at : Time → String → String → AgentTaskStatus
  failed_at t reason message = record (task.status) {
    phase = failed;
    completion_time = some t;
    reason = reason;
    message = message;
  }

  pub failure-Moves : (pod : Pod) → Moves task failed (handle_pod_failure task pod)
  unfolding handle_pod_failure
  failure-Moves pod = Moves-now task _ (λ t.
      Moves-after task _ _
        (record_end-quiet _ _ (failed_at t (reason_text reason_failed) "The execution pod failed.")
          t refl)
        (Moves-write task _ _ (failure_details-SameLife pod.container_statuses _).phase
          (λ a. search (sends_rules, delete_if_present-Sends, record_end-Sends))))

  pub update-Moves :
      (reason : AgentTaskReason) (message : String)
      → Moves task failed (update_phase_failure task reason message)
  unfolding update_phase_failure
  update-Moves reason message = Moves-now task _ (λ t.
      Moves-after task _ _ (record_end-quiet _ _ (failed_at t (reason_text reason) message) t refl)
        (Moves-write task _ _ refl (λ a. search sends_rules)))

  pub set_phase-Moves : (phase : AgentTaskPhase) → Moves task phase (set_phase task phase)
  unfolding set_phase
  set_phase-Moves phase = Moves-write task _ _ refl (λ a. search sends_rules)

  pub rest-Moves : (q : AgentTaskPhase) → task.status.phase ≡ q → Moves task q (pure tt)
  unfolding pure
  rest-Moves q e = record { from = λ w f. (task.status, f, e) }
