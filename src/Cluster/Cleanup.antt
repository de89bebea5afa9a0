-- ===== src/Cluster/Cleanup.antt =====
-- The small cluster, when a task is deleted, canceled or late: its pod and what is stored of it.
use agenttask_operator.Base.{
  ◌⊎◌, ◌&&◌, if◌then◌else◌, ◌≡◌, some, refl, ap, ◌∙◌, inl, inr, true, false, ◌==◌, List, [], ◌∷◌,
  arith,
}
use agenttask_operator.Api.Core.{Time, NamespacedName, Pod, ref_key}
use agenttask_operator.Api.Task.{
  AgentTask, AgentTaskStatus, canceled, timeout, timed_out, cancel_requested, reason_text,
}
use agenttask_operator.Platform.{
  Error, Request, Result-cases, ok, err, update_status, update_task, delete_pod,
}
use agenttask_operator.Platform.Exec.{World, Exec, send, ◌>>=◌, ◌>>◌}
use agenttask_operator.Platform.Sends.{Sends, sends_rules}
use agenttask_operator.Cluster.{
  Objects, small_cluster, serve, find, replace, missing, is_marked, is_empty, marked_pod, pod_key,
  task_key,
}
use agenttask_operator.Cluster.Leaves.{Leaves, keeps, around}
use agenttask_operator.Cluster.Store.{find-replace, find-key, same_key_iff}
use agenttask_operator.Cluster.Writes.{
  finalizers_lem, own, Moves, Moves-after, Moves-now, Moves-write, record_end-quiet,
}
use agenttask_operator.Controller.Outcome.{delete_if_present}
use agenttask_operator.Controller.Cleanup.{
  no_requeue, finalize_agent_task, delete_timed_out_pod, reconcile_canceled, reconcile_timeout,
}
use agenttask_operator.Controller.Safety.Endings.{record_end-Sends}
use agenttask_operator.Controller.Reconcile.{
  agent_task_finalizer, with_finalizers, reconcile_deleted,
}
use agenttask_operator.Cluster.Progress.{then_pure}

-- A request that leaves the pods and the definitions as they are.
abbrev pub BesideTasks : Request → Type 0
BesideTasks = Leaves around

pub update_task-BesideTasks : (t : AgentTask) → BesideTasks (update_task t)
unfolding serve
update_task-BesideTasks t s = elim (Result-cases (find task_key (task_key t) s.tasks)) [
  | inl (a, e) ↦ rw (e, serve) refl
  | inr (x, e) ↦ rw (e, serve) refl
]

pub update_status-BesideTasks : (t : AgentTask) → BesideTasks (update_status t)
unfolding serve
update_status-BesideTasks t s = elim (Result-cases (find task_key (task_key t) s.tasks)) [
  | inl (a, e) ↦ rw (e, serve) refl
  | inr (x, e) ↦ rw (e, serve) refl
]

-- No pod is found under the key, or one that is marked for deletion.
abbrev pub IsStopped : NamespacedName → List Pod → Type 0
IsStopped k pods =
    (find pod_key k pods ≡ err missing)
    ⊎ ((pod : Pod) × (find pod_key k pods ≡ ok pod) × (is_marked pod.meta ≡ true))

-- What a step that removes the task's pod does: it returns no error, the pod under the reference that the
-- status keeps is stopped, and the tasks are as they were.
record Removes (task : AgentTask) (m : Exec small_cluster (Unit {0})) : Type 0 where
  at :
      (w : World small_cluster)
      → ((m w).0 ≡ ok tt)
        × IsStopped (ref_key task.status.pod_ref) (m w).1.api.pods
        × ((m w).1.api.tasks ≡ w.api.tasks)

find_absent :
    (k : NamespacedName) (pods : List Pod) (x : Error) → find pod_key k pods ≡ err x → x ≡ missing
unfolding find
find_absent k [] x e = cc e
find_absent k (p ∷ ps) x e = ground (arith, find_absent k ps x)

delete_lem :
    (k : NamespacedName) (pod : Pod) (s : Objects)
    → find pod_key k s.pods ≡ ok pod
    → serve (delete_pod (pod_key pod)) s
      ≡ (ok tt, record s { pods = replace pod_key (marked_pod s.time pod) s.pods })
unfolding serve
delete_lem k pod s e = rw (find-key pod_key k s.pods pod e) (rw (e, serve) refl)

stopped :
    (k : NamespacedName) (pod : Pod) (s : Objects)
    → find pod_key k s.pods ≡ ok pod
    → IsStopped k (replace pod_key (marked_pod s.time pod) s.pods)
stopped k pod s e = inr (
  marked_pod s.time pod,
  find-replace pod_key k (marked_pod s.time pod) s.pods
      ∙ rw ((same_key_iff (pod_key pod) k).1 (find-key pod_key k s.pods pod e)) (rw e refl),
  refl,
)

module _ (task : AgentTask) (named : (task.status.pod_ref.name == "") ≡ false) where
  abbrev ref : NamespacedName
  ref = ref_key task.status.pod_ref

  finalize-Removes : Removes task (finalize_agent_task task)
  unfolding finalize_agent_task delete_if_present ◌>>=◌ serve
  finalize-Removes = record {
    at = λ w. elim (Result-cases (find pod_key ref w.api.pods)) [
      | inl (pod, e) ↦
          rw (named, finalize_agent_task)
            (rw e (
              rw (delete_lem ref pod w.api e, delete_if_present)
                (refl, stopped ref pod w.api e, refl)))
      | inr (x, e) ↦
          rw (named, finalize_agent_task)
            (rw e (
              rw (find_absent ref w.api.pods x e)
                (refl, inl (e ∙ ap err (find_absent ref w.api.pods x e)), refl)))
    ];
  }

  timed_out-Removes : Removes task (delete_timed_out_pod task)
  unfolding delete_timed_out_pod ◌>>=◌ serve
  timed_out-Removes = record {
    at = λ w. elim (Result-cases (find pod_key ref w.api.pods)) [
      | inl (pod, e) ↦
          rw (named, delete_timed_out_pod)
            (rw e (rw (delete_lem ref pod w.api e) (refl, stopped ref pod w.api e, refl)))
      | inr (x, e) ↦
          rw (named, delete_timed_out_pod)
            (rw e (refl, inl (e ∙ ap err (find_absent ref w.api.pods x e)), refl))
    ];
  }

  -- The pod stays away while the rest of a handler runs.
  away :
      {A : Type 0} (m : Exec small_cluster (Unit {0})) (k : Exec small_cluster A)
      → Removes task m
      → Sends BesideTasks k
      → (w : World small_cluster) → IsStopped ref ((m >> k) w).1.api.pods
  unfolding ◌>>=◌
  away m k r h w =
      let (fine, gone, same) = r.at w in
      rw fine (rw (ap (λ p. p.0) (keeps around k h (m w).1)) gone)

  pub canceled_lem :
      (w : World small_cluster) → IsStopped ref (reconcile_canceled task w).1.api.pods
  unfolding reconcile_canceled
  canceled_lem =
      away _ _ finalize-Removes (search (sends_rules, record_end-Sends, update_status-BesideTasks))

  abbrev canceled_at : Time → AgentTaskStatus
  canceled_at t = record (task.status) {
    phase = canceled;
    completion_time = some t;
    reason = reason_text cancel_requested;
    message = "Task was canceled by user request";
  }

  pub canceled-Moves : Moves task canceled (reconcile_canceled task)
  unfolding reconcile_canceled
  canceled-Moves =
      Moves-after task _ _ (λ w. let (fine, gone, same) = finalize-Removes.at w in (fine, same))
        (Moves-now task _ (λ t.
          Moves-after task _ _ (record_end-quiet _ _ (canceled_at t) t refl)
            (Moves-write task _ _ refl (λ a. search sends_rules))))

  pub timeout_lem : (w : World small_cluster) → IsStopped ref (reconcile_timeout task w).1.api.pods
  unfolding reconcile_timeout
  timeout_lem =
      away _ _ timed_out-Removes (search (sends_rules, record_end-Sends, update_status-BesideTasks))

  abbrev timeout_at : Time → AgentTaskStatus
  timeout_at t = record (task.status) {
    phase = timeout;
    completion_time = some t;
    reason = reason_text timed_out;
    message = "Task execution exceeded the timeout limit.";
  }

  pub timeout-Moves : Moves task timeout (reconcile_timeout task)
  unfolding reconcile_timeout
  timeout-Moves =
      Moves-after task _ _ (λ w. let (fine, gone, same) = timed_out-Removes.at w in (fine, same))
        (Moves-now task _ (λ t.
          Moves-after task _ _ (record_end-quiet _ _ (timeout_at t) t refl)
            (Moves-write task _ _ refl (λ a. search sends_rules))))

  -- The task as it is stored once its finalizer is removed.
  abbrev released : AgentTask
  released = with_finalizers small_cluster.remove_finalizer task

  pub deleted_lem :
      (w : World small_cluster)
      → small_cluster.contains_finalizer task.meta.finalizers agent_task_finalizer ≡ true
      → own task w ≡ ok task
      → (own task (reconcile_deleted task w).1 ≡ (
          if is_marked task.meta && is_empty released.meta.finalizers
          then err missing
          else ok released))
        × IsStopped ref (reconcile_deleted task w).1.api.pods
  unfolding reconcile_deleted ◌>>=◌ send
  deleted_lem w held e =
      let (fine, gone, same) = finalize-Removes.at w in
      let v : World small_cluster = (finalize_agent_task task w).1 in
      rw (held, reconcile_deleted)
        (rw fine (
          rw (then_pure (send (update_task released)) no_requeue v) (
            finalizers_lem task small_cluster.remove_finalizer v
                (ap (find task_key (task_key task)) same ∙ e),
            rw (ap (λ p. p.0) (update_task-BesideTasks released v.api)) gone,
          )))
