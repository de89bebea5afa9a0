-- ===== src/Cluster/Progress.antt =====
-- The small cluster, once a task is placed: what a reconciliation makes of the phase that is stored, by
-- what has become of the pod.
use agenttask_operator.Base.{◌≡◌, refl, sym, ap, ◌∙◌, ◌⊎◌, inl, inr, false, some, arith}
use agenttask_operator.Api.Core.{NamespacedName, ref_key}
use agenttask_operator.Api.Task.{AgentTask, AgentTaskStatus, AgentTaskPhase, scheduled, running}
use agenttask_operator.Platform.{Result, Result-cases, ok, get_task}
use agenttask_operator.Platform.Exec.{World, Exec, send, pure, ◌>>=◌, ◌>>◌}
use agenttask_operator.Cluster.{small_cluster, serve, find, task_key, pod_key}
use agenttask_operator.Cluster.Store.{find-key}
use agenttask_operator.Cluster.Refinement.{life, stored_at, reconcile_found}
use agenttask_operator.Controller.Outcome.{with_status}
use agenttask_operator.Controller.Phases.{reconcile_scheduled, reconcile_running}
use agenttask_operator.Controller.Expiry.{IsLive}
use agenttask_operator.Controller.Cleanup.{ReconcileResult, no_requeue, check_timeout}
use agenttask_operator.Controller.Reconcile.{
  reconcile_started, reconcile_active, run_phase, reconcile, reconcile_task,
}
use agenttask_operator.Cluster.Writes.{own}
use agenttask_operator.Cluster.Looks.{followed, pod_of, scheduled_lem, running_lem}

-- What an untroubled task is: it is live, nobody asked for its cancellation, and it is not late.
pub record IsUntroubled (task : AgentTask) (w : World small_cluster) : Type 0 where
  pub live : IsLive small_cluster task
  pub wanted : task.spec.canceled ≡ false
  pub early : (check_timeout task w).0 ≡ ok false

pub check_timeout-quiet :
    (task : AgentTask) (w : World small_cluster) → (check_timeout task w).1.api ≡ w.api
unfolding check_timeout ◌>>=◌
check_timeout-quiet task w = ground arith

pub check_timeout_at :
    (task : AgentTask) (v w : World small_cluster)
    → v.readings ≡ w.readings
    → (check_timeout task v).0 ≡ (check_timeout task w).0
unfolding check_timeout ◌>>=◌
check_timeout_at task v w e = ground arith

pub then_pure :
    {A : Type 0} (m : Exec small_cluster A) (r : ReconcileResult) (w : World small_cluster)
    → ((m >> pure r) w).1 ≡ (m w).1
unfolding ◌>>=◌
then_pure m r w = elim (Result-cases (m w).0) [ inl (u, e) ↦ rw e refl | inr (x, e) ↦ rw e refl ]

abbrev IsPlaced : AgentTaskPhase → Type 0
IsPlaced phase = (phase ≡ scheduled) ⊎ (phase ≡ running)

module _ (task : AgentTask) where
  active_lem :
      (phase : AgentTaskPhase) (w : World small_cluster)
      → IsPlaced phase
      → task.spec.canceled ≡ false
      → reconcile_active phase task w ≡ reconcile_started task w
  unfolding reconcile_active
  active_lem scheduled w h wanted = rw wanted
  active_lem running w h wanted = rw wanted
  active_lem _ w (inl h) wanted = absurd (cc h)
  active_lem _ w (inr h) wanted = absurd (cc h)

  pub started_lem :
      (w : World small_cluster)
      → (check_timeout task w).0 ≡ ok false
      → reconcile_started task w ≡ run_phase task.status.phase task (check_timeout task w).1
  unfolding reconcile_started ◌>>=◌
  started_lem w e = rw e refl

  pub live_lem :
      (w : World small_cluster)
      → IsUntroubled task w
      → IsPlaced task.status.phase
      → reconcile_task task w ≡ run_phase task.status.phase task (check_timeout task w).1
  unfolding reconcile_task
  live_lem w h placed =
      rw (h.live.kept, h.live.held)
        (active_lem task.status.phase w placed h.wanted ∙ started_lem w h.early)

  run_placed :
      (phase : AgentTaskPhase) (w : World small_cluster)
      → own task w ≡ ok task
      → task.status.phase ≡ phase
      → IsPlaced phase
      → (st : AgentTaskStatus) × (own task (run_phase phase task w).1 ≡ ok (with_status task st))
        × (st.phase ≡ followed phase task.status.pod_ref.kind (pod_of task w))
  unfolding run_phase
  run_placed scheduled w found e h =
      rw (then_pure (reconcile_scheduled task) no_requeue w) (scheduled_lem task w found e)
  run_placed running w found e h =
      rw (then_pure (reconcile_running task) no_requeue w) (running_lem task w found e)
  run_placed _ w found e (inl h) = absurd (cc h)
  run_placed _ w found e (inr h) = absurd (cc h)

  followed_lem :
      (w : World small_cluster)
      → own task w ≡ ok task
      → IsUntroubled task w
      → IsPlaced task.status.phase
      → (st : AgentTaskStatus) × (own task (reconcile_task task w).1 ≡ ok (with_status task st))
        × (st.phase ≡ followed task.status.phase task.status.pod_ref.kind (pod_of task w))
  unfolding pod_of
  followed_lem w found h placed =
      let u : World small_cluster = (check_timeout task w).1 in
      let same : u.api ≡ w.api = check_timeout-quiet task w in
      let (st, stands, verdict) =
        run_placed task.status.phase u
          (ap (λ s. find task_key (task_key task) s.tasks) same ∙ found) refl placed in
      (
        st,
        ap (λ r. own task r.1) (live_lem w h placed) ∙ stands,
        verdict
            ∙ ap
                (λ s.
                  followed task.status.phase task.status.pod_ref.kind
                    (find pod_key (ref_key task.status.pod_ref) s.pods))
                same,
      )

  -- What a reconciliation of a key leaves under it, by what it leaves of the fetched task.
  pub stored_after :
      (k : NamespacedName) (w : World small_cluster) (r : Result AgentTask)
      → stored_at k w.api ≡ ok task
      → own task (reconcile_task task (send (get_task k) w).1).1 ≡ r
      → stored_at k (reconcile k w).1.api ≡ r
  stored_after k w r found e =
      ap (λ j. stored_at j (reconcile k w).1.api) (sym (find-key task_key k w.api.tasks task found))
      ∙ ap (own task) (reconcile_found k w task found)
      ∙ e

  pub own_found :
      (k : NamespacedName) (w : World small_cluster)
      → stored_at k w.api ≡ ok task
      → own task (send (get_task k) w).1 ≡ ok task
  unfolding send serve
  own_found k w found =
      ap (λ j. find task_key j w.api.tasks) (find-key task_key k w.api.tasks task found) ∙ found

  -- Where a scheduled or running task is stored, is not being deleted, has the finalizer, is not flagged
  -- as canceled and is within its limit at the next reading of the clock, a reconciliation of its key on
  -- the small cluster stores the phase that its pod gives. With a sandbox that is running. Otherwise it is
  -- failed where the pod is missing or has failed, and succeeded where it has succeeded; where the pod
  -- runs, a scheduled task is running, and a running one is succeeded or failed by the exit code once a
  -- task container has terminated; where the pod is pending, a scheduled task is failed if an image cannot
  -- be pulled; and in all other cases the phase is as it was.
  pub placed_task_followed :
      (k : NamespacedName) (w : World small_cluster)
      → stored_at k w.api ≡ ok task
      → IsUntroubled task w
      → IsPlaced task.status.phase
      → life (stored_at k (reconcile k w).1.api)
        ≡ some (record {
          phase =
              followed task.status.phase task.status.pod_ref.kind
                (find pod_key (ref_key task.status.pod_ref) w.api.pods);
          canceled = false;
        })
  unfolding serve pod_of send
  placed_task_followed k w found h placed =
      let v : World small_cluster = (send (get_task k) w).1 in
      let (st, stands, verdict) =
        followed_lem v (own_found k w found)
          (record {
            live = h.live;
            wanted = h.wanted;
            early = check_timeout_at task v w refl ∙ h.early;
          })
          placed in
      ap life (stored_after k w _ found stands) ∙ rw (verdict, h.wanted) refl
