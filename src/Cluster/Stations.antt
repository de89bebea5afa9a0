-- ===== src/Cluster/Stations.antt =====
-- The small cluster: the single steps of a task from its arrival to its work.
use agenttask_operator.Base.{ℕ, ◌≡◌, refl, ap, ◌∙◌, inl, false, List, contains, ◌==◌}
use agenttask_operator.Base.Int.{◌+ℤ◌, ltb_ℤ}
use agenttask_operator.Api.Core.{
  NamespacedName, ContainerStatus, Pod, PodPhase, pod_running, ref_key,
}
use agenttask_operator.Api.Task.{AgentTask, scheduled, running}
use agenttask_operator.Platform.{ok, err, get_task, get_pod}
use agenttask_operator.Platform.Exec.{World, send, pure, ◌>>=◌}
use agenttask_operator.Platform.Sends.{sends_rules}
use agenttask_operator.Webhook.{validate_agent_task}
use agenttask_operator.Sandbox.{sandbox_kind}
use agenttask_operator.Controller.Outcome.{with_status}
use agenttask_operator.Controller.Resources.{owned_key}
use agenttask_operator.Controller.Phases.{set_phase, scheduled_pod, reconcile_scheduled}
use agenttask_operator.Controller.Cleanup.{check_timeout, timeout_budget, no_requeue}
use agenttask_operator.Controller.Reconcile.{initialize, run_phase, reconcile_task, reconcile}
use agenttask_operator.Cluster.{
  Objects, small_cluster, world_at, serve, find, missing, pod_key, task_key,
}
use agenttask_operator.Cluster.Events.{report}
use agenttask_operator.Cluster.Leaves.{around, keeps}
use agenttask_operator.Cluster.Store.{find-replace, find-key, same_key_iff}
use agenttask_operator.Cluster.Refinement.{stored_at, reconcile_found}
use agenttask_operator.Cluster.Writes.{own, write_lem}
use agenttask_operator.Cluster.Cleanup.{update_task-BesideTasks, update_status-BesideTasks}
use agenttask_operator.Cluster.Progress.{
  IsUntroubled, then_pure, own_found, stored_after, check_timeout-quiet, check_timeout_at, live_lem,
}
use agenttask_operator.Cluster.Scene.{set_phase_pods}
use agenttask_operator.Cluster.PodPlacement.{in_pod, pending-Boards}
use agenttask_operator.Cluster.Arrival.{
  IsNew, started-IsCoded, held, started, held_run, started_run, pending_run,
}

-- The time limit that runs from the reading `n` of the clock is not over at the reading `m`.
abbrev pub IsInTime : AgentTask → ℕ → ℕ → Type 0
IsInTime task n m =
    ltb_ℤ (small_cluster.clock n +ℤ timeout_budget task.spec.timeout_seconds)
      (small_cluster.clock m)
    ≡ false

-- The pod that was there is found with what was reported.
pub report_pod :
    (k : NamespacedName) (phase : PodPhase) (statuses : List ContainerStatus) (s : Objects)
    (pod : Pod)
    → find pod_key k s.pods ≡ ok pod
    → find pod_key k (report k phase statuses s).pods
      ≡ ok (record pod { phase = phase; container_statuses = statuses })
unfolding report
report_pod k phase statuses s pod e =
    let here : pod_key pod ≡ k = find-key pod_key k s.pods pod e in
    rw (e, report)
      (find-replace pod_key k (record pod { phase = phase; container_statuses = statuses }) s.pods
        ∙ rw ((same_key_iff (pod_key pod) k).1 here) (rw e refl))

module _ (task : AgentTask) where
  -- The first two reconciliations leave the pods and the definitions as they are.
  pub held_around :
      (k : NamespacedName) (l : ℕ) (s : Objects)
      → stored_at k s ≡ ok task
      → IsNew task
      → around (reconcile k (world_at l s)).1.api ≡ around s
  unfolding send serve
  held_around k l s found new =
      let v : World small_cluster = (send (get_task k) (world_at l s)).1 in
      ap (λ w. around w.api) (reconcile_found k (world_at l s) task found ∙ held_run task v new)
      ∙ update_task-BesideTasks (held task) s

  pub started_around :
      (k : NamespacedName) (n : ℕ) (s : Objects)
      → stored_at k s ≡ ok (held task)
      → IsNew task
      → around (reconcile k (world_at n s)).1.api ≡ around s
  unfolding send serve
  started_around k n s found new =
      let v : World small_cluster = (send (get_task k) (world_at n s)).1 in
      ap (λ w. around w.api) (reconcile_found k (world_at n s) (held task) found)
      ∙ ap (λ r. around r.1.api) (started_run task v new)
      ∙ keeps around (initialize (held task))
          (unfold initialize in (search (sends_rules, update_status-BesideTasks))) v

  -- What is stored under the key with the pod, and that the pod is there.
  abbrev pub InPod : NamespacedName → AgentTask → Objects → Type 0
  InPod k t s =
      (stored_at k s ≡ ok t)
      × ((pod : Pod) × (find pod_key (owned_key task "-pod") s.pods ≡ ok pod))

  pub boarded :
      (k : NamespacedName) (n m : ℕ) (s : Objects)
      → stored_at k s ≡ ok (started task n)
      → IsNew task
      → find pod_key (owned_key task "-pod") s.pods ≡ err missing
      → contains s.crds "sandboxes.execution.agenttask.io" ≡ false
      → IsInTime task n m
      → InPod k (in_pod (started task n)) (reconcile k (world_at m s)).1.api
  unfolding send serve
  boarded k n m s found new free no_sandboxes early =
      let t : AgentTask = started task n in
      let v : World small_cluster = (send (get_task k) (world_at m s)).1 in
      let u : World small_cluster = (check_timeout t v).1 in
      let same : u.api ≡ v.api = check_timeout-quiet t v in
      let (kept, (pod, there)) =
        pending-Boards t (started-IsCoded task n new.coded)
          (unfold validate_agent_task in new.accepted) new.any_backend u
          (record {
            held =
                ap (λ s. find task_key (task_key t) s.tasks) same
                ∙ own_found t k (world_at m s) found;
            pod = ap (λ s. find pod_key (owned_key task "-pod") s.pods) same ∙ free;
            no_sandboxes =
                ap (λ s. contains s.crds "sandboxes.execution.agenttask.io") same ∙ no_sandboxes;
          }) in
      let run = pending_run task n v new early in
      (
        stored_after t k (world_at m s) _ found (ap (own t) run ∙ kept),
        (
          pod,
          ap (λ w. find pod_key (owned_key task "-pod") w.api.pods)
                (reconcile_found k (world_at m s) t found ∙ run)
              ∙ there,
        ),
      )

-- A scheduled task whose pod runs is marked as running.
look_lem :
    (t : AgentTask) (pod : Pod) (v : World small_cluster)
    → (t.status.pod_ref.kind == sandbox_kind) ≡ false
    → find pod_key (ref_key t.status.pod_ref) v.api.pods ≡ ok pod
    → pod.phase ≡ pod_running
    → reconcile_scheduled t v ≡ set_phase t running (send (get_pod (ref_key t.status.pod_ref)) v).1
unfolding reconcile_scheduled scheduled_pod ◌>>=◌ serve
look_lem t pod v kind there phase =
    rw (kind, reconcile_scheduled) (rw there (rw (phase, scheduled_pod) refl))

module _ (t : AgentTask) where
  abbrev pub at_work : AgentTask
  at_work = with_status t (record (t.status) { phase = running })

  pub set_off :
      (k : NamespacedName) (w : World small_cluster) (pod : Pod)
      → stored_at k w.api ≡ ok t
      → IsUntroubled t w
      → t.status.phase ≡ scheduled
      → (t.status.pod_ref.kind == sandbox_kind) ≡ false
      → find pod_key (ref_key t.status.pod_ref) w.api.pods ≡ ok pod
      → pod.phase ≡ pod_running
      → (stored_at k (reconcile k w).1.api ≡ ok at_work)
        × (find pod_key (ref_key t.status.pod_ref) (reconcile k w).1.api.pods ≡ ok pod)
  unfolding send serve
  set_off k w pod found calm phase kind there runs =
      let v : World small_cluster = (send (get_task k) w).1 in
      let u : World small_cluster = (check_timeout t v).1 in
      let same : u.api ≡ v.api = check_timeout-quiet t v in
      let x : World small_cluster = (send (get_pod (ref_key t.status.pod_ref)) u).1 in
      let live : reconcile_task t v ≡ run_phase t.status.phase t u =
        live_lem t v
          (record {
            live = calm.live;
            wanted = calm.wanted;
            early = check_timeout_at t v w refl ∙ calm.early;
          })
          (inl phase) in
      let chosen : run_phase t.status.phase t u ≡ run_phase scheduled t u =
        ap (λ p. run_phase p t u) phase in
      let looked : (run_phase scheduled t u).1 ≡ (reconcile_scheduled t u).1 =
        unfold run_phase in (then_pure (reconcile_scheduled t) no_requeue u) in
      let set : reconcile_scheduled t u ≡ set_phase t running x =
        look_lem t pod u kind
          (ap (λ s. find pod_key (ref_key t.status.pod_ref) s.pods) same ∙ there) runs in
      let run : (reconcile_task t v).1 ≡ (set_phase t running x).1 =
        ap (λ r. r.1) (live ∙ chosen) ∙ looked ∙ ap (λ r. r.1) set in
      let kept : own t (set_phase t running x).1 ≡ ok at_work =
        unfold set_phase in
        (write_lem t at_work.status (λ _. pure tt) x (λ a. search sends_rules)
          (ap (λ s. find task_key (task_key t) s.tasks) same ∙ own_found t k w found)) in
      (
        stored_after t k w _ found (ap (own t) run ∙ kept),
        ap (λ y. find pod_key (ref_key t.status.pod_ref) y.api.pods)
              (reconcile_found k w t found ∙ run)
            ∙ ap (find pod_key (ref_key t.status.pod_ref)) (set_phase_pods t running x)
            ∙ ap (λ s. find pod_key (ref_key t.status.pod_ref) s.pods) same
            ∙ there,
      )
