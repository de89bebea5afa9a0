-- ===== src/Cluster/Story.antt =====
-- The small cluster and the node agent that runs the pods: a task from its arrival to its end.
use agenttask_operator.Base.{ℕ, ◌≡◌, refl, ap, ◌∙◌, inr, false, some, List, [], ◌∷◌, contains}
use agenttask_operator.Api.Core.{NamespacedName, ContainerStatus, Pod, PodPhase, pod_running}
use agenttask_operator.Api.Task.{AgentTask, running}
use agenttask_operator.Platform.{ok, err}
use agenttask_operator.Platform.Exec.{◌>>=◌}
use agenttask_operator.Controller.Resources.{owned_key}
use agenttask_operator.Controller.Cleanup.{check_timeout}
use agenttask_operator.Controller.Expiry.{IsLive}
use agenttask_operator.Controller.Reconcile.{reconcile}
use agenttask_operator.Cluster.{Objects, small_cluster, world_at, find, missing, pod_key, task_key}
use agenttask_operator.Cluster.Events.{report, report_tasks, reconciles, reports, happen, play}
use agenttask_operator.Cluster.Leaves.{around}
use agenttask_operator.Cluster.Refinement.{life, stored_at}
use agenttask_operator.Cluster.Looks.{verdict, followed}
use agenttask_operator.Cluster.Progress.{placed_task_followed}
use agenttask_operator.Cluster.PodPlacement.{in_pod}
use agenttask_operator.Cluster.Arrival.{
  IsNew, started, held-holds, in_time, held_stored, started_stored,
}
use agenttask_operator.Cluster.Stations.{
  IsInTime, report_pod, held_around, started_around, boarded, at_work, set_off,
}

module _ (task : AgentTask) where
  -- On the small cluster with no definition of sandboxes and no pod under the name of the task's, take a
  -- stored task with no phase and no finalizer that is not being deleted, is not flagged as canceled, is
  -- accepted by the static validation, does not insist on a sandbox and has code, inline or by a
  -- reference. Follow it through three reconciliations, a report that its pod runs, a reconciliation, a
  -- second report about the pod and a last reconciliation, where the limit that runs from the second
  -- reconciliation is not over at the third or at a later one. Before the second report the phase that
  -- is stored is running. At the end it is succeeded or failed where the second report says so of the
  -- pod; succeeded or failed by the exit code where it says that the pod runs on and the first container
  -- with the name task that has terminated has that code; and running otherwise.
  pub story_told :
      (k : NamespacedName) (l n m i j : ℕ) (s : Objects) (before after : List ContainerStatus)
      (phase : PodPhase)
      → stored_at k s ≡ ok task
      → IsNew task
      → find pod_key (owned_key task "-pod") s.pods ≡ err missing
      → contains s.crds "sandboxes.execution.agenttask.io" ≡ false
      → IsInTime task n m
      → IsInTime task n i
      → IsInTime task n j
      → let launched =
          play
            (reconciles k l
              ∷ reconciles k n
              ∷ reconciles k m
              ∷ reports (owned_key task "-pod") pod_running before
              ∷ reconciles k i
              ∷ [])
            s in
        (life (stored_at k launched) ≡ some (record { phase = running; canceled = false }))
        × (life (
              stored_at k
                (play (reports (owned_key task "-pod") phase after ∷ reconciles k j ∷ []) launched))
            ≡ some (record { phase = verdict phase after; canceled = false }))
  unfolding play happen
  story_told k l n m i j s before after phase found new free no_sandboxes in_m in_i in_j =
      let name : NamespacedName = owned_key task "-pod" in
      let s1 : Objects = (reconcile k (world_at l s)).1.api in
      let first = held_stored task k l s found new in
      let s2 : Objects = (reconcile k (world_at n s1)).1.api in
      let second = started_stored task k n s1 first new in
      let same : around s2 ≡ around s =
        started_around task k n s1 first new ∙ held_around task k l s found new in
      let (third, (pod, there)) =
        boarded task k n m s2 second new (ap (λ p. find pod_key name p.0) same ∙ free)
          (ap (λ p. contains p.1 "sandboxes.execution.agenttask.io") same ∙ no_sandboxes) in_m in
      let t3 : AgentTask = in_pod (started task n) in
      let s3 : Objects = (reconcile k (world_at m s2)).1.api in
      let s4 : Objects = report name pod_running before s3 in
      let pod4 : Pod = record pod { phase = pod_running; container_statuses = before } in
      let stored4 : stored_at k s4 ≡ ok t3 =
        ap (find task_key k) (report_tasks name pod_running before s3) ∙ third in
      let live : IsLive small_cluster t3 = record { kept = new.kept; held = held-holds task new } in
      let (fifth, there5) =
        set_off t3 k (world_at i s4) pod4 stored4
          (record {
            live = live;
            wanted = new.wanted;
            early = unfold check_timeout ◌>>=◌ in (in_time task n (world_at i s4) in_i);
          })
          refl refl (report_pod name pod_running before s3 pod there) refl in
      let t5 : AgentTask = at_work t3 in
      let s5 : Objects = (reconcile k (world_at i s4)).1.api in
      let s6 : Objects = report name phase after s5 in
      let stored6 : stored_at k s6 ≡ ok t5 =
        ap (find task_key k) (report_tasks name phase after s5) ∙ fifth in
      (
        ap life fifth ∙ rw new.wanted refl,
        placed_task_followed t5 k (world_at j s6) stored6
              (record {
                live = record { kept = new.kept; held = held-holds task new };
                wanted = new.wanted;
                early = unfold check_timeout ◌>>=◌ in (in_time task n (world_at j s6) in_j);
              })
              (inr refl)
            ∙ ap (λ r. some (record { phase = followed running "Pod" r; canceled = false }))
                (report_pod name phase after s5 pod4 there5),
      )
