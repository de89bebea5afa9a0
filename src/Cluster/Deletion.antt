-- ===== src/Cluster/Deletion.antt =====
-- The small cluster, when a client deletes a task: the finalizer, the server and the node agent.
use agenttask_operator.Base.{
  ℕ, ◌≡◌, refl, ap, ◌∙◌, true, false, inl, inr, String, List, [], ◌∷◌, ◌==◌,
}
use agenttask_operator.Api.Core.{NamespacedName, ref_key}
use agenttask_operator.Api.Task.{AgentTask}
use agenttask_operator.Platform.{Result, ok, err, delete_task}
use agenttask_operator.Cluster.{
  Objects, world_at, serve, find, missing, pod_key, task_key, is_marked, is_empty, marked_task,
}
use agenttask_operator.Cluster.Store.{same_key_iff, find-key, find-replace, find-erase}
use agenttask_operator.Cluster.Refinement.{stored_at}
use agenttask_operator.Cluster.Cleanup.{IsStopped}
use agenttask_operator.Cluster.Endings.{Remains, stays, goes, deleted, ending_stops_pod}
use agenttask_operator.Cluster.Events.{
  deletes, reconciles, ends, end_pod, end_pod_tasks, happen, play,
}
use agenttask_operator.Controller.Reconcile.{agent_task_finalizer, reconcile}

marked_lem :
    (task : AgentTask) (k : NamespacedName) (s : Objects)
    → stored_at k s ≡ ok task
    → task.meta.finalizers ≡ agent_task_finalizer ∷ []
    → stored_at k (serve (delete_task k) s).1 ≡ ok (marked_task s.time task)
unfolding serve
marked_lem task k s e held =
    let here = (same_key_iff (task_key task) k).1 (find-key task_key k s.tasks task e) in
    rw (e, serve)
      (rw (ap is_empty held)
        (find-replace task_key k (marked_task s.time task) s.tasks ∙ rw here (rw e refl)))

-- A stopped pod is gone once the node agent has ended it.
ended_lem :
    (k : NamespacedName) (s : Objects)
    → IsStopped k s.pods
    → find pod_key k (end_pod k s).pods ≡ err missing
unfolding end_pod
ended_lem k s (inl e) = rw (e, end_pod) e
ended_lem k s (inr (pod, e, marked)) =
    rw (e, end_pod)
      (rw marked (find-erase pod_key k k s.pods ∙ rw ((same_key_iff k k).1 refl) refl))

gone_lem :
    (task : AgentTask) (r : Result AgentTask) (fs : List String)
    → is_marked task.meta ≡ true
    → fs ≡ []
    → Remains task task.status.phase fs r
    → r ≡ err missing
gone_lem task r fs doomed none (goes e m f) = e
gone_lem task r fs doomed none (stays t e p f kept) = absurd (cc (rw (doomed, none) at kept))

-- On the small cluster, where a deletion only marks a task that has finalizers, and a pod: a stored task that
-- names a pod and has the operator's finalizer alone is gone after a client's deletion and one
-- reconciliation of its key at any time, and the pod under the name and namespace that its status kept is
-- gone then or marked for deletion; so it is gone once the node agent has ended it.
pub deletion_completes :
    (task : AgentTask) (k : NamespacedName) (n : ℕ) (s : Objects)
    → stored_at k s ≡ ok task
    → (task.status.pod_ref.name == "") ≡ false
    → task.meta.finalizers ≡ agent_task_finalizer ∷ []
    → let released = play (deletes k ∷ reconciles k n ∷ []) s in
      let later = play (ends (ref_key task.status.pod_ref) ∷ []) released in
      (stored_at k released ≡ err missing)
      × IsStopped (ref_key task.status.pod_ref) released.pods
      × (stored_at k later ≡ err missing)
      × (find pod_key (ref_key task.status.pod_ref) later.pods ≡ err missing)
unfolding play happen
deletion_completes task k n s found named held =
    let doomed : AgentTask = marked_task s.time task in
    let s1 : Objects = (serve (delete_task k) s).1 in
    let marked : stored_at k s1 ≡ ok doomed = marked_lem task k s found held in
    let s2 : Objects = (reconcile k (world_at n s1)).1.api in
    let (stopped, left) =
      ending_stops_pod doomed k (world_at n s1) _ _ marked named (deleted refl (rw held refl)) in
    let gone : stored_at k s2 ≡ err missing = gone_lem doomed _ _ refl (rw held refl) left in
    (
      gone,
      stopped,
      ap (find task_key k) (end_pod_tasks (ref_key task.status.pod_ref) s2) ∙ gone,
      ended_lem (ref_key task.status.pod_ref) s2 stopped,
    )
