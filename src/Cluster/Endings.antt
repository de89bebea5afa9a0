-- ===== src/Cluster/Endings.antt =====
-- The small cluster, when a task is deleted, canceled or late: what a whole reconciliation leaves.
use agenttask_operator.Base.{
  ◌∷◌, ◌&&◌, Bool-cases, inl, inr, [], arith, ◌≡◌, ◌≢◌, refl, Bool, ap, ◌∙◌, true, false, String,
  ◌==◌, List, if◌then◌else◌,
}
use agenttask_operator.Api.Core.{NamespacedName, ObjectMeta, ref_key}
use agenttask_operator.Api.Task.{AgentTask, AgentTaskPhase, unset, canceled, timeout}
use agenttask_operator.Platform.{Result, ok, err, get_task}
use agenttask_operator.Platform.Exec.{World, send, ◌>>=◌}
use agenttask_operator.Cluster.{small_cluster, serve, find, missing, task_key, is_marked, is_empty}
use agenttask_operator.Cluster.Refinement.{stored_at, reconcile_found}
use agenttask_operator.Cluster.Progress.{
  check_timeout-quiet, check_timeout_at, own_found, stored_after,
}
use agenttask_operator.Cluster.Writes.{own}
use agenttask_operator.Cluster.Cleanup.{
  canceled_lem, canceled-Moves, timeout_lem, timeout-Moves, deleted_lem, IsStopped,
}
use agenttask_operator.Controller.Cleanup.{check_timeout, reconcile_canceled, reconcile_timeout}
use agenttask_operator.Controller.Expiry.{IsLive}
use agenttask_operator.Controller.Reconcile.{
  with_finalizers, agent_task_finalizer, ignores_cancel, reconcile_active, reconcile_started,
  reconcile_canceled_flag, reconcile_task, reconcile,
}

-- Why a reconciliation ends a task whatever its pod does, with the phase and the finalizers that are left:
-- it is being deleted and holds the finalizer, its cancellation is asked for, or it is late. The last two
-- for a task that has a phase; a cancellation counts where the phase does not say that it is over.
pub data IsEnding (task : AgentTask) (w : World small_cluster)
    : AgentTaskPhase → List String → Type 0 where
  deleted :
      small_cluster.is_zero_time task.meta.deletion_timestamp ≡ false
      → small_cluster.contains_finalizer task.meta.finalizers agent_task_finalizer ≡ true
      → IsEnding task w task.status.phase
          (small_cluster.remove_finalizer task.meta.finalizers agent_task_finalizer)
  flagged :
      IsLive small_cluster task
      → task.spec.canceled ≡ true
      → ignores_cancel task.status.phase ≡ false
      → task.status.phase ≢ unset
      → IsEnding task w canceled task.meta.finalizers
  late :
      IsLive small_cluster task
      → task.spec.canceled ≡ false
      → (check_timeout task w).0 ≡ ok true
      → task.status.phase ≢ unset
      → IsEnding task w timeout task.meta.finalizers

-- What is left under the key of a task: a version with the phase and the finalizers, or nothing where it is
-- marked for deletion and no finalizers are left.
pub data Remains (task : AgentTask) (q : AgentTaskPhase) (finalizers : List String)
    (r : Result AgentTask) : Type 0 where
  stays :
      (t : AgentTask)
      → r ≡ ok t
      → t.status.phase ≡ q
      → t.meta.finalizers ≡ finalizers
      → (is_marked task.meta && is_empty finalizers) ≡ false
      → Remains task q finalizers r
  goes :
      r ≡ err missing → is_marked task.meta ≡ true → finalizers ≡ [] → Remains task q finalizers r

-- The pod under the reference of the task is stopped.
abbrev IsEnded : AgentTask → AgentTaskPhase → List String → World small_cluster → Type 0
IsEnded task q finalizers w =
    IsStopped (ref_key task.status.pod_ref) w.api.pods × Remains task q finalizers (own task w)

marked_lem :
    (m : ObjectMeta) → small_cluster.is_zero_time m.deletion_timestamp ≡ false → is_marked m ≡ true
marked_lem m old = ground (arith)

unmarked_lem :
    (m : ObjectMeta) → small_cluster.is_zero_time m.deletion_timestamp ≡ true → is_marked m ≡ false
unmarked_lem m live = ground (arith)

is_empty_lem : (l : List String) → is_empty l ≡ true → l ≡ []
is_empty_lem [] e = refl
is_empty_lem (x ∷ xs) e = absurd (cc e)

-- Without the finalizer.
abbrev freed : AgentTask → AgentTask
freed task = with_finalizers small_cluster.remove_finalizer task

released-Remains :
    (task : AgentTask) (r : Result AgentTask)
    → is_marked task.meta ≡ true
    → r ≡ (
        if is_marked task.meta && is_empty (freed task).meta.finalizers
        then err missing
        else ok (freed task))
    → Remains task task.status.phase (freed task).meta.finalizers r
released-Remains task r doomed e = elim (Bool-cases (is_empty (freed task).meta.finalizers)) [
  | inl none ↦ goes (rw (doomed, none) at e) doomed (is_empty_lem (freed task).meta.finalizers none)
  | inr some' ↦ stays (freed task) (rw (doomed, some') at e) refl refl (rw doomed some')
]

module _ (task : AgentTask) (w : World small_cluster) where
  started_or_canceled :
      (phase : AgentTaskPhase) (flag : Bool)
      → phase ≢ unset
      → task.spec.canceled ≡ flag
      → reconcile_active phase task w
        ≡ (if flag then reconcile_canceled_flag task else reconcile_started task) w
  unfolding reconcile_active
  started_or_canceled unset flag h e = absurd (h refl)
  started_or_canceled _ flag h e =
      ap (λ b. (if b then reconcile_canceled_flag task else reconcile_started task) w) e

  ended_lem :
      {q : AgentTaskPhase} {finalizers : List String}
      → own task w ≡ ok task
      → (task.status.pod_ref.name == "") ≡ false
      → IsEnding task w q finalizers
      → IsEnded task q finalizers (reconcile_task task w).1
  unfolding reconcile_task reconcile_canceled_flag reconcile_started ◌>>=◌
  ended_lem found named (deleted old held) =
      let (kept, gone) = deleted_lem task named w held found in
      rw old (gone, released-Remains task _ (marked_lem task.meta old) kept)
  ended_lem found named (flagged live asked unended started) =
      let run : reconcile_task task w ≡ reconcile_canceled task w =
        rw (live.kept, live.held)
          (started_or_canceled task.status.phase true started asked
            ∙ rw (unended, reconcile_canceled_flag) refl) in
      let (st, kept, phase) = (canceled-Moves task named).from w found in
      rw run (
        canceled_lem task named w,
        stays _ kept phase refl (rw (unmarked_lem task.meta live.kept) refl),
      )
  ended_lem found named (late live wanted over started) =
      let v : World small_cluster = (check_timeout task w).1 in
      let run : reconcile_task task w ≡ reconcile_timeout task v =
        rw (live.kept, live.held)
          (started_or_canceled task.status.phase false started wanted
            ∙ rw (over, reconcile_started) refl) in
      let (st, kept, phase) =
        (timeout-Moves task named).from v
          (ap (λ s. find task_key (task_key task) s.tasks) (check_timeout-quiet task w) ∙ found) in
      rw run (
        timeout_lem task named v,
        stays _ kept phase refl (rw (unmarked_lem task.meta live.kept) refl),
      )

module _ (task : AgentTask) where
  at_other_world :
      (v w : World small_cluster) {q : AgentTaskPhase} {finalizers : List String}
      → v.readings ≡ w.readings
      → IsEnding task w q finalizers
      → IsEnding task v q finalizers
  at_other_world v w e (deleted old held) = deleted old held
  at_other_world v w e (flagged live asked unended started) = flagged live asked unended started
  at_other_world v w e (late live wanted over started) =
      late live wanted (check_timeout_at task v w e ∙ over) started

  pub ending_stops_pod :
      (k : NamespacedName) (w : World small_cluster) (q : AgentTaskPhase) (finalizers : List String)
      → stored_at k w.api ≡ ok task
      → (task.status.pod_ref.name == "") ≡ false
      → IsEnding task w q finalizers
      → IsStopped (ref_key task.status.pod_ref) (reconcile k w).1.api.pods
        × Remains task q finalizers (stored_at k (reconcile k w).1.api)
  unfolding serve send
  ending_stops_pod k w q finalizers found named why =
      let v : World small_cluster = (send (get_task k) w).1 in
      let (gone, left) =
        ended_lem task v (own_found task k w found) named (at_other_world v w refl why) in
      (rw (reconcile_found k w task found) gone, rw (stored_after task k w _ found refl) left)
