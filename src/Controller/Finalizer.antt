-- ===== src/Controller/Finalizer.antt =====
-- internal/controller/agenttask_controller.go: a task that is being deleted.
use agenttask_operator.Base.{
  ◌≡◌, ap, ◌∙◌, refl, Bool, true, false, ◌||◌, List, [], ◌∷◌, arith, inl, inr,
}
use agenttask_operator.Api.Core.{Pod}
use agenttask_operator.Api.Task.{AgentTask}
use agenttask_operator.Platform.{
  Platform, Error, Request, Result, Result-cases, ok, err, update_task,
}
use agenttask_operator.Platform.Exec.{World, pure, send, now, record_metric, ◌>>=◌}
use agenttask_operator.Platform.Sends.{sent, Sends, IsKept, sends_rules}
use agenttask_operator.Controller.Outcome.{delete_if_present}
use agenttask_operator.Controller.Cleanup.{ReconcileResult, no_requeue, finalize_agent_task}
use agenttask_operator.Controller.Reconcile.{
  agent_task_finalizer, with_finalizers, reconcile_deleted, reconcile_task,
}

abbrev is_update : Request → Bool
is_update (update_task _) = true
is_update _ = false

abbrev pub updates_task : List Request → Bool
updates_task [] = false
updates_task (r ∷ rs) = is_update r || updates_task rs

abbrev KeepsTask : Request → Type 0
KeepsTask r = is_update r ≡ false

module _ {P : Platform} where
  task_kept : IsKept {P = P} KeepsTask (λ w. updates_task w.requests ≡ false)
  unfolding send now record_metric
  task_kept = record {
    by_send = λ w r q h. ground arith;
    by_now = λ w h. h;
    by_metric = λ w m h. h;
  }

  delete_if_present-Sends : (pod : Pod) → Sends {P = P} KeepsTask (delete_if_present pod)
  unfolding delete_if_present
  delete_if_present-Sends pod = search sends_rules

  finalize_agent_task-Sends :
      (task : AgentTask) → Sends {P = P} KeepsTask (finalize_agent_task task)
  unfolding finalize_agent_task
  finalize_agent_task-Sends task = search (sends_rules, delete_if_present-Sends)

  finalize_kept :
      (task : AgentTask) (w : World P)
      → updates_task w.requests ≡ false
      → updates_task (finalize_agent_task task w).1.requests ≡ false
  finalize_kept task = (finalize_agent_task-Sends task).at _ task_kept

-- Marked as deleted, with the operator's finalizer still on it.
pub record IsDeleting (P : Platform) (task : AgentTask) : Type 0 where
  pub gone : P.is_zero_time task.meta.deletion_timestamp ≡ false
  pub held : P.contains_finalizer task.meta.finalizers agent_task_finalizer ≡ true

module _ {P : Platform} (task : AgentTask) where
  reconcile_task-deleting :
      (w : World P)
      → IsDeleting P task
      → reconcile_task task w
        ≡ (finalize_agent_task {P = P} task >>= λ _.
              send (update_task (with_finalizers P.remove_finalizer task)) >>= λ _. pure no_requeue)
            w
  unfolding reconcile_task reconcile_deleted
  reconcile_task-deleting w d = rw d.gone (rw d.held refl)

  last_sent :
      (r : Request) (w : World P)
      → ((send {P = P} r >>= λ _. pure no_requeue) w).1.requests ≡ r ∷ w.requests
  unfolding ◌>>=◌
  last_sent r w = elim (Result-cases (P.serve r w.api).0) [
    | inl (a, e) ↦ rw e refl
    | inr (x, e) ↦ rw e refl
  ]

  abbrev released : World P → Result ReconcileResult × World P
  released = finalize_agent_task {P = P} task >>= λ _.
      send (update_task (with_finalizers P.remove_finalizer task)) >>= λ _. pure no_requeue

  released-ok :
      (w : World P)
      → (finalize_agent_task task w).0 ≡ ok tt
      → (released w).1.requests
        ≡ update_task (with_finalizers P.remove_finalizer task)
          ∷ (finalize_agent_task task w).1.requests
  unfolding ◌>>=◌
  released-ok w e = rw e (
      last_sent (update_task (with_finalizers P.remove_finalizer task))
        (finalize_agent_task task w).1)

  released-err :
      (w : World P) (x : Error)
      → (finalize_agent_task task w).0 ≡ err x
      → (released w).1.requests ≡ (finalize_agent_task task w).1.requests
  unfolding ◌>>=◌
  released-err w x e = rw e refl

  sent_deleting :
      (w : World P)
      → IsDeleting P task
      → sent (reconcile_task task) w ≡ (released (record w { requests = [] })).1.requests
  sent_deleting w d =
      ap (λ r. r.1.requests) (reconcile_task-deleting (record w { requests = [] }) d)

  -- Where a reconciliation of a task that is being deleted and has the finalizer updates the object,
  -- finalizeAgentTask returned no error before, and the last request is that update, which removes the
  -- finalizer, after the requests of finalizeAgentTask and no others.
  pub released_only_when_finalized :
      (w : World P)
      → IsDeleting P task
      → updates_task (sent (reconcile_task task) w) ≡ true
      → ((finalize_agent_task task (record w { requests = [] })).0 ≡ ok tt)
        × (sent (reconcile_task task) w
            ≡ update_task (with_finalizers P.remove_finalizer task)
              ∷ sent (finalize_agent_task task) w)
  released_only_when_finalized w d updated =
      elim (Result-cases (finalize_agent_task task (record w { requests = [] })).0) [
        | inl (u, e) ↦ (e, sent_deleting w d ∙ released-ok (record w { requests = [] }) e)
        | inr (x, e) ↦ absurd (
            cc (
              updated,
              ap updates_task (sent_deleting w d ∙ released-err (record w { requests = [] }) x e),
              finalize_kept task (record w { requests = [] }) refl,
            ))
      ]
