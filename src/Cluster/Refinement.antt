-- ===== src/Cluster/Refinement.antt =====
-- The life of a task as a small machine over phases, which knows no API, no clock and no pods, and the
-- operator on the small cluster as an implementation of it.
use agenttask_operator.Base.{
  ◌≡◌, ◌≢◌, refl, ap, ◌∙◌, ◌⊎◌, inl, inr, Bool, true, false, Option, none, some, arith,
}
use agenttask_operator.Api.Core.{NamespacedName}
use agenttask_operator.Api.Task.{
  AgentTask, AgentTaskPhase, unset, pending, scheduled, running, succeeded, failed, timeout,
  is_terminal,
}
use agenttask_operator.Platform.{Error, Result, Result-cases, ok, err, get_task}
use agenttask_operator.Platform.Exec.{World, ◌>>=◌, send}
use agenttask_operator.Cluster.{Objects, small_cluster, serve, find, task_key, is_marked}
use agenttask_operator.Cluster.Store.{find-key}
use agenttask_operator.Cluster.Versions.{IsVersion, IsVersion-refl}
use agenttask_operator.Cluster.Lifecycle.{Outcome, kept, gone, Follows, reconcile_task-Follows}
use agenttask_operator.Controller.Reconcile.{reconcile, reconcile_task}
use agenttask_operator.Controller.Safety.Allowed.{
  Transition, accept, place, reject, launch, succeed, fail, cancel, expire,
}

-- What the machine sees of a stored task: `none` where there is none.
pub record Life : Type 0 where
  pub phase : AgentTaskPhase
  pub canceled : Bool

abbrev pub life : Result AgentTask → Option Life
life (ok t) = some (record { phase = t.status.phase; canceled = t.spec.canceled })
life (err e) = none

-- The edges between phases, by whether cancellation is asked for.
pub data Arrow (canceled : Bool) (p q : AgentTaskPhase) : Type 0 where
  accepted : p ≡ unset → q ≡ pending → Arrow canceled p q
  placed : p ≡ pending → q ≡ scheduled → Arrow canceled p q
  rejected : p ≡ pending → q ≡ failed → Arrow canceled p q
  launched : p ≡ scheduled → q ≡ running → Arrow canceled p q
  ended : (p ≡ scheduled) ⊎ (p ≡ running) → (q ≡ succeeded) ⊎ (q ≡ failed) → Arrow canceled p q
  stopped :
      canceled ≡ true
      → p ≢ unset
      → p ≢ succeeded
      → p ≢ failed
      → q ≡ AgentTaskPhase.canceled
      → Arrow canceled p q
  timed_out : canceled ≡ false → p ≢ unset → q ≡ timeout → Arrow canceled p q

-- A step of the machine, by whether the task is marked for deletion: rest, move along an edge, or vanish
-- once finished or marked.
pub data Edge (marked : Bool) (a b : Option Life) : Type 0 where
  rest : b ≡ a → Edge marked a b
  moves :
      (p q : AgentTaskPhase) (c : Bool)
      → a ≡ some (record { phase = p; canceled = c })
      → b ≡ some (record { phase = q; canceled = c })
      → Arrow c p q
      → Edge marked a b
  vanishes :
      (p : AgentTaskPhase) (c : Bool)
      → a ≡ some (record { phase = p; canceled = c })
      → ((is_terminal p ≡ true) × (c ≡ false)) ⊎ (marked ≡ true)
      → b ≡ none
      → Edge marked a b

Transition-Arrow :
    (task : AgentTask) (q : AgentTaskPhase)
    → Transition small_cluster task q
    → Arrow task.spec.canceled task.status.phase q
Transition-Arrow task _ (accept e) = accepted e refl
Transition-Arrow task _ (place e) = placed e refl
Transition-Arrow task _ (reject e) = rejected e refl
Transition-Arrow task _ (launch e) = launched e refl
Transition-Arrow task _ (succeed e) = ended e (inl refl)
Transition-Arrow task _ (fail e) = ended e (inr refl)
Transition-Arrow task _ (cancel asked a b c d) = stopped asked a b c refl
Transition-Arrow task _ (expire wanted a late) = timed_out wanted a refl

IsVersion-Edge :
    (task t : AgentTask)
    → IsVersion task t
    → Edge (is_marked task.meta) (life (ok task)) (life (ok t))
IsVersion-Edge task t v = elim v.status [
  | inl same ↦ rest (ground arith)
  | inr (u, w, e) ↦
      moves task.status.phase u.status.phase task.spec.canceled refl (ground arith)
        (Transition-Arrow task u.status.phase w.move)
]

Outcome-Edge :
    (task : AgentTask) (r : Result AgentTask)
    → Outcome task r
    → Edge (is_marked task.meta) (life (ok task)) (life r)
Outcome-Edge task r (kept t e v) = rw e (IsVersion-Edge task t v)
Outcome-Edge task r (gone e going) = rw e (
    vanishes task.status.phase task.spec.canceled refl
      (elim going [ inl old ↦ inl (old.finished, old.wanted) | inr marked ↦ inr marked ]) refl)

-- What is stored under a key.
abbrev pub stored_at : NamespacedName → Objects → Result AgentTask
stored_at k s = find task_key k s.tasks

-- Whether that is marked for deletion.
abbrev pub doomed : Result AgentTask → Bool
doomed (ok t) = is_marked t.meta
doomed (err e) = false

module _ (k : NamespacedName) (w : World small_cluster) where
  pub reconcile_found :
      (task : AgentTask)
      → stored_at k w.api ≡ ok task
      → (reconcile k w).1 ≡ (reconcile_task task (send (get_task k) w).1).1
  unfolding reconcile ◌>>=◌ serve
  reconcile_found task e = rw e refl

  pub reconcile_missing : (x : Error) → stored_at k w.api ≡ err x → (reconcile k w).1.api ≡ w.api
  unfolding reconcile ◌>>=◌ serve
  reconcile_missing x e = rw e (ground arith)

  pub reconcile-Follows :
      (task : AgentTask)
      → stored_at k w.api ≡ ok task
      → Follows task (λ j. stored_at j w.api) (reconcile k w).1.api.tasks
  unfolding serve send
  reconcile-Follows task e = rw (reconcile_found task e) (
      reconcile_task-Follows task (λ j. stored_at j w.api) (send (get_task k) w).1
        (record {
          own =
              kept task (ap (λ j. stored_at j w.api) (find-key task_key k w.api.tasks task e) ∙ e)
                (IsVersion-refl task);
          others = λ j ne. refl;
        }))

  -- On the small cluster, where a deletion marks a task that has finalizers and a marked task goes with
  -- the last of them, a reconciliation of any key, from any state and at any time, leaves the phase that is
  -- stored under that key and whether its cancellation is asked for as they are, or takes one step of the
  -- machine: from unset to pending, from pending to scheduled or failed, from scheduled to running, from
  -- scheduled or running to succeeded or failed; to canceled where that is asked for, from any phase but
  -- unset, succeeded and failed; to timeout where it is not, from any phase but unset; or the task goes,
  -- from any phase where it is marked for deletion, and otherwise only from a terminal phase where its
  -- cancellation is not asked for.
  pub reconcile_refines_lifecycle :
      Edge
        (doomed (stored_at k w.api))
        (life (stored_at k w.api))
        (life (stored_at k (reconcile k w).1.api))
  reconcile_refines_lifecycle = elim (Result-cases (stored_at k w.api)) [
    | inl (task, e) ↦
        let own = (reconcile-Follows task e).own in
        rw (e) (
          Outcome-Edge task (stored_at k (reconcile k w).1.api)
            (rw (find-key task_key k w.api.tasks task e) at own))
    | inr (x, e) ↦ rest (ap (λ s. life (stored_at k s)) (reconcile_missing x e))
  ]

  -- On the small cluster a reconciliation of one key leaves every task under another key as it is.
  pub other_tasks_untouched :
      (j : NamespacedName) → j ≢ k → stored_at j (reconcile k w).1.api ≡ stored_at j w.api
  other_tasks_untouched j ne = elim (Result-cases (stored_at k w.api)) [
    | inl (task, e) ↦
        (reconcile-Follows task e).others j (rw (find-key task_key k w.api.tasks task e) ne)
    | inr (x, e) ↦ ap (λ s. stored_at j s) (reconcile_missing x e)
  ]
