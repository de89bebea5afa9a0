-- ===== src/Cluster/Lifecycle.antt =====
-- What one reconciliation makes of the tasks that the small cluster stores, by their keys.
use agenttask_operator.Base.{◌≡◌, ◌≢◌, refl, sym, ◌∙◌, inl, inr, Bool-cases, false, List}
use agenttask_operator.Api.Core.{NamespacedName}
use agenttask_operator.Api.Task.{AgentTask}
use agenttask_operator.Platform.{Result, ok, err}
use agenttask_operator.Platform.Exec.{World}
use agenttask_operator.Cluster.{small_cluster, find, same_key, missing, task_key}
use agenttask_operator.Cluster.Store.{same_key_iff, find-replace, find-erase}
use agenttask_operator.Cluster.Versions.{
  IsLeaving, IsVersion, IsVersion-key, VersionRules, reconcile_task_kept,
}
use agenttask_operator.Controller.Reconcile.{reconcile_task}

-- What is stored under the task's key: a version of it, or nothing where it may go.
pub data Outcome (task : AgentTask) (r : Result AgentTask) : Type 0 where
  kept : (t : AgentTask) → r ≡ ok t → IsVersion task t → Outcome task r
  gone : r ≡ err missing → IsLeaving task → Outcome task r

-- `before` has what was stored under each other key.
pub record Follows (task : AgentTask) (before : NamespacedName → Result AgentTask)
    (ts : List AgentTask) : Type 0 where
  pub own : Outcome task (find task_key (task_key task) ts)
  pub others : (k : NamespacedName) → k ≢ task_key task → find task_key k ts ≡ before k

pub Outcome-found :
    {task a : AgentTask} {r : Result AgentTask} → Outcome task r → r ≡ ok a → IsVersion task a
Outcome-found {task} {a} (kept t e v) f = let same : t ≡ a = cc (e, f) in rw (← same) v
Outcome-found (gone e old) f = absurd (cc (e, f))

not_same : (a b k : NamespacedName) → a ≡ b → k ≢ b → same_key a k ≡ false
not_same a b k e ne = elim (Bool-cases (same_key a k)) [
  | inl yes' ↦ absurd (ne (sym ((same_key_iff a k).0 yes') ∙ e))
  | inr no' ↦ no'
]

module _ (task : AgentTask) (before : NamespacedName → Result AgentTask) where
  Follows-VersionRules : VersionRules task (Follows task before)
  Follows-VersionRules = record {
    found = λ ts a h e. Outcome-found h.own e;
    replaced = λ ts old new e v h. record {
      own =
          kept new
            (find-replace task_key (task_key task) new ts
              ∙ rw ((same_key_iff (task_key new) (task_key task)).1 (IsVersion-key v)) (rw e refl))
            v;
      others = λ k ne.
          find-replace task_key k new ts
          ∙ rw (not_same (task_key new) (task_key task) k (IsVersion-key v) ne) (h.others k ne);
    };
    erased = λ ts old h. record {
      own =
          gone
            (find-erase task_key (task_key task) (task_key task) ts
              ∙ rw ((same_key_iff (task_key task) (task_key task)).1 refl) refl)
            old;
      others = λ k ne.
          find-erase task_key k (task_key task) ts
          ∙ rw (not_same (task_key task) (task_key task) k refl ne) (h.others k ne);
    };
  }

  pub reconcile_task-Follows :
      (w : World small_cluster)
      → Follows task before w.api.tasks
      → Follows task before (reconcile_task task w).1.api.tasks
  reconcile_task-Follows w h = reconcile_task_kept Follows-VersionRules w h
