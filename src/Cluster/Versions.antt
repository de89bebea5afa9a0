-- ===== src/Cluster/Versions.antt =====
-- What one reconciliation does to the list of the tasks that the small cluster stores: it exchanges the
-- fetched task for versions of it, or erases it.
use agenttask_operator.Base.{
  Bool-cases, true, ◌&&◌, ◌≡◌, refl, sym, ap, ◌∙◌, ◌⊎◌, inl, inr, List, arith,
}
use agenttask_operator.Api.Core.{key_of, Time, ObjectMeta}
use agenttask_operator.Api.Task.{AgentTask}
use agenttask_operator.Platform
use agenttask_operator.Platform.{Request, Result-cases, ok}
use agenttask_operator.Platform.Exec.{World, send, now, record_metric}
use agenttask_operator.Cluster.{
  Objects, small_cluster, serve, find, replace, erase, task_key, marked, is_marked, is_empty,
  marked_task, updated,
}
use agenttask_operator.Cluster.Leaves.{stored_lem}
use agenttask_operator.Controller.Reconcile.{reconcile_task}
use agenttask_operator.Controller.Safety.Whole.{reconcile_task-Sends}
use agenttask_operator.Controller.Safety.Allowed.{Allowed, IsWrite, IsExpired, IsFinalizerUpdate}

-- The task may be marked for deletion, or go: it has expired, or it is marked already.
abbrev pub IsLeaving : AgentTask → Type 0
IsLeaving task = IsExpired small_cluster task ⊎ (is_marked task.meta ≡ true)

-- A version of the fetched task: its status is the fetched one or one that was written, and it is marked
-- for deletion only where it was or has expired.
pub record IsVersion (task t : AgentTask) : Type 0 where
  pub spec : t.spec ≡ task.spec
  pub meta : t.meta ≡ record (task.meta) {
    finalizers = t.meta.finalizers;
    deletion_timestamp = t.meta.deletion_timestamp;
  }
  pub mark : (t.meta.deletion_timestamp ≡ task.meta.deletion_timestamp) ⊎ IsLeaving task
  pub status :
      (t.status ≡ task.status)
      ⊎ ((u : AgentTask) × IsWrite small_cluster task u × (t.status ≡ u.status))

pub IsVersion-refl : (task : AgentTask) → IsVersion task task
IsVersion-refl task = record { spec = refl; meta = refl; mark = inl refl; status = inl refl }

pub IsVersion-key : {task t : AgentTask} → IsVersion task t → task_key t ≡ task_key task
IsVersion-key v = ap key_of v.meta

-- A marked version is one of a task that may go.
leaving :
    {task : AgentTask} (a : AgentTask) → IsVersion task a → is_marked a.meta ≡ true → IsLeaving task
leaving a v marked' = elim v.mark [ inl same ↦ inr (rw (← same) marked') | inr going ↦ going ]

marked_version :
    {task : AgentTask} (at : Time) (a : AgentTask)
    → IsVersion task a
    → IsExpired small_cluster task
    → IsVersion task (marked_task at a)
marked_version at a v old = record {
  spec = v.spec;
  meta =
      ap
        (λ (m : ObjectMeta). record m {
          deletion_timestamp = (marked at a.meta).deletion_timestamp;
        })
        v.meta;
  mark = inr (inl old);
  status = v.status;
}

-- A property of the stored tasks that the exchange for a version and the removal once expired keep.
pub record VersionRules (task : AgentTask) (I : List AgentTask → Type 0) : Type 0 where
  pub found :
      (ts : List AgentTask) (a : AgentTask)
      → I ts
      → find task_key (task_key task) ts ≡ ok a
      → IsVersion task a
  pub replaced :
      (ts : List AgentTask) (old new : AgentTask)
      → find task_key (task_key task) ts ≡ ok old
      → IsVersion task new
      → I ts
      → I (replace task_key new ts)
  pub erased : (ts : List AgentTask) → IsLeaving task → I ts → I (erase task_key (task_key task) ts)

module _ {task : AgentTask} {I : List AgentTask → Type 0} (rules : VersionRules task I) where
  same_tasks : {before after : List AgentTask} → after ≡ before → I before → I after
  same_tasks e h = rw e h

  status_kept :
      (s : Objects) (t : AgentTask)
      → IsWrite small_cluster task t
      → I s.tasks
      → I (serve (Platform.update_status t) s).1.tasks
  unfolding serve
  status_kept s t w h = elim (Result-cases (find task_key (task_key t) s.tasks)) [
    | inl (a, e) ↦
        let here = ap (λ k. find task_key k s.tasks) (sym (ap key_of w.meta)) ∙ e in
        let v = rules.found s.tasks a h here in
        rw (e, serve)
          (rules.replaced s.tasks a (record a { status = t.status }) here
            (record { spec = v.spec; meta = v.meta; mark = v.mark; status = inr (t, w, refl) }) h)
    | inr (x, e) ↦ rw (e, serve) h
  ]

  update_kept :
      (s : Objects) (t : AgentTask)
      → IsFinalizerUpdate small_cluster task t
      → I s.tasks
      → I (serve (Platform.update_task t) s).1.tasks
  unfolding serve
  update_kept s t w h = elim (Result-cases (find task_key (task_key t) s.tasks)) [
    | inl (a, e) ↦
        let same : task_key task ≡ task_key t = sym (ap key_of w.meta) in
        let here = ap (λ k. find task_key k s.tasks) same ∙ e in
        let v = rules.found s.tasks a h here in
        rw (e, serve)
          (elim (Bool-cases (is_marked a.meta && is_empty t.meta.finalizers)) [
            | inl go ↦ rw go (rw same at (rules.erased s.tasks (leaving a v (ground (arith))) h))
            | inr stay ↦ rw stay (
                rules.replaced s.tasks a (updated a t) here
                  (record {
                    spec = w.spec;
                    meta =
                        ap
                          (λ (m : ObjectMeta). record m {
                            deletion_timestamp = a.meta.deletion_timestamp;
                          })
                          w.meta;
                    mark = v.mark;
                    status = v.status;
                  })
                  h)
          ])
    | inr (x, e) ↦ rw (e, serve) h
  ]

  delete_kept :
      (s : Objects)
      → IsExpired small_cluster task
      → I s.tasks
      → I (serve (Platform.delete_task (task_key task)) s).1.tasks
  unfolding serve
  delete_kept s old h = elim (Result-cases (find task_key (task_key task) s.tasks)) [
    | inl (a, e) ↦
        let v = rules.found s.tasks a h e in
        rw (e, serve)
          (elim (Bool-cases (is_empty a.meta.finalizers)) [
            | inl go ↦ rw go (rules.erased s.tasks (inl old) h)
            | inr stay ↦ rw stay (
                rules.replaced s.tasks a (marked_task s.time a) e (marked_version s.time a v old) h)
          ])
    | inr (x, e) ↦ rw (e, serve) h
  ]

  step_kept :
      (r : Request) (s : Objects) → Allowed small_cluster task r → I s.tasks → I (serve r s).1.tasks
  unfolding serve
  step_kept _ s (Allowed.reads_pod k) h = h
  step_kept _ s (Allowed.reads_config_map k) h = h
  step_kept _ s (Allowed.reads_network_policy k) h = h
  step_kept _ s (Allowed.reads_sandbox k) h = h
  step_kept _ s (Allowed.reads_crd name) h = same_tasks (ground arith) h
  step_kept _ s Allowed.creates_config_map h =
      same_tasks (stored_lem (λ u. u.tasks) _ s _ (λ a. refl)) h
  step_kept _ s Allowed.creates_network_policy h =
      same_tasks (stored_lem (λ u. u.tasks) _ s _ (λ a. refl)) h
  step_kept _ s (Allowed.creates_pod cm_name image) h =
      same_tasks (stored_lem (λ u. u.tasks) _ s _ (λ a. refl)) h
  step_kept _ s (Allowed.creates_sandbox image) h =
      same_tasks (stored_lem (λ u. u.tasks) _ s _ (λ a. refl)) h
  step_kept _ s (Allowed.deletes_pod k) h = same_tasks (ground arith) h
  step_kept _ s (Allowed.writes_status t w) h = status_kept s t w h
  step_kept _ s (Allowed.updates_finalizers t w) h = update_kept s t w h
  step_kept _ s (Allowed.deletes_task old) h = delete_kept s old h

  -- Such a property holds after a reconciliation of the task if it held before.
  pub reconcile_task_kept :
      (w : World small_cluster) → I w.api.tasks → I (reconcile_task task w).1.api.tasks
  reconcile_task_kept w h =
      (reconcile_task-Sends small_cluster task).at (λ u. I u.api.tasks)
        (record {
          by_send = λ u r a g. unfold send in step_kept r u.api a g;
          by_now = λ u g. unfold now in g;
          by_metric = λ u m g. unfold record_metric in g;
        })
        w h
