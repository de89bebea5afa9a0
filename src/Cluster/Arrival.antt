-- ===== src/Cluster/Arrival.antt =====
-- The small cluster, from a new task to a placed one.
use agenttask_operator.Base.{
  ℕ, ◌≡◌, ◌≢◌, refl, ap, ◌∙◌, inl, inr, Bool-cases, true, false, some, if◌then◌else◌, String, List,
  [], ◌∷◌, ◌++◌, contains, eq_iff, arith,
}
use agenttask_operator.Base.Int.{◌+ℤ◌, ltb_ℤ, leb_ℤ, pos}
use agenttask_operator.Api.Core.{NamespacedName}
use agenttask_operator.Api.Task.{AgentTask, unset, pending, scheduled}
use agenttask_operator.Platform.{ok, get_task, update_task}
use agenttask_operator.Platform.Exec.{World, send, now, pure, ◌>>=◌}
use agenttask_operator.Platform.Sends.{sends_rules}
use agenttask_operator.Webhook.{validate_agent_task}
use agenttask_operator.Cluster.{Objects, small_cluster, world_at, find, task_key, is_marked}
use agenttask_operator.Controller.Progress.{IsCoded, inline, referred}
use agenttask_operator.Cluster.Refinement.{life, stored_at}
use agenttask_operator.Cluster.Termination.{run_all}
use agenttask_operator.Cluster.Progress.{
  then_pure, own_found, stored_after, check_timeout-quiet, started_lem,
}
use agenttask_operator.Cluster.Placement.{pending-Moves}
use agenttask_operator.Cluster.Writes.{own, write_lem, finalizers_lem}
use agenttask_operator.Controller.Outcome.{with_status}
use agenttask_operator.Controller.Phases.{reconcile_pending}
use agenttask_operator.Controller.Cleanup.{check_timeout, timeout_budget, requeue_now, no_requeue}
use agenttask_operator.Controller.Reconcile.{
  agent_task_finalizer, with_finalizers, initialize, add_missing_finalizer, reconcile_active,
  reconcile_started, run_phase, reconcile_canceled_flag, reconcile_task, reconcile,
}

-- A task as it arrives: it has no phase and does not hold the finalizer, nobody asked for its deletion or
-- its cancellation, the webhook's static validation accepts it, it does not insist on a sandbox, and it has
-- code, inline or by a reference.
pub record IsNew (task : AgentTask) : Type 0 where
  pub kept : small_cluster.is_zero_time task.meta.deletion_timestamp ≡ true
  pub free : small_cluster.contains_finalizer task.meta.finalizers agent_task_finalizer ≡ false
  pub fresh : task.status.phase ≡ unset
  pub wanted : task.spec.canceled ≡ false
  pub accepted : validate_agent_task task ≡ ok tt
  pub any_backend : task.spec.backend ≢ "sandbox"
  pub code : String
  pub coded : IsCoded task code

unmarked : (task : AgentTask) → IsNew task → is_marked task.meta ≡ false
unmarked task new = ground (arith, new.kept)

contains-append : (l : List String) (f : String) → contains (l ++ f ∷ []) f ≡ true
contains-append [] f = ground (arith, eq_iff f f)
contains-append (x ∷ l) f = ground (arith, contains-append l f)

module _ (task : AgentTask) where
  -- With the finalizer.
  abbrev pub held : AgentTask
  held = with_finalizers small_cluster.add_finalizer task

  -- Pending from the reading `n` of the clock on.
  abbrev pub started : ℕ → AgentTask
  started n =
      with_status held
        (record (task.status) { phase = pending; start_time = some (small_cluster.clock n) })

  pub started-IsCoded : (n : ℕ) {cm : String} → IsCoded task cm → IsCoded (started n) cm
  started-IsCoded n (inline no_ref some_source same) = inline no_ref some_source same
  started-IsCoded n (referred ref e same named) = referred ref e same named

  pub held-holds :
      IsNew task → small_cluster.contains_finalizer held.meta.finalizers agent_task_finalizer ≡ true
  held-holds new = rw new.free (contains-append task.meta.finalizers agent_task_finalizer)

  pub in_time :
      (n : ℕ) (w : World small_cluster)
      → ltb_ℤ
          (small_cluster.clock n +ℤ timeout_budget task.spec.timeout_seconds)
          (small_cluster.clock w.readings)
        ≡ false
      → (check_timeout (started n) w).0 ≡ ok false
  unfolding check_timeout ◌>>=◌
  in_time n w early = elim (Bool-cases (leb_ℤ task.spec.timeout_seconds (pos 0))) [
    | inl z ↦ rw z refl
    | inr z ↦ rw z (rw early refl)
  ]

  -- The runs of the three reconciliations.
  pub held_run :
      (w : World small_cluster)
      → IsNew task
      → (reconcile_task task w).1 ≡ (send (update_task held) w).1
  held_run w new =
      let run : reconcile_task task w ≡ add_missing_finalizer task w =
        unfold reconcile_task in (rw (new.kept, new.free) refl) in
      ap (λ r. r.1) run
      ∙ unfold add_missing_finalizer in (then_pure (send (update_task held)) no_requeue w)

  pub started_run :
      (w : World small_cluster) → IsNew task → reconcile_task held w ≡ initialize held w
  started_run w new =
      let active : reconcile_task held w ≡ reconcile_active held.status.phase held w =
        unfold reconcile_task in (rw (new.kept, held-holds new) refl) in
      active ∙ unfold reconcile_active in (ap (λ p. reconcile_active p held w) new.fresh)

  pub pending_run :
      (n : ℕ) (w : World small_cluster)
      → IsNew task
      → ltb_ℤ
          (small_cluster.clock n +ℤ timeout_budget task.spec.timeout_seconds)
          (small_cluster.clock w.readings)
        ≡ false
      → (reconcile_task (started n) w).1
        ≡ (reconcile_pending (started n) (check_timeout (started n) w).1).1
  pending_run n w new early =
      let t : AgentTask = started n in
      let v : World small_cluster = (check_timeout t w).1 in
      let active : reconcile_task t w ≡ reconcile_active pending t w =
        unfold reconcile_task in (rw (new.kept, held-holds new) refl) in
      let wanted : reconcile_active pending t w ≡ reconcile_started t w =
        unfold reconcile_active in
        (ap (λ b. (if b then reconcile_canceled_flag t else reconcile_started t) w) new.wanted) in
      let run : reconcile_started t w ≡ run_phase pending t v =
        started_lem t w (in_time n w early) in
      ap (λ r. r.1) (active ∙ wanted ∙ run)
      ∙ unfold run_phase in (then_pure (reconcile_pending t) requeue_now v)

  held_lem :
      (w : World small_cluster)
      → IsNew task
      → own task w ≡ ok task
      → own task (reconcile_task task w).1 ≡ ok held
  held_lem w new e =
      ap (own task) (held_run w new)
      ∙ finalizers_lem task small_cluster.add_finalizer w e
      ∙ rw (unmarked task new) refl

  start_lem :
      (w : World small_cluster)
      → IsNew task
      → own held w ≡ ok held
      → own held (reconcile_task held w).1 ≡ ok (started w.readings)
  start_lem w new e =
      ap (λ r. own held r.1) (started_run w new)
      ∙ unfold initialize ◌>>=◌ in
        (write_lem held (started w.readings).status (λ _. pure requeue_now) (now w).1
          (λ a. search sends_rules) e)

  -- What is stored after the first two reconciliations.
  pub held_stored :
      (k : NamespacedName) (l : ℕ) (s : Objects)
      → stored_at k s ≡ ok task
      → IsNew task
      → stored_at k (reconcile k (world_at l s)).1.api ≡ ok held
  held_stored k l s found new =
      stored_after task k (world_at l s) _ found
        (held_lem (send (get_task k) (world_at l s)).1 new (own_found task k (world_at l s) found))

  pub started_stored :
      (k : NamespacedName) (n : ℕ) (s : Objects)
      → stored_at k s ≡ ok held
      → IsNew task
      → stored_at k (reconcile k (world_at n s)).1.api ≡ ok (started n)
  unfolding send
  started_stored k n s found new =
      stored_after held k (world_at n s) _ found
        (start_lem (send (get_task k) (world_at n s)).1 new (own_found held k (world_at n s) found))

  -- On the small cluster, which has room for every object and refuses only a pod whose volume names no config
  -- map, a stored task with no phase and no finalizer that is not being deleted, that has code, inline or by
  -- a reference, that the webhook's static validation accepts, that is not flagged as canceled and does not
  -- insist on a sandbox is stored as scheduled after three reconciliations of its key: the first adds the
  -- finalizer, the second starts it, and the third places it, unless it comes too late for the limit that
  -- runs from the second's reading of the clock. What else the cluster stores does not matter.
  pub arrival_placed :
      (k : NamespacedName) (l n m : ℕ) (s : Objects)
      → stored_at k s ≡ ok task
      → IsNew task
      → ltb_ℤ
          (small_cluster.clock n +ℤ timeout_budget task.spec.timeout_seconds)
          (small_cluster.clock m)
        ≡ false
      → life (stored_at k (run_all ((k, l) ∷ (k, n) ∷ (k, m) ∷ []) s))
        ≡ some (record { phase = scheduled; canceled = false })
  unfolding run_all send
  arrival_placed k l n m s found new early =
      let s1 : Objects = (reconcile k (world_at l s)).1.api in
      let w3 : World small_cluster = world_at m (reconcile k (world_at n s1)).1.api in
      let second : stored_at k w3.api ≡ ok (started n) =
        started_stored k n s1 (held_stored k l s found new) new in
      let v : World small_cluster = (send (get_task k) w3).1 in
      let u : World small_cluster = (check_timeout (started n) v).1 in
      let (st, kept, phase) =
        (pending-Moves (started n) (started-IsCoded n new.coded)
            (unfold validate_agent_task in new.accepted) new.any_backend).from
          u
          (ap (λ s. find task_key (task_key task) s.tasks) (check_timeout-quiet (started n) v)
            ∙ own_found (started n) k w3 second) in
      ap life (
        stored_after (started n) k w3 _ second
          (ap (own (started n)) (pending_run n v new early) ∙ kept))
      ∙ rw (phase, new.wanted) refl
