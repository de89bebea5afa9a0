-- ===== src/Cluster/Placement.antt =====
-- The small cluster, under reconcilePending: a task that the webhook accepts is stored as scheduled.
use agenttask_operator.Base.{◌≡◌, ◌≢◌, refl, ap, ◌∙◌, String, arith}
use agenttask_operator.Api.Task.{AgentTask, AgentTaskPhase, scheduled}
use agenttask_operator.Api.Core.{ObjectReference}
use agenttask_operator.Platform.{Request, Result, ok}
use agenttask_operator.Platform.Exec.{World, Exec, attempt, ◌>>=◌}
use agenttask_operator.Platform.Sends.{Sends-weaken, sends_rules}
use agenttask_operator.Platform.Ends.{Succeeds}
use agenttask_operator.Webhook.{validate_agent_task}
use agenttask_operator.Controller.Resources.{with_pod_ref}
use agenttask_operator.Controller.Phases.{
  dispatch, schedule, set_phase, resolve_and_schedule, select_and_schedule, reconcile_pending,
}
use agenttask_operator.Controller.Progress.{
  dispatch-Succeeds, IsCoded, IsServing, IsCoded-name, ensure_code_config_map_value,
  ensure_network_policy-Succeeds, select_backend-Succeeds, resolve_runtime_profile-Succeeds,
}
use agenttask_operator.Controller.Safety.Preparing.{
  Preparing, Prepares, ensure_sandbox-Prepares, ensure_pod-Prepares, select_backend-Prepares,
  resolve_runtime_profile-Prepares, ensure_code_config_map-Prepares, ensure_network_policy-Prepares,
}
use agenttask_operator.Cluster.{small_cluster, serve, find, task_key}
use agenttask_operator.Cluster.Leaves.{keeps, stored_lem}
use agenttask_operator.Cluster.Serving.{small_serving}
use agenttask_operator.Cluster.Writes.{Aside, Moves, Moves-write, own}

module _ (task : AgentTask) where
  Preparing-Aside : (r : Request) → Preparing small_cluster task r → Aside r
  unfolding serve
  Preparing-Aside _ (Preparing.reads_pod k) s = refl
  Preparing-Aside _ (Preparing.reads_config_map k) s = refl
  Preparing-Aside _ (Preparing.reads_network_policy k) s = refl
  Preparing-Aside _ (Preparing.reads_sandbox k) s = refl
  Preparing-Aside _ (Preparing.reads_crd name) s = ground arith
  Preparing-Aside _ Preparing.creates_config_map s = stored_lem (λ u. u.tasks) _ s _ (λ a. refl)
  Preparing-Aside _ Preparing.creates_network_policy s = stored_lem (λ u. u.tasks) _ s _ (λ a. refl)
  Preparing-Aside _ (Preparing.creates_pod cm_name image) s =
      stored_lem (λ u. u.tasks) _ s _ (λ a. refl)
  Preparing-Aside _ (Preparing.creates_sandbox image) s =
      stored_lem (λ u. u.tasks) _ s _ (λ a. refl)

  prepared :
      {A : Type 0} (m : Exec small_cluster A)
      → Prepares small_cluster task m
      → (w : World small_cluster) → own task w ≡ ok task
      → own task (m w).1 ≡ ok task
  prepared m h w e =
      ap (find task_key (task_key task))
        (keeps (λ s. s.tasks) m (Sends-weaken m Preparing-Aside h) w)
      ∙ e

  -- After a step that returns a value and prepares.
  Moves-prepared :
      {A : Type 0} {q : AgentTaskPhase} (m : Exec small_cluster A)
      (f : A → Exec small_cluster (Unit {0}))
      → Succeeds m
      → Prepares small_cluster task m
      → ((a : A) → Moves task q (f a))
      → Moves task q (m >>= f)
  unfolding ◌>>=◌
  Moves-prepared m f hm s hf = record {
    from = λ w e. let (a, fine) = hm.value w in rw fine ((hf a).from (m w).1 (prepared m s w e));
  }

  Moves-attempted :
      {A : Type 0} {q : AgentTaskPhase} (m : Exec small_cluster A)
      (f : Result A → Exec small_cluster (Unit {0}))
      → Succeeds m
      → Prepares small_cluster task m
      → ((a : A) → Moves task q (f (ok a)))
      → Moves task q (attempt m >>= f)
  unfolding ◌>>=◌
  Moves-attempted m f hm s hf = record {
    from = λ w e. let (a, fine) = hm.value w in rw fine ((hf a).from (m w).1 (prepared m s w e));
  }

  set_phase_lem :
      (ref : ObjectReference) → Moves task scheduled (set_phase (with_pod_ref task ref) scheduled)
  unfolding set_phase
  set_phase_lem ref =
      Moves-write task (record (task.status) { pod_ref = ref; phase = scheduled }) _ refl
        (λ a. search sends_rules)

  -- After a step that always returns the same value and prepares.
  Moves-valued :
      {A : Type 0} {q : AgentTaskPhase} (m : Exec small_cluster A)
      (f : A → Exec small_cluster (Unit {0})) (a : A)
      → ((w : World small_cluster) → (m w).0 ≡ ok a)
      → Prepares small_cluster task m
      → Moves task q (f a)
      → Moves task q (m >>= f)
  unfolding ◌>>=◌
  Moves-valued m f a hm s hf = record {
    from = λ w e. rw (hm w) (hf.from (m w).1 (prepared m s w e));
  }

  dispatch-Prepares :
      (backend cm_name image : String)
      → Prepares small_cluster task (dispatch task backend cm_name image)
  unfolding dispatch
  dispatch-Prepares backend cm_name image =
      search (sends_rules, ensure_sandbox-Prepares, ensure_pod-Prepares)

  pub pending-Moves :
      {cm : String}
      → IsCoded task cm
      → validate_agent_task task ≡ ok tt
      → task.spec.backend ≢ "sandbox"
      → Moves task scheduled (reconcile_pending task)
  unfolding reconcile_pending select_and_schedule resolve_and_schedule schedule
  pending-Moves {cm} coded accepted other =
      let serving : IsServing small_cluster task cm = small_serving task cm (IsCoded-name coded) in
      Moves-valued _ _ cm (ensure_code_config_map_value task serving coded)
        (ensure_code_config_map-Prepares small_cluster task)
        (Moves-prepared _ _ (ensure_network_policy-Succeeds task serving)
          (ensure_network_policy-Prepares small_cluster task)
          (λ _.
            Moves-attempted _ _ (select_backend-Succeeds task serving other)
              (select_backend-Prepares small_cluster task)
              (λ backend.
                Moves-attempted _ _ (resolve_runtime_profile-Succeeds task serving backend accepted)
                  (resolve_runtime_profile-Prepares small_cluster task _ backend _)
                  (λ image.
                    Moves-prepared _ _ (dispatch-Succeeds task serving backend image)
                      (dispatch-Prepares backend cm image) set_phase_lem))))
