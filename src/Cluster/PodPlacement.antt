-- ===== src/Cluster/PodPlacement.antt =====
-- The small cluster, under reconcilePending with no definition of sandboxes: the pod that a task gets.
use agenttask_operator.Base.{
  ◌≡◌, ◌≢◌, refl, sym, ap, ◌∙◌, ◌⊎◌, inl, inr, Bool-cases, eq_iff, false, String, ◌<>◌, List, ◌∷◌,
  contains, ◌==◌,
}
use mathlib.Core.Path.{subst}
use agenttask_operator.Api.Core.{ObjectReference, Pod, ref_key}
use agenttask_operator.Api.Task.{AgentTask, scheduled}
use agenttask_operator.Platform.{Result, ok, err, get_crd, get_pod, create_pod}
use agenttask_operator.Platform.Exec.{World, Exec, pure, attempt, ◌>>=◌}
use agenttask_operator.Platform.Sends.{Sends, sends_rules}
use agenttask_operator.Platform.Ends.{Succeeds}
use agenttask_operator.Webhook.{validate_agent_task}
use agenttask_operator.Controller.Backend.{select_backend}
use agenttask_operator.Controller.Selection.{select_backend_iff, LeavesChoice}
use agenttask_operator.Controller.Resources.{
  owned_key, new_pod, find_or_create_pod, ensure_pod, with_pod_ref,
}
use agenttask_operator.Controller.Outcome.{with_status}
use agenttask_operator.Controller.Phases.{
  dispatch, schedule, set_phase, resolve_and_schedule, select_and_schedule, reconcile_pending,
}
use agenttask_operator.Controller.Progress.{
  IsCoded, IsServing, IsCoded-name, ensure_code_config_map_value, ensure_network_policy-Succeeds,
  resolve_runtime_profile-Succeeds,
}
use agenttask_operator.Cluster.{
  small_cluster, serve, find, create, stored, missing, task_key, pod_key,
}
use agenttask_operator.Cluster.Leaves.{keeps}
use agenttask_operator.Cluster.Store.{same_key_iff}
use agenttask_operator.Cluster.Serving.{small_serving}
use agenttask_operator.Cluster.Writes.{own, write_lem}
use agenttask_operator.Cluster.Scene.{
  scene, Apart, code_lem, policy_lem, backend_lem, profile_lem, set_phase_pods,
}

module _ (task : AgentTask) where
  -- Nothing stands in the way of the task's pod: the task is stored, the name of the pod is free and there
  -- is no definition of sandboxes.
  pub record IsFree (w : World small_cluster) : Type 0 where
    pub held : own task w ≡ ok task
    pub pod : find pod_key (owned_key task "-pod") w.api.pods ≡ err missing
    pub no_sandboxes : contains w.api.crds "sandboxes.execution.agenttask.io" ≡ false

  after-IsFree :
      {A : Type 0} (m : Exec small_cluster A) (w : World small_cluster)
      → Sends Apart m
      → IsFree w
      → IsFree (m w).1
  after-IsFree m w h f =
      let same : scene (m w).1.api ≡ scene w.api = keeps scene m h w in
      record {
        held = ap (λ p. find task_key (task_key task) p.0) same ∙ f.held;
        pod = ap (λ p. find pod_key (owned_key task "-pod") p.1) same ∙ f.pod;
        no_sandboxes =
            ap (λ p. contains p.2 "sandboxes.execution.agenttask.io") same ∙ f.no_sandboxes;
      }

  -- The reference to the task's pod, and the task as it is stored with it.
  abbrev pub own_pod : ObjectReference
  own_pod = record {
    kind = "Pod";
    name = task.meta.name <> "-pod";
    namespace = task.meta.namespace;
  }

  abbrev pub in_pod : AgentTask
  in_pod = with_status task (record (task.status) { pod_ref = own_pod; phase = scheduled })

  -- With nothing in the way, the task is stored as scheduled, in a pod that is found.
  record Boards (m : Exec small_cluster (Unit {0})) : Type 0 where
    at :
        (w : World small_cluster)
        → IsFree w
        → (own task (m w).1 ≡ ok in_pod)
          × ((pod : Pod) × (find pod_key (ref_key own_pod) (m w).1.api.pods ≡ ok pod))

  Boards-bind :
      {A : Type 0} (m : Exec small_cluster A) (f : A → Exec small_cluster (Unit {0}))
      → Succeeds m
      → Sends Apart m
      → ((a : A) → Boards (f a))
      → Boards (m >>= f)
  unfolding ◌>>=◌
  Boards-bind m f hm s hf = record {
    at = λ w h. let (a, fine) = hm.value w in rw fine ((hf a).at (m w).1 (after-IsFree m w s h));
  }

  Boards-valued :
      {A : Type 0} (m : Exec small_cluster A) (f : A → Exec small_cluster (Unit {0})) (a : A)
      → ((w : World small_cluster) → (m w).0 ≡ ok a)
      → Sends Apart m
      → Boards (f a)
      → Boards (m >>= f)
  unfolding ◌>>=◌
  Boards-valued m f a hm s hf = record {
    at = λ w h. rw (hm w) (hf.at (m w).1 (after-IsFree m w s h));
  }

  Boards-attempt :
      {A : Type 0} (m : Exec small_cluster A) (f : Result A → Exec small_cluster (Unit {0}))
      (P : A → Type 0)
      → ((w : World small_cluster) → IsFree w → (a : A) × ((m w).0 ≡ ok a) × P a)
      → Sends Apart m
      → ((a : A) → P a → Boards (f (ok a)))
      → Boards (attempt m >>= f)
  unfolding ◌>>=◌
  Boards-attempt m f P hm s hf = record {
    at = λ w h. let (a, fine, p) = hm w h in rw fine ((hf a p).at (m w).1 (after-IsFree m w s h));
  }

  choice : LeavesChoice task ⊎ (¬ LeavesChoice task)
  choice = elim (Bool-cases (task.spec.backend == "")) [
    | inl e ↦ inl (inl ((eq_iff task.spec.backend "").0 e))
    | inr e ↦ elim (Bool-cases (task.spec.backend == "auto")) [
      | inl f ↦ inl (inr ((eq_iff task.spec.backend "auto").0 f))
      | inr f ↦ inr (λ l. elim l [
        | inl g ↦ cc ((eq_iff task.spec.backend "").1 g, e)
        | inr g ↦ cc ((eq_iff task.spec.backend "auto").1 g, f)
      ])
    ]
  ]

  pod_backend :
      task.spec.backend ≢ "sandbox"
      → (w : World small_cluster) → IsFree w
      → (a : String) × ((select_backend task w).0 ≡ ok a) × (a ≡ "pod")
  unfolding serve
  pod_backend other w h =
      let absent : ¬ ((serve (get_crd "sandboxes.execution.agenttask.io") w.api).0 ≡ ok tt) =
        λ e. absurd (cc (rw h.no_sandboxes at e)) in
      (
        "pod",
        (select_backend_iff task w).1.1 (elim choice [
          | inl l ↦ inr (l, absent)
          | inr n ↦ inl (λ m. elim m [ inl e ↦ other e | inr l ↦ n l ])
        ]),
        refl,
      )

  -- The world once the pod is there.
  made : String → String → World small_cluster → World small_cluster
  made cm_name image w = record w {
    api = record (w.api) { pods = new_pod small_cluster task cm_name image ∷ w.api.pods };
    requests =
        create_pod (new_pod small_cluster task cm_name image)
        ∷ get_pod (owned_key task "-pod")
        ∷ w.requests;
  }

  created :
      (cm_name image : String) (w : World small_cluster)
      → IsFree w
      → create pod_key (new_pod small_cluster task cm_name image) w.api.pods
        ≡ ok (new_pod small_cluster task cm_name image)
  unfolding new_pod create
  created cm_name image w h = rw (h.pod, create) refl

  made_lem :
      (cm_name image : String) (w : World small_cluster)
      → (cm_name == "") ≡ false
      → IsFree w
      → ensure_pod {P = small_cluster} task cm_name image w ≡ (ok own_pod, made cm_name image w)
  unfolding ensure_pod find_or_create_pod new_pod made ◌>>=◌ serve create stored
  made_lem cm_name image w coded h =
      rw (h.pod, ensure_pod) (rw coded (rw (created cm_name image w h) refl))

  on_top :
      (cm_name image : String) (pods : List Pod)
      → find pod_key (ref_key own_pod) (new_pod small_cluster task cm_name image ∷ pods)
        ≡ ok (new_pod small_cluster task cm_name image)
  unfolding find new_pod
  on_top cm_name image pods = rw ((same_key_iff (ref_key own_pod) (ref_key own_pod)).1 refl) refl

  board_lem :
      (cm_name image : String)
      → (cm_name == "") ≡ false
      → Boards (schedule task "pod" cm_name image)
  unfolding schedule dispatch set_phase made ◌>>=◌
  board_lem cm_name image coded = record {
    at = λ w h.
        rw (made_lem cm_name image w coded h, schedule)
          (
            write_lem task in_pod.status (λ _. pure tt) (made cm_name image w)
                (λ a. search sends_rules) h.held,
            (
              new_pod small_cluster task cm_name image,
              ap (find pod_key (ref_key own_pod))
                    (set_phase_pods (with_pod_ref task own_pod) scheduled (made cm_name image w))
                  ∙ on_top cm_name image w.api.pods,
            ),
          );
  }

  module _ {cm : String} (coded : IsCoded task cm)
      (accepted : validate_agent_task task ≡ ok tt) where
    serving : IsServing small_cluster task cm
    serving = small_serving task cm (IsCoded-name coded)

    resolve_lem : Boards (resolve_and_schedule task cm "pod")
    unfolding resolve_and_schedule
    resolve_lem =
        Boards-attempt _ _ (λ _. Unit {0})
          (λ v f.
            let (image, e) =
              (resolve_runtime_profile-Succeeds task serving "pod" accepted).value v in
            (image, e, tt))
          (profile_lem task _ "pod" _) (λ image _. board_lem cm image (IsCoded-name coded))

    -- With nothing in the way, a pending task that the webhook accepts is stored as scheduled in its pod.
    pub pending-Boards :
        task.spec.backend ≢ "sandbox"
        → (w : World small_cluster) → IsFree w
        → (own task (reconcile_pending task w).1 ≡ ok in_pod)
          × ((pod : Pod) × (find pod_key (ref_key own_pod) (reconcile_pending task w).1.api.pods
                ≡ ok pod))
    pending-Boards other w h = boards.at w h
      where
        boards : Boards (reconcile_pending task)
        boards =
            unfold reconcile_pending select_and_schedule in
            (Boards-valued _ _ cm (ensure_code_config_map_value task serving coded) (code_lem task)
              (Boards-bind _ _ (ensure_network_policy-Succeeds task serving) (policy_lem task) (λ _.
                Boards-attempt _ _ (λ b. b ≡ "pod") (pod_backend other) (backend_lem task)
                  (λ backend is_pod.
                    subst (λ b. Boards (resolve_and_schedule task cm b)) (sym is_pod)
                      resolve_lem))))
