-- ===== src/Controller/Progress.antt =====
-- internal/controller/agenttask_controller.go: what becomes of a pending task when the API server is in
-- order.
use text.Mathlib.TextLemmas.{append-ne-nil_of_right_ne-nil}
use agenttask_operator.Base.{
  ap, ◌∙◌, none, some, ◌<>◌, ◌≡◌, ◌≢◌, refl, Bool, Bool-cases, true, false, String, List, ◌∷◌, ◌==◌,
  inl, inr, eq_iff,
}
use agenttask_operator.Api.Core.{
  ConfigMapKeySelector, ObjectReference, Pod, ConfigMap, NetworkPolicy,
}
use agenttask_operator.Api.Task.{AgentTask, scheduled}
use agenttask_operator.Platform.{
  Platform, Error, Sandbox, Request, Result-cases, ok, err, get_pod, create_pod, get_config_map,
  create_config_map, get_network_policy, create_network_policy, get_sandbox, create_sandbox,
  update_status,
}
use agenttask_operator.Platform.Exec.{World, pure, send, ◌>>=◌}
use agenttask_operator.Platform.Ends.{
  Ends, Succeeds, Succeeds-pure, Ends-bind, Ends-bind_attempt, send_then, Ends-if, Succeeds-lookup,
}
use agenttask_operator.Webhook.{validate_agent_task}
use agenttask_operator.Controller.Backend.{
  backend_auto, backend_sandbox, requested_backend, sandbox_available, choose_backend,
  select_backend, resolve_runtime_profile,
}
use agenttask_operator.Controller.Selection.{requests_sandbox}
use agenttask_operator.Controller.Profiles.{admitted_profile_resolves}
use agenttask_operator.Controller.Outcome.{with_status}
use agenttask_operator.Controller.Phases.{dispatch}
use agenttask_operator.Sandbox.{sandbox_key, new_sandbox, create, ensure_sandbox}
use agenttask_operator.Controller.Resources.{
  owned_key, new_network_policy, new_code_config_map, new_pod, ensure_source_config_map,
  ensure_code_config_map, ensure_network_policy, find_or_create_pod, ensure_pod,
}

-- The code of the task is the one in the config map of the name `cm`: inline, or by a reference.
pub data IsCoded (task : AgentTask) (cm : String) : Type 0 where
  inline :
      task.spec.code.config_map_ref ≡ none
      → task.spec.code.source ≢ ""
      → task.meta.name <> "-code" ≡ cm
      → IsCoded task cm
  referred :
      (ref : ConfigMapKeySelector)
      → task.spec.code.config_map_ref ≡ some ref
      → ref.name ≡ cm
      → cm ≢ ""
      → IsCoded task cm

-- What the task relies on of an API server. No other writer takes the names: a lookup of an object of the task
-- fails only where the object is missing. And the server admits the task's objects, with a pod that takes
-- its code from the config map of the name `cm`, whatever its image: it finds them valid and has room for
-- them.
pub record IsServing (P : Platform) (task : AgentTask) (cm : String) : Type 0 where
  pub pod_lookup :
      (image : String) (s : P.State) (e : Error)
      → (P.serve (get_pod (owned_key task "-pod")) s).0 ≡ err e
      → (e.not_found ≡ true)
        × ((q : Pod) × ((P.serve
                (create_pod (new_pod P task cm image))
                (P.serve (get_pod (owned_key task "-pod")) s).1).0
              ≡ ok q))
  pub config_map_lookup :
      (s : P.State) (e : Error)
      → (P.serve (get_config_map (owned_key task "-code")) s).0 ≡ err e
      → (e.not_found ≡ true)
        × ((d : ConfigMap) × ((P.serve
                (create_config_map (new_code_config_map P task))
                (P.serve (get_config_map (owned_key task "-code")) s).1).0
              ≡ ok d))
  pub policy_lookup :
      (s : P.State) (e : Error)
      → (P.serve (get_network_policy (owned_key task "-netpol")) s).0 ≡ err e
      → (e.not_found ≡ true)
        × ((o : NetworkPolicy) × ((P.serve
                (create_network_policy (new_network_policy P task))
                (P.serve (get_network_policy (owned_key task "-netpol")) s).1).0
              ≡ ok o))
  pub sandbox_lookup :
      (image : String) (s : P.State) (e : Error)
      → (P.serve (get_sandbox (sandbox_key task)) s).0 ≡ err e
      → (e.not_found ≡ true)
        × ((c : Sandbox) × ((P.serve
                (create_sandbox (new_sandbox P task image))
                (P.serve (get_sandbox (sandbox_key task)) s).1).0
              ≡ ok c))

pub unequal : (a b : String) → a ≢ b → (a == b) ≡ false
unequal a b ne = elim (Bool-cases (a == b)) [ inl e ↦ absurd (ne ((eq_iff a b).0 e)) | inr e ↦ e ]

suffixed : (s : String) → s <> "-code" ≢ ""
suffixed s = append-ne-nil_of_right_ne-nil s (λ e. cc e)

-- The name is not empty.
pub IsCoded-name : {task : AgentTask} {cm : String} → IsCoded task cm → (cm == "") ≡ false
IsCoded-name {task} {cm} (inline no_ref some_source e) =
    unequal cm "" (λ empty. suffixed task.meta.name (e ∙ empty))
IsCoded-name {task} {cm} (referred ref e same named) = unequal cm "" named

-- And a status can be written.
pub record IsHealthy (P : Platform) (task : AgentTask) (cm : String) : Type 0 where
  pub serving : IsServing P task cm
  pub status_written :
      (t : AgentTask) (s : P.State) → (u : AgentTask) × ((P.serve (update_status t) s).0 ≡ ok u)

module _ {P : Platform} {cm : String} (task : AgentTask) (serving : IsServing P task cm) where
  pub ensure_network_policy-Succeeds : Succeeds (ensure_network_policy {P = P} task)
  unfolding ensure_network_policy new_network_policy
  ensure_network_policy-Succeeds =
      Succeeds-lookup (get_network_policy (owned_key task "-netpol")) _ _ (λ n. Succeeds-pure tt)
        (λ w e h.
          let (gone, made) = serving.policy_lookup w.api e h in
          (
            gone,
            send_then (create_network_policy (new_network_policy P task)) _ _
                (λ n. Succeeds-pure tt) made,
          ))

  ensure_source_config_map_value :
      (w : World P) → (ensure_source_config_map {P = P} task w).0 ≡ ok (task.meta.name <> "-code")
  unfolding ensure_source_config_map ◌>>=◌
  ensure_source_config_map_value w =
      elim (Result-cases (P.serve (get_config_map (owned_key task "-code")) w.api).0) [
        | inl (c, e) ↦ rw (e, ensure_source_config_map) refl
        | inr (x, e) ↦
            let (gone, (d, made)) = serving.config_map_lookup w.api x e in
            rw (e, ensure_source_config_map) (rw gone (rw made refl))
      ]

  pub ensure_code_config_map_value :
      IsCoded task cm → (w : World P) → (ensure_code_config_map {P = P} task w).0 ≡ ok cm
  unfolding ensure_code_config_map pure
  ensure_code_config_map_value (inline no_ref some_source same) w =
      rw (no_ref, ensure_code_config_map)
        (rw (unequal task.spec.code.source "" some_source)
          (ensure_source_config_map_value w ∙ ap ok same))
  ensure_code_config_map_value (referred ref e same named) w =
      rw (e, ensure_code_config_map) (ap ok same)

  create_lem :
      (image : String) (w : World P)
      → ((b : Sandbox) × ((P.serve (create_sandbox (new_sandbox P task image)) w.api).0 ≡ ok b))
      → (ref : ObjectReference) × ((create {P = P} task image w).0 ≡ ok ref)
  unfolding create ◌>>=◌
  create_lem image w (b, e) = rw e (_, refl)

  ensure_sandbox-Succeeds :
      (cm_name image : String) → Succeeds (ensure_sandbox {P = P} task cm_name image)
  unfolding ensure_sandbox
  ensure_sandbox-Succeeds cm_name image =
      Succeeds-lookup (get_sandbox (sandbox_key task)) _ (create task image) (λ b. Succeeds-pure _)
        (λ w e h.
          let (gone, made) = serving.sandbox_lookup image w.api e h in
          (gone, create_lem image _ made))

  find_or_create_pod-Succeeds :
      (image : String) → Succeeds (find_or_create_pod {P = P} task cm image)
  unfolding find_or_create_pod new_pod send
  find_or_create_pod-Succeeds image =
      Succeeds-lookup (get_pod (owned_key task "-pod")) _
        (send (create_pod (new_pod P task cm image))) (λ p. Succeeds-pure _)
        (λ w e h. let (gone, made) = serving.pod_lookup image w.api e h in (gone, made))

  ensure_pod-Succeeds : (image : String) → Succeeds (ensure_pod {P = P} task cm image)
  unfolding ensure_pod
  ensure_pod-Succeeds image =
      Ends-bind _ _ _ (find_or_create_pod-Succeeds image) (λ p. Succeeds-pure _)

  sandbox_available-Succeeds : Succeeds (sandbox_available {P = P})
  unfolding sandbox_available
  sandbox_available-Succeeds =
      Ends-bind_attempt _ _ _ (λ b. Succeeds-pure b) (λ e. Succeeds-pure false)

  choose_backend-Succeeds :
      (requested : String) (available : Bool)
      → (requested == backend_sandbox) ≡ false
      → Succeeds (choose_backend {P = P} requested available)
  unfolding choose_backend
  choose_backend-Succeeds requested available other =
      rw (other, choose_backend)
        (Ends-if (requested == backend_auto) _ _
          (Ends-if available _ _ (Succeeds-pure _) (Succeeds-pure _)) (Succeeds-pure _))

  not_requested :
      task.spec.backend ≢ "sandbox" → (requested_backend task == backend_sandbox) ≡ false
  not_requested other = rw requests_sandbox (elim (Bool-cases (task.spec.backend == "sandbox")) [
    | inl e ↦ absurd (other ((eq_iff task.spec.backend "sandbox").0 e))
    | inr e ↦ e
  ])

  pub select_backend-Succeeds :
      task.spec.backend ≢ "sandbox" → Succeeds (select_backend {P = P} task)
  unfolding select_backend
  select_backend-Succeeds other =
      Ends-bind _ _ _ sandbox_available-Succeeds
        (λ b. choose_backend-Succeeds (requested_backend task) b (not_requested other))

  pub resolve_runtime_profile-Succeeds :
      (backend : String)
      → validate_agent_task task ≡ ok tt
      → Succeeds
          (resolve_runtime_profile {P = P} task.spec.runtime_profile backend task.meta.namespace)
  resolve_runtime_profile-Succeeds backend accepted = record {
    value = λ w. admitted_profile_resolves task backend task.meta.namespace w accepted;
    after = λ w. tt;
  }

  pub dispatch-Succeeds :
      (backend image : String) → Succeeds (dispatch {P = P} task backend cm image)
  unfolding dispatch
  dispatch-Succeeds backend image =
      Ends-if (backend == backend_sandbox) _ _ (ensure_sandbox-Succeeds cm image)
        (ensure_pod-Succeeds image)

module _ {P : Platform} {cm : String} (task : AgentTask) (healthy : IsHealthy P task cm) where
  abbrev placed : ObjectReference → AgentTask
  placed ref = with_status task (record (task.status) { pod_ref = ref; phase = scheduled })

  -- The latest request writes the phase scheduled, beside a reference to what runs the task.
  abbrev IsPlaced : World P → Type 0
  IsPlaced w =
      (ref : ObjectReference) × (before : List Request) × (w.requests
        ≡ update_status (placed ref) ∷ before)
