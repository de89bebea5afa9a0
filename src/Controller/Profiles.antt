-- ===== src/Controller/Profiles.antt =====
-- internal/controller/agenttask_controller.go: the image for a profile that the webhook admits.
use agenttask_operator.Base.{◌≡◌, inl, inr, refl, String, Option, none, some, lookup}
use agenttask_operator.Api.Task.{AgentTask}
use agenttask_operator.Platform.{Platform, Result-cases, ok, get_config_map}
use agenttask_operator.Platform.Exec.{World, Exec, pure, ◌>>=◌}
use agenttask_operator.Controller.Backend.{
  default_image, profile_key, fallback_image, resolve_runtime_profile,
}
use agenttask_operator.Webhook.{validate_agent_task}
use agenttask_operator.Webhook.Rules.{IsAdmissible, validate_agent_task_iff}

default_image_lem :
    (task : AgentTask) (backend : String)
    → IsAdmissible task
    → (image : String) × (default_image task.spec.runtime_profile backend ≡ some image)
unfolding default_image
default_image_lem task backend a = elim a.profile [
  | inl e ↦ rw e (_, refl)
  | inr e ↦ rw e (_, refl)
]

module _ {P : Platform} where
  fallback_image_lem :
      (task : AgentTask) (backend : String) (w : World P)
      → IsAdmissible task
      → (image : String) × ((fallback_image {P = P} task.spec.runtime_profile backend w).0
          ≡ ok image)
  unfolding fallback_image ◌>>=◌
  fallback_image_lem task backend w a =
      let (image, e) = default_image_lem task backend a in (image, rw (e, fallback_image) refl)

  listed_image_lem :
      (task : AgentTask) (backend : String) (listed : Option String) (w : World P)
      → IsAdmissible task
      → (image : String) × ((elim listed as (λ _. Exec P String) [
        | none ↦ fallback_image task.spec.runtime_profile backend
        | some found ↦ pure found
      ]
            w).0
          ≡ ok image)
  unfolding pure
  listed_image_lem task backend none w a = fallback_image_lem task backend w a
  listed_image_lem task backend (some found) w a = (found, refl)

  -- A task that the webhook's static validation accepts gets an image for every backend, whatever the
  -- API answers: the profile's lookup falls back to a default that exists for each profile admitted.
  pub admitted_profile_resolves :
      (task : AgentTask) (backend namespace : String) (w : World P)
      → validate_agent_task task ≡ ok tt
      → (image : String) × ((resolve_runtime_profile task.spec.runtime_profile backend namespace
            w).0
          ≡ ok image)
  unfolding resolve_runtime_profile ◌>>=◌
  admitted_profile_resolves task backend namespace w accepted =
      elim (Result-cases
        (P.serve
          (get_config_map (record { name = "agenttask-runtime-profiles"; namespace = namespace }))
          w.api).0) [
            | inl (cm, e) ↦ rw e (
                listed_image_lem task backend
                  (lookup (profile_key task.spec.runtime_profile backend) cm.contents) _
                  ((validate_agent_task_iff task).0 accepted))
            | inr (x, e) ↦
                rw e (fallback_image_lem task backend _ ((validate_agent_task_iff task).0 accepted))
          ]
