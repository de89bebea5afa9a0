-- ===== src/Controller/Backend.antt =====
-- internal/controller/agenttask_controller.go: which backend runs a task, and from which image.
use agenttask_operator.Base.{
  Bool, true, false, String, ◌<>◌, Option, none, some, ◌==◌, ◌||◌, lookup, if◌then◌else◌,
}
use agenttask_operator.Api.Task.{AgentTask}
use agenttask_operator.Platform.{Platform, ok, err, errorf, get_crd, get_config_map}
use agenttask_operator.Platform.Exec.{Exec, pure, raise, attempt, send, ◌>>=◌}

abbrev pub backend_auto : String
backend_auto = "auto"

abbrev pub backend_pod : String
backend_pod = "pod"

abbrev pub backend_sandbox : String
backend_sandbox = "sandbox"

abbrev pub container_task_name : String
container_task_name = "task"

-- requested := task.Spec.Backend, with its default
unfoldable pub requested_backend : AgentTask → String
requested_backend task = if task.spec.backend == "" then backend_auto else task.spec.backend

-- The key of the config map of profiles.
unfoldable pub profile_key : String → String → String
profile_key profile backend = if backend == backend_sandbox then profile <> "-sandbox" else profile

-- The `switch profile` over the hardcoded defaults.
unfoldable pub default_image : String → String → Option String
default_image profile backend =
    if profile == "python3.11" || profile == "python3.10"
    then some
        (if backend == backend_sandbox then "agent-sandbox-python:3.11" else "python:3.11-slim")
    else none

module _ {P : Platform} where
  unfoldable pub check_sandbox_availability : Exec P Bool
  check_sandbox_availability = do
    found ← attempt (send (get_crd "sandboxes.execution.agenttask.io"))
    elim found [ ok _ ↦ pure true | err e ↦ if e.not_found then pure false else raise e ]

  -- An error of the check is logged and counts as absence.
  unfoldable pub sandbox_available : Exec P Bool
  sandbox_available = do
    checked ← attempt check_sandbox_availability
    elim checked [ ok available ↦ pure available | err _ ↦ pure false ]

  unfoldable pub choose_backend : String → Bool → Exec P String
  choose_backend requested available =
      if requested == backend_sandbox
      then if available
        then pure backend_sandbox
        else raise (P.bad_request "sandbox backend requested but not available")
      else if requested == backend_auto
      then if available then pure backend_sandbox else pure backend_pod
      else pure backend_pod

  unfoldable pub select_backend : AgentTask → Exec P String
  unfolding requested_backend check_sandbox_availability sandbox_available choose_backend
  select_backend task = do
    available ← sandbox_available
    choose_backend (requested_backend task) available

  unfoldable pub fallback_image : String → String → Exec P String
  unfolding default_image
  fallback_image profile backend = elim (default_image profile backend) [
    | some image ↦ pure image
    | none ↦ raise (errorf ("unknown runtime profile: " <> profile))
  ]

  unfoldable pub resolve_runtime_profile : String → String → String → Exec P String
  unfolding profile_key fallback_image
  resolve_runtime_profile profile backend namespace = do
    found ← attempt (
        send
          (get_config_map (record { name = "agenttask-runtime-profiles"; namespace = namespace })))
    elim found [
      | ok cm ↦ elim (lookup (profile_key profile backend) cm.contents) [
        | some image ↦ pure image
        | none ↦ fallback_image profile backend
      ]
      | err _ ↦ fallback_image profile backend
    ]
