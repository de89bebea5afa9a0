-- ===== src/Webhook.antt =====
-- internal/webhook/v1alpha1/agenttask_webhook.go: what the validating webhook admits. The warnings
-- that it returns are always nil, and are left out.
pub mod Rules
pub mod Admission
use agenttask_operator.Base.{
  ℕ, suc, Bool, not, String, ◌<>◌, List, [], ◌∷◌, contains, leb, ◌==◌, if◌then◌else◌,
}
use agenttask_operator.Base.Int.{pos, leb_ℤ, ltb_ℤ}
use agenttask_operator.Api.Task.{AgentTask, is_terminal}
use agenttask_operator.Platform.{Platform, Result, ok, err, errorf, errorf_wrap, list_tasks}
use agenttask_operator.Platform.Exec.{Exec, pure, raise, attempt, send, ◌>>=◌, ◌>>◌}

abbrev pub allowed_profiles : List String
allowed_profiles = "python3.10" ∷ "python3.11" ∷ []

abbrev pub max_active_tasks : ℕ
max_active_tasks = 5

unfoldable pub validate_agent_task : AgentTask → Result (Unit {0})
validate_agent_task task =
    if not (contains allowed_profiles task.spec.runtime_profile)
    then err (
        errorf (
          "invalid runtimeProfile '"
          <> (task.spec.runtime_profile <> "'. Allowed: [python3.10 python3.11]")))
    else if leb_ℤ task.spec.timeout_seconds (pos 0)
    then err (errorf "timeoutSeconds must be greater than 0")
    else if ltb_ℤ (pos 3600) task.spec.timeout_seconds
    then err (errorf "timeoutSeconds cannot exceed 3600 (1 hour)")
    else ok tt

-- A task that is not in a terminal state.
abbrev pub is_active : AgentTask → Bool
is_active task = not (is_terminal task.status.phase)

-- The loop that counts: `activeCount++`.
unfoldable pub count_active : ℕ → List AgentTask → ℕ
count_active n [] = n
count_active n (task ∷ tasks) = count_active (if is_active task then suc n else n) tasks

-- The test on the listed tasks.
unfoldable pub check_limit : String → List AgentTask → Result (Unit {0})
check_limit namespace tasks =
    if leb max_active_tasks (count_active 0 tasks)
    then err (errorf ("too many active tasks in namespace " <> (namespace <> " (max 5)")))
    else ok tt

unfoldable pub validate_update : AgentTask → AgentTask → Result (Unit {0})
validate_update old new =
    if not (new.spec.runtime_profile == old.spec.runtime_profile)
    then err (errorf "runtimeProfile is immutable")
    else if not (new.spec.code.source == old.spec.code.source)
    then err (errorf "code.source is immutable")
    else validate_agent_task new

unfoldable pub validate_delete : AgentTask → Result (Unit {0})
validate_delete task = ok tt

module _ {P : Platform} where
  -- `return err` where err may be nil
  unfoldable pub lift : Result (Unit {0}) → Exec P (Unit {0})
  lift (ok u) = pure u
  lift (err e) = raise e

  unfoldable pub validate_create : AgentTask → Exec P (Unit {0})
  unfolding lift
  validate_create task = do
    lift (validate_agent_task task)
    listed ← attempt (send (list_tasks task.meta.namespace))
    elim listed [
      | ok tasks ↦ lift (check_limit task.meta.namespace tasks)
      | err e ↦ raise (errorf_wrap "failed to list tasks for concurrency check: " e)
    ]
