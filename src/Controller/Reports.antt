-- ===== src/Controller/Reports.antt =====
-- internal/controller/agenttask_controller.go: what the loops over the container statuses report of
-- a pod that ended.
use agenttask_operator.Base.{◌≡◌, refl, none, some, List, [], ◌∷◌, ◌++◌, All, ◌==◌, if◌then◌else◌}
use agenttask_operator.Api.Core.{ContainerStatus, Terminated}
use agenttask_operator.Api.Task.{AgentTaskStatus}
use agenttask_operator.Controller.Outcome.{
  task_terminated, success_details, failure_details, note_pull_error, take_termination,
}
use agenttask_operator.Controller.Phases.{task_exit_code}

-- The container is not named "task", or has not terminated.
abbrev pub IsOther : ContainerStatus → Type 0
IsOther c = task_terminated c ≡ none

module _ (c : ContainerStatus) (after : List ContainerStatus) (t : Terminated)
    (ended : task_terminated c ≡ some t) where
  exit_code_lem :
      (before : List ContainerStatus)
      → All IsOther before
      → task_exit_code (before ++ c ∷ after) ≡ some t.exit_code
  unfolding task_exit_code
  exit_code_lem [] h = rw (ended, task_exit_code) refl
  exit_code_lem (x ∷ xs) h = rw (h.0, task_exit_code) (exit_code_lem xs h.1)

  success_lem :
      (before : List ContainerStatus) (st : AgentTaskStatus)
      → All IsOther before
      → success_details (before ++ c ∷ after) st ≡ record st {
        result = if t.message == "" then st.result else some (record { json = t.message });
        exit_code = t.exit_code;
      }
  unfolding success_details
  success_lem [] st h = rw (ended, success_details) refl
  success_lem (x ∷ xs) st h = rw (h.0, success_details) (success_lem xs st h.1)

  failure_lem :
      (before : List ContainerStatus) (st : AgentTaskStatus)
      → All IsOther before
      → (failure_details (before ++ c ∷ after) st).exit_code ≡ t.exit_code
  unfolding failure_details take_termination
  failure_lem [] st h = rw (ended, failure_details) refl
  failure_lem (x ∷ xs) st h = rw (h.0, failure_details) (failure_lem xs (note_pull_error x st) h.1)

  failure_reason_lem :
      (before : List ContainerStatus) (st : AgentTaskStatus)
      → All IsOther before
      → (failure_details (before ++ c ∷ after) st).reason ≡ t.reason
  unfolding failure_details take_termination
  failure_reason_lem [] st h = rw (ended, failure_details) refl
  failure_reason_lem (x ∷ xs) st h =
      rw (h.0, failure_details) (failure_reason_lem xs (note_pull_error x st) h.1)

  -- Where the first container named "task" that has terminated is `c`, with the outcome `t`, whatever
  -- containers stand before and after it: the exit code that a running pod is judged by is that of `t`; a
  -- success stores the exit code of `t`, and its message as the result unless it is empty, and changes
  -- nothing else; a failure stores the exit code and the reason of `t`, in place of the reason of any
  -- image that could not be pulled.
  pub task_container_reported :
      (before : List ContainerStatus) (st : AgentTaskStatus)
      → All IsOther before
      → (task_exit_code (before ++ c ∷ after) ≡ some t.exit_code)
        × (success_details (before ++ c ∷ after) st ≡ record st {
          result = if t.message == "" then st.result else some (record { json = t.message });
          exit_code = t.exit_code;
        })
        × ((failure_details (before ++ c ∷ after) st).exit_code ≡ t.exit_code)
        × ((failure_details (before ++ c ∷ after) st).reason ≡ t.reason)
  task_container_reported before st h = (
    exit_code_lem before h,
    success_lem before st h,
    failure_lem before st h,
    failure_reason_lem before st h,
  )
