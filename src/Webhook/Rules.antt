-- ===== src/Webhook/Rules.antt =====
-- What validation accepts, beside a description that does not follow its order of tests.
use agenttask_operator.Base.{
  ℕ, suc, ◌+◌, ◌≡◌, ◌↔◌, ◌⊎◌, inl, inr, true, String, List, [], ◌∷◌, arith, eq_iff, count, ◌<◌,
  ◌==◌,
}
use agenttask_operator.Base.Int.{pos, ◌≤ℤ◌}
use agenttask_operator.Api.Task.{AgentTask}
use agenttask_operator.Platform.{Platform, Result-cases, ok, list_tasks}
use agenttask_operator.Platform.Exec.{World, ◌>>=◌}
use agenttask_operator.Webhook.{
  is_active, validate_agent_task, count_active, check_limit, validate_update, validate_create,
}

-- A profile of the list and a limit from one second to an hour.
pub record IsAdmissible (task : AgentTask) : Type 0 where
  pub profile :
      (task.spec.runtime_profile ≡ "python3.10") ⊎ (task.spec.runtime_profile ≡ "python3.11")
  pub at_least : pos 1 ≤ℤ task.spec.timeout_seconds
  pub at_most : task.spec.timeout_seconds ≤ℤ pos 3600

-- It is about the spec alone.
pub IsAdmissible-spec : {a b : AgentTask} → b.spec ≡ a.spec → IsAdmissible a → IsAdmissible b
IsAdmissible-spec e h = record {
  profile = rw e h.profile;
  at_least = rw e h.at_least;
  at_most = rw e h.at_most;
}

-- Static validation accepts a task exactly when its profile is python3.10 or python3.11 and its limit
-- lies between 1 and 3600 seconds.
pub validate_agent_task_iff :
    (task : AgentTask) → (validate_agent_task task ≡ ok tt) ↔ IsAdmissible task
unfolding validate_agent_task
validate_agent_task_iff task = (
  λ h. record {
    profile = ground (arith, profiles.0, profiles.1);
    at_least = ground arith;
    at_most = ground arith;
  },
  λ a. ground (arith, profiles.0, profiles.1, a.profile),
)
  where
    profiles :
        ((("python3.10" == task.spec.runtime_profile) ≡ true)
          ↔ ("python3.10" ≡ task.spec.runtime_profile))
        × ((("python3.11" == task.spec.runtime_profile) ≡ true)
            ↔ ("python3.11" ≡ task.spec.runtime_profile))
    profiles = (
      eq_iff "python3.10" task.spec.runtime_profile,
      eq_iff "python3.11" task.spec.runtime_profile,
    )

count_active-eq_from :
    (n : ℕ) (tasks : List AgentTask) → count_active n tasks ≡ n + count is_active tasks
unfolding count_active
count_active-eq_from n [] = omega arith
count_active-eq_from n (task ∷ tasks) =
    ground (arith, count_active-eq_from n tasks, count_active-eq_from (suc n) tasks)

-- The loop counts the tasks that are not in a terminal phase.
pub count_active-eq-count : (tasks : List AgentTask) → count_active 0 tasks ≡ count is_active tasks
count_active-eq-count tasks = omega (arith, count_active-eq_from 0 tasks)

pub check_limit_iff :
    (namespace : String) (tasks : List AgentTask)
    → (check_limit namespace tasks ≡ ok tt) ↔ (count is_active tasks < 5)
unfolding check_limit
check_limit_iff namespace tasks = rw count_active-eq-count (ground arith)

-- A creation is accepted exactly when the task is admissible, the tasks of its namespace can be listed
-- and fewer than five of them are in a phase that is not terminal.
pub validate_create_iff :
    {P : Platform} (task : AgentTask) (w : World P)
    → ((validate_create task w).0 ≡ ok tt) ↔ (
        IsAdmissible task
        × ((tasks : List AgentTask) × ((P.serve (list_tasks task.meta.namespace) w.api).0
              ≡ ok tasks)
            × (count is_active tasks < 5)))
unfolding validate_create ◌>>=◌
validate_create_iff {P} task w = (
  λ h. elim (Result-cases (P.serve (list_tasks task.meta.namespace) w.api).0) [
    | inl (tasks, e) ↦ (
      (validate_agent_task_iff task).0 (ground arith),
      (tasks, e, (check_limit_iff task.meta.namespace tasks).0 (ground arith)),
    )
    | inr (x, e) ↦ absurd (ground arith)
  ],
  λ (a, (tasks, e, few)). ground (
    arith,
    (validate_agent_task_iff task).1 a,
    (check_limit_iff task.meta.namespace tasks).1 few,
  ),
)

-- An update is accepted exactly when it keeps the profile and the source and the new task is
-- admissible.
pub validate_update_iff :
    (old new : AgentTask)
    → (validate_update old new ≡ ok tt) ↔ (
        (new.spec.runtime_profile ≡ old.spec.runtime_profile)
        × (new.spec.code.source ≡ old.spec.code.source)
        × IsAdmissible new)
unfolding validate_update
validate_update_iff old new = (
  λ h. (
    ground (arith, eq_iff new.spec.runtime_profile old.spec.runtime_profile),
    ground (arith, eq_iff new.spec.code.source old.spec.code.source),
    (validate_agent_task_iff new).0 (ground arith),
  ),
  λ (profile, source, a). ground (
    arith,
    eq_iff new.spec.runtime_profile old.spec.runtime_profile,
    eq_iff new.spec.code.source old.spec.code.source,
    (validate_agent_task_iff new).1 a,
  ),
)
