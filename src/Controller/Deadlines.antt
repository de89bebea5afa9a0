-- ===== src/Controller/Deadlines.antt =====
-- The controller's arithmetic on time, and what its order of tests means for tasks past their limit.
use agenttask_operator.Base.{◌≡◌, ◌↔◌, inl, inr, true, some, arith, Option-cases}
use agenttask_operator.Base.Int.{ℤ, pos, negsuc, ◌+ℤ◌, ◌*ℤ◌, ◌<ℤ◌, IsInt32, IsInt64, wrap64_id}
use agenttask_operator.Api.Core.{Time}
use agenttask_operator.Api.Task.{AgentTask}
use agenttask_operator.Platform.{Platform, ok}
use agenttask_operator.Platform.Exec.{World, ◌>>=◌}
use agenttask_operator.Controller.Cleanup.{second, seconds_duration, timeout_budget, check_timeout}

seconds-IsInt64 : (s : ℤ) → IsInt32 s → IsInt64 (s *ℤ second)
unfolding ◌*ℤ◌
seconds-IsInt64 (pos n) h = ground arith
seconds-IsInt64 (negsuc n) h = ground arith

budget-IsInt64 : (s : ℤ) → IsInt32 s → IsInt64 (s *ℤ second +ℤ pos 2000000000)
unfolding ◌*ℤ◌ ◌+ℤ◌
budget-IsInt64 (pos n) h = ground arith
budget-IsInt64 (negsuc n) h = ground arith

seconds_exact : (s : ℤ) → IsInt32 s → seconds_duration s ≡ s *ℤ second
unfolding seconds_duration
seconds_exact s h = wrap64_id _ (seconds-IsInt64 s h)

budget_exact : (s : ℤ) → IsInt32 s → timeout_budget s ≡ s *ℤ second +ℤ pos 2000000000
unfolding timeout_budget
budget_exact s h = rw (seconds_exact s h) (wrap64_id _ (budget-IsInt64 s h))

-- For every int32 number of seconds the durations that the controller computes on int64 are exact: the
-- time to live is that many seconds, and the timeout's budget is two seconds more.
pub durations_exact :
    (s : ℤ)
    → IsInt32 s
    → (seconds_duration s ≡ s *ℤ second) × (timeout_budget s ≡ s *ℤ second +ℤ pos 2000000000)
durations_exact s h = (seconds_exact s h, budget_exact s h)

module _ {P : Platform} (task : AgentTask) (w : World P) where
  -- With a limit that an int32 holds, the timeout test passes exactly when the limit is positive, the
  -- task has a start time, and the clock's next reading lies after the start by more than the limit
  -- and two seconds.
  pub check_timeout_iff :
      IsInt32 task.spec.timeout_seconds
      → ((check_timeout task w).0 ≡ ok true) ↔ (
          (pos 0 <ℤ task.spec.timeout_seconds)
          × ((start : Time) × (task.status.start_time ≡ some start)
              × (start +ℤ (task.spec.timeout_seconds *ℤ second +ℤ pos 2000000000)
                  <ℤ P.clock w.readings)))
  unfolding check_timeout ◌>>=◌
  check_timeout_iff fits = (
    λ h. elim (Option-cases task.status.start_time) [
      | inl e ↦ absurd (ground arith)
      | inr (start, e) ↦ (
        ground arith,
        (start, e, rw (← budget_exact task.spec.timeout_seconds fits) (ground arith)),
      )
    ],
    λ (limited, (start, e, late)).
        rw e (
          let late' = (rw (← budget_exact task.spec.timeout_seconds fits) at late) in ground arith),
  )
