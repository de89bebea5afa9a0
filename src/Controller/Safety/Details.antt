-- ===== src/Controller/Safety/Details.antt =====
-- The loops over the container statuses, beside what they are meant to compute.
use agenttask_operator.Base.{◌≡◌, refl, List, [], ◌∷◌, arith}
use agenttask_operator.Api.Core.{ContainerStatus}
use agenttask_operator.Api.Task.{AgentTaskStatus}
use agenttask_operator.Controller.Outcome.{note_pull_error, failure_details, success_details}

-- The loops leave the phase, the times, the reference to the pod and the conditions alone.
pub record SameLife (a b : AgentTaskStatus) : Type 0 where
  pub phase : a.phase ≡ b.phase
  pub start_time : a.start_time ≡ b.start_time
  pub completion_time : a.completion_time ≡ b.completion_time
  pub pod_ref : a.pod_ref ≡ b.pod_ref
  pub conditions : a.conditions ≡ b.conditions

pub failure_details-SameLife :
    (cs : List ContainerStatus) (st : AgentTaskStatus) → SameLife (failure_details cs st) st
unfolding failure_details
failure_details-SameLife [] st = record {
  phase = refl;
  start_time = refl;
  completion_time = refl;
  pod_ref = refl;
  conditions = refl;
}
failure_details-SameLife (c ∷ cs) st =
    ground (arith, failure_details-SameLife cs (note_pull_error c st))

pub success_details-SameLife :
    (cs : List ContainerStatus) (st : AgentTaskStatus) → SameLife (success_details cs st) st
unfolding success_details
success_details-SameLife [] st = record {
  phase = refl;
  start_time = refl;
  completion_time = refl;
  pod_ref = refl;
  conditions = refl;
}
success_details-SameLife (c ∷ cs) st = ground (arith, success_details-SameLife cs st)
