-- ===== src/Tests/Admission.antt =====
-- The validating webhook on the small cluster.
use agenttask_operator.Base.{◌<◌, ◌≡◌, refl, ◌↔◌, inr, List, [], ◌∷◌, arith, count}
use agenttask_operator.Api.Task.{AgentTask, pending, running, failed}
use agenttask_operator.Platform.{ok, list_tasks}
use agenttask_operator.Cluster.{world_at, no_objects, serve}
use agenttask_operator.Webhook.{is_active, count_active, validate_create}
use agenttask_operator.Webhook.Rules.{IsAdmissible, validate_create_iff, count_active-eq-count}
use agenttask_operator.Cluster.Race.{concurrent_creations_pass}
use agenttask_operator.Cluster.System.{reviews, stores, run, idle}
use agenttask_operator.Cluster.{Objects, in_namespace, find}
use agenttask_operator.Tests.Fixtures.{new_task, in_phase}

admissible : IsAdmissible new_task
admissible = record { profile = inr refl; at_least = omega arith; at_most = omega arith }

abbrev three : List AgentTask
three = in_phase running ∷ in_phase failed ∷ in_phase pending ∷ []

count_active-eq-count_example : count_active 0 three ≡ 2
count_active-eq-count_example = count_active-eq-count three

validate_create_iff_example : ((validate_create new_task (world_at 0 no_objects)).0 ≡ ok tt) ↔ (
    IsAdmissible new_task
    × ((tasks : List AgentTask) × ((serve (list_tasks "default") no_objects).0 ≡ ok tasks)
        × (count is_active tasks < 5)))
validate_create_iff_example = validate_create_iff new_task (world_at 0 no_objects)

abbrev four : List AgentTask
four = in_phase running ∷ in_phase running ∷ in_phase running ∷ in_phase running ∷ []

abbrev first_task : AgentTask
first_task = record new_task { meta = record new_task.meta { name = "first" } }

abbrev second_task : AgentTask
second_task = record new_task { meta = record new_task.meta { name = "second" } }

first-IsAdmissible : IsAdmissible first_task
first-IsAdmissible = record { profile = inr refl; at_least = omega arith; at_most = omega arith }

second-IsAdmissible : IsAdmissible second_task
second-IsAdmissible = record { profile = inr refl; at_least = omega arith; at_most = omega arith }

abbrev busy : Objects
busy = record no_objects { tasks = four }

concurrent_creations_pass_example :
    count is_active (
      in_namespace "default"
        (run
          (reviews first_task ∷ reviews second_task ∷ stores 0 ∷ stores 0 ∷ [])
          (idle 2 busy)).objects.tasks)
    ≡ 6
unfolding find in_namespace
concurrent_creations_pass_example =
    concurrent_creations_pass busy first_task second_task first-IsAdmissible second-IsAdmissible
      refl (λ e. cc e) refl refl refl

-- Five running tasks leave no room.
limit_reached : count_active 0 (in_phase running ∷ four) ≡ 5
unfolding count_active
limit_reached = refl
