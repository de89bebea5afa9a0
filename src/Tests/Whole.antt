-- ===== src/Tests/Whole.antt =====
-- The whole system on the small cluster, from nothing and from one task.
use agenttask_operator.Base.{some, ◌≡◌, refl, inr, List, [], ◌∷◌, All, arith}
use agenttask_operator.Base.Int.{pos}
use agenttask_operator.Api.Core.{NamespacedName}
use agenttask_operator.Api.Task.{AgentTask}
use agenttask_operator.Platform.{ok}
use agenttask_operator.Platform.Sends.{sent}
use agenttask_operator.Webhook.{validate_agent_task, validate_update}
use agenttask_operator.Webhook.Rules.{IsAdmissible}
use agenttask_operator.Controller.Reconcile.{reconcile_task}
use agenttask_operator.Controller.Admitted.{PassesWebhook, updates_admitted}
use agenttask_operator.Cluster.{
  small_cluster, world_at, no_objects, serve, find, in_namespace, task_key,
}
use agenttask_operator.Cluster.Refinement.{stored_at}
use agenttask_operator.Cluster.Exchange.{IsHeir}
use agenttask_operator.Cluster.Events.{edits, deletes, reconciles, edit, happen}
use agenttask_operator.Cluster.System.{Turn, reviews, stores, acts, take_turn, run, idle}
use agenttask_operator.Cluster.Soundness.{IsSafe, run-IsSafe}
use agenttask_operator.Cluster.Heirs.{run-IsHeir}
use agenttask_operator.Tests.Fixtures.{new_task, held_task, spec, with_task}

abbrev demo : NamespacedName
demo = task_key new_task

-- The limit of the task is changed by a client.
abbrev longer : AgentTask
longer = record held_task { spec = record spec { timeout_seconds = pos 600 } }

abbrev some_day : List Turn
some_day =
    reviews new_task
    ∷ stores 0
    ∷ acts (reconciles demo 1)
    ∷ acts (edits longer)
    ∷ acts (deletes demo)
    ∷ acts (reconciles demo 20)
    ∷ []

nothing-IsSafe : IsSafe (idle 1 no_objects)
unfolding in_namespace
nothing-IsSafe = record {
  sound = record { unique = tt; admissible = tt };
  admissible = tt;
  room = omega arith;
  few = λ namespace. omega arith;
}

run-IsSafe_example : IsSafe (run some_day (idle 1 no_objects))
run-IsSafe_example = run-IsSafe some_day (idle 1 no_objects) nothing-IsSafe

admissible : IsAdmissible held_task
admissible = record { profile = inr refl; at_least = omega arith; at_most = omega arith }

one-IsSafe : IsSafe (idle 1 (with_task held_task))
unfolding in_namespace find
one-IsSafe = record {
  sound = record { unique = (refl, tt); admissible = (admissible, tt) };
  admissible = tt;
  room = omega arith;
  few = λ namespace. ground arith;
}

abbrev edit_only : List Turn
edit_only = acts (edits longer) ∷ []

edited : stored_at demo (run edit_only (idle 1 (with_task held_task))).objects ≡ ok longer
unfolding run take_turn happen edit find serve validate_update validate_agent_task
edited = refl

there : stored_at demo (with_task held_task) ≡ ok held_task
unfolding find
there = refl

run-IsHeir_example : IsHeir held_task longer
run-IsHeir_example =
    run-IsHeir demo edit_only (idle 1 (with_task held_task)) held_task longer one-IsSafe
      ((held_task, there), (longer, unfold run in edited)) there edited

-- The reference to a config map is no part of that: it may change.
abbrev elsewhere : AgentTask
elsewhere = record held_task {
  spec = record spec {
    code = record {
      source = "print('hello')";
      config_map_ref = some (record { name = "other"; key = "code" });
    };
  };
}

swapped :
    stored_at demo (run (acts (edits elsewhere) ∷ []) (idle 1 (with_task held_task))).objects
    ≡ ok elsewhere
unfolding run take_turn happen edit find serve validate_update validate_agent_task
swapped = refl

updates_admitted_example :
    All (PassesWebhook new_task) (sent (reconcile_task new_task) (world_at 0 (with_task new_task)))
updates_admitted_example = updates_admitted small_cluster new_task (world_at 0 (with_task new_task))
