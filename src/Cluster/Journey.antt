-- ===== src/Cluster/Journey.antt =====
-- The small cluster, agentctl and the node agent: a submission from the command line to its end.
use agenttask_operator.Base.{
  ap, ◌∙◌, ℕ, ◌≡◌, ◌≢◌, ◌<◌, refl, false, some, String, List, [], ◌∷◌, contains, count,
}
use agenttask_operator.Api.Core.{NamespacedName, ContainerStatus, PodPhase, pod_running}
use agenttask_operator.Api.Task.{AgentTask}
use agenttask_operator.Platform.{ok, err}
use agenttask_operator.Text.{Bytes}
use agenttask_operator.Webhook.{is_active}
use agenttask_operator.Webhook.Rules.{validate_agent_task_iff}
use agenttask_operator.Agentctl.{Tools, Flags}
use agenttask_operator.Agentctl.Commands.{submitted}
use agenttask_operator.Agentctl.Reports.{IsUsable, submitted-IsNew}
use agenttask_operator.Controller.Resources.{owned_key}
use agenttask_operator.Cluster.{as_created, Objects, find, in_namespace, missing, pod_key, task_key}
use agenttask_operator.Cluster.Store.{same_key_iff}
use agenttask_operator.Cluster.Refinement.{life, stored_at}
use agenttask_operator.Cluster.Looks.{verdict}
use agenttask_operator.Cluster.Arrival.{IsNew}
use agenttask_operator.Cluster.Stations.{IsInTime}
use agenttask_operator.Cluster.Story.{story_told}
use agenttask_operator.Cluster.Events.{reconciles, reports, play}
use agenttask_operator.Cluster.System.{review, store, reviews, stores, take_turn, run, idle}
use agenttask_operator.Cluster.Race.{with_new, accepted_lem, review_lem, store_lem}

-- The webhook admits a task that is valid where there is room, and the server stores it under a free name.
submitted_lem :
    (task : AgentTask) (s : Objects)
    → IsNew task
    → count is_active (in_namespace task.meta.namespace s.tasks) < 5
    → stored_at (task_key task) s ≡ err missing
    → store 0 (review task (idle 1 s)) ≡ idle 1 (with_new task s)
submitted_lem task s new room free =
    let accepted = accepted_lem task s ((validate_agent_task_iff task).0 new.accepted) room in
    ap (store 0) (review_lem task (idle 1 s) refl accepted)
    ∙ store_lem task [] (record (idle 1 s) { waiting = task ∷ [] }) refl free

there_lem :
    (task : AgentTask) (s : Objects)
    → stored_at (task_key task) (with_new task s) ≡ ok (as_created task)
unfolding find
there_lem task s = rw ((same_key_iff (task_key task) (task_key task)).1 refl) refl

module _ (T : Tools) (flags : Flags) (path : Bytes) (content name : String) where
  -- The task that `run` submits, under the name that the server gives it.
  abbrev named : AgentTask
  named = record (submitted T flags path content) {
    meta = record (submitted T flags path content).meta { name = name };
  }

  abbrev its_pod : NamespacedName
  its_pod = owned_key named "-pod"

  -- On the small cluster with no definition of sandboxes, take what `run` submits with the profile
  -- python3.10 or python3.11, a limit between one second and an hour and a backend other than sandbox,
  -- where its namespace has fewer than five tasks in phases that are not terminal, no task has the name
  -- that the server gives it and no pod the name of its pod, and its file is not empty. It is validated
  -- and stored, with its file's content as its source. Follow it through three reconciliations, a report
  -- that its pod runs, a reconciliation, a second report and a last reconciliation, where the limit that
  -- runs from the second reconciliation is not over at the third or at a later one. Then the phase that
  -- is stored is succeeded or failed where the second report says so of the pod; succeeded or failed by
  -- the exit code where it says that the pod runs on and the first container with the name task that has
  -- terminated has that code; and running otherwise.
  pub submission_ends :
      (l n m i j : ℕ) (s : Objects) (before after : List ContainerStatus) (phase : PodPhase)
      → IsUsable flags
      → flags.backend ≢ "sandbox"
      → content ≢ ""
      → count is_active (in_namespace flags.namespace s.tasks) < 5
      → stored_at (task_key named) s ≡ err missing
      → find pod_key its_pod s.pods ≡ err missing
      → contains s.crds "sandboxes.execution.agenttask.io" ≡ false
      → IsInTime named n m
      → IsInTime named n i
      → IsInTime named n j
      → let admitted = run (reviews named ∷ stores 0 ∷ []) (idle 1 s) in
        let launched =
          play
            (reconciles (task_key named) l
              ∷ reconciles (task_key named) n
              ∷ reconciles (task_key named) m
              ∷ reports its_pod pod_running before
              ∷ reconciles (task_key named) i
              ∷ [])
            admitted.objects in
        ((task : AgentTask) × (stored_at (task_key named) admitted.objects ≡ ok task)
          × (task.spec.code.source ≡ content))
        × (life (
              stored_at
                (task_key named)
                (play (reports its_pod phase after ∷ reconciles (task_key named) j ∷ []) launched))
            ≡ some (record { phase = verdict phase after; canceled = false }))
  unfolding run take_turn submitted
  submission_ends l n m i j s before after phase usable any_backend some_source room free no_pod
        no_sandboxes in_m in_i in_j =
      let new : IsNew named =
        submitted-IsNew T flags path content name usable any_backend some_source in
      let story =
        story_told named (task_key named) l n m i j (with_new named s) before after phase
          (there_lem named s) new no_pod no_sandboxes in_m in_i in_j in
      rw (submitted_lem named s new room free) ((named, there_lem named s, refl), story.1)
