-- ===== src/Tests/Cli.antt =====
-- The commands of agentctl at concrete arguments, on the small cluster.
use agenttask_operator.Base.{◌≡◌, ◌↔◌, refl, none, some, false, inr, [], ◌∷◌, arith, All}
use agenttask_operator.Api.Task.{AgentTask, pending, scheduled, running, succeeded, failed}
use agenttask_operator.Api.Core.{NamespacedName, pod_running, pod_succeeded, pod_failed}
use agenttask_operator.Platform.{ok, errorf, get_task, err}
use agenttask_operator.Platform.Exec.{World}
use agenttask_operator.Platform.Sends.{sent}
use agenttask_operator.Cluster.{
  small_cluster, world_at, serve, find, Objects, pod_key, missing, no_objects, in_namespace,
}
use agenttask_operator.Text.{codes}
use agenttask_operator.Agentctl.{Tools, default_flags, succeeds}
use agenttask_operator.Agentctl.Names.{task_name}
use agenttask_operator.Agentctl.Commands.{run, key, submitted, agentctl, logs_command}
use agenttask_operator.Agentctl.Requests.{Asks, commands_ask_only}
use agenttask_operator.Agentctl.Stems.{task_name-path}
use agenttask_operator.Agentctl.Reports.{IsUsable, IsRead, submitted-IsNew, logs_iff}
use agenttask_operator.Cluster.Arrival.{arrival_placed}
use agenttask_operator.Cluster.Events.{play, reconciles, reports}
use agenttask_operator.Cluster.Stations.{IsInTime}
use agenttask_operator.Cluster.System.{reviews, stores, run as run_turns, idle}
use agenttask_operator.Cluster.Journey.{submission_ends}
use agenttask_operator.Cluster.Story.{story_told}
use agenttask_operator.Controller.Resources.{owned_key}
use agenttask_operator.Cluster.Refinement.{life, stored_at}
use agenttask_operator.Cluster.Termination.{run_all}
use agenttask_operator.Controller.Cleanup.{timeout_budget, seconds_duration}
use agenttask_operator.Base.Int.{wrap64, ◌+ℤ◌, ◌*ℤ◌, ltb_ℤ}
use agenttask_operator.Tests.Fixtures.{in_phase, with_task}

-- Every file reads as one line of code, and the log of every pod is one line.
abbrev tools : Tools
tools = record {
  read_file = λ path. ok "print(1)";
  get_config = ok tt;
  new_client = ok tt;
  new_clientset = ok tt;
  yaml = λ task. ok task.meta.name;
  human_duration = λ d. "1s";
  rfc3339 = λ t. "now";
  show_map = λ m. "map[]";
  show_int = λ n. "0";
  pod_logs = λ ns pod container. ok ("hello", none);
  argument_error = λ n. errorf "accepts 1 arg(s)";
  text = λ s. "my-job";
  unicode_lower = λ s. s;
}

-- `jobs/My_job.v2.py`
task_name-path_example : task_name tools (codes "jobs/My_job.v2.py") ≡ codes "my-job.v2"
task_name-path_example =
    task_name-path tools (codes "jobs") (codes "My_job.v2") (codes "py") (ground arith)
      (ground arith) (ground arith) (ground arith)

abbrev now : World small_cluster
now = world_at 5 (with_task (in_phase pending))

commands_ask_only_example :
    All
      (Asks tools default_flags run (codes "a.py" ∷ []))
      (sent (agentctl tools default_flags run (codes "a.py" ∷ [])) now)
commands_ask_only_example = commands_ask_only tools default_flags run (codes "a.py" ∷ []) now

logs_iff_example :
    ((logs_command tools default_flags "demo" now).0 ≡ ok (succeeds ("hello" ∷ []))) ↔ (
      (task : AgentTask) × ((serve (get_task (key default_flags "demo")) now.api).0 ≡ ok task)
      × IsRead tools task "hello")
logs_iff_example = logs_iff tools default_flags "demo" "hello" now

-- What the server stores of a submission with the default flags.
abbrev arrived : AgentTask
arrived = record (submitted tools default_flags (codes "a.py") "print(1)") {
  meta = record (submitted tools default_flags (codes "a.py") "print(1)").meta { name = "a-1" };
}

abbrev first_key : NamespacedName
first_key = record { name = "a-1"; namespace = "default" }

usable : IsUsable default_flags
usable = record { profile = inr refl; at_least = omega arith; at_most = omega arith }

arrived_stored : stored_at first_key (with_task arrived) ≡ ok arrived
unfolding find submitted
arrived_stored = refl

arrived_early :
    ltb_ℤ
      (small_cluster.clock 2 +ℤ timeout_budget arrived.spec.timeout_seconds)
      (small_cluster.clock 5)
    ≡ false
unfolding submitted timeout_budget seconds_duration wrap64 ◌+ℤ◌ ◌*ℤ◌
arrived_early = refl

arrival_placed_example :
    life (
      stored_at first_key
        (run_all ((first_key, 1) ∷ (first_key, 2) ∷ (first_key, 5) ∷ []) (with_task arrived)))
    ≡ some (record { phase = scheduled; canceled = false })
arrival_placed_example =
    arrival_placed arrived first_key 1 2 5 (with_task arrived) arrived_stored
      (submitted-IsNew tools default_flags (codes "a.py") "print(1)" "a-1" usable (λ e. cc e)
        (λ e. cc e))
      arrived_early

no_pod_yet : find pod_key (owned_key arrived "-pod") (with_task arrived).pods ≡ err missing
unfolding find
no_pod_yet = refl

seventh-IsInTime : IsInTime arrived 2 7
unfolding submitted timeout_budget seconds_duration wrap64 ◌+ℤ◌ ◌*ℤ◌
seventh-IsInTime = refl

twentieth-IsInTime : IsInTime arrived 2 20
unfolding submitted timeout_budget seconds_duration wrap64 ◌+ℤ◌ ◌*ℤ◌
twentieth-IsInTime = refl

abbrev launched : Objects
launched =
    play
      (reconciles first_key 1
        ∷ reconciles first_key 2
        ∷ reconciles first_key 5
        ∷ reports (owned_key arrived "-pod") pod_running []
        ∷ reconciles first_key 7
        ∷ [])
      (with_task arrived)

-- The submission is followed until its pod has succeeded.
story_told_example :
    (life (stored_at first_key launched) ≡ some (record { phase = running; canceled = false }))
    × (life (
          stored_at first_key (
            play
              (reports (owned_key arrived "-pod") pod_succeeded [] ∷ reconciles first_key 20 ∷ [])
              launched))
        ≡ some (record { phase = succeeded; canceled = false }))
story_told_example =
    story_told arrived first_key 1 2 5 7 20 (with_task arrived) [] [] pod_succeeded arrived_stored
      (submitted-IsNew tools default_flags (codes "a.py") "print(1)" "a-1" usable (λ e. cc e)
        (λ e. cc e))
      no_pod_yet refl arrived_early seventh-IsInTime twentieth-IsInTime

-- From the command line on an empty cluster until a pod that has failed.
abbrev admitted : Objects
admitted = (run_turns (reviews arrived ∷ stores 0 ∷ []) (idle 1 no_objects)).objects

submission_ends_example :
    ((task : AgentTask) × (stored_at first_key admitted ≡ ok task)
      × (task.spec.code.source ≡ "print(1)"))
    × (life (
          stored_at first_key (
            play (reports (owned_key arrived "-pod") pod_failed [] ∷ reconciles first_key 20 ∷ []) (
              play
                (reconciles first_key 1
                  ∷ reconciles first_key 2
                  ∷ reconciles first_key 5
                  ∷ reports (owned_key arrived "-pod") pod_running []
                  ∷ reconciles first_key 7
                  ∷ [])
                admitted)))
        ≡ some (record { phase = failed; canceled = false }))
unfolding submitted find in_namespace
submission_ends_example =
    submission_ends tools default_flags (codes "a.py") "print(1)" "a-1" 1 2 5 7 20 no_objects [] []
      pod_failed usable (λ e. cc e) (λ e. cc e) (omega arith) refl refl refl arrived_early
      seventh-IsInTime twentieth-IsInTime
