-- ===== src/Tests/Process.antt =====
-- The operator's process at concrete flags.
use agenttask_operator.Base.{refl, none, some, [], ◌==◌, List, Option, if◌then◌else◌}
use agenttask_operator.Platform.{errorf, Error}
use agenttask_operator.Startup.{default_options, Call, start, Runtime, main}
use agenttask_operator.Startup.Calls.{plan, Runs, main-Runs}

-- No webhooks, and the manager cannot be started.
abbrev start_fails : List Call → Call → Option Error
start_fails _ start = some (errorf "no leader")
start_fails _ _ = none

abbrev bare : Runtime
bare = record {
  died = none;
  failure = start_fails;
  getenv = λ name. if name == "ENABLE_WEBHOOKS" then "false" else "";
}

main-Runs_example : Runs bare [] (plan bare default_options) (main bare default_options)
main-Runs_example = main-Runs bare default_options refl
