-- ===== src/Tests/Fixtures.antt =====
-- Tasks and clusters that the tests share.
use agenttask_operator.Base.{false, none, some, [], ◌∷◌}
use agenttask_operator.Base.Int.{pos}
use agenttask_operator.Api.Core.{ObjectReference, empty_meta, no_resources}
use agenttask_operator.Api.Task.{AgentTask, AgentTaskSpec, AgentTaskStatus, AgentTaskPhase, unset}
use agenttask_operator.Cluster.{Objects, no_objects}
use agenttask_operator.Controller.Reconcile.{agent_task_finalizer}

abbrev pub no_pod : ObjectReference
no_pod = record { kind = ""; name = ""; namespace = "" }

abbrev pub spec : AgentTaskSpec
spec = record {
  runtime_profile = "python3.11";
  code = record { source = "print('hello')"; config_map_ref = none };
  resources = no_resources;
  timeout_seconds = pos 60;
  backend = "";
  tenant = "";
  canceled = false;
  ttl_seconds_after_finished = none;
}

abbrev pub fresh_status : AgentTaskStatus
fresh_status = record {
  phase = unset;
  pod_ref = no_pod;
  result = none;
  conditions = [];
  exit_code = pos 0;
  reason = "";
  message = "";
  start_time = none;
  completion_time = none;
}

-- As it is created.
abbrev pub new_task : AgentTask
new_task = record {
  meta = record empty_meta { name = "demo"; namespace = "default"; uid = "u1" };
  spec = spec;
  status = fresh_status;
}

abbrev pub held_task : AgentTask
held_task = record new_task {
  meta = record empty_meta {
    name = "demo";
    namespace = "default";
    uid = "u1";
    finalizers = agent_task_finalizer ∷ [];
  };
}

abbrev pub in_phase : AgentTaskPhase → AgentTask
in_phase phase = record held_task {
  status = record fresh_status { phase = phase; start_time = some (pos 0) };
}

-- With a limit of 60 seconds and a time to live of 30, started at 0 and completed at 10 seconds.
abbrev pub finished : AgentTaskPhase → AgentTask
finished phase = record held_task {
  spec = record spec { ttl_seconds_after_finished = some (pos 30) };
  status = record fresh_status {
    phase = phase;
    start_time = some (pos 0);
    completion_time = some (pos 10000000000);
  };
}

abbrev pub with_task : AgentTask → Objects
with_task task = record no_objects { tasks = task ∷ [] }
