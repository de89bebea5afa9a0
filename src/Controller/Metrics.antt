-- ===== src/Controller/Metrics.antt =====
-- internal/controller/agenttask_controller.go: tasksTotal and taskDuration, as they are registered. The
-- buckets of the histogram are the default ones of the package.
use agenttask_operator.Base.{◌≡◌, ◌≢◌, refl, String, List, [], ◌∷◌, length}
use agenttask_operator.Platform.{Metric, inc, observe}

pub record Collector : Type 0 where
  pub name : String
  pub help : String
  pub labels : List String

abbrev pub tasks_total : Collector
tasks_total = record {
  name = "agenttask_total_tasks";
  help = "Total number of AgentTasks processed";
  labels = "phase" ∷ "reason" ∷ [];
}

abbrev pub task_duration : Collector
task_duration = record {
  name = "agenttask_duration_seconds";
  help = "Time taken for AgentTask to reach terminal state";
  labels = "phase" ∷ [];
}

-- The collector of a sample, and the values that WithLabelValues is given for it.
abbrev collector_of : Metric → Collector
collector_of (inc phase reason) = tasks_total
collector_of (observe phase d) = task_duration

abbrev label_values : Metric → List String
label_values (inc phase reason) = phase ∷ reason ∷ []
label_values (observe phase d) = phase ∷ []

-- WithLabelValues does not panic: each sample has a value for each label of its collector.
label_values-length : (m : Metric) → length (label_values m) ≡ length (collector_of m).labels
label_values-length (inc phase reason) = refl
label_values-length (observe phase d) = refl

-- MustRegister does not panic: the collectors have different names.
names_differ : tasks_total.name ≢ task_duration.name
names_differ e = cc e
