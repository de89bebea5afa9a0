-- ===== src/Agentctl.antt =====
-- cmd/agentctl: the command line tool. What the commands print is a list of lines, as they are handed to
-- standard output or to the tabwriter; writing them is taken to succeed.
pub mod Names
pub mod Commands
pub mod Requests
pub mod Reports
pub mod Stems
use agenttask_operator.Base.{ℕ, Bool, true, false, String, Option, none, some, List, [], ◌∷◌}
use agenttask_operator.Base.Int.{ℤ, pos}
use agenttask_operator.Api.Core.{Time, Duration}
use agenttask_operator.Api.Task.{
  AgentTask, AgentTaskPhase, unset, pending, scheduled, running, succeeded, failed, timeout,
  canceled,
}
use agenttask_operator.Platform.{Error, Result}
use agenttask_operator.Text.{Bytes}

-- The packages that the commands call: the file system, the configuration and the clients, the YAML
-- printer, the formats of values, the log streams of pods, and cobra's test of the arguments. A stream is
-- what is copied of it and the error that ends it.
pub record Tools : Type 0 where
  pub read_file : Bytes → Result String
  pub get_config : Result (Unit {0})
  pub new_client : Result (Unit {0})
  pub new_clientset : Result (Unit {0})
  pub yaml : AgentTask → Result String
  pub human_duration : Duration → String
  pub rfc3339 : Time → String
  pub show_map : List (String × String) → String
  pub show_int : ℤ → String
  pub pod_logs : String → String → String → Result (String × Option Error)
  pub argument_error : ℕ → Error
  -- The text of some bytes, and strings.ToLower where a byte is not ASCII.
  pub text : Bytes → String
  pub unicode_lower : Bytes → Bytes

-- The flags, with their defaults below.
pub record Flags : Type 0 where
  pub namespace : String
  pub profile : String
  pub timeout : ℤ
  pub tenant : String
  pub backend : String

abbrev pub default_flags : Flags
default_flags = record {
  namespace = "default";
  profile = "python3.11";
  timeout = pos 60;
  tenant = "";
  backend = "";
}

-- What a command printed, and the error that it returned.
pub record Report : Type 0 where
  pub lines : List String
  pub error : Option Error

abbrev pub succeeds : List String → Report
succeeds lines = record { lines = lines; error = none }

abbrev pub fails : List String → Error → Report
fails lines e = record { lines = lines; error = some e }

-- string(task.Status.Phase)
abbrev pub phase_text : AgentTaskPhase → String
phase_text unset = ""
phase_text pending = "Pending"
phase_text scheduled = "Scheduled"
phase_text running = "Running"
phase_text succeeded = "Succeeded"
phase_text failed = "Failed"
phase_text timeout = "Timeout"
phase_text canceled = "Canceled"
