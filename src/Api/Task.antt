-- ===== src/Api/Task.antt =====
-- api/v1alpha1/agenttask_types.go: the AgentTask resource.
use agenttask_operator.Base.{Bool, true, false, String, Option, none, List, []}
use agenttask_operator.Base.Int.{ℤ, pos}
use agenttask_operator.Api.Core.{
  Time, ObjectMeta, ObjectReference, ResourceRequirements, ConfigMapKeySelector, Condition,
}

pub record CodeSource : Type 0 where
  pub source : String
  pub config_map_ref : Option ConfigMapKeySelector

pub record AgentTaskSpec : Type 0 where
  pub runtime_profile : String
  pub code : CodeSource
  pub resources : ResourceRequirements
  pub timeout_seconds : ℤ  -- int32
  pub backend : String
  pub tenant : String
  pub canceled : Bool
  pub ttl_seconds_after_finished : Option ℤ  -- *int32

-- The values that the resource definition's enum admits; `unset` is the empty string.
pub data AgentTaskPhase : Type 0 where
  unset pending scheduled running succeeded failed timeout canceled : AgentTaskPhase

-- The constants of type AgentTaskReason.
pub data AgentTaskReason : Type 0 where
  pod_failed timed_out cancel_requested pod_missing image_pull_failed : AgentTaskReason
  profile_resolution_failed backend_selection_failed validation_failed : AgentTaskReason

-- string(reason)
abbrev pub reason_text : AgentTaskReason → String
reason_text pod_failed = "PodFailed"
reason_text timed_out = "Timeout"
reason_text cancel_requested = "Canceled"
reason_text pod_missing = "PodMissing"
reason_text image_pull_failed = "ImagePullFailed"
reason_text profile_resolution_failed = "ProfileResolutionFailed"
reason_text backend_selection_failed = "BackendSelectionFailed"
reason_text validation_failed = "ValidationFailed"

pub record ExecutionResult : Type 0 where
  pub json : String

pub record AgentTaskStatus : Type 0 where
  pub phase : AgentTaskPhase
  pub pod_ref : ObjectReference
  pub result : Option ExecutionResult
  pub conditions : List Condition
  pub exit_code : ℤ  -- int32
  pub reason : String
  pub message : String
  pub start_time : Option Time
  pub completion_time : Option Time

-- The zero value.
abbrev pub no_status : AgentTaskStatus
no_status = record {
  phase = unset;
  pod_ref = record { kind = ""; name = ""; namespace = "" };
  result = none;
  conditions = [];
  exit_code = pos 0;
  reason = "";
  message = "";
  start_time = none;
  completion_time = none;
}

pub record AgentTask : Type 0 where
  pub meta : ObjectMeta
  pub spec : AgentTaskSpec
  pub status : AgentTaskStatus

-- The phases that the comments of the source call terminal.
abbrev pub is_terminal : AgentTaskPhase → Bool
is_terminal succeeded = true
is_terminal failed = true
is_terminal timeout = true
is_terminal canceled = true
is_terminal _ = false

pub AgentTaskPhase-discrete : Discrete AgentTaskPhase
AgentTaskPhase-discrete = hlevel

-- GroupVersion of groupversion_info.go
abbrev pub api_group : String
api_group = "execution.agenttask.io"

abbrev pub api_version : String
api_version = "v1alpha1"
