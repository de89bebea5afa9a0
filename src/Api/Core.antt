-- ===== src/Api/Core.antt =====
-- The Kubernetes objects beside AgentTask, each with the fields that the operator sets or reads.
-- These types are not the repository's: a field that no code of it touches is left out. A quantity,
-- which the code only copies or writes as a constant, is kept as its text; a pointer to a Boolean
-- or a number is an `Option`.
use agenttask_operator.Base.{ℕ, Bool, String, Option, none, List, []}
use agenttask_operator.Base.Int.{ℤ}

-- Nanoseconds from the Unix epoch, and an int64 number of nanoseconds.
abbrev pub Time : Type 0
Time = ℤ

abbrev pub Duration : Type 0
Duration = ℤ

pub record NamespacedName : Type 0 where
  pub name : String
  pub namespace : String

pub record OwnerReference : Type 0 where
  pub api_version : String
  pub kind : String
  pub name : String
  pub uid : String
  pub controller : Bool

pub record ObjectMeta : Type 0 where
  pub name : String
  pub generate_name : String
  pub namespace : String
  pub uid : String
  pub labels : List (String × String)
  pub annotations : List (String × String)
  pub owner_references : List OwnerReference
  pub finalizers : List String
  pub creation_timestamp : Option Time
  pub deletion_timestamp : Option Time

pub record ObjectReference : Type 0 where
  pub kind : String
  pub name : String
  pub namespace : String

pub record ResourceRequirements : Type 0 where
  pub limits : List (String × String)
  pub requests : List (String × String)

pub record ConfigMapKeySelector : Type 0 where
  pub name : String
  pub key : String

pub record Condition : Type 0 where
  pub kind : String
  pub status : String
  pub reason : String
  pub message : String

pub record ConfigMap : Type 0 where
  pub meta : ObjectMeta
  pub contents : List (String × String)

-- Every rule list that the operator writes is empty, so a rule needs no parts.
pub data PolicyType : Type 0 where
  ingress_type egress_type : PolicyType

pub data PolicyRule : Type 0 where
  peers : List (String × String) → PolicyRule

pub record NetworkPolicy : Type 0 where
  pub meta : ObjectMeta
  pub pod_selector : List (String × String)
  pub policy_types : List PolicyType
  pub ingress : List PolicyRule
  pub egress : List PolicyRule

pub data RestartPolicy : Type 0 where
  always on_failure never : RestartPolicy

pub data SeccompProfile : Type 0 where
  runtime_default unconfined : SeccompProfile
  localhost : String → SeccompProfile

pub record PodSecurityContext : Type 0 where
  pub run_as_non_root : Option Bool
  pub run_as_user : Option ℤ
  pub seccomp_profile : Option SeccompProfile

pub record SecurityContext : Type 0 where
  pub allow_privilege_escalation : Option Bool
  pub read_only_root_filesystem : Option Bool
  pub privileged : Option Bool
  pub drop : List String
  pub add : List String

pub record VolumeMount : Type 0 where
  pub name : String
  pub mount_path : String
  pub read_only : Bool

pub data VolumeSource : Type 0 where
  config_map : String → VolumeSource
  empty_dir : Option ℕ → VolumeSource
  host_path : String → VolumeSource

pub record Volume : Type 0 where
  pub name : String
  pub source : VolumeSource

pub data TerminationMessagePolicy : Type 0 where
  read_file fallback_to_logs_on_error : TerminationMessagePolicy

pub record Container : Type 0 where
  pub name : String
  pub image : String
  pub command : List String
  pub env : List (String × String)
  pub termination_message_path : String
  pub termination_message_policy : Option TerminationMessagePolicy
  pub security_context : Option SecurityContext
  pub volume_mounts : List VolumeMount
  pub resources : ResourceRequirements

pub data PodPhase : Type 0 where
  pod_pending pod_running pod_succeeded pod_failed pod_unknown : PodPhase

pub record Waiting : Type 0 where
  pub reason : String
  pub message : String

pub record Terminated : Type 0 where
  pub exit_code : ℤ
  pub reason : String
  pub message : String

pub record ContainerStatus : Type 0 where
  pub name : String
  pub image : String
  pub waiting : Option Waiting
  pub terminated : Option Terminated

pub record Pod : Type 0 where
  pub meta : ObjectMeta
  pub restart_policy : RestartPolicy
  pub security_context : Option PodSecurityContext
  pub containers : List Container
  pub volumes : List Volume
  pub phase : PodPhase
  pub container_statuses : List ContainerStatus

-- What a new object has before the code sets its fields: Go's zero values.
abbrev pub empty_meta : ObjectMeta
empty_meta = record {
  name = "";
  generate_name = "";
  namespace = "";
  uid = "";
  labels = [];
  annotations = [];
  owner_references = [];
  finalizers = [];
  creation_timestamp = none;
  deletion_timestamp = none;
}

abbrev pub no_resources : ResourceRequirements
no_resources = record { limits = []; requests = [] }

abbrev pub key_of : ObjectMeta → NamespacedName
key_of m = record { name = m.name; namespace = m.namespace }

abbrev pub ref_key : ObjectReference → NamespacedName
ref_key r = record { name = r.name; namespace = r.namespace }
