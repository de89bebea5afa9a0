-- ===== src/Startup.antt =====
-- cmd/main.go: the operator's process, from its flags to the manager that runs the reconciler and the
-- webhook. The calls of controller-runtime are listed, the latest first.
pub mod Protocols
pub mod Calls
use agenttask_operator.Base.{
  ℕ, Bool, true, false, String, Option, none, some, List, [], ◌∷◌, ◌++◌, ◌==◌, not, if◌then◌else◌,
}
use agenttask_operator.Platform.{Error}

-- The flags.
pub record Options : Type 0 where
  pub metrics_addr : String
  pub probe_addr : String
  pub enable_leader_election : Bool
  pub secure_metrics : Bool
  pub webhook_cert_path : String
  pub webhook_cert_name : String
  pub webhook_cert_key : String
  pub metrics_cert_path : String
  pub metrics_cert_name : String
  pub metrics_cert_key : String
  pub enable_http2 : Bool

abbrev pub default_options : Options
default_options = record {
  metrics_addr = "0";
  probe_addr = ":8081";
  enable_leader_election = false;
  secure_metrics = true;
  webhook_cert_path = "";
  webhook_cert_name = "tls.crt";
  webhook_cert_key = "tls.key";
  metrics_cert_path = "";
  metrics_cert_name = "tls.crt";
  metrics_cert_key = "tls.key";
  enable_http2 = false;
}

-- What the options of crypto/tls change of its configuration here.
pub record TlsConfig : Type 0 where
  pub next_protos : List String

abbrev pub TlsOption : Type 0
TlsOption = TlsConfig → TlsConfig

unfoldable pub disable_http2 : TlsOption
disable_http2 c = record c { next_protos = "http/1.1" ∷ [] }

-- tlsOpts, to which the option is appended unless HTTP/2 is enabled.
unfoldable pub tls_opts : Options → List TlsOption
tls_opts o = if not o.enable_http2 then [] ++ disable_http2 ∷ [] else []

-- The directory of the certificate and the names in it; a new structure has empty texts.
pub record Certificate : Type 0 where
  pub cert_dir : String
  pub cert_name : String
  pub key_name : String

abbrev pub no_certificate : Certificate
no_certificate = record { cert_dir = ""; cert_name = ""; key_name = "" }

pub record WebhookOptions : Type 0 where
  pub tls : List TlsOption
  pub certificate : Certificate

-- `filtered` tells whether FilterProvider authenticates and authorizes requests.
pub record MetricsOptions : Type 0 where
  pub bind_address : String
  pub secure_serving : Bool
  pub tls : List TlsOption
  pub filtered : Bool
  pub certificate : Certificate

unfoldable pub webhook_server_options : Options → WebhookOptions
unfolding tls_opts
webhook_server_options o = record {
  tls = tls_opts o;
  certificate = if o.webhook_cert_path == "" then no_certificate else record {
    cert_dir = o.webhook_cert_path;
    cert_name = o.webhook_cert_name;
    key_name = o.webhook_cert_key;
  };
}

unfoldable pub metrics_server_options : Options → MetricsOptions
unfolding tls_opts
metrics_server_options o = record {
  bind_address = o.metrics_addr;
  secure_serving = o.secure_metrics;
  tls = tls_opts o;
  filtered = if o.secure_metrics then true else false;
  certificate = if o.metrics_cert_path == "" then no_certificate else record {
    cert_dir = o.metrics_cert_path;
    cert_name = o.metrics_cert_name;
    key_name = o.metrics_cert_key;
  };
}

pub record ManagerOptions : Type 0 where
  pub metrics : MetricsOptions
  pub webhook_server : WebhookOptions
  pub health_probe_bind_address : String
  pub leader_election : Bool
  pub leader_election_id : String

unfoldable pub manager_options : Options → ManagerOptions
unfolding webhook_server_options metrics_server_options
manager_options o = record {
  metrics = metrics_server_options o;
  webhook_server = webhook_server_options o;
  health_probe_bind_address = o.probe_addr;
  leader_election = o.enable_leader_election;
  leader_election_id = "8cafa428.agenttask.io";
}

-- What the builder of a controller is told: the kind it is for, the kinds it owns and its name.
pub record Controller : Type 0 where
  pub watches : String
  pub owns : List String
  pub named : String

-- SetupWithManager
abbrev pub agent_task_controller : Controller
agent_task_controller = record { watches = "AgentTask"; owns = "Pod" ∷ []; named = "agenttask" }

-- What the builder of a webhook is told: the kind it is for and the validator.
pub record Webhook : Type 0 where
  pub validates : String
  pub validator : String

-- SetupAgentTaskWebhookWithManager
abbrev pub agent_task_webhook : Webhook
agent_task_webhook = record { validates = "AgentTask"; validator = "AgentTaskCustomValidator" }

-- The calls that may fail.
pub data Call : Type 0 where
  new_manager : ManagerOptions → Call
  complete_controller : Controller → Call
  complete_webhook : Webhook → Call
  add_healthz_check add_readyz_check : String → Call
  start : Call

-- How the process ends: the calls, its exit status and what it logs as an error.
pub record Ending : Type 0 where
  pub calls : List Call
  pub status : ℕ
  pub logged : Option String

-- The ending where GetConfigOrDie ends the process; the calls' errors, by the calls before them; and the
-- variables of the environment, which are empty where they are not set.
pub record Runtime : Type 0 where
  pub died : Option Ending
  pub failure : List Call → Call → Option Error
  pub getenv : String → String

module _ (R : Runtime) where
  -- `if err := c; err != nil { setupLog.Error(err, message); os.Exit(1) }`
  unfoldable pub or_exit : Call → String → (List Call → Ending) → List Call → Ending
  or_exit c message next calls = elim (R.failure calls c) [
    | some e ↦ record { calls = c ∷ calls; status = 1; logged = some message }
    | none ↦ next (c ∷ calls)
  ]

  -- From the health checks on.
  unfoldable pub serve : List Call → Ending
  serve = or_exit (add_healthz_check "healthz") "unable to set up health check" (
      or_exit (add_readyz_check "readyz") "unable to set up ready check" (
        or_exit start "problem running manager"
          (λ calls. record { calls = calls; status = 0; logged = none })))

  unfoldable pub set_up_webhook : List Call → Ending
  set_up_webhook calls =
      if not (R.getenv "ENABLE_WEBHOOKS" == "false")
      then or_exit (complete_webhook agent_task_webhook) "unable to create webhook" serve calls
      else serve calls

  -- From the manager on.
  unfoldable pub set_up : Options → List Call → Ending
  set_up o = or_exit (new_manager (manager_options o)) "unable to start manager" (
      or_exit (complete_controller agent_task_controller) "unable to create controller"
        set_up_webhook)

  unfoldable pub main : Options → Ending
  main o = elim R.died [ some ending ↦ ending | none ↦ set_up o [] ]
