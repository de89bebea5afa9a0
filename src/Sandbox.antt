-- ===== src/Sandbox.antt =====
-- internal/platform/sandbox/manager.go
use agenttask_operator.Base.{String, ◌<>◌, [], ◌∷◌, if◌then◌else◌}
use agenttask_operator.Api.Core.{NamespacedName, ObjectReference}
use agenttask_operator.Api.Task.{AgentTask, api_group, api_version}
use agenttask_operator.Platform.{
  ok, err, errorf_wrap, GroupVersionKind, Platform, Sandbox, get_sandbox, create_sandbox,
}
use agenttask_operator.Platform.Exec.{Exec, pure, raise, attempt, send, ◌>>=◌}

abbrev pub sandbox_kind : String
sandbox_kind = "Sandbox"

-- executionv1alpha1.GroupVersion.WithKind("AgentTask")
abbrev pub agent_task_kind : GroupVersionKind
agent_task_kind = record { group = api_group; version = api_version; kind = "AgentTask" }

abbrev pub sandbox_key : AgentTask → NamespacedName
sandbox_key task = record { name = task.meta.name <> "-sandbox"; namespace = task.meta.namespace }

abbrev sandbox_ref : Sandbox → ObjectReference
sandbox_ref s = record { kind = sandbox_kind; name = s.name; namespace = s.namespace }

abbrev pub new_sandbox : Platform → AgentTask → String → Sandbox
new_sandbox P task image = record {
  name = task.meta.name <> "-sandbox";
  namespace = task.meta.namespace;
  image = image;
  command = "python" ∷ "/workspace/entrypoint.py" ∷ [];
  owner_references = P.new_controller_ref task.meta agent_task_kind ∷ [];
}

module _ {P : Platform} where
  unfoldable pub create : AgentTask → String → Exec P ObjectReference
  create task image = do
    created ← attempt (send (create_sandbox (new_sandbox P task image)))
    elim created [
      | ok s ↦ pure (sandbox_ref s)
      | err e ↦ raise (errorf_wrap "failed to create sandbox: " e)
    ]

  -- The config map's name is taken and not used, as in the source.
  unfoldable pub ensure_sandbox : AgentTask → String → String → Exec P ObjectReference
  unfolding create
  ensure_sandbox task cm_name image = do
    found ← attempt (send (get_sandbox (sandbox_key task)))
    elim found [
      | ok s ↦ pure (sandbox_ref s)
      | err e ↦ if e.not_found then create task image else raise e
    ]
