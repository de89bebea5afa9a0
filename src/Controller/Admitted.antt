-- ===== src/Controller/Admitted.antt =====
-- The webhook's ValidateUpdate on the updates that the controller sends itself.
use agenttask_operator.Base.{◌≡◌, ◌↔◌, sym, ap, All, All-weaken}
use agenttask_operator.Api.Task.{AgentTask, AgentTaskSpec}
use agenttask_operator.Platform
use agenttask_operator.Platform.{Platform, Request, ok}
use agenttask_operator.Platform.Exec.{World}
use agenttask_operator.Platform.Sends.{sent, sent-All}
use agenttask_operator.Webhook.{validate_agent_task, validate_update}
use agenttask_operator.Webhook.Rules.{
  IsAdmissible-spec, validate_agent_task_iff, validate_update_iff,
}
use agenttask_operator.Controller.Reconcile.{reconcile_task}
use agenttask_operator.Controller.Safety.Allowed.{Allowed}
use agenttask_operator.Controller.Safety.Whole.{reconcile_task-Sends}

-- An update of the object is accepted exactly when the task that is updated is.
abbrev pub PassesWebhook : AgentTask → Request → Type 0
PassesWebhook task (Platform.update_task t) =
    (validate_update task t ≡ ok tt) ↔ (validate_agent_task task ≡ ok tt)
PassesWebhook task _ = Unit

module _ (P : Platform) (task : AgentTask) where
  update-Passes :
      (t : AgentTask)
      → t.spec ≡ task.spec
      → (validate_update task t ≡ ok tt) ↔ (validate_agent_task task ≡ ok tt)
  update-Passes t same = (
    λ h.
        (validate_agent_task_iff task).1
          (IsAdmissible-spec (sym same) ((validate_update_iff task t).0 h).2),
    λ h. (validate_update_iff task t).1 (
      ap (λ (s : AgentTaskSpec). s.runtime_profile) same,
      ap (λ (s : AgentTaskSpec). s.code.source) same,
      IsAdmissible-spec same ((validate_agent_task_iff task).0 h),
    ),
  )

  Allowed-Passes : (r : Request) → Allowed P task r → PassesWebhook task r
  Allowed-Passes _ (Allowed.updates_finalizers t h) = update-Passes t h.spec
  Allowed-Passes _ _ = tt

  -- Whatever the cluster answers, an update of the object beside its status that a reconciliation of the
  -- task sends is accepted by the webhook's ValidateUpdate exactly when the static validation accepts the
  -- task as it is.
  pub updates_admitted : (w : World P) → All (PassesWebhook task) (sent (reconcile_task task) w)
  updates_admitted w =
      All-weaken Allowed-Passes _ (sent-All (reconcile_task task) (reconcile_task-Sends P task) w)
