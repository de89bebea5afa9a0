-- ===== src/Tests/Policy.antt =====
-- The network policy of a pending task on the small cluster, and the permissions that its handling needs.
use agenttask_operator.Base.{All, ◌≡◌, refl, true, List, ◌∷◌, eq_iff, inl, inr}
use agenttask_operator.Platform.Sends.{sent}
use agenttask_operator.Webhook.{validate_create}
use agenttask_operator.Controller.Reconcile.{reconcile}
use agenttask_operator.Controller.Permissions.{IsPermitted, requests-IsPermitted}
use agenttask_operator.Api.Core.{NamespacedName, NetworkPolicy, key_of}
use agenttask_operator.Api.Task.{pending}
use agenttask_operator.Platform.{Result-cases, ok}
use agenttask_operator.Platform.Exec.{◌>>=◌}
use agenttask_operator.Cluster.{Objects, small_cluster, world_at, find, create, stored, serve}
use agenttask_operator.Controller.Phases.{reconcile_pending}
use agenttask_operator.Controller.Safety.PolicyFirst.{
  PolicyView, IsPrepared, starts_workload, workload_after_policy,
}
use agenttask_operator.Tests.Fixtures.{in_phase, with_task}

abbrev policy_key : NetworkPolicy → NamespacedName
policy_key n = key_of n.meta

-- A policy with the key is stored.
abbrev HasStored : NamespacedName → Objects → Type 0
HasStored k s = (n : NetworkPolicy) × (find policy_key k s.network_policies ≡ ok n)

find_first_lem :
    (n : NetworkPolicy) (ns : List NetworkPolicy) → find policy_key (policy_key n) (n ∷ ns) ≡ ok n
unfolding find
find_first_lem n ns =
    rw ((eq_iff n.meta.name n.meta.name).1 refl)
      (rw ((eq_iff n.meta.namespace n.meta.namespace).1 refl) refl)

policies_kept : PolicyView small_cluster
unfolding serve
policies_kept = record {
  HasPolicy = HasStored;
  has_read = λ k s n e. (n, e);
  has_created = λ n s kept e.
      elim (Result-cases (find policy_key (policy_key n) s.network_policies)) [
        | inl (found, f) ↦ absurd (cc (rw (f, create, stored) at e))
        | inr (x, f) ↦ rw (f, create, stored) (n, find_first_lem n s.network_policies)
      ];
}

started :
    starts_workload
      (reconcile_pending (in_phase pending) (world_at 5 (with_task (in_phase pending)))).1.requests
    ≡ true
unfolding reconcile_pending ◌>>=◌ serve
started = refl

workload_after_policy_example :
    IsPrepared policies_kept (in_phase pending) (world_at 5 (with_task (in_phase pending)))
workload_after_policy_example =
    workload_after_policy (in_phase pending) policies_kept
      (world_at 5 (with_task (in_phase pending))) refl started

requests-IsPermitted_example :
    All IsPermitted (
      sent (reconcile (key_of (in_phase pending).meta)) (world_at 5 (with_task (in_phase pending))))
    × All IsPermitted
        (sent (validate_create (in_phase pending)) (world_at 5 (with_task (in_phase pending))))
requests-IsPermitted_example =
    requests-IsPermitted small_cluster (key_of (in_phase pending).meta) (in_phase pending)
      (world_at 5 (with_task (in_phase pending)))
