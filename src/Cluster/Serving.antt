-- ===== src/Cluster/Serving.antt =====
-- The small cluster is a server that admits the objects of a task that has code.
use agenttask_operator.Base.{◌≡◌, refl, true, false, String, List, [], ◌∷◌, ◌==◌, arith}
use agenttask_operator.Api.Core.{NamespacedName, key_of}
use agenttask_operator.Api.Task.{AgentTask}
use agenttask_operator.Platform.{Error, err}
use agenttask_operator.Controller.Resources.{
  owned_key, new_pod, new_code_config_map, new_network_policy,
}
use agenttask_operator.Sandbox.{sandbox_key, new_sandbox}
use agenttask_operator.Cluster.{small_cluster, find, create, stored, serve}
use agenttask_operator.Controller.Progress.{IsServing}

find_missing :
    {A : Type 0} (key : A → NamespacedName) (k : NamespacedName) (xs : List A) (e : Error)
    → find key k xs ≡ err e
    → e.not_found ≡ true
unfolding find
find_missing key k [] e h = ground arith
find_missing key k (x ∷ xs) e h = ground (arith, find_missing key k xs e)

pub small_serving :
    (task : AgentTask) (cm : String) → (cm == "") ≡ false → IsServing small_cluster task cm
unfolding serve new_pod new_code_config_map new_network_policy
small_serving task cm named = record {
  pod_lookup = λ image s e h. (
    find_missing (λ x. key_of x.meta) (owned_key task "-pod") s.pods e h,
    (new_pod small_cluster task cm image, rw named (rw (h, create, stored) refl)),
  );
  config_map_lookup = λ s e h. (
    find_missing (λ x. key_of x.meta) (owned_key task "-code") s.config_maps e h,
    (new_code_config_map small_cluster task, rw (h, create, stored) refl),
  );
  policy_lookup = λ s e h. (
    find_missing (λ x. key_of x.meta) (owned_key task "-netpol") s.network_policies e h,
    (new_network_policy small_cluster task, rw (h, create, stored) refl),
  );
  sandbox_lookup = λ image s e h. (
    find_missing (λ x. record { name = x.name; namespace = x.namespace }) (sandbox_key task)
        s.sandboxes e h,
    (new_sandbox small_cluster task image, rw (h, create, stored) refl),
  );
}
