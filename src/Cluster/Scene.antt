-- ===== src/Cluster/Scene.antt =====
-- The small cluster, under the steps of reconcilePending that come before the placement.
use agenttask_operator.Base.{◌≡◌, refl, ap, String, List, lookup, arith}
use agenttask_operator.Api.Core.{NamespacedName, ConfigMap, Pod}
use agenttask_operator.Api.Task.{AgentTask, AgentTaskPhase}
use agenttask_operator.Platform.{
  Request, get_config_map, get_network_policy, create_config_map, create_network_policy, get_crd,
}
use agenttask_operator.Platform.Exec.{World}
use agenttask_operator.Platform.Sends.{Sends, Sends-Option, Sends-bind_attempt, sends_rules}
use agenttask_operator.Controller.Backend.{
  select_backend, sandbox_available, check_sandbox_availability, choose_backend, default_image,
  fallback_image, profile_key, resolve_runtime_profile,
}
use agenttask_operator.Controller.Resources.{
  ensure_source_config_map, ensure_code_config_map, ensure_network_policy,
}
use agenttask_operator.Controller.Phases.{set_phase}
use agenttask_operator.Cluster.{Objects, small_cluster, serve}
use agenttask_operator.Cluster.Leaves.{Leaves, around, keeps, stored_lem}
use agenttask_operator.Cluster.Cleanup.{update_status-BesideTasks}

-- What the placement of a task looks at beside the config maps and the policies.
abbrev pub scene : Objects → List AgentTask × List Pod × List String
scene s = (s.tasks, s.pods, s.crds)

abbrev pub Apart : Request → Type 0
Apart = Leaves scene

pub get_config_map-Apart : (k : NamespacedName) → Apart (get_config_map k)
unfolding serve
get_config_map-Apart k s = refl

pub get_network_policy-Apart : (k : NamespacedName) → Apart (get_network_policy k)
unfolding serve
get_network_policy-Apart k s = refl

pub get_crd-Apart : (name : String) → Apart (get_crd name)
unfolding serve
get_crd-Apart name s = ground arith

pub create_config_map-Apart : (c : ConfigMap) → Apart (create_config_map c)
unfolding serve
create_config_map-Apart c s = stored_lem scene _ s _ (λ a. refl)

pub create_network_policy-Apart : (n : _) → Apart (create_network_policy n)
unfolding serve
create_network_policy-Apart n s = stored_lem scene _ s _ (λ a. refl)

ruleset apart = (
  sends_rules, get_config_map-Apart, get_network_policy-Apart, get_crd-Apart,
  create_config_map-Apart, create_network_policy-Apart,
)

-- A write of the phase leaves the pods as they are.
pub set_phase_pods :
    (task : AgentTask) (phase : AgentTaskPhase) (w : World small_cluster)
    → (set_phase {P = small_cluster} task phase w).1.api.pods ≡ w.api.pods
set_phase_pods task phase w =
    ap (λ p. p.0)
      (keeps around (set_phase task phase)
        (unfold set_phase in (search (sends_rules, update_status-BesideTasks))) w)

module _ (task : AgentTask) where
  pub source_lem : Sends {P = small_cluster} Apart (ensure_source_config_map task)
  unfolding ensure_source_config_map
  source_lem = search apart

  pub code_lem : Sends {P = small_cluster} Apart (ensure_code_config_map task)
  unfolding ensure_code_config_map
  code_lem =
      Sends-Option task.spec.code.config_map_ref _ _ (search (sends_rules, source_lem))
        (λ ref. search sends_rules)

  pub policy_lem : Sends {P = small_cluster} Apart (ensure_network_policy task)
  unfolding ensure_network_policy
  policy_lem = search apart

  pub backend_lem : Sends {P = small_cluster} Apart (select_backend task)
  unfolding select_backend sandbox_available check_sandbox_availability choose_backend
  backend_lem = search apart

  fallback_lem :
      (profile backend : String) → Sends {P = small_cluster} Apart (fallback_image profile backend)
  unfolding fallback_image
  fallback_lem profile backend =
      Sends-Option (default_image profile backend) _ _ (search sends_rules)
        (λ image. search sends_rules)

  pub profile_lem :
      (profile backend namespace : String)
      → Sends {P = small_cluster} Apart (resolve_runtime_profile profile backend namespace)
  unfolding resolve_runtime_profile
  profile_lem profile backend namespace =
      Sends-bind_attempt _ _ (search apart)
        (λ (cm : ConfigMap).
          Sends-Option (lookup (profile_key profile backend) cm.contents) _ _
            (fallback_lem profile backend) (λ image. search sends_rules))
        (λ e. fallback_lem profile backend)
