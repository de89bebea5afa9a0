-- ===== src/Controller/Permissions.antt =====
-- internal/controller/agenttask_controller.go: the +kubebuilder:rbac markers, from which the role of the
-- operator's service account is generated.
use agenttask_operator.Base.{
  ◌≡◌, refl, Bool, true, false, ◌&&◌, ◌||◌, ◌==◌, String, List, [], ◌∷◌, All, contains,
}
use agenttask_operator.Api.Core.{NamespacedName}
use agenttask_operator.Api.Task.{AgentTask}
use agenttask_operator.Platform
use agenttask_operator.Platform.{Platform, Request, Result, ok, err}
use agenttask_operator.Platform.Exec.{World}
use agenttask_operator.Platform.Sends.{
  Sends, Sends-weaken, sends_rules, sent, sent-All, Sends-bind_attempt,
}
use agenttask_operator.Webhook.{lift, validate_create}
use agenttask_operator.Controller.Reconcile.{reconcile}
use agenttask_operator.Controller.Safety.Allowed.{Allowed}
use agenttask_operator.Controller.Safety.Whole.{reconcile_task-Sends}

pub record PolicyRule : Type 0 where
  pub group : String
  pub resource : String
  pub verbs : List String

abbrev every_verb : List String
every_verb = "get" ∷ "list" ∷ "watch" ∷ "create" ∷ "update" ∷ "patch" ∷ "delete" ∷ []

-- The markers, in their order. `core` is their name for the group of pods and configuration maps.
abbrev pub rbac_rules : List PolicyRule
rbac_rules =
    record { group = "execution.agenttask.io"; resource = "agenttasks"; verbs = every_verb }
    ∷ record {
      group = "execution.agenttask.io";
      resource = "agenttasks/status";
      verbs = "get" ∷ "update" ∷ "patch" ∷ [];
    }
    ∷ record {
      group = "execution.agenttask.io";
      resource = "agenttasks/finalizers";
      verbs = "update" ∷ [];
    }
    ∷ record { group = "execution.agenttask.io"; resource = "sandboxes"; verbs = every_verb }
    ∷ record { group = "core"; resource = "pods"; verbs = every_verb }
    ∷ record { group = "core"; resource = "configmaps"; verbs = every_verb }
    ∷ record { group = "networking.k8s.io"; resource = "networkpolicies"; verbs = every_verb }
    ∷ record {
      group = "apiextensions.k8s.io";
      resource = "customresourcedefinitions";
      verbs = "get" ∷ "list" ∷ "watch" ∷ [];
    }
    ∷ []

-- What the API server's authorization asks for.
pub record Access : Type 0 where
  pub group : String
  pub resource : String
  pub verbs : List String

abbrev read : String → String → Access
read group resource = record {
  group = group;
  resource = resource;
  verbs = "get" ∷ "list" ∷ "watch" ∷ [];
}

abbrev write : String → String → String → Access
write group resource verb = record { group = group; resource = resource; verbs = verb ∷ [] }

-- What a call of the manager's client needs. A read goes through its cache, which lists and watches the
-- resource.
abbrev pub access_of : Request → Access
access_of (Platform.get_task k) = read "execution.agenttask.io" "agenttasks"
access_of (Platform.list_tasks ns) = read "execution.agenttask.io" "agenttasks"
access_of (Platform.create_task t) = write "execution.agenttask.io" "agenttasks" "create"
access_of (Platform.update_task t) = write "execution.agenttask.io" "agenttasks" "update"
access_of (Platform.update_status t) = write "execution.agenttask.io" "agenttasks/status" "update"
access_of (Platform.delete_task k) = write "execution.agenttask.io" "agenttasks" "delete"
access_of (Platform.get_pod k) = read "core" "pods"
access_of (Platform.create_pod p) = write "core" "pods" "create"
access_of (Platform.delete_pod k) = write "core" "pods" "delete"
access_of (Platform.get_config_map k) = read "core" "configmaps"
access_of (Platform.create_config_map c) = write "core" "configmaps" "create"
access_of (Platform.get_network_policy k) = read "networking.k8s.io" "networkpolicies"
access_of (Platform.create_network_policy n) = write "networking.k8s.io" "networkpolicies" "create"
access_of (Platform.get_sandbox k) = read "execution.agenttask.io" "sandboxes"
access_of (Platform.create_sandbox b) = write "execution.agenttask.io" "sandboxes" "create"
access_of (Platform.get_crd name) = read "apiextensions.k8s.io" "customresourcedefinitions"

all_in : List String → List String → Bool
all_in [] l = true
all_in (x ∷ xs) l = contains l x && all_in xs l

-- Some rule has the group, the resource and every verb.
unfoldable pub is_granted : List PolicyRule → Access → Bool
unfolding all_in
is_granted [] a = false
is_granted (rule ∷ rules) a =
    (rule.group == a.group && (rule.resource == a.resource && all_in a.verbs rule.verbs))
    || is_granted rules a

abbrev pub IsPermitted : Request → Type 0
IsPermitted r = is_granted rbac_rules (access_of r) ≡ true

module _ (P : Platform) where
  Allowed-IsPermitted : (task : AgentTask) (r : Request) → Allowed P task r → IsPermitted r
  unfolding is_granted
  Allowed-IsPermitted task _ (Allowed.reads_pod k) = refl
  Allowed-IsPermitted task _ (Allowed.reads_config_map k) = refl
  Allowed-IsPermitted task _ (Allowed.reads_network_policy k) = refl
  Allowed-IsPermitted task _ (Allowed.reads_sandbox k) = refl
  Allowed-IsPermitted task _ (Allowed.reads_crd name) = refl
  Allowed-IsPermitted task _ Allowed.creates_config_map = refl
  Allowed-IsPermitted task _ Allowed.creates_network_policy = refl
  Allowed-IsPermitted task _ (Allowed.creates_pod cm_name image) = refl
  Allowed-IsPermitted task _ (Allowed.creates_sandbox image) = refl
  Allowed-IsPermitted task _ (Allowed.deletes_pod k) = refl
  Allowed-IsPermitted task _ (Allowed.writes_status t h) = refl
  Allowed-IsPermitted task _ (Allowed.updates_finalizers t h) = refl
  Allowed-IsPermitted task _ (Allowed.deletes_task h) = refl

  get_task-IsPermitted : (k : NamespacedName) → IsPermitted (Platform.get_task k)
  unfolding is_granted
  get_task-IsPermitted k = refl

  list_tasks-IsPermitted : (ns : String) → IsPermitted (Platform.list_tasks ns)
  unfolding is_granted
  list_tasks-IsPermitted ns = refl

  reconcile-Sends : (k : NamespacedName) → Sends {P = P} IsPermitted (reconcile k)
  unfolding reconcile
  reconcile-Sends k =
      Sends-bind_attempt _ _ (search (sends_rules, get_task-IsPermitted))
        (λ task. Sends-weaken _ (Allowed-IsPermitted task) (reconcile_task-Sends P task))
        (λ e. search sends_rules)

  lift-Sends : (r : Result (Unit {0})) → Sends {P = P} IsPermitted (lift r)
  unfolding lift
  lift-Sends (ok u) = search sends_rules
  lift-Sends (err e) = search sends_rules

  validate_create-Sends : (task : AgentTask) → Sends {P = P} IsPermitted (validate_create task)
  unfolding validate_create
  validate_create-Sends task = search (sends_rules, lift-Sends, list_tasks-IsPermitted)

  -- Whatever the cluster answers, the markers grant the verb of every request that a reconciliation of any
  -- key or the webhook's validation of any creation sends, on its resource, and for each resource that they
  -- read the verbs get, list and watch that the cache of the manager's client needs.
  pub requests-IsPermitted :
      (k : NamespacedName) (task : AgentTask) (w : World P)
      → All IsPermitted (sent (reconcile k) w) × All IsPermitted (sent (validate_create task) w)
  requests-IsPermitted k task w = (
    sent-All (reconcile k) (reconcile-Sends k) w,
    sent-All (validate_create task) (validate_create-Sends task) w,
  )
