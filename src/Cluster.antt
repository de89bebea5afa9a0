-- ===== src/Cluster.antt =====
-- A small cluster to run the operator on: a platform with objects in lists, one step at a time, and a clock
-- that gains a second at each reading. Deletions, finalizers and updates are as the API server documents
-- them. It serves the tests and examples, and shows that what the theorems assume of a platform can be met.
pub mod Store
pub mod Leaves
pub mod Versions
pub mod Exchange
pub mod Changes
pub mod Events
pub mod System
pub mod Clients
pub mod Soundness
pub mod Heirs
pub mod Race
pub mod Lifecycle
pub mod Refinement
pub mod Termination
pub mod Writes
pub mod Looks
pub mod Progress
pub mod Cleanup
pub mod Serving
pub mod Placement
pub mod Arrival
pub mod Scene
pub mod PodPlacement
pub mod Stations
pub mod Story
pub mod Journey
pub mod Endings
pub mod Deletion
use agenttask_operator.Base.{
  ℕ, ◌*◌, Bool, true, false, ◌&&◌, String, ◌<>◌, Option, none, some, List, [], ◌∷◌, ◌++◌, contains,
  not, ◌==◌, if◌then◌else◌,
}
use agenttask_operator.Base.Int.{pos}
use agenttask_operator.Api.Core.{
  Volume, VolumeSource, config_map, Time, NamespacedName, ObjectMeta, OwnerReference, ConfigMap,
  NetworkPolicy, Pod, key_of,
}
use agenttask_operator.Api.Task.{AgentTask, no_status}
use agenttask_operator.Platform.{
  Error, Result, ok, err, errorf, Sandbox, Request, Answer, GroupVersionKind, Platform, get_task,
  list_tasks, create_task, update_task, update_status, delete_task, get_pod, create_pod, delete_pod,
  get_config_map, create_config_map, get_network_policy, create_network_policy, get_sandbox,
  create_sandbox, get_crd,
}
use agenttask_operator.Platform.Exec.{World}

pub record Objects : Type 0 where
  pub tasks : List AgentTask
  pub pods : List Pod
  pub config_maps : List ConfigMap
  pub network_policies : List NetworkPolicy
  pub sandboxes : List Sandbox
  pub crds : List String
  -- what the server writes when it marks an object for deletion
  pub time : Time

abbrev pub missing : Error
missing = record { not_found = true; text = "not found" }

abbrev pub same_key : NamespacedName → NamespacedName → Bool
same_key a b = a.name == b.name && a.namespace == b.namespace

abbrev sandbox_key : Sandbox → NamespacedName
sandbox_key s = record { name = s.name; namespace = s.namespace }

module _ {A : Type 0} (key : A → NamespacedName) where
  unfoldable pub find : NamespacedName → List A → Result A
  find k [] = err missing
  find k (x ∷ xs) = if same_key (key x) k then ok x else find k xs

  unfoldable pub erase : NamespacedName → List A → List A
  erase k [] = []
  erase k (x ∷ xs) = let rest = erase k xs in if same_key (key x) k then rest else x ∷ rest

  unfoldable pub replace : A → List A → List A
  replace a [] = []
  replace a (x ∷ xs) =
      let rest = replace a xs in if same_key (key x) (key a) then a ∷ rest else x ∷ rest

  -- Creation fails where the name is taken.
  unfoldable pub create : A → List A → Result A
  unfolding find
  create a xs = elim (find (key a) xs) [ ok _ ↦ err (errorf "already exists") | err _ ↦ ok a ]

unfoldable pub in_namespace : String → List AgentTask → List AgentTask
in_namespace ns [] = []
in_namespace ns (t ∷ ts) =
    let rest = in_namespace ns ts in if t.meta.namespace == ns then t ∷ rest else rest

abbrev pub task_key : AgentTask → NamespacedName
task_key t = key_of t.meta

abbrev pub pod_key : Pod → NamespacedName
pod_key p = key_of p.meta

unfoldable pub stored {ℓ} : {A : Type 0} {S : Type ℓ} → Result A → S → (A → S) → Result A × S
stored (ok a) s f = (ok a, f a)
stored (err e) s f = (err e, s)

-- The mark that an object has already stays.
abbrev marked_since : Time → Option Time → Time
marked_since t none = t
marked_since t (some earlier) = earlier

abbrev pub marked : Time → ObjectMeta → ObjectMeta
marked t m = record m { deletion_timestamp = some (marked_since t m.deletion_timestamp) }

abbrev pub is_marked : ObjectMeta → Bool
is_marked m = elim m.deletion_timestamp [ none ↦ false | some _ ↦ true ]

abbrev pub marked_task : Time → AgentTask → AgentTask
marked_task t task = record task { meta = marked t task.meta }

abbrev pub marked_pod : Time → Pod → Pod
marked_pod t pod = record pod { meta = marked t pod.meta }

abbrev pub is_empty : List String → Bool
is_empty [] = true
is_empty _ = false

-- A volume of a config map has the name of one.
abbrev names_config_map : VolumeSource → Bool
names_config_map (config_map name) = not (name == "")
names_config_map _ = true

abbrev pub is_valid : List Volume → Bool
is_valid [] = true
is_valid (v ∷ vs) = names_config_map v.source && is_valid vs

abbrev pub refused : Error
refused = errorf "invalid volume"

-- The object that an update stores: the server keeps the status and the mark.
abbrev pub updated : AgentTask → AgentTask → AgentTask
updated stored t = record t {
  meta = record (t.meta) { deletion_timestamp = stored.meta.deletion_timestamp };
  status = stored.status;
}

-- The object that a creation stores: the server takes no status and no mark from the client.
abbrev pub as_created : AgentTask → AgentTask
as_created t = record t { meta = record (t.meta) { deletion_timestamp = none }; status = no_status }

-- A write of the object keeps the stored status, and a write of the status keeps the rest. A deletion marks
-- a task that has finalizers, and an update that takes the last finalizer from a marked task removes it. A
-- deletion of a pod marks it; the node agent ends it. A pod is refused if a volume of it names no config
-- map.
unfoldable pub serve : (r : Request) → Objects → Result (Answer r) × Objects
unfolding find erase replace create in_namespace stored
serve (get_task k) s = (find task_key k s.tasks, s)
serve (list_tasks ns) s = (ok (in_namespace ns s.tasks), s)
serve (create_task t) s =
    stored (create task_key (as_created t) s.tasks) s (λ a. record s { tasks = a ∷ s.tasks })
serve (update_task t) s = elim (find task_key (task_key t) s.tasks) [
  | ok a ↦ (
    ok (updated a t),
    record s {
      tasks =
          if is_marked a.meta && is_empty t.meta.finalizers
          then erase task_key (task_key t) s.tasks
          else replace task_key (updated a t) s.tasks;
    },
  )
  | err e ↦ (err e, s)
]
serve (update_status t) s = elim (find task_key (task_key t) s.tasks) [
  | ok a ↦ (
    ok (record a { status = t.status }),
    record s { tasks = replace task_key (record a { status = t.status }) s.tasks },
  )
  | err e ↦ (err e, s)
]
serve (delete_task k) s = elim (find task_key k s.tasks) [
  | ok a ↦ (
    ok tt,
    record s {
      tasks =
          if is_empty a.meta.finalizers
          then erase task_key k s.tasks
          else replace task_key (marked_task s.time a) s.tasks;
    },
  )
  | err e ↦ (err e, s)
]
serve (get_pod k) s = (find pod_key k s.pods, s)
serve (create_pod p) s =
    stored (if is_valid p.volumes then create pod_key p s.pods else err refused) s
      (λ a. record s { pods = a ∷ s.pods })
serve (delete_pod k) s = elim (find pod_key k s.pods) [
  | ok a ↦ (ok tt, record s { pods = replace pod_key (marked_pod s.time a) s.pods })
  | err e ↦ (err e, s)
]
serve (get_config_map k) s = (find (λ c. key_of c.meta) k s.config_maps, s)
serve (create_config_map c) s =
    stored (create (λ x. key_of x.meta) c s.config_maps) s
      (λ a. record s { config_maps = a ∷ s.config_maps })
serve (get_network_policy k) s = (find (λ n. key_of n.meta) k s.network_policies, s)
serve (create_network_policy n) s =
    stored (create (λ x. key_of x.meta) n s.network_policies) s
      (λ a. record s { network_policies = a ∷ s.network_policies })
serve (get_sandbox k) s = (find sandbox_key k s.sandboxes, s)
serve (create_sandbox b) s =
    stored (create sandbox_key b s.sandboxes) s (λ a. record s { sandboxes = a ∷ s.sandboxes })
serve (get_crd name) s = if contains s.crds name then (ok tt, s) else (err missing, s)

abbrev owner_of : ObjectMeta → GroupVersionKind → OwnerReference
owner_of m k = record {
  api_version = k.group <> ("/" <> k.version);
  kind = k.kind;
  name = m.name;
  uid = m.uid;
  controller = true;
}

abbrev without : String → List String → List String
without f [] = []
without f (x ∷ xs) = let rest = without f xs in if x == f then rest else x ∷ rest

abbrev no_time : Option Time → Bool
no_time none = true
no_time (some _) = false

abbrev pub small_cluster : Platform
small_cluster = record {
  State = Objects;
  serve = serve;
  clock = λ n. pos (n * 1000000000);
  new_controller_ref = owner_of;
  bad_request = errorf;
  is_zero_time = no_time;
  contains_finalizer = contains;
  add_finalizer = λ l f. if contains l f then l else l ++ f ∷ [];
  remove_finalizer = λ l f. without f l;
}

abbrev pub no_objects : Objects
no_objects = record {
  tasks = [];
  pods = [];
  config_maps = [];
  network_policies = [];
  sandboxes = [];
  crds = [];
  time = pos 0;
}

-- A world on the small cluster, at a given reading of the clock.
abbrev pub world_at : ℕ → Objects → World small_cluster
world_at n objects = record { api = objects; requests = []; readings = n; metrics = [] }
