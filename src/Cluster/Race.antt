-- ===== src/Cluster/Race.antt =====
-- The small cluster with two creations in flight.
use agenttask_operator.Base.{
  false, leb, length, ◌≡◌, ◌≢◌, ◌<◌, refl, ◌∙◌, ap, List, [], ◌∷◌, count, arith, eq_iff,
}
use agenttask_operator.Api.Task.{AgentTask}
use agenttask_operator.Platform.{ok, err, create_task}
use agenttask_operator.Webhook.{is_active, validate_create}
use agenttask_operator.Webhook.Rules.{IsAdmissible, validate_create_iff}
use agenttask_operator.Cluster.{
  Objects, world_at, serve, find, create, stored, in_namespace, missing, task_key, as_created,
}
use agenttask_operator.Cluster.Store.{same_key_iff}
use agenttask_operator.Cluster.Refinement.{stored_at}
use agenttask_operator.Cluster.System.{
  System, review, pick, store, reviews, stores, take_turn, run, idle,
}

pub accepted_lem :
    (task : AgentTask) (s : Objects)
    → IsAdmissible task
    → count is_active (in_namespace task.meta.namespace s.tasks) < 5
    → (validate_create task (world_at 0 s)).0 ≡ ok tt
unfolding serve
accepted_lem task s a room = (validate_create_iff task (world_at 0 s)).1 (a, (_, refl, room))

abbrev pub with_new : AgentTask → Objects → Objects
with_new task s = record s { tasks = as_created task ∷ s.tasks }

create_lem :
    (task : AgentTask) (s : Objects)
    → stored_at (task_key task) s ≡ err missing
    → (serve (create_task task) s).1 ≡ with_new task s
unfolding serve create stored
create_lem task s free = rw (free, serve, create, stored) refl

pub review_lem :
    (task : AgentTask) (s : System)
    → leb s.most (length s.waiting) ≡ false
    → (validate_create task (world_at 0 s.objects)).0 ≡ ok tt
    → review task s ≡ record s { waiting = task ∷ s.waiting }
unfolding review
review_lem task s free accepted = rw (free, review) (rw accepted refl)

pub store_lem :
    (task : AgentTask) (rest : List AgentTask) (s : System)
    → s.waiting ≡ task ∷ rest
    → stored_at (task_key task) s.objects ≡ err missing
    → store 0 s ≡ record s { objects = with_new task s.objects; waiting = rest }
unfolding store pick
store_lem task rest s e free = rw (e, store) (rw (create_lem task s.objects free) refl)

-- On the small cluster, where two creations may be in flight and four tasks of a namespace are in phases that
-- are not terminal: two admissible creations in it, with different names and names that are free,
-- are both accepted by ValidateCreate before either is stored, and once both are stored six are.
pub concurrent_creations_pass :
    (s : Objects) (a b : AgentTask)
    → IsAdmissible a
    → IsAdmissible b
    → b.meta.namespace ≡ a.meta.namespace
    → b.meta.name ≢ a.meta.name
    → stored_at (task_key a) s ≡ err missing
    → stored_at (task_key b) s ≡ err missing
    → count is_active (in_namespace a.meta.namespace s.tasks) ≡ 4
    → count is_active (
        in_namespace a.meta.namespace
          (run (reviews a ∷ reviews b ∷ stores 0 ∷ stores 0 ∷ []) (idle 2 s)).objects.tasks)
      ≡ 6
unfolding run take_turn in_namespace find
concurrent_creations_pass s a b valid_a valid_b here different free_a free_b four =
    let ok_a = accepted_lem a s valid_a (omega (arith, four)) in
    let ok_b = accepted_lem b s valid_b (rw here (omega (arith, four))) in
    let still : stored_at (task_key a) (with_new b s) ≡ err missing = ground (
      arith,
      free_a,
      different,
      same_key_iff (task_key b) (task_key a),
      eq_iff b.meta.name a.meta.name,
    ) in
    let r1 = review_lem a (idle 2 s) refl ok_a in
    let r2 = review_lem b (record (idle 2 s) { waiting = a ∷ [] }) refl ok_b in
    let r3 = store_lem b (a ∷ []) (record (idle 2 s) { waiting = b ∷ a ∷ [] }) refl free_b in
    let r4 = store_lem a [] (record (idle 2 (with_new b s)) { waiting = a ∷ [] }) refl still in
    ap (λ (x : System). count is_active (in_namespace a.meta.namespace x.objects.tasks))
      (ap (λ x. store 0 (store 0 (review b x))) r1
        ∙ ap (λ x. store 0 (store 0 x)) r2
        ∙ ap (store 0) r3
        ∙ r4)
    ∙ ground (
      arith,
      four,
      here,
      eq_iff a.meta.namespace a.meta.namespace,
      eq_iff b.meta.namespace a.meta.namespace,
    )
