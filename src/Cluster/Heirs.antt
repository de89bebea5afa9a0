-- ===== src/Cluster/Heirs.antt =====
-- The whole system on the small cluster: what a task keeps for as long as it is stored.
use agenttask_operator.Base.{
  ℕ, ◌≡◌, refl, ◌∙◌, inl, inr, Bool-cases, Option-cases, List, [], ◌∷◌, leb, length,
}
use agenttask_operator.Api.Core.{NamespacedName}
use agenttask_operator.Api.Task.{AgentTask}
use agenttask_operator.Platform.{Result-cases, ok}
use agenttask_operator.Webhook.{validate_create}
use agenttask_operator.Cluster.{world_at, serve, find, create, stored, same_key, task_key}
use agenttask_operator.Cluster.Store.{same_key_iff}
use agenttask_operator.Cluster.Refinement.{stored_at}
use agenttask_operator.Cluster.Exchange.{IsHeir, IsHeir-refl}
use agenttask_operator.Cluster.Changes.{Change-IsHeir}
use agenttask_operator.Cluster.System.{
  System, review, pick, store, Turn, reviews, stores, acts, take_turn, run,
}
use agenttask_operator.Cluster.Soundness.{IsSafe, happen-Change, turn-IsSafe}

same-IsHeir :
    (k : NamespacedName) (s : System) (old new : AgentTask)
    → stored_at k s.objects ≡ ok old
    → stored_at k s.objects ≡ ok new
    → IsHeir old new
same-IsHeir k s old new e f = let same : old ≡ new = cc (e, f) in rw same (IsHeir-refl new)

review_objects : (task : AgentTask) (s : System) → (review task s).objects ≡ s.objects
unfolding review
review_objects task s = elim (Bool-cases (leb s.most (length s.waiting))) [
  | inl full ↦ rw (full, review) refl
  | inr free ↦ elim (Result-cases (validate_create task (world_at 0 s.objects)).0) [
    | inl (u, e) ↦ rw (free, review) (rw e refl)
    | inr (x, e) ↦ rw (free, review) (rw e refl)
  ]
]

-- What is stored under a key stays when a creation is stored.
store_kept :
    (n : ℕ) (k : NamespacedName) (s : System) (old : AgentTask)
    → stored_at k s.objects ≡ ok old
    → stored_at k (store n s).objects ≡ ok old
unfolding store serve create stored find
store_kept n k s old e = elim (Option-cases (pick n s.waiting)) [
  | inl none' ↦ rw (none', store) e
  | inr ((task, rest), p) ↦ elim (Result-cases (find task_key (task_key task) s.objects.tasks)) [
    | inl (a, f) ↦ rw (p, store) (rw (f, create, stored) e)
    | inr (x, f) ↦ elim (Bool-cases (same_key (task_key task) k)) [
      | inl own ↦ absurd (cc ((same_key_iff (task_key task) k).0 own, f, e))
      | inr other ↦ rw (p, store) (rw (f, create, stored) (rw other e))
    ]
  ]
]

turn-IsHeir :
    (turn : Turn) (k : NamespacedName) (s : System) (old new : AgentTask)
    → IsSafe s
    → stored_at k s.objects ≡ ok old
    → stored_at k (take_turn turn s).objects ≡ ok new
    → IsHeir old new
unfolding take_turn
turn-IsHeir (reviews task) k s old new h e f =
    same-IsHeir k s old new e (rw (review_objects task s) at f)
turn-IsHeir (stores n) k s old new h e f =
    let same : old ≡ new = cc (store_kept n k s old e, f) in rw same (IsHeir-refl new)
turn-IsHeir (acts event) k s old new h e f =
    Change-IsHeir (happen-Change event s.objects h.sound.unique) k old new e f

-- There is a task under the key before and after each of the turns.
abbrev pub Stays : NamespacedName → List Turn → System → Type 0
Stays k [] s = (task : AgentTask) × (stored_at k s.objects ≡ ok task)
Stays k (turn ∷ later) s =
    ((task : AgentTask) × (stored_at k s.objects ≡ ok task)) × Stays k later (take_turn turn s)

now_there :
    (k : NamespacedName) (turns : List Turn) (s : System)
    → Stays k turns s
    → (task : AgentTask) × (stored_at k s.objects ≡ ok task)
now_there k [] s h = h
now_there k (turn ∷ later) s h = h.0

-- From a safe state of the small cluster on, for as long as there is a task under a key, its profile and its
-- inline source stay, and once its phase is terminal it stays so, whatever is submitted, updated, deleted,
-- reconciled, reported or ended. The reference to a config map, which takes the place of the source, may
-- change.
pub run-IsHeir :
    (k : NamespacedName) (turns : List Turn) (s : System) (old new : AgentTask)
    → IsSafe s
    → Stays k turns s
    → stored_at k s.objects ≡ ok old
    → stored_at k (run turns s).objects ≡ ok new
    → IsHeir old new
unfolding run
run-IsHeir k [] s old new h stays e f = same-IsHeir k s old new e f
run-IsHeir k (turn ∷ later) s old new h stays e f =
    let (task, there) = now_there k later (take_turn turn s) stays.1 in
    let first = turn-IsHeir turn k s old task h e there in
    let rest =
      run-IsHeir k later (take_turn turn s) task new (turn-IsSafe turn s h) stays.1 there f in
    record {
      profile = rest.profile ∙ first.profile;
      source = rest.source ∙ first.source;
      ended = λ over. rest.ended (first.ended over);
    }
