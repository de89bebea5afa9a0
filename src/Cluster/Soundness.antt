-- ===== src/Cluster/Soundness.antt =====
-- The whole system on the small cluster: what the webhook, the controller and the server keep together.
use agenttask_operator.Base.{
  ℕ, zero, suc, ◌+◌, ◌≤◌, refl, Bool, Bool-cases, Option-cases, some, String, All, count, length,
  leb, ◌==◌, arith, eq_iff, ◌≡◌, ap, ◌∙◌, inl, inr, List, [], ◌∷◌,
}
use agenttask_operator.Api.Core.{NamespacedName}
use agenttask_operator.Api.Task.{AgentTask, AgentTaskSpec}
use agenttask_operator.Platform.{Result-cases, err, get_task}
use agenttask_operator.Platform.Exec.{World, send}
use agenttask_operator.Webhook.Rules.{IsAdmissible, IsAdmissible-spec, validate_create_iff}
use agenttask_operator.Webhook.{is_active, validate_create}
use agenttask_operator.Webhook.Admission.{Transition-ends}
use agenttask_operator.Cluster.{
  Objects, small_cluster, world_at, serve, task_key, find, create, stored, in_namespace,
}
use agenttask_operator.Cluster.Store.{find-key, find-err}
use agenttask_operator.Cluster.Versions.{
  IsVersion, IsVersion-refl, IsVersion-key, VersionRules, reconcile_task_kept,
}
use agenttask_operator.Cluster.Exchange.{
  IsUnique, IsSound, Turned, IsFair, start-Turned, found-Turned, replace-Turned, erase-Turned,
}
use agenttask_operator.Cluster.Changes.{Change, rests, turns, Change-IsSound, active-Change}
use agenttask_operator.Cluster.System.{
  System, review, pick, store, Turn, reviews, stores, acts, take_turn, run,
}
use agenttask_operator.Cluster.Clients.{edit-Change, deletion-Change}
use agenttask_operator.Cluster.Events.{
  report_tasks, end_pod_tasks, Event, edits, deletes, reconciles, reports, ends, happen,
}
use agenttask_operator.Cluster.Refinement.{stored_at, reconcile_found, reconcile_missing}
use agenttask_operator.Controller.Reconcile.{reconcile}

module _ (task : AgentTask) where
  IsVersion-IsFair : IsFair task (IsVersion task)
  IsVersion-IsFair = record {
    key = λ y v. IsVersion-key v;
    admissible = λ y v h. IsAdmissible-spec v.spec h;
    heir = λ y v. record {
      profile = ap (λ (s : AgentTaskSpec). s.runtime_profile) v.spec;
      source = ap (λ (s : AgentTaskSpec). s.code.source) v.spec;
      ended = λ over. elim v.status [
        | inl same ↦ rw same over
        | inr (u, w, e) ↦ rw e (Transition-ends w.move over)
      ];
    };
  }

  Turned-VersionRules : (xs : List AgentTask) → VersionRules task (Turned task (IsVersion task) xs)
  Turned-VersionRules xs = record {
    found = λ ts a h e. found-Turned IsVersion-IsFair xs ts a h e;
    replaced = λ ts old new e v h. replace-Turned IsVersion-IsFair xs ts new v h;
    erased = λ ts old h. erase-Turned IsVersion-IsFair xs ts h;
  }

reconcile-Change :
    (k : NamespacedName) (w : World small_cluster)
    → IsUnique w.api.tasks
    → Change w.api.tasks (reconcile k w).1.api.tasks
unfolding send serve
reconcile-Change k w unique = elim (Result-cases (stored_at k w.api)) [
  | inl (task, e) ↦
      let own = ap (λ j. stored_at j w.api) (find-key task_key k w.api.tasks task e) ∙ e in
      rw (reconcile_found k w task e) (
        turns task (IsVersion task) (IsVersion-IsFair task) own (
          reconcile_task_kept (Turned-VersionRules task w.api.tasks) (send (get_task k) w).1
            (start-Turned w.api.tasks unique own (IsVersion-refl task))))
  | inr (x, e) ↦ rests (ap (λ s. s.tasks) (reconcile_missing k w x e))
]

pub happen-Change :
    (event : Event) (s : Objects) → IsUnique s.tasks → Change s.tasks (happen event s).tasks
unfolding happen
happen-Change (edits new) s unique = edit-Change new s unique
happen-Change (deletes k) s unique = deletion-Change k s unique
happen-Change (reconciles k n) s unique = reconcile-Change k (world_at n s) unique
happen-Change (reports k phase statuses) s unique = rests (report_tasks k phase statuses s)
happen-Change (ends k) s unique = rests (end_pod_tasks k s)

abbrev pub is_in : String → AgentTask → Bool
is_in namespace task = task.meta.namespace == namespace

-- The stored tasks are sound, those that wait are admissible and no more than the server takes, and in each
-- namespace the tasks in phases that are not terminal and those that wait are at most four more than that.
pub record IsSafe (s : System) : Type 0 where
  pub sound : IsSound s.objects.tasks
  pub admissible : All IsAdmissible s.waiting
  pub room : length s.waiting ≤ s.most
  pub few :
      (namespace : String)
      → count is_active (in_namespace namespace s.objects.tasks) + count (is_in namespace) s.waiting
        ≤ 4 + s.most

count-le : (p : AgentTask → Bool) (xs : List AgentTask) → count p xs ≤ length xs
count-le p [] = omega arith
count-le p (x ∷ xs) = ground (arith, count-le p xs)

-- What is taken out of a list.
record IsTaken (xs : List AgentTask) (a : AgentTask) (rest : List AgentTask) : Type 1 where
  size : length xs ≡ suc (length rest)
  parts : (p : AgentTask → Bool) → count p xs ≡ count p (a ∷ rest)
  each : (P : AgentTask → Type 0) → All P xs → P a × All P rest

taken :
    (n : ℕ) (xs : List AgentTask) (a : AgentTask) (rest : List AgentTask)
    → pick n xs ≡ some (a, rest)
    → IsTaken xs a rest
unfolding pick
taken n [] a rest e = absurd (cc e)
taken zero (x ∷ xs) a rest e =
    let first : x ≡ a = cc e in
    let others : xs ≡ rest = cc e in
    rw (← first, ← others) (record { size = refl; parts = λ p. refl; each = λ P h. h })
taken (suc n) (x ∷ xs) a rest e = elim (Option-cases (pick n xs)) [
  | inl nothing ↦ absurd (cc (rw nothing at e))
  | inr ((b, left), f) ↦
      let before = taken n xs b left f in
      let same : b ≡ a = cc (rw f at e) in
      let others : x ∷ left ≡ rest = cc (rw f at e) in
      rw (← same, ← others)
        (record {
          size = omega (arith, before.size);
          parts = λ p. ground (arith, before.parts p);
          each = λ P h. let (own, all) = before.each P h.1 in (own, (h.0, all));
        })
]

review-IsSafe : (task : AgentTask) (s : System) → IsSafe s → IsSafe (review task s)
unfolding review serve
review-IsSafe task s h = elim (Bool-cases (leb s.most (length s.waiting))) [
  | inl full ↦ rw (full, review) h
  | inr free ↦ elim (Result-cases (validate_create task (world_at 0 s.objects)).0) [
    | inl (u, accepted) ↦
        let (admissible, (tasks, listed, few)) =
          (validate_create_iff task (world_at 0 s.objects)).0 accepted in
        let same : in_namespace task.meta.namespace s.objects.tasks ≡ tasks = cc listed in
        rw (free, review)
          (rw accepted (record {
            sound = h.sound;
            admissible = (admissible, h.admissible);
            room = ground (arith, free);
            few = λ namespace. ground (
              arith,
              free,
              few,
              same,
              eq_iff task.meta.namespace namespace,
              h.few namespace,
              count-le (is_in namespace) s.waiting,
            );
          }))
    | inr (x, refused) ↦ rw (free, review) (rw refused h)
  ]
]

store-IsSafe : (n : ℕ) (s : System) → IsSafe s → IsSafe (store n s)
unfolding store serve create stored in_namespace
store-IsSafe n s h = elim (Option-cases (pick n s.waiting)) [
  | inl e ↦ rw (e, store) h
  | inr ((task, rest), e) ↦
      let left = taken n s.waiting task rest e in
      let (own, others) = left.each IsAdmissible h.admissible in
      elim (Result-cases (find task_key (task_key task) s.objects.tasks)) [
        | inl (a, f) ↦
            rw (e, store)
              (rw (f, create, stored)
                (record {
                  sound = h.sound;
                  admissible = others;
                  room = omega (arith, left.size, h.room);
                  few = λ namespace. ground (arith, left.parts (is_in namespace), h.few namespace);
                }))
        | inr (x, f) ↦
            rw (e, store)
              (rw (f, create, stored)
                (record {
                  sound = record {
                    unique = (
                      f ∙ ap err (find-err task_key (task_key task) s.objects.tasks x f),
                      h.sound.unique,
                    );
                    admissible = (
                      record {
                        profile = own.profile;
                        at_least = own.at_least;
                        at_most = own.at_most;
                      },
                      h.sound.admissible,
                    );
                  };
                  admissible = others;
                  room = omega (arith, left.size, h.room);
                  few = λ namespace. ground (
                    arith,
                    left.parts (is_in namespace),
                    h.few namespace,
                    eq_iff task.meta.namespace namespace,
                  );
                }))
      ]
]

act-IsSafe :
    (event : Event) (s : System) → IsSafe s → IsSafe (record s { objects = happen event s.objects })
act-IsSafe event s h =
    let change = happen-Change event s.objects h.sound.unique in
    record {
      sound = Change-IsSound change h.sound;
      admissible = h.admissible;
      room = h.room;
      few = λ namespace. omega (arith, active-Change change namespace, h.few namespace);
    }

pub turn-IsSafe : (turn : Turn) (s : System) → IsSafe s → IsSafe (take_turn turn s)
unfolding take_turn
turn-IsSafe (reviews task) s h = review-IsSafe task s h
turn-IsSafe (stores n) s h = store-IsSafe n s h
turn-IsSafe (acts event) s h = act-IsSafe event s h

-- On the small cluster, where the server takes at most `most` creations at a time: if no two stored tasks
-- have the same key, each is admissible, and the tasks of a namespace in phases that are not terminal,
-- with the creations that wait there, are at most 4 + `most`, that stays so, whatever clients submit,
-- change and delete and whatever is reconciled, reported or ended, in any order and at any times, with the
-- validation of a creation and its storing as separate steps. The limit of five holds where `most` is 1.
pub run-IsSafe : (turns : List Turn) (s : System) → IsSafe s → IsSafe (run turns s)
unfolding run
run-IsSafe [] s h = h
run-IsSafe (turn ∷ later) s h = run-IsSafe later (take_turn turn s) (turn-IsSafe turn s h)
