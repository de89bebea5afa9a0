-- ===== src/Cluster/Clients.antt =====
-- What the updates and the deletions of clients do to the list of the stored tasks.
use agenttask_operator.Base.{Bool-cases, ◌&&◌, ◌≡◌, refl, sym, ap, ◌∙◌, inl, inr, List}
use agenttask_operator.Api.Core.{NamespacedName}
use agenttask_operator.Api.Task.{AgentTask}
use agenttask_operator.Platform.{Result-cases, ok, delete_task}
use agenttask_operator.Webhook.{validate_update}
use agenttask_operator.Webhook.Rules.{IsAdmissible, IsAdmissible-spec, validate_update_iff}
use agenttask_operator.Cluster.{
  Objects, serve, find, replace, erase, task_key, is_marked, is_empty, updated, marked_task,
}
use agenttask_operator.Cluster.Store.{find-key}
use agenttask_operator.Cluster.Exchange.{
  IsUnique, Turned, IsFair, start-Turned, replace-Turned, erase-Turned,
}
use agenttask_operator.Cluster.Changes.{Change, rests, turns}
use agenttask_operator.Cluster.Events.{edit}

-- What a client's update and a deletion mark leave of a task.
record IsEdit (old y : AgentTask) : Type 0 where
  key : task_key y ≡ task_key old
  status : y.status ≡ old.status
  admissible : IsAdmissible old → IsAdmissible y
  profile : y.spec.runtime_profile ≡ old.spec.runtime_profile
  source : y.spec.code.source ≡ old.spec.code.source

IsEdit-refl : (old : AgentTask) → IsEdit old old
IsEdit-refl old = record {
  key = refl;
  status = refl;
  admissible = λ h. h;
  profile = refl;
  source = refl;
}

IsEdit-IsFair : (old : AgentTask) → IsFair old (IsEdit old)
IsEdit-IsFair old = record {
  key = λ y v. v.key;
  admissible = λ y v h. v.admissible h;
  heir = λ y v. record { profile = v.profile; source = v.source; ended = λ over. rw v.status over };
}

module _ (k : NamespacedName) (ts : List AgentTask) (old : AgentTask) (unique : IsUnique ts)
    (found : find task_key k ts ≡ ok old) where
  own : find task_key (task_key old) ts ≡ ok old
  own = ap (λ j. find task_key j ts) (find-key task_key k ts old found) ∙ found

  start : Turned old (IsEdit old) ts ts
  start = start-Turned ts unique own (IsEdit-refl old)

  replace-Change : (new : AgentTask) → IsEdit old new → Change ts (replace task_key new ts)
  replace-Change new v =
      turns old (IsEdit old) (IsEdit-IsFair old) own
        (replace-Turned (IsEdit-IsFair old) ts ts new v start)

  erase-Change : Change ts (erase task_key k ts)
  erase-Change = rw (← find-key task_key k ts old found) (
      turns old (IsEdit old) (IsEdit-IsFair old) own (erase-Turned (IsEdit-IsFair old) ts ts start))

pub edit-Change :
    (new : AgentTask) (s : Objects) → IsUnique s.tasks → Change s.tasks (edit new s).tasks
unfolding edit serve
edit-Change new s unique = elim (Result-cases (find task_key (task_key new) s.tasks)) [
  | inl (old, e) ↦ elim (Result-cases (validate_update old new)) [
    | inl (_, accepted) ↦
        let (profile, source, admissible) = (validate_update_iff old new).0 accepted in
        rw (e, edit)
          (rw accepted (
            rw (e, serve)
              (elim (Bool-cases (is_marked old.meta && is_empty new.meta.finalizers)) [
                | inl go ↦ rw go (erase-Change (task_key new) s.tasks old unique e)
                | inr stay ↦ rw stay (
                    replace-Change (task_key new) s.tasks old unique e (updated old new) (record {
                      key = sym (find-key task_key (task_key new) s.tasks old e);
                      status = refl;
                      admissible = λ a. IsAdmissible-spec refl admissible;
                      profile = profile;
                      source = source;
                    }))
              ])))
    | inr (x, refused) ↦ rw (e, edit) (rw refused (rests refl))
  ]
  | inr (x, e) ↦ rw (e, edit) (rests refl)
]

pub deletion-Change :
    (k : NamespacedName) (s : Objects)
    → IsUnique s.tasks
    → Change s.tasks (serve (delete_task k) s).1.tasks
unfolding serve
deletion-Change k s unique = elim (Result-cases (find task_key k s.tasks)) [
  | inl (old, e) ↦
      rw (e, serve)
        (elim (Bool-cases (is_empty old.meta.finalizers)) [
          | inl go ↦ rw go (erase-Change k s.tasks old unique e)
          | inr stay ↦ rw stay (
              replace-Change k s.tasks old unique e (marked_task s.time old) (record {
                key = refl;
                status = refl;
                admissible = λ a. IsAdmissible-spec refl a;
                profile = refl;
                source = refl;
              }))
        ])
  | inr (x, e) ↦ rw (e, serve) (rests refl)
]
