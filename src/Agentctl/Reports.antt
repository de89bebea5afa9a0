-- ===== src/Agentctl/Reports.antt =====
-- cmd/agentctl/cmd: what the commands print and return, by what the server and the other packages answer.
use agenttask_operator.Controller.Progress.{inline}
use agenttask_operator.Base.{
  ◌<>◌, Bool-cases, Option-cases, false, String, Option, none, some, List, [], ◌∷◌, ◌≡◌, ◌≢◌, refl,
  ap, ◌↔◌, ◌⊎◌, inl, inr, ◌==◌, eq_iff, arith,
}
use agenttask_operator.Base.Int.{pos, ◌≤ℤ◌}
use agenttask_operator.Api.Task.{AgentTask}
use agenttask_operator.Platform.{Platform, Error, Result, Result-cases, ok, get_task, list_tasks}
use agenttask_operator.Platform.Exec.{World, send, ◌>>=◌}
use agenttask_operator.Webhook.{validate_agent_task}
use agenttask_operator.Webhook.Rules.{validate_agent_task_iff}
use agenttask_operator.Controller.Outcome.{sub_time}
use agenttask_operator.Text.{Bytes}
use agenttask_operator.Cluster.Arrival.{IsNew}
use agenttask_operator.Agentctl.{Tools, Flags, succeeds}
use agenttask_operator.Agentctl.Commands.{
  submitted, stream_logs, logs_command, list_row, list_rows, list_command, age, key,
}

-- The flags with which `run` submits a task that is admissible.
pub record IsUsable (flags : Flags) : Type 0 where
  pub profile : (flags.profile ≡ "python3.10") ⊎ (flags.profile ≡ "python3.11")
  pub at_least : pos 1 ≤ℤ flags.timeout
  pub at_most : flags.timeout ≤ℤ pos 3600

-- The task that `run` submits passes the webhook's static validation exactly when the profile flag is
-- python3.10 or python3.11 and the timeout flag lies between 1 and 3600, whatever the file's name and
-- content and the other flags are.
pub submitted-valid_iff :
    (T : Tools) (flags : Flags) (path : Bytes) (content : String)
    → (validate_agent_task (submitted T flags path content) ≡ ok tt) ↔ IsUsable flags
unfolding submitted
submitted-valid_iff T flags path content =
    let by_rules = validate_agent_task_iff (submitted T flags path content) in
    (
      λ h.
          let a = by_rules.0 h in
          record { profile = a.profile; at_least = a.at_least; at_most = a.at_most },
      λ u. by_rules.1 (record { profile = u.profile; at_least = u.at_least; at_most = u.at_most }),
    )

-- Every package lets `logs` read the whole log of the container "task" of the task's pod.
pub record IsRead (T : Tools) (task : AgentTask) (copied : String) : Type 0 where
  pub assigned : task.status.pod_ref.name ≢ ""
  pub config : T.get_config ≡ ok tt
  pub clientset : T.new_clientset ≡ ok tt
  pub whole :
      T.pod_logs task.status.pod_ref.namespace task.status.pod_ref.name "task" ≡ ok (copied, none)

stream_logs_iff :
    (T : Tools) (task : AgentTask) (copied : String)
    → (stream_logs T task ≡ succeeds (copied ∷ [])) ↔ (
        (T.get_config ≡ ok tt)
        × (T.new_clientset ≡ ok tt)
        × (T.pod_logs task.status.pod_ref.namespace task.status.pod_ref.name "task"
            ≡ ok (copied, none)))
unfolding stream_logs
stream_logs_iff T task copied = (
  λ h. elim (Result-cases T.get_config) [
    | inr (e, f) ↦ absurd (cc (ap (λ r. r.lines) (rw f at h)))
    | inl (u, f) ↦ elim (Result-cases T.new_clientset) [
      | inr (e, g) ↦ absurd (cc (ap (λ r. r.lines) (rw g at (rw f at h))))
      | inl (v, g) ↦ elim (Result-cases stream) [
        | inr (e, k) ↦ absurd (cc (ap (λ r. r.lines) (rw k at (rw g at (rw f at h)))))
        | inl ((text, none), k) ↦ (f, g, cc (k, ap (λ r. r.lines) (rw k at (rw g at (rw f at h)))))
        | inl ((text, some e), k) ↦ absurd (cc (ap (λ r. r.error) (rw k at (rw g at (rw f at h)))))
      ]
    ]
  ],
  λ (c, n, p). rw c (rw n (rw p refl)),
)
  where
    stream : Result (String × Option Error)
    stream = T.pod_logs task.status.pod_ref.namespace task.status.pod_ref.name "task"

unequal : (s t : String) → s ≢ t → (s == t) ≡ false
unequal s t n = ground (arith, eq_iff s t)

module _ {P : Platform} (T : Tools) (flags : Flags) (name : String) (copied : String)
    (w : World P) where
  -- `logs` prints a text and returns no error exactly when the server answers with the task, its status
  -- names a pod, the configuration and the client are made, and the log of the container "task" of that
  -- pod, in the namespace that the status names, is that text and ends without an error.
  pub logs_iff : ((logs_command T flags name w).0 ≡ ok (succeeds (copied ∷ []))) ↔ (
      (task : AgentTask) × ((P.serve (get_task (key flags name)) w.api).0 ≡ ok task)
      × IsRead T task copied)
  unfolding logs_command ◌>>=◌
  logs_iff = (
    λ h. elim (Result-cases (P.serve (get_task (key flags name)) w.api).0) [
      | inr (e, f) ↦ absurd (cc (rw f at h))
      | inl (task, f) ↦ elim (Bool-cases (task.status.pod_ref.name == "")) [
        | inl g ↦ absurd (cc (rw g at (rw f at h)))
        | inr g ↦
            let read = (stream_logs_iff T task copied).0 (cc (rw g at (rw f at h))) in
            (
              task,
              f,
              record {
                assigned = λ e. absurd (cc (g, (eq_iff task.status.pod_ref.name "").1 e));
                config = read.0;
                clientset = read.1;
                whole = read.2;
              },
            )
      ]
    ],
    λ (task, e, r). rw e (
        rw (unequal task.status.pod_ref.name "" r.assigned)
          (ap ok ((stream_logs_iff T task copied).1 (r.config, r.clientset, r.whole)))),
  )

-- Each line is the row of its task, whose age is unknown if the time of creation is not set.
pub data Rows : List AgentTask → List String → Type 0 where
  done : Rows [] []
  row :
      (task : AgentTask) (how_old : String) (tasks : List AgentTask) (lines : List String)
      → (task.meta.creation_timestamp ≡ none → how_old ≡ "Unknown")
      → Rows tasks lines
      → Rows (task ∷ tasks) (list_row task how_old ∷ lines)

module _ {P : Platform} (T : Tools) (flags : Flags) where
  age_lem :
      (task : AgentTask) (w : World P)
      → (how_old : String) × ((age T flags task w).0 ≡ ok how_old)
        × (task.meta.creation_timestamp ≡ none → how_old ≡ "Unknown")
  unfolding age ◌>>=◌
  age_lem task w = elim (Option-cases task.meta.creation_timestamp) [
    | inl e ↦ ("Unknown", rw e refl, λ _. refl)
    | inr (created, e) ↦ elim (Bool-cases (P.is_zero_time task.meta.creation_timestamp)) [
      | inl z ↦ ("Unknown", rw e (rw (rw e at z) refl), λ _. refl)
      | inr z ↦ (
        T.human_duration (sub_time (P.clock w.readings) created),
        rw e (rw (rw e at z) refl),
        λ n. absurd (cc (n, e)),
      )
    ]
  ]

  list_rows-Rows :
      (tasks : List AgentTask) (w : World P)
      → (lines : List String) × ((list_rows T flags tasks w).0 ≡ ok lines) × Rows tasks lines
  unfolding list_rows ◌>>=◌
  list_rows-Rows [] w = ([], refl, done)
  list_rows-Rows (task ∷ tasks) w =
      let (how_old, e, u) = age_lem task w in
      let (lines, f, r) = list_rows-Rows tasks (age T flags task w).1 in
      (list_row task how_old ∷ lines, rw e (rw f refl), row task how_old tasks lines u r)

  -- When the server answers with a list of tasks, `list` returns no error and prints a header and then one
  -- row for each of them, in their order.
  pub list-Rows :
      (w : World P) (tasks : List AgentTask)
      → (P.serve (list_tasks flags.namespace) w.api).0 ≡ ok tasks
      → (lines : List String) × ((list_command T flags w).0
          ≡ ok (succeeds ("NAME\tPHASE\tREASON\tAGE\tPOD" ∷ lines)))
        × Rows tasks lines
  unfolding list_command ◌>>=◌
  list-Rows w tasks e =
      let (lines, f, r) = list_rows-Rows tasks (send (list_tasks flags.namespace) w).1 in
      (lines, rw e (rw f refl), r)

-- A task that `run` submits with usable flags, some source and no insistence on a sandbox arrives on the small cluster
-- as a new one, whatever name the server gives it.
pub submitted-IsNew :
    (T : Tools) (flags : Flags) (path : Bytes) (content name : String)
    → IsUsable flags
    → flags.backend ≢ "sandbox"
    → content ≢ ""
    → IsNew (record (submitted T flags path content) {
      meta = record (submitted T flags path content).meta { name = name };
    })
unfolding submitted validate_agent_task
submitted-IsNew T flags path content name usable other some_source = record {
  kept = refl;
  free = refl;
  fresh = refl;
  wanted = refl;
  accepted = (submitted-valid_iff T flags path content).1 usable;
  any_backend = other;
  code = name <> "-code";
  coded = inline refl some_source refl;
}
