-- ===== src/Webhook/Admission.antt =====
-- What the webhook guarantees over time: over successive updates of a task, and over the creations,
-- status writes and deletions in a namespace, one at a time.
use agenttask_operator.Base.{
  ℕ, ◌≤◌, ◌≡◌, refl, ◌∙◌, sym, ap, true, String, List, [], ◌∷◌, ◌++◌, arith, count, count-append,
}
use mathlib.Core.Path.{subst}
use native.Mathlib.Nat.{le_trans}
use agenttask_operator.Api.Task.{AgentTask, AgentTaskStatus, AgentTaskPhase, is_terminal}
use agenttask_operator.Platform.{Platform, Result, ok, list_tasks}
use agenttask_operator.Platform.Exec.{World}
use agenttask_operator.Webhook.{is_active, validate_update, validate_create}
use agenttask_operator.Webhook.Rules.{IsAdmissible, validate_update_iff, validate_create_iff}
use agenttask_operator.Controller.Safety.Allowed.{Transition, accept, place, launch, IsWrite}

-- Versions of one task, each an accepted update of the one before.
pub data Updates (first : AgentTask) : AgentTask → Type 0 where
  created : IsAdmissible first → Updates first first
  updated :
      {old new : AgentTask}
      → Updates first old
      → validate_update old new ≡ ok tt
      → Updates first new

-- After any accepted updates of an admissible task, its profile and its source are those of the first
-- version, and it is still admissible.
pub Updates-keep_code :
    {first last : AgentTask}
    → Updates first last
    → (last.spec.runtime_profile ≡ first.spec.runtime_profile)
      × (last.spec.code.source ≡ first.spec.code.source)
      × IsAdmissible last
Updates-keep_code (created a) = (refl, refl, a)
Updates-keep_code (updated {old = old} {new = new} u accepted) =
    let before = Updates-keep_code u in
    let step = (validate_update_iff old new).0 accepted in
    (step.0 ∙ before.0, step.1 ∙ before.1, step.2)

-- One step in a namespace, where each creation is validated against the tasks that are there: the
-- controller writes a status, some other field of a task changes, or a task goes away.
pub data Step (P : Platform) (namespace : String) (tasks later : List AgentTask) : Type 0 where
  admitted :
      (task : AgentTask) (w : World P)
      → task.meta.namespace ≡ namespace
      → (P.serve (list_tasks namespace) w.api).0 ≡ ok tasks
      → (validate_create task w).0 ≡ ok tt
      → later ≡ task ∷ tasks
      → Step P namespace tasks later
  written :
      (before after : List AgentTask) (old new : AgentTask)
      → IsWrite P old new
      → tasks ≡ before ++ (old ∷ after)
      → later ≡ before ++ (new ∷ after)
      → Step P namespace tasks later
  edited :
      (before after : List AgentTask) (old new : AgentTask)
      → new.status ≡ old.status
      → tasks ≡ before ++ (old ∷ after)
      → later ≡ before ++ (new ∷ after)
      → Step P namespace tasks later
  removed :
      (before after : List AgentTask) (old : AgentTask)
      → tasks ≡ before ++ (old ∷ after)
      → later ≡ before ++ after
      → Step P namespace tasks later

pub data Reach (P : Platform) (namespace : String) : List AgentTask → Type 0 where
  empty : Reach P namespace []
  step :
      {tasks later : List AgentTask}
      → Reach P namespace tasks
      → Step P namespace tasks later
      → Reach P namespace later

abbrev active : List AgentTask → ℕ
active = count is_active

-- A task that has ended does not start again.
pub Transition-ends :
    {P : Platform} {task : AgentTask} {phase : AgentTaskPhase}
    → Transition P task phase
    → is_terminal task.status.phase ≡ true
    → is_terminal phase ≡ true
Transition-ends (accept from) ended = ground arith
Transition-ends (place from) ended = ground arith
Transition-ends (launch from) ended = ground arith
Transition-ends _ ended = refl

active-replace :
    (before after : List AgentTask) (old new : AgentTask)
    → (is_terminal old.status.phase ≡ true → is_terminal new.status.phase ≡ true)
    → active (before ++ (new ∷ after)) ≤ active (before ++ (old ∷ after))
active-replace before after old new keeps = ground (
  arith,
  count-append is_active before (new ∷ after),
  count-append is_active before (old ∷ after),
)

active-remove :
    (before after : List AgentTask) (old : AgentTask)
    → active (before ++ after) ≤ active (before ++ (old ∷ after))
active-remove before after old =
    ground (arith, count-append is_active before after, count-append is_active before (old ∷ after))

module _ (P : Platform) (namespace : String) where
  active_after_admission :
      (tasks : List AgentTask) (task : AgentTask) (w : World P)
      → task.meta.namespace ≡ namespace
      → (P.serve (list_tasks namespace) w.api).0 ≡ ok tasks
      → (validate_create task w).0 ≡ ok tt
      → active (task ∷ tasks) ≤ 5
  active_after_admission tasks task w here listed accepted =
      let (_, (others, listed', few)) = (validate_create_iff task w).0 accepted in
      let same : ◌≡◌ {A = Result (List AgentTask)} (ok tasks) (ok others) =
        sym listed ∙ subst (λ ns. (P.serve (list_tasks ns) w.api).0 ≡ ok others) here listed' in
      ground (arith, few, same)

  Step-active :
      {tasks later : List AgentTask}
      → Step P namespace tasks later
      → active tasks ≤ 5
      → active later ≤ 5
  Step-active {tasks} (admitted task w here listed accepted e) few =
      rw e (active_after_admission tasks task w here listed accepted)
  Step-active (written before after old new h e e') few =
      rw e' (le_trans (active-replace before after old new (Transition-ends h.move)) (rw e at few))
  Step-active (edited before after old new h e e') few = rw e' (
      le_trans
        (active-replace before after old new
          (λ ended. cc (ap (λ (s : AgentTaskStatus). is_terminal s.phase) h, ended)))
        (rw e at few))
  Step-active (removed before after old e e') few =
      rw e' (le_trans (active-remove before after old) (rw e at few))

  -- Where each creation is validated against the tasks that are there when it takes effect, a
  -- namespace that starts empty never has more than five tasks in phases that are not terminal.
  pub at_most_five_active : (tasks : List AgentTask) → Reach P namespace tasks → active tasks ≤ 5
  at_most_five_active _ empty = omega arith
  at_most_five_active _ (step r s) = Step-active s (at_most_five_active _ r)
