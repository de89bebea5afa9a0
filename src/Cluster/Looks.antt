-- ===== src/Cluster/Looks.antt =====
-- The small cluster, under the handlers of scheduled and running tasks, which look at the pod.
use agenttask_operator.Base.{
  refl, Bool, ◌||◌, contains, is_some, eq_iff, ◌≡◌, inl, inr, Bool-cases, Option-cases, true,
  String, none, some, List, [], ◌∷◌, arith, ◌==◌, if◌then◌else◌,
}
use agenttask_operator.Base.Int.{ℤ, pos, eqb_ℤ}
use agenttask_operator.Api.Core.{
  NamespacedName, ContainerStatus, Pod, PodPhase, pod_pending, pod_running, pod_succeeded,
  pod_failed, pod_unknown, ref_key,
}
use agenttask_operator.Api.Task.{
  AgentTask, AgentTaskStatus, AgentTaskPhase, scheduled, running, succeeded, failed,
  image_pull_failed, pod_missing,
}
use agenttask_operator.Platform.{Error, Result, Result-cases, ok, err, get_pod}
use agenttask_operator.Platform.Exec.{World, send, ◌>>=◌}
use agenttask_operator.Cluster.{small_cluster, serve, find, pod_key}
use agenttask_operator.Controller.Outcome.{with_status, pull_failure_message}
use agenttask_operator.Sandbox.{sandbox_kind}
use agenttask_operator.Controller.Phases.{
  find_pull_error, task_exit_code, scheduled_pod, running_pod, reconcile_scheduled,
  reconcile_running,
}
use agenttask_operator.Cluster.Writes.{
  own, Moves, success-Moves, failure-Moves, update-Moves, set_phase-Moves, rest-Moves,
}

-- The reasons for which the containers of a pod wait.
abbrev waits : List ContainerStatus → List String
waits [] = []
waits (c ∷ cs) = elim c.waiting [ none ↦ waits cs | some w ↦ w.reason ∷ waits cs ]

-- Some image cannot be pulled.
abbrev pub is_blocked : List ContainerStatus → Bool
is_blocked cs = contains (waits cs) "ImagePullBackOff" || contains (waits cs) "ErrImagePull"

-- The exit codes of the containers named "task" that have terminated, in their order.
abbrev exits : List ContainerStatus → List ℤ
exits [] = []
exits (c ∷ cs) =
    let rest = exits cs in
    if c.name == "task"
    then elim c.terminated [ none ↦ rest | some t ↦ t.exit_code ∷ rest ]
    else rest

-- What becomes of the phase of a scheduled task, by its pod.
abbrev pub after_scheduled : Result Pod → AgentTaskPhase
after_scheduled (err e) = failed
after_scheduled (ok pod) = elim pod.phase [
  | pod_pending ↦ if is_blocked pod.container_statuses then failed else scheduled
  | pod_running ↦ running
  | pod_succeeded ↦ succeeded
  | pod_failed ↦ failed
  | pod_unknown ↦ scheduled
]

-- By the first of the exit codes.
abbrev pub by_code : List ℤ → AgentTaskPhase
by_code [] = running
by_code (code ∷ _) = if eqb_ℤ code (pos 0) then succeeded else failed

-- What becomes of the phase of a running task, by the phase of its pod and the statuses of the containers.
abbrev pub verdict : PodPhase → List ContainerStatus → AgentTaskPhase
verdict pod_running cs = by_code (exits cs)
verdict pod_succeeded cs = succeeded
verdict pod_failed cs = failed
verdict _ cs = running

-- The loops of the code find that.
blocked_lem : (cs : List ContainerStatus) → is_some (find_pull_error cs) ≡ is_blocked cs
unfolding find_pull_error
blocked_lem [] = refl
blocked_lem (c ∷ cs) = elim (Option-cases c.waiting) [
  | inl n ↦ rw n (blocked_lem cs)
  | inr (w, e) ↦ rw e (
      ground (
        arith,
        blocked_lem cs,
        eq_iff "ImagePullBackOff" w.reason,
        eq_iff "ErrImagePull" w.reason,
        eq_iff w.reason "ImagePullBackOff",
        eq_iff w.reason "ErrImagePull",
      ))
]

exits_lem :
    (cs : List ContainerStatus)
    → (elim (task_exit_code cs) [
      | none ↦ running
      | some code ↦ if eqb_ℤ code (pos 0) then succeeded else failed
    ])
      ≡ by_code (exits cs)
unfolding task_exit_code
exits_lem [] = refl
exits_lem (c ∷ cs) = elim (Bool-cases (c.name == "task")) [
  | inl own ↦ elim (Option-cases c.terminated) [
    | inl n ↦ rw (own, n) (exits_lem cs)
    | inr (t, e) ↦ rw (own, e) refl
  ]
  | inr other ↦ rw other (exits_lem cs)
]

abbrev pub after_running : Result Pod → AgentTaskPhase
after_running (err e) = failed
after_running (ok pod) = verdict pod.phase pod.container_statuses

module _ (task : AgentTask) (pod : Pod) where
  scheduled_pod-Moves :
      (phase : PodPhase)
      → task.status.phase ≡ scheduled
      → Moves task
          (after_scheduled (ok (record pod { phase = phase })))
          (scheduled_pod phase task pod)
  unfolding scheduled_pod
  scheduled_pod-Moves pod_pending e =
      rw (← blocked_lem pod.container_statuses)
        (elim (Option-cases (find_pull_error pod.container_statuses)) [
          | inl n ↦ rw (n, scheduled_pod) (rest-Moves task _ e)
          | inr (c, f) ↦
              rw (f, scheduled_pod) (update-Moves task image_pull_failed (pull_failure_message c))
        ])
  scheduled_pod-Moves pod_running e = set_phase-Moves task running
  scheduled_pod-Moves pod_succeeded e = success-Moves task pod
  scheduled_pod-Moves pod_failed e = failure-Moves task pod
  scheduled_pod-Moves pod_unknown e = rest-Moves task _ e

  running_pod-Moves :
      (phase : PodPhase)
      → task.status.phase ≡ running
      → Moves task (verdict phase pod.container_statuses) (running_pod phase task pod)
  unfolding running_pod
  running_pod-Moves pod_running e =
      rw (← exits_lem pod.container_statuses)
        (elim (Option-cases (task_exit_code pod.container_statuses)) [
          | inl n ↦ rw (n, running_pod) (rest-Moves task _ e)
          | inr (c, f) ↦ elim (Bool-cases (eqb_ℤ c (pos 0))) [
            | inl z ↦ rw (f, running_pod) (rw z (success-Moves task pod))
            | inr z ↦ rw (f, running_pod) (rw z (failure-Moves task pod))
          ]
        ])
  running_pod-Moves pod_succeeded e = success-Moves task pod
  running_pod-Moves pod_failed e = failure-Moves task pod
  running_pod-Moves pod_pending e = rest-Moves task _ e
  running_pod-Moves pod_unknown e = rest-Moves task _ e

-- A scheduled or running task after a look at its pod, or with no look where it has a sandbox.
abbrev pub followed : AgentTaskPhase → String → Result Pod → AgentTaskPhase
followed scheduled kind found = if kind == sandbox_kind then running else after_scheduled found
followed running kind found = if kind == sandbox_kind then running else after_running found
followed phase kind found = phase

unfoldable pub pod_of : AgentTask → World small_cluster → Result Pod
pod_of task w = find pod_key (ref_key task.status.pod_ref) w.api.pods

find_missing :
    (k : NamespacedName) (pods : List Pod) (e : Error)
    → find pod_key k pods ≡ err e
    → e.not_found ≡ true
unfolding find
find_missing k [] e h = ground arith
find_missing k (x ∷ xs) e h = ground (arith, find_missing k xs e)

module _ (task : AgentTask) (w : World small_cluster) (found : own task w ≡ ok task) where
  looked : World small_cluster
  looked = (send (get_pod (ref_key task.status.pod_ref)) w).1

  pub scheduled_lem :
      task.status.phase ≡ scheduled
      → (st : AgentTaskStatus) × (own task (reconcile_scheduled task w).1
          ≡ ok (with_status task st))
        × (st.phase ≡ followed scheduled task.status.pod_ref.kind (pod_of task w))
  unfolding reconcile_scheduled ◌>>=◌ serve pod_of looked
  scheduled_lem e = elim (Bool-cases (task.status.pod_ref.kind == sandbox_kind)) [
    | inl z ↦ rw (z, reconcile_scheduled) ((set_phase-Moves task running).from w found)
    | inr z ↦ elim (Result-cases (pod_of task w)) [
      | inl (pod, f) ↦
          rw (z, reconcile_scheduled)
            (rw f ((scheduled_pod-Moves task pod pod.phase e).from looked found))
      | inr (x, f) ↦
          rw (z, reconcile_scheduled)
            (rw f (
              rw (find_missing (ref_key task.status.pod_ref) w.api.pods x f) (
                (update-Moves task pod_missing "The execution pod was deleted unexpectedly.").from
                  looked found)))
    ]
  ]

  pub running_lem :
      task.status.phase ≡ running
      → (st : AgentTaskStatus) × (own task (reconcile_running task w).1 ≡ ok (with_status task st))
        × (st.phase ≡ followed running task.status.pod_ref.kind (pod_of task w))
  unfolding reconcile_running ◌>>=◌ serve pod_of looked
  running_lem e = elim (Bool-cases (task.status.pod_ref.kind == sandbox_kind)) [
    | inl z ↦ rw (z, reconcile_running) ((rest-Moves task running e).from w found)
    | inr z ↦ elim (Result-cases (pod_of task w)) [
      | inl (pod, f) ↦
          rw (z, reconcile_running)
            (rw f ((running_pod-Moves task pod pod.phase e).from looked found))
      | inr (x, f) ↦
          rw (z, reconcile_running)
            (rw f (
              rw (find_missing (ref_key task.status.pod_ref) w.api.pods x f) (
                (update-Moves task pod_missing "The execution pod was deleted while running.").from
                  looked found)))
    ]
  ]
