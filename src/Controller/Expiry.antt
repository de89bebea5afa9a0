-- ===== src/Controller/Expiry.antt =====
-- When a finished task is deleted, and what the order of Reconcile's tests does to one past its limit.
use agenttask_operator.Base.{
  ◌+◌, ◌≡◌, refl, ◌∙◌, sym, ap, ◌↔◌, Bool, true, false, not, ◌||◌, ◌&&◌, some, List, [], ◌∷◌, arith,
  if◌then◌else◌,
}
use agenttask_operator.Base.Int.{ℤ, pos, ◌+ℤ◌, ◌≤ℤ◌, ◌<ℤ◌, ltb_ℤ, -ℤ_parts}
use agenttask_operator.Api.Core.{Time}
use agenttask_operator.Api.Task.{
  AgentTask, AgentTaskPhase, succeeded, failed, timeout, canceled, is_terminal,
}
use agenttask_operator.Platform.{Platform, Request, Result, ok, delete_task, update_status}
use agenttask_operator.Platform.Exec.{World, Exec, ◌>>=◌}
use agenttask_operator.Platform.Sends.{sent}
use agenttask_operator.Controller.Outcome.{sub_time, with_status}
use agenttask_operator.Controller.Cleanup.{
  ReconcileResult, timeout_budget, check_timeout, delete_timed_out_pod, reconcile_timeout,
}
use agenttask_operator.Controller.Reconcile.{
  agent_task_finalizer, expiration, reconcile_finished, run_phase, reconcile_started,
  reconcile_active, reconcile_task,
}

-- The task is not being deleted and has the finalizer.
pub record IsLive (P : Platform) (task : AgentTask) : Type 0 where
  pub kept : P.is_zero_time task.meta.deletion_timestamp ≡ true
  pub held : P.contains_finalizer task.meta.finalizers agent_task_finalizer ≡ true

-- A finished task that nobody asked to cancel, with a limit and both times set, and a time to live.
pub record IsFinished (task : AgentTask) (start completion : Time) (ttl : ℤ) : Type 0 where
  pub ended : is_terminal task.status.phase ≡ true
  pub wanted : task.spec.canceled ≡ false
  pub limited : pos 0 <ℤ task.spec.timeout_seconds
  pub started : task.status.start_time ≡ some start
  pub completed : task.status.completion_time ≡ some completion
  pub lives : task.spec.ttl_seconds_after_finished ≡ some ttl

abbrev is_deletion : Request → Bool
is_deletion (delete_task _) = true
is_deletion _ = false

abbrev pub deletes_task : List Request → Bool
deletes_task [] = false
deletes_task (r ∷ rs) = is_deletion r || deletes_task rs

sub_time_pos : (t u : Time) → (pos 0 <ℤ sub_time t u) ↔ (u <ℤ t)
unfolding sub_time
sub_time_pos t u = ground (arith, -ℤ_parts t u)

module _ {P : Platform} (task : AgentTask) where
  -- The tests that come before the `switch` on the phase, for a task in a terminal phase.
  abbrev timeout_first : Exec P ReconcileResult
  timeout_first = check_timeout task >>= λ late.
      if late then reconcile_timeout task else reconcile_finished task

  started-finished :
      (phase : AgentTaskPhase) (w : World P)
      → is_terminal phase ≡ true
      → (check_timeout task >>= λ late.
            if late then reconcile_timeout task else run_phase phase task)
          w
        ≡ timeout_first w
  unfolding run_phase
  started-finished succeeded w ended = refl
  started-finished failed w ended = refl
  started-finished timeout w ended = refl
  started-finished canceled w ended = refl
  started-finished _ w ended = cc

  active-finished :
      (phase : AgentTaskPhase) (w : World P)
      → is_terminal phase ≡ true
      → task.spec.canceled ≡ false
      → reconcile_active phase task w ≡ reconcile_started task w
  unfolding reconcile_active
  active-finished succeeded w ended wanted = rw wanted
  active-finished failed w ended wanted = rw wanted
  active-finished timeout w ended wanted = rw wanted
  active-finished canceled w ended wanted = rw wanted
  active-finished _ w ended wanted = cc

  pub reconcile-finished :
      (w : World P)
      → IsLive P task
      → is_terminal task.status.phase ≡ true
      → task.spec.canceled ≡ false
      → reconcile_task task w ≡ timeout_first w
  unfolding reconcile_task reconcile_started
  reconcile-finished w live ended wanted =
      rw (live.kept, live.held)
        (active-finished task.status.phase w ended wanted
          ∙ started-finished task.status.phase w ended)

  timeout-no_deletion :
      (w : World P) → deletes_task (reconcile_timeout task w).1.requests ≡ deletes_task w.requests
  unfolding reconcile_timeout ◌>>=◌
  timeout-no_deletion w = ground arith

  timeout_writes :
      (w : World P) (r : ReconcileResult)
      → (reconcile_timeout task w).0 ≡ ok r
      → (reconcile_timeout task w).1.requests
        ≡ update_status (
            with_status task (record (task.status) {
              phase = timeout;
              completion_time = some (P.clock w.readings);
              reason = "Timeout";
              message = "Task execution exceeded the timeout limit.";
            }))
          ∷ (delete_timed_out_pod task w).1.requests
  unfolding reconcile_timeout ◌>>=◌
  timeout_writes w r done = ground arith

  module _ (w : World P) (start completion : Time) (ttl : ℤ) where
    abbrev clock_now : Time
    clock_now = P.clock w.readings

    abbrev clock_next : Time
    clock_next = P.clock (w.readings + 1)

    abbrev fresh : World P
    fresh = record w { requests = [] }

    abbrev in_window : Bool
    in_window =
        not (ltb_ℤ (start +ℤ timeout_budget task.spec.timeout_seconds) clock_now)
        && ltb_ℤ (expiration completion ttl) clock_next

    finished_window :
        IsFinished task start completion ttl
        → deletes_task (timeout_first fresh).1.requests ≡ in_window
    unfolding check_timeout reconcile_finished ◌>>=◌
    finished_window f =
        ground (arith, timeout-no_deletion (record w { requests = []; readings = w.readings + 1 }))

    -- A reconciliation of a live, finished task that has a limit, a time to live and both times, and
    -- is not flagged as canceled, asks for its deletion exactly when the first reading of the clock is
    -- not past the start by more than the limit and two seconds, and the reading after it is past the
    -- completion by more than the time to live. Otherwise no deletion is asked for, whatever the
    -- cluster answers.
    pub deletion_window :
        IsLive P task
        → IsFinished task start completion ttl
        → (deletes_task (sent (reconcile_task task) w) ≡ true) ↔ (
            (clock_now ≤ℤ start +ℤ timeout_budget task.spec.timeout_seconds)
            × (expiration completion ttl <ℤ clock_next))
    deletion_window live f =
        let same =
          ap (λ (r : Result ReconcileResult × World P). deletes_task r.1.requests)
            (reconcile-finished fresh live f.ended f.wanted) in
        ground (arith, same ∙ finished_window f)

    unexpired_run :
        IsFinished task start completion ttl
        → clock_now ≤ℤ start +ℤ timeout_budget task.spec.timeout_seconds
        → clock_next ≤ℤ expiration completion ttl
        → timeout_first fresh ≡ (
          ok (record {
            requeue = false;
            requeue_after = sub_time (expiration completion ttl) (P.clock (w.readings + 1 + 1));
          }),
          record fresh { readings = w.readings + 1 + 1 + 1 },
        )
    unfolding check_timeout reconcile_finished ◌>>=◌
    unexpired_run f early young = ground arith

    -- A live, finished task that is neither past its limit nor, at the reading after, past its time to
    -- live sends no request, and is queued again after a positive delay exactly when the reading that
    -- follows is before the expiration. So where the clock reaches the expiration between the two
    -- readings, the task is neither deleted nor queued again.
    pub unexpired_requeue :
        IsLive P task
        → IsFinished task start completion ttl
        → clock_now ≤ℤ start +ℤ timeout_budget task.spec.timeout_seconds
        → clock_next ≤ℤ expiration completion ttl
        → (r : ReconcileResult) × ((reconcile_task task fresh).0 ≡ ok r)
          × (sent (reconcile_task task) w ≡ [])
          × (r.requeue ≡ false)
          × ((pos 0 <ℤ r.requeue_after)
              ↔ (P.clock (w.readings + 1 + 1) <ℤ expiration completion ttl))
    unexpired_requeue live f early young =
        let run = reconcile-finished fresh live f.ended f.wanted ∙ unexpired_run f early young in
        let r : ReconcileResult = record {
          requeue = false;
          requeue_after = sub_time (expiration completion ttl) (P.clock (w.readings + 1 + 1));
        } in
        (
          r,
          ap (λ (x : Result ReconcileResult × World P). x.0) run,
          ap (λ (x : Result ReconcileResult × World P). x.1.requests) run,
          refl,
          sub_time_pos _ _,
        )

    late_run :
        IsFinished task start completion ttl
        → start +ℤ timeout_budget task.spec.timeout_seconds <ℤ clock_now
        → timeout_first fresh ≡ reconcile_timeout task (record fresh { readings = w.readings + 1 })
    unfolding check_timeout ◌>>=◌
    late_run f late = ground arith

    -- Reconciling such a task once the clock is past the start by more than the limit and two seconds
    -- returns no error only after a status with the phase timeout, a new completion time and the
    -- reason Timeout is sent as the last request, whatever terminal phase the task was in.
    pub finished_task_overwritten :
        IsLive P task
        → IsFinished task start completion ttl
        → start +ℤ timeout_budget task.spec.timeout_seconds <ℤ clock_now
        → (r : ReconcileResult) → (reconcile_task task fresh).0 ≡ ok r
        → (before : List Request) × (sent (reconcile_task task) w
            ≡ update_status (
                with_status task (record (task.status) {
                  phase = timeout;
                  completion_time = some clock_next;
                  reason = "Timeout";
                  message = "Task execution exceeded the timeout limit.";
                }))
              ∷ before)
    finished_task_overwritten live f late r done =
        let run = reconcile-finished fresh live f.ended f.wanted ∙ late_run f late in
        let w' : World P = record fresh { readings = w.readings + 1 } in
        (
          (delete_timed_out_pod task w').1.requests,
          ap (λ (x : Result ReconcileResult × World P). x.1.requests) run
              ∙ timeout_writes w' r
                  (sym (ap (λ (x : Result ReconcileResult × World P). x.0) run) ∙ done),
        )
