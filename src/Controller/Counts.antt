-- ===== src/Controller/Counts.antt =====
-- internal/controller/agenttask_controller.go: how often the end of a task is counted in the metric
-- of all tasks.
use agenttask_operator.Base.{
  ℕ, inl, inr, [], ◌∷◌, ◌+◌, ◌≡◌, Bool, true, false, String, Option, none, some, count, arith,
  if◌then◌else◌,
}
use agenttask_operator.Api.Core.{Pod}
use agenttask_operator.Api.Task.{AgentTask, AgentTaskStatus, AgentTaskReason}
use agenttask_operator.Platform.{
  Platform, Error, Result, Result-cases, ok, err, Request, Metric, inc, observe,
}
use agenttask_operator.Platform.Exec.{
  World, Exec, pure, raise, attempt, send, now, record_metric, ◌>>=◌,
}
use agenttask_operator.Controller.Outcome.{
  observe_duration, record_end, delete_if_present, handle_pod_failure, handle_pod_success,
  update_phase_failure,
}

abbrev is_inc : Metric → Bool
is_inc (inc _ _) = true
is_inc (observe _ _) = false

-- tasksTotal, over all labels.
abbrev pub counted : {P : Platform} → World P → ℕ
counted w = count is_inc w.metrics

-- Where `m` returns no error, it has counted `n` ends.
record Counts {ℓ} {P : Platform} {A : Type ℓ} (n : ℕ) (m : Exec P A) : Type ℓ where
  by : (w : World P) (a : A) → (m w).0 ≡ ok a → counted (m w).1 ≡ n + counted w

module _ {P : Platform} where
  module _ {ℓ} {A : Type ℓ} where
    Counts-pure : (a : A) → Counts {P = P} 0 (pure a)
    unfolding pure
    Counts-pure a = record { by = λ w b e. omega arith }

    Counts-raise : (n : ℕ) (e : Error) → Counts {P = P} {A = A} n (raise e)
    unfolding raise
    Counts-raise n e = record { by = λ w b f. cc f }

  Counts-send : (r : Request) → Counts {P = P} 0 (send r)
  unfolding send
  Counts-send r = record { by = λ w b e. omega arith }

  Counts-attempt-send : (r : Request) → Counts {P = P} 0 (attempt (send r))
  unfolding send attempt
  Counts-attempt-send r = record { by = λ w b e. omega arith }

  Counts-now : Counts {P = P} 0 now
  unfolding now
  Counts-now = record { by = λ w b e. omega arith }

  Counts-record_metric : (m : Metric) → Counts {P = P} (count is_inc (m ∷ [])) (record_metric m)
  unfolding record_metric
  Counts-record_metric m = record { by = λ w b e. ground arith }

  module _ {ℓ κ} {A : Type ℓ} {B : Type κ} where
    Counts-bind :
        (n k : ℕ) (m : Exec P A) (f : A → Exec P B)
        → Counts n m
        → ((a : A) → Counts k (f a))
        → Counts (k + n) (m >>= f)
    unfolding ◌>>=◌
    Counts-bind n k m f hm hf = record {
      by = λ w b e. elim (Result-cases (m w).0) [
        | inl (a, g) ↦ rw g (omega (arith, (hf a).by (m w).1 b (rw g at e), hm.by w a g))
        | inr (x, g) ↦ absurd (cc (rw g at e))
      ];
    }

  module _ {ℓ} {A : Type ℓ} (n : ℕ) where
    Counts-if :
        (b : Bool) (l r : Exec P A) → Counts n l → Counts n r → Counts n (if b then l else r)
    Counts-if true l r hl hr = hl
    Counts-if false l r hl hr = hr

  module _ {ℓ κ} {A : Type ℓ} {B : Type κ} (n : ℕ) where
    Counts-Option :
        (o : Option A) (m : Exec P B) (f : A → Exec P B)
        → Counts n m
        → ((a : A) → Counts n (f a))
        → Counts n (elim o [ none ↦ m | some a ↦ f a ])
    Counts-Option none m f hm hf = hm
    Counts-Option (some a) m f hm hf = hf a

    Counts-Result :
        (o : Result A) (m : Error → Exec P B) (f : A → Exec P B)
        → ((e : Error) → Counts n (m e))
        → ((a : A) → Counts n (f a))
        → Counts n (elim o [ ok a ↦ f a | err e ↦ m e ])
    Counts-Result (ok a) m f hm hf = hf a
    Counts-Result (err e) m f hm hf = hm e

  observe_duration-Counts :
      (phase : String) (st : AgentTaskStatus) → Counts {P = P} 0 (observe_duration phase st)
  unfolding observe_duration
  observe_duration-Counts phase st = Counts-Option 0 st.start_time _ _ (Counts-pure tt) (λ start.
      Counts-Option 0 st.completion_time _ _ (Counts-raise 0 _)
        (λ completion. Counts-record_metric _))

  record_end-Counts :
      (phase reason : String) (st : AgentTaskStatus) → Counts {P = P} 1 (record_end phase reason st)
  unfolding record_end
  record_end-Counts phase reason st =
      Counts-bind 1 0 _ _ (Counts-record_metric _) (λ _. observe_duration-Counts phase st)

  ruleset counts_rules = (Counts-attempt-send, Counts-send, record_end-Counts)

  delete_if_present-Counts : (pod : Pod) → Counts {P = P} 0 (delete_if_present pod)
  unfolding delete_if_present
  delete_if_present-Counts pod = Counts-bind 0 0 _ _ (search counts_rules) (λ r.
      Counts-Result 0 r _ _ (λ e. Counts-if 0 e.not_found _ _ (Counts-pure tt) (Counts-raise 0 e))
        (λ _. Counts-pure tt))

  handle_pod_failure-Counts :
      (task : AgentTask) (pod : Pod) → Counts {P = P} 2 (handle_pod_failure task pod)
  unfolding handle_pod_failure
  handle_pod_failure-Counts task pod = Counts-bind 0 2 _ _ Counts-now (λ t.
      Counts-bind 1 1 _ _ (search counts_rules) (λ _.
        Counts-bind 0 1 _ _ (search counts_rules) (λ stored.
          Counts-bind 0 1 _ _ (search (counts_rules, delete_if_present-Counts))
            (λ _. search counts_rules))))

  handle_pod_success-Counts :
      (task : AgentTask) (pod : Pod) → Counts {P = P} 1 (handle_pod_success task pod)
  unfolding handle_pod_success
  handle_pod_success-Counts task pod = Counts-bind 0 1 _ _ Counts-now (λ t.
      Counts-bind 0 1 _ _ (search counts_rules) (λ stored.
        Counts-bind 0 1 _ _ (search (counts_rules, delete_if_present-Counts))
          (λ _. search counts_rules)))

  update_phase_failure-Counts :
      (task : AgentTask) (reason : AgentTaskReason) (message : String)
      → Counts {P = P} 1 (update_phase_failure task reason message)
  unfolding update_phase_failure
  update_phase_failure-Counts task reason message = Counts-bind 0 1 _ _ Counts-now (λ t.
      Counts-bind 1 0 _ _ (search counts_rules)
        (λ _. Counts-bind 0 0 _ _ (search counts_rules) (λ _. Counts-pure tt)))

  -- Where handlePodFailure returns no error, it has counted two ends of the task, whatever the API
  -- answers.
  pub failure_counted_twice :
      (task : AgentTask) (pod : Pod) (w : World P)
      → (handle_pod_failure task pod w).0 ≡ ok tt
      → counted (handle_pod_failure task pod w).1 ≡ 2 + counted w
  failure_counted_twice task pod w = (handle_pod_failure-Counts task pod).by w tt

  -- Where handlePodSuccess and updatePhaseFailure return no error, each has counted one end of the task,
  -- whatever the API answers.
  pub other_ends_counted_once :
      (task : AgentTask) (pod : Pod) (reason : AgentTaskReason) (message : String) (w : World P)
      → (handle_pod_success task pod w).0 ≡ ok tt
      → (update_phase_failure task reason message w).0 ≡ ok tt
      → (counted (handle_pod_success task pod w).1 ≡ 1 + counted w)
        × (counted (update_phase_failure task reason message w).1 ≡ 1 + counted w)
  other_ends_counted_once task pod reason message w done failed = (
    (handle_pod_success-Counts task pod).by w tt done,
    (update_phase_failure-Counts task reason message).by w tt failed,
  )
