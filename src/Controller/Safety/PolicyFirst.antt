-- ===== src/Controller/Safety/PolicyFirst.antt =====
-- internal/controller/agenttask_controller.go: the order of the network policy and the workload.
use agenttask_operator.Base.{
  ◌≡◌, refl, Bool, true, false, ◌||◌, List, [], ◌∷◌, arith, String, if◌then◌else◌, inl, inr,
}
use agenttask_operator.Api.Core.{NamespacedName, NetworkPolicy, key_of}
use agenttask_operator.Api.Task.{AgentTask}
use agenttask_operator.Platform.{
  Error, Platform, Request, Result, Result-cases, ok, err, get_network_policy,
  create_network_policy, create_pod, create_sandbox,
}
use agenttask_operator.Platform.Exec.{
  World, Exec, pure, raise, send, now, record_metric, ◌>>◌, ◌>>=◌,
}
use agenttask_operator.Platform.Sends.{Sends, IsKept, Sends-Option, sends_rules}
use agenttask_operator.Controller.Resources.{
  owned_key, new_network_policy, ensure_source_config_map, ensure_code_config_map,
  ensure_network_policy,
}
use agenttask_operator.Controller.Phases.{select_and_schedule, reconcile_pending}

abbrev is_workload : Request → Bool
is_workload (create_pod _) = true
is_workload (create_sandbox _) = true
is_workload _ = false

abbrev pub starts_workload : List Request → Bool
starts_workload [] = false
starts_workload (r ∷ rs) = is_workload r || starts_workload rs

abbrev IsQuiet : Request → Type 0
IsQuiet r = is_workload r ≡ false

stays-IsQuiet : {P : Platform} → IsKept {P = P} IsQuiet (λ w. starts_workload w.requests ≡ false)
unfolding send now record_metric
stays-IsQuiet = record {
  by_send = λ w r q h. ground arith;
  by_now = λ w h. h;
  by_metric = λ w m h. h;
}

-- What the API promises of network policies: one that was read, or whose creation was acknowledged, is
-- there when the answer is given.
pub record PolicyView (P : Platform) : Type 1 where
  pub HasPolicy : NamespacedName → P.State → Type 0
  pub has_read :
      (k : NamespacedName) (s : P.State) (n : NetworkPolicy)
      → (P.serve (get_network_policy k) s).0 ≡ ok n
      → HasPolicy k (P.serve (get_network_policy k) s).1
  pub has_created :
      (n : NetworkPolicy) (s : P.State) (stored : NetworkPolicy)
      → (P.serve (create_network_policy n) s).0 ≡ ok stored
      → HasPolicy (key_of n.meta) (P.serve (create_network_policy n) s).1

-- A run of reconcile_pending that got as far as choosing the backend, in the world `reached`: nothing is
-- started yet, and the policy is there.
pub record IsPrepared {P : Platform} (V : PolicyView P) (task : AgentTask) (w : World P)
    : Type 0 where
  pub reached : World P
  pub cm_name : String
  pub nothing_started : starts_workload reached.requests ≡ false
  pub policy : V.HasPolicy (owned_key task "-netpol") reached.api
  pub rest : reconcile_pending task w ≡ select_and_schedule task cm_name reached

module _ {P : Platform} (task : AgentTask) where
  -- What ensure_network_policy does after an error on the lookup.
  abbrev policy_made : Bool → Error → Exec P (Unit {0})
  policy_made missing e =
      if missing
      then (do send (create_network_policy (new_network_policy P task)); pure tt)
      else raise e

  ensure_source_config_map-Sends : Sends {P = P} IsQuiet (ensure_source_config_map task)
  unfolding ensure_source_config_map
  ensure_source_config_map-Sends = search sends_rules

  ensure_code_config_map-Sends : Sends {P = P} IsQuiet (ensure_code_config_map task)
  unfolding ensure_code_config_map
  ensure_code_config_map-Sends =
      Sends-Option task.spec.code.config_map_ref _ _
        (search (sends_rules, ensure_source_config_map-Sends)) (λ ref. search sends_rules)

  ensure_network_policy-Sends : Sends {P = P} IsQuiet (ensure_network_policy task)
  unfolding ensure_network_policy
  ensure_network_policy-Sends = search sends_rules

  -- Where the policy is missing.
  create_missing :
      (V : PolicyView P) (e : Error) (b : Bool) (w : World P)
      → (policy_made b e w).0 ≡ ok tt
      → V.HasPolicy (owned_key task "-netpol") (policy_made b e w).1.api
  unfolding new_network_policy ◌>>=◌
  create_missing V e true w done =
      elim (Result-cases (P.serve (create_network_policy (new_network_policy P task)) w.api).0) [
        | inl (n, made) ↦ rw made (V.has_created (new_network_policy P task) w.api n made)
        | inr (x, failed) ↦ absurd (cc (rw failed at done))
      ]
  create_missing V e false w done = absurd (cc done)

  after_answer :
      (V : PolicyView P) (r : Result NetworkPolicy) (w : World P)
      → ((n : NetworkPolicy) → r ≡ ok n → V.HasPolicy (owned_key task "-netpol") w.api)
      → (elim r as (λ _. Exec P (Unit {0})) [
        | ok _ ↦ pure {P = P} tt
        | err e ↦ policy_made e.not_found e
      ]
          w).0
        ≡ ok tt
      → V.HasPolicy
          (owned_key task "-netpol")
          (elim r as (λ _. Exec P (Unit {0})) [
            | ok _ ↦ pure {P = P} tt
            | err e ↦ policy_made e.not_found e
          ]
            w).1.api
  unfolding pure
  after_answer V (ok n) w there done = there n refl
  after_answer V (err e) w there done = create_missing V e e.not_found w done

  -- The step returns no error only if the policy is there.
  ensure_network_policy-HasPolicy :
      (V : PolicyView P) (w : World P)
      → (ensure_network_policy task w).0 ≡ ok tt
      → V.HasPolicy (owned_key task "-netpol") (ensure_network_policy task w).1.api
  unfolding ensure_network_policy ◌>>=◌
  ensure_network_policy-HasPolicy V w done =
      after_answer V (P.serve (get_network_policy (owned_key task "-netpol")) w.api).0
        (send {P = P} (get_network_policy (owned_key task "-netpol")) w).1
        (V.has_read (owned_key task "-netpol") w.api) done

  code_quiet :
      (w : World P)
      → starts_workload w.requests ≡ false
      → starts_workload (ensure_code_config_map task w).1.requests ≡ false
  code_quiet = ensure_code_config_map-Sends.at _ stays-IsQuiet

  policy_quiet :
      (w : World P)
      → starts_workload w.requests ≡ false
      → starts_workload (ensure_network_policy task w).1.requests ≡ false
  policy_quiet = ensure_network_policy-Sends.at _ stays-IsQuiet

  after_code :
      (V : PolicyView P) (w : World P) (cm : String)
      → starts_workload w.requests ≡ false
      → (ensure_code_config_map task w).0 ≡ ok cm
      → starts_workload (reconcile_pending task w).1.requests ≡ true
      → IsPrepared V task w
  unfolding reconcile_pending ◌>>=◌
  after_code V w cm quiet e started =
      let u : World P = (ensure_code_config_map task w).1 in
      elim (Result-cases (ensure_network_policy task u).0) [
        | inl (done, f) ↦ record {
          reached = (ensure_network_policy task u).1;
          cm_name = cm;
          nothing_started = policy_quiet u (code_quiet w quiet);
          policy = ensure_network_policy-HasPolicy V u f;
          rest = rw e (rw f refl);
        }
        | inr (x, f) ↦ absurd (cc (rw f at (rw e at started), policy_quiet u (code_quiet w quiet)))
      ]

  -- For every platform that keeps to the promises of `PolicyView`: where reconcile_pending started a
  -- workload (it sent a request that creates a pod or a sandbox), the run first reached a world in which
  -- nothing was started and the task's network policy was there, and the rest of the run is the choice
  -- of the backend, the profile and the placement from that world.
  pub workload_after_policy :
      (V : PolicyView P) (w : World P)
      → starts_workload w.requests ≡ false
      → starts_workload (reconcile_pending task w).1.requests ≡ true
      → IsPrepared V task w
  unfolding reconcile_pending ◌>>=◌
  workload_after_policy V w quiet started = elim (Result-cases (ensure_code_config_map task w).0) [
    | inl (cm, e) ↦ after_code V w cm quiet e started
    | inr (x, e) ↦ absurd (cc (rw e at started, code_quiet w quiet))
  ]
