-- ===== src/Cluster/Termination.antt =====
-- Sequences of reconciliations on the small cluster, of any keys and at any times.
use agenttask_operator.Base.{
  ℕ, suc, ◌+◌, ◌≤◌, ◌<◌, ◌≡◌, ◌≢◌, refl, ap, ◌⊎◌, inl, inr, Bool, Bool-cases, true, false, Option,
  none, some, List, [], ◌∷◌, arith,
}
use agenttask_operator.Api.Core.{NamespacedName}
use agenttask_operator.Api.Task.{
  AgentTaskPhase, unset, pending, scheduled, running, succeeded, failed, timeout, canceled,
  is_terminal,
}
use agenttask_operator.Cluster.{Objects, world_at, same_key}
use agenttask_operator.Cluster.Store.{same_key_iff}
use agenttask_operator.Cluster.Refinement.{
  Life, life, Arrow, accepted, placed, rejected, launched, ended, stopped, timed_out, Edge, rest,
  moves, vanishes, doomed, stored_at, reconcile_refines_lifecycle, other_tasks_untouched,
}
use agenttask_operator.Controller.Reconcile.{reconcile}

-- One reconciliation after the other, each of a key and from a reading of the clock on.
unfoldable pub run_all : List (NamespacedName × ℕ) → Objects → Objects
run_all [] s = s
run_all ((k, n) ∷ runs) s = run_all runs (reconcile k (world_at n s)).1.api

pub Life-discrete : Discrete (Option Life)
Life-discrete = hlevel

abbrev tally {ℓ} : {A : Type ℓ} → Dec A → ℕ → ℕ
tally (yes _) n = n
tally (no _) n = suc n

-- How many of the reconciliations change the phase under `k`, or remove the task.
unfoldable pub changes : NamespacedName → List (NamespacedName × ℕ) → Objects → ℕ
changes k [] s = 0
changes k ((j, n) ∷ runs) s =
    let after = (reconcile j (world_at n s)).1.api in
    tally (Life-discrete (life (stored_at k after)) (life (stored_at k s))) (changes k runs after)

rank : Bool → AgentTaskPhase → ℕ
rank _ unset = 0
rank _ pending = 1
rank _ scheduled = 2
rank _ running = 3
rank true timeout = 4
rank true _ = 5
rank false timeout = 5
rank false _ = 4

rank_of : Option Life → ℕ
unfolding rank
rank_of none = 6
rank_of (some l) = rank l.canceled l.phase

stopped_rank :
    (p : AgentTaskPhase)
    → p ≢ succeeded
    → p ≢ failed
    → (canceled ≡ p) ⊎ (rank true p < rank true canceled)
unfolding rank
stopped_rank succeeded a b = absurd (a refl)
stopped_rank failed a b = absurd (b refl)
stopped_rank canceled a b = inl refl
stopped_rank _ a b = inr (omega arith)

timed_out_rank : (p : AgentTaskPhase) → (timeout ≡ p) ⊎ (rank false p < rank false timeout)
unfolding rank
timed_out_rank timeout = inl refl
timed_out_rank _ = inr (omega arith)

ended_rank :
    (c : Bool) (p q : AgentTaskPhase)
    → (p ≡ scheduled) ⊎ (p ≡ running)
    → (q ≡ succeeded) ⊎ (q ≡ failed)
    → rank c p < rank c q
unfolding rank
ended_rank true p q (inl e) (inl f) = rw (e, f) (omega arith)
ended_rank true p q (inl e) (inr f) = rw (e, f) (omega arith)
ended_rank true p q (inr e) (inl f) = rw (e, f) (omega arith)
ended_rank true p q (inr e) (inr f) = rw (e, f) (omega arith)
ended_rank false p q (inl e) (inl f) = rw (e, f) (omega arith)
ended_rank false p q (inl e) (inr f) = rw (e, f) (omega arith)
ended_rank false p q (inr e) (inl f) = rw (e, f) (omega arith)
ended_rank false p q (inr e) (inr f) = rw (e, f) (omega arith)

Arrow-rank : (c : Bool) (p q : AgentTaskPhase) → Arrow c p q → (q ≡ p) ⊎ (rank c p < rank c q)
unfolding rank
Arrow-rank true p q (accepted e f) = inr (rw (e, f) (omega arith))
Arrow-rank false p q (accepted e f) = inr (rw (e, f) (omega arith))
Arrow-rank true p q (placed e f) = inr (rw (e, f) (omega arith))
Arrow-rank false p q (placed e f) = inr (rw (e, f) (omega arith))
Arrow-rank true p q (rejected e f) = inr (rw (e, f) (omega arith))
Arrow-rank false p q (rejected e f) = inr (rw (e, f) (omega arith))
Arrow-rank true p q (launched e f) = inr (rw (e, f) (omega arith))
Arrow-rank false p q (launched e f) = inr (rw (e, f) (omega arith))
Arrow-rank c p q (ended e f) = inr (ended_rank c p q e f)
Arrow-rank c p q (stopped asked a b d f) = rw (asked, f) (stopped_rank p b d)
Arrow-rank c p q (timed_out wanted a f) = rw (wanted, f) (timed_out_rank p)

rank-le : (c : Bool) (p : AgentTaskPhase) → rank c p < 6
unfolding rank
rank-le true unset = omega arith
rank-le true _ = omega arith
rank-le false unset = omega arith
rank-le false _ = omega arith

Edge-rank : (m : Bool) (a b : Option Life) → Edge m a b → (b ≡ a) ⊎ (rank_of a < rank_of b)
unfolding rank_of
Edge-rank m a b (rest e) = inl e
Edge-rank m a b (moves p q c e f arrow) = elim (Arrow-rank c p q arrow) [
  | inl same ↦ inl (rw (e, f, same) refl)
  | inr more ↦ inr (rw (e, f) more)
]
Edge-rank m a b (vanishes p c e over f) = inr (rw (e, f) (rank-le c p))

rank_of-le : (a : Option Life) → rank_of a ≤ 6
unfolding rank_of
rank_of-le none = omega arith
rank_of-le (some l) = omega (arith, rank-le l.canceled l.phase)

-- A reconciliation of any key either leaves the life of the task under `k` or raises its rank.
run-Edge :
    (k j : NamespacedName) (n : ℕ) (s : Objects)
    → Edge
        (doomed (stored_at k s))
        (life (stored_at k s))
        (life (stored_at k (reconcile j (world_at n s)).1.api))
run-Edge k j n s = elim (Bool-cases (same_key k j)) [
  | inl e ↦ rw ((same_key_iff k j).0 e) (reconcile_refines_lifecycle j (world_at n s))
  | inr e ↦ rest (
      ap life
        (other_tasks_untouched j (world_at n s) k (λ same. cc ((same_key_iff k j).1 same, e))))
]

run-rank :
    (k j : NamespacedName) (n : ℕ) (s : Objects)
    → (life (stored_at k (reconcile j (world_at n s)).1.api) ≡ life (stored_at k s))
      ⊎ (rank_of (life (stored_at k s))
          < rank_of (life (stored_at k (reconcile j (world_at n s)).1.api)))
run-rank k j n s = Edge-rank _ _ _ (run-Edge k j n s)

tally_rank :
    (a b : Option Life) (d : Dec (b ≡ a)) (n : ℕ)
    → (b ≡ a) ⊎ (rank_of a < rank_of b)
    → tally d n + rank_of a ≤ n + rank_of b
tally_rank a b (yes e) n h = omega (arith, ap rank_of e)
tally_rank a b (no ne) n (inl e) = absurd (ne e)
tally_rank a b (no ne) n (inr more) = omega arith

changes-rank :
    (k : NamespacedName) (runs : List (NamespacedName × ℕ)) (s : Objects)
    → changes k runs s + rank_of (life (stored_at k s))
      ≤ rank_of (life (stored_at k (run_all runs s)))
unfolding changes run_all
changes-rank k [] s = omega arith
changes-rank k ((j, n) ∷ runs) s =
    let after : Objects = (reconcile j (world_at n s)).1.api in
    omega (
      arith,
      changes-rank k runs after,
      tally_rank (life (stored_at k s)) (life (stored_at k after))
          (Life-discrete (life (stored_at k after)) (life (stored_at k s))) (changes k runs after)
          (run-rank k j n s),
    )

-- However many reconciliations run on the small cluster, of any keys and at any times, at most six of
-- them change the phase stored under a key or remove the task.
pub phase_changes_bounded :
    (k : NamespacedName) (runs : List (NamespacedName × ℕ)) (s : Objects) → changes k runs s ≤ 6
phase_changes_bounded k runs s =
    omega (arith, changes-rank k runs s, rank_of-le (life (stored_at k (run_all runs s))))

-- There is no task, or one in a terminal phase.
abbrev pub IsOver : Option Life → Type 0
IsOver none = Unit
IsOver (some l) = is_terminal l.phase ≡ true

Arrow-terminal :
    (c : Bool) (p q : AgentTaskPhase) → Arrow c p q → is_terminal p ≡ true → is_terminal q ≡ true
Arrow-terminal c p q (accepted e f) h = absurd (cc (rw e at h))
Arrow-terminal c p q (placed e f) h = absurd (cc (rw e at h))
Arrow-terminal c p q (rejected e f) h = absurd (cc (rw e at h))
Arrow-terminal c p q (launched e f) h = absurd (cc (rw e at h))
Arrow-terminal c p q (ended (inl e) f) h = absurd (cc (rw e at h))
Arrow-terminal c p q (ended (inr e) f) h = absurd (cc (rw e at h))
Arrow-terminal c p q (stopped asked a b d f) h = rw f refl
Arrow-terminal c p q (timed_out wanted a f) h = rw f refl

Edge-IsOver : (m : Bool) (a b : Option Life) → Edge m a b → IsOver a → IsOver b
Edge-IsOver m a b (rest e) h = rw e h
Edge-IsOver m a b (moves p q c e f arrow) h = rw f (Arrow-terminal c p q arrow (rw e at h))
Edge-IsOver m a b (vanishes p c e over f) h = rw f tt

-- Where the task under a key is in a terminal phase, or there is none, that is still so after any
-- reconciliations on the small cluster, of any keys and at any times.
pub ended_tasks_stay_ended :
    (k : NamespacedName) (runs : List (NamespacedName × ℕ)) (s : Objects)
    → IsOver (life (stored_at k s))
    → IsOver (life (stored_at k (run_all runs s)))
unfolding run_all
ended_tasks_stay_ended k [] s h = h
ended_tasks_stay_ended k ((j, n) ∷ runs) s h =
    ended_tasks_stay_ended k runs (reconcile j (world_at n s)).1.api
      (Edge-IsOver _ _ _ (run-Edge k j n s) h)
