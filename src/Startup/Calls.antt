-- ===== src/Startup/Calls.antt =====
-- cmd/main.go: the calls that set the process up, in their order.
use agenttask_operator.Base.{
  ◌≡◌, sym, Bool-cases, ◌==◌, String, Option-cases, none, some, List, [], ◌∷◌, ◌++◌, inl, inr,
  if◌then◌else◌,
}
use mathlib.Core.Path.{subst}
use agenttask_operator.Platform.{Error}
use agenttask_operator.Startup.{
  Options, Call, new_manager, complete_controller, complete_webhook, agent_task_webhook,
  add_healthz_check, add_readyz_check, start, Runtime, Ending, agent_task_controller,
  manager_options, or_exit, serve, set_up_webhook, set_up, main,
}

-- The calls of a process that is set up whole, each with the error that is logged if it fails.
abbrev pub Planned : Type 0
Planned = Call × String

abbrev webhook_setup : List Planned
webhook_setup = (complete_webhook agent_task_webhook, "unable to create webhook") ∷ []

abbrev serving : List Planned
serving =
    (add_healthz_check "healthz", "unable to set up health check")
    ∷ (add_readyz_check "readyz", "unable to set up ready check")
    ∷ (start, "problem running manager")
    ∷ []

abbrev pub plan : Runtime → Options → List Planned
plan R o =
    (new_manager (manager_options o), "unable to start manager")
    ∷ (complete_controller agent_task_controller, "unable to create controller")
    ∷ ((if R.getenv "ENABLE_WEBHOOKS" == "false" then [] else webhook_setup) ++ serving)

-- The first calls of a list, up to one that fails.
pub data Runs (R : Runtime) : List Call → List Planned → Ending → Type 0 where
  finished :
      (calls : List Call) → Runs R calls [] (record { calls = calls; status = 0; logged = none })
  stopped :
      (calls : List Call) (c : Call) (message : String) (rest : List Planned) (e : Error)
      → R.failure calls c ≡ some e
      → Runs R calls
          ((c, message) ∷ rest)
          (record { calls = c ∷ calls; status = 1; logged = some message })
  called :
      (calls : List Call) (c : Call) (message : String) (rest : List Planned) (r : Ending)
      → R.failure calls c ≡ none
      → Runs R (c ∷ calls) rest r
      → Runs R calls ((c, message) ∷ rest) r

module _ (R : Runtime) where
  or_exit-Runs :
      (c : Call) (message : String) (next : List Call → Ending) (rest : List Planned)
      (calls : List Call)
      → ((seen : List Call) → Runs R seen rest (next seen))
      → Runs R calls ((c, message) ∷ rest) (or_exit R c message next calls)
  unfolding or_exit
  or_exit-Runs c message next rest calls h = elim (Option-cases (R.failure calls c)) [
    | inl f ↦ rw (f, or_exit) (called calls c message rest (next (c ∷ calls)) f (h (c ∷ calls)))
    | inr (e, f) ↦ rw (f, or_exit) (stopped calls c message rest e f)
  ]

  serve-Runs : (calls : List Call) → Runs R calls serving (serve R calls)
  unfolding serve
  serve-Runs calls = search (or_exit-Runs, finished)

  webhook-Runs :
      (calls : List Call)
      → Runs R calls
          ((if R.getenv "ENABLE_WEBHOOKS" == "false" then [] else webhook_setup) ++ serving)
          (set_up_webhook R calls)
  unfolding set_up_webhook
  webhook-Runs calls = elim (Bool-cases (R.getenv "ENABLE_WEBHOOKS" == "false")) [
    | inl e ↦ rw e (serve-Runs calls)
    | inr e ↦ rw e (search (or_exit-Runs, serve-Runs))
  ]

  set_up-Runs : (o : Options) → Runs R [] (plan R o) (set_up R o [])
  unfolding set_up
  set_up-Runs o = search (or_exit-Runs, webhook-Runs)

  main-set_up : (o : Options) → R.died ≡ none → main R o ≡ set_up R o []
  unfolding main
  main-set_up o d = simp (d, main)

  -- Once it has its configuration, the process makes the manager with the options of its flags, completes
  -- the controller, completes the webhook unless ENABLE_WEBHOOKS is "false", adds both health checks and
  -- starts the manager, in this order; it stops at the first of these calls that fails, with the status 1
  -- and an error in its log, and ends with the status 0 if none fails.
  pub main-Runs : (o : Options) → R.died ≡ none → Runs R [] (plan R o) (main R o)
  main-Runs o d = subst (Runs R [] (plan R o)) (sym (main-set_up o d)) (set_up-Runs o)
