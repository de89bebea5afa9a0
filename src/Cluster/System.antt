-- ===== src/Cluster/System.antt =====
-- The small cluster with creations in flight: the webhook validates a creation against what is stored then,
-- and the server stores it later, with other events between.
use agenttask_operator.Base.{
  ℕ, zero, suc, Option, none, some, List, [], ◌∷◌, leb, length, if◌then◌else◌,
}
use agenttask_operator.Api.Task.{AgentTask}
use agenttask_operator.Platform.{ok, err, create_task}
use agenttask_operator.Webhook.{validate_create}
use agenttask_operator.Cluster.{Objects, world_at, serve}
use agenttask_operator.Cluster.Events.{Event, happen}

-- The creations that the webhook has accepted and the server has not stored, of which the server takes
-- `most` at a time.
pub record System : Type 0 where
  pub objects : Objects
  pub waiting : List AgentTask
  pub most : ℕ

-- Beyond that the client is told to try again.
unfoldable pub review : AgentTask → System → System
review task s =
    if leb s.most (length s.waiting)
    then s
    else elim (validate_create task (world_at 0 s.objects)).0 [
      | ok _ ↦ record s { waiting = task ∷ s.waiting }
      | err _ ↦ s
    ]

-- The element at a position, and the others.
unfoldable pub pick : ℕ → List AgentTask → Option (AgentTask × List AgentTask)
pick n [] = none
pick zero (x ∷ xs) = some (x, xs)
pick (suc n) (x ∷ xs) = elim (pick n xs) [ none ↦ none | some p ↦ some (p.0, x ∷ p.1) ]

-- One that waits is stored, or refused where its name is taken.
unfoldable pub store : ℕ → System → System
store n s = elim (pick n s.waiting) [
  | none ↦ s
  | some p ↦ record s { objects = (serve (create_task p.0) s.objects).1; waiting = p.1 }
]

pub data Turn : Type 0 where
  reviews : AgentTask → Turn
  stores : ℕ → Turn
  acts : Event → Turn

unfoldable pub take_turn : Turn → System → System
unfolding review store
take_turn (reviews task) s = review task s
take_turn (stores n) s = store n s
take_turn (acts event) s = record s { objects = happen event s.objects }

unfoldable pub run : List Turn → System → System
unfolding take_turn
run [] s = s
run (turn ∷ turns) s = run turns (take_turn turn s)

-- With nothing in flight.
abbrev pub idle : ℕ → Objects → System
idle most s = record { objects = s; waiting = []; most = most }
