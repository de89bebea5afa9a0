-- ===== src/Agentctl/Requests.antt =====
-- cmd/agentctl/cmd: which requests the commands send.
use agenttask_operator.Base.{◌≡◌, refl, String, List, [], ◌∷◌, All}
use agenttask_operator.Api.Task.{AgentTask}
use agenttask_operator.Platform
use agenttask_operator.Platform.{Platform, Request, Result, Error, ok, err}
use agenttask_operator.Platform.Exec.{World, Exec}
use agenttask_operator.Platform.Sends.{
  sent, Sends, Sends-if, Sends-Option, Sends-bind, Sends-bind_attempt, sent-All, sends_rules,
}
use agenttask_operator.Text.{Bytes}
use agenttask_operator.Agentctl.{Tools, Flags, Report}
use agenttask_operator.Agentctl.Commands.{
  Action, run, list, get, describe, logs, delete, key, submitted, well_formed, age, list_rows,
  run_command, list_command, get_command, describe_command, delete_command, logs_command, command,
  agentctl,
}

-- What an action may ask of the server, by its arguments.
pub data Asks (T : Tools) (flags : Flags) : Action → List Bytes → Request → Type 0 where
  lists : (args : List Bytes) → Asks T flags list args (Platform.list_tasks flags.namespace)
  gets : (name : Bytes) → Asks T flags get (name ∷ []) (Platform.get_task (key flags (T.text name)))
  describes :
      (name : Bytes)
      → Asks T flags describe (name ∷ []) (Platform.get_task (key flags (T.text name)))
  logs_of :
      (name : Bytes) → Asks T flags logs (name ∷ []) (Platform.get_task (key flags (T.text name)))
  deletes :
      (name : Bytes)
      → Asks T flags delete (name ∷ []) (Platform.delete_task (key flags (T.text name)))
  submits :
      (path : Bytes) (content : String)
      → T.read_file path ≡ ok content
      → Asks T flags run (path ∷ []) (Platform.create_task (submitted T flags path content))

module _ {P : Platform} {Q : Request → Type 0} where
  Sends-Result {ℓ} :
      {A : Type ℓ} (r : Result A) (f : A → Exec P Report) (g : Error → Exec P Report)
      → ((a : A) → r ≡ ok a → Sends Q (f a))
      → ((e : Error) → Sends Q (g e))
      → Sends Q (elim r [ ok a ↦ f a | err e ↦ g e ])
  Sends-Result (ok a) f g hf hg = hf a refl
  Sends-Result (err e) f g hf hg = hg e

module _ {P : Platform} (T : Tools) (flags : Flags) where
  age-Sends : {Q : Request → Type 0} (task : AgentTask) → Sends {P = P} Q (age T flags task)
  unfolding age
  age-Sends task =
      Sends-Option task.meta.creation_timestamp _ _ (search sends_rules) (λ t. search sends_rules)

  list_rows-Sends :
      {Q : Request → Type 0} (tasks : List AgentTask) → Sends {P = P} Q (list_rows T flags tasks)
  unfolding list_rows
  list_rows-Sends {Q} [] = search sends_rules
  list_rows-Sends {Q} (task ∷ tasks) =
      Sends-bind _ _ (age-Sends task)
        (λ a. Sends-bind _ _ (list_rows-Sends {Q = Q} tasks) (λ rows. search sends_rules))

  command-Sends :
      (action : Action) (args : List Bytes)
      → Sends {P = P} (Asks T flags action args) (command T flags action args)
  unfolding command run_command list_command get_command describe_command delete_command
      logs_command
  command-Sends list args = search (sends_rules, list_rows-Sends, lists)
  command-Sends run (path ∷ []) =
      Sends-Result (T.read_file path) _ _ (λ content e. search (sends_rules, submits))
        (λ e. search sends_rules)
  command-Sends get (name ∷ []) =
      Sends-bind_attempt _ _ (search (sends_rules, gets))
        (λ task.
          Sends-Result (T.yaml task) _ _ (λ t e. search sends_rules) (λ e. search sends_rules))
        (λ e. search sends_rules)
  command-Sends describe (name ∷ []) = search (sends_rules, describes)
  command-Sends logs (name ∷ []) = search (sends_rules, logs_of)
  command-Sends delete (name ∷ []) = search (sends_rules, deletes)
  command-Sends _ args = search sends_rules

  agentctl-Sends :
      (action : Action) (args : List Bytes)
      → Sends {P = P} (Asks T flags action args) (agentctl T flags action args)
  unfolding agentctl
  agentctl-Sends action args =
      Sends-if (well_formed action args) _ _
        (λ _.
          Sends-Result T.get_config _ _
            (λ u e.
              Sends-Result T.new_client _ _ (λ v f. command-Sends action args)
                (λ e. search sends_rules))
            (λ e. search sends_rules))
        (λ _. command-Sends action args)

  -- Whatever the server answers, `list` asks only for the list of the tasks of its namespace, `get`,
  -- `describe` and `logs` only for the task that is named, in that namespace, `delete` only for that
  -- task's deletion, and `run` only for the creation of a task with the content of the file as its
  -- source; without exactly one argument all but `list` ask for nothing.
  pub commands_ask_only :
      (action : Action) (args : List Bytes) (w : World P)
      → All (Asks T flags action args) (sent (agentctl T flags action args) w)
  commands_ask_only action args w =
      sent-All (agentctl T flags action args) (agentctl-Sends action args) w
