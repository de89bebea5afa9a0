-- ===== src/Agentctl/Commands.antt =====
-- cmd/agentctl/cmd: the commands, each over the client as it is connected before they run.
use agenttask_operator.Base.{
  ℕ, Bool, true, false, String, ◌<>◌, Option, none, some, List, [], ◌∷◌, ◌++◌, ◌==◌, length,
  if◌then◌else◌,
}
use agenttask_operator.Api.Core.{NamespacedName, Time, empty_meta, no_resources}
use agenttask_operator.Api.Task.{no_status, AgentTask, AgentTaskStatus, ExecutionResult}
use agenttask_operator.Platform.{
  Platform, errorf, errorf_wrap, ok, err, get_task, list_tasks, create_task, delete_task,
}
use agenttask_operator.Platform.Exec.{Exec, pure, attempt, send, now, ◌>>=◌}
use agenttask_operator.Controller.Outcome.{sub_time}
use agenttask_operator.Text.{Bytes}
use agenttask_operator.Agentctl.{Tools, Flags, Report, succeeds, fails, phase_text}
use agenttask_operator.Agentctl.Names.{task_name}

-- The commands.
pub data Action : Type 0 where
  run list get describe logs delete : Action

-- The task that `run` submits.
unfoldable pub submitted : Tools → Flags → Bytes → String → AgentTask
unfolding task_name
submitted T flags path content = record {
  meta = record empty_meta {
    generate_name = T.text (task_name T path) <> "-";
    namespace = flags.namespace;
  };
  spec = record {
    runtime_profile = flags.profile;
    code = record { source = content; config_map_ref = none };
    resources = no_resources;
    timeout_seconds = flags.timeout;
    backend = flags.backend;
    tenant = flags.tenant;
    canceled = false;
    ttl_seconds_after_finished = none;
  };
  status = no_status;
}

-- The lines of `describe`.
unfoldable pub duration_line : Tools → AgentTaskStatus → Time → List String
duration_line T st completion = elim st.start_time [
  | none ↦ []
  | some start ↦ ("  Duration:\t" <> T.human_duration (sub_time completion start)) ∷ []
]

unfoldable pub time_lines : Tools → AgentTaskStatus → List String
unfolding duration_line
time_lines T st =
    (elim st.start_time [ none ↦ [] | some start ↦ ("  Start Time:\t" <> T.rfc3339 start) ∷ [] ])
    ++ (elim st.completion_time [
      | none ↦ []
      | some completion ↦
          ("  Completion Time:\t" <> T.rfc3339 completion) ∷ duration_line T st completion
    ])

-- A line that is printed only if the text is not empty.
abbrev pub text_line : String → String → List String
text_line label text = if text == "" then [] else (label <> text) ∷ []

unfoldable pub result_lines : Option ExecutionResult → List String
result_lines none = []
result_lines (some r) = "" ∷ "Result:" ∷ text_line "  JSON:\t" r.json

unfoldable pub describe_lines : Tools → AgentTask → List String
unfolding time_lines result_lines
describe_lines T task =
    (("Name:\t" <> task.meta.name)
      ∷ ("Namespace:\t" <> task.meta.namespace)
      ∷ ("Labels:\t" <> T.show_map task.meta.labels)
      ∷ ("Annotations:\t" <> T.show_map task.meta.annotations)
      ∷ ""
      ∷ "Status:"
      ∷ [])
    ++ (text_line "  Reason:\t" task.status.reason
        ++ (text_line "  Message:\t" task.status.message
            ++ (time_lines T task.status
                ++ (("" ∷ "Execution:" ∷ text_line "  Pod Name:\t" task.status.pod_ref.name)
                    ++ (("  Exit Code:\t" <> T.show_int task.status.exit_code)
                        ∷ result_lines task.status.result)))))

abbrev pub key : Flags → String → NamespacedName
key flags name = record { name = name; namespace = flags.namespace }

unfoldable pub list_row : AgentTask → String → String
list_row task how_old =
    let phase = phase_text task.status.phase in
    task.meta.name
    <> ("\t"
        <> ((if phase == "" then "Pending" else phase)
            <> ("\t"
                <> (task.status.reason
                    <> ("\t" <> (how_old <> ("\t" <> task.status.pod_ref.name)))))))

-- From 2. Create CoreV1 Client on.
unfoldable pub stream_logs : Tools → AgentTask → Report
stream_logs T task = elim T.get_config [
  | err e ↦ fails [] e
  | ok _ ↦ elim T.new_clientset [
    | err e ↦ fails [] e
    | ok _ ↦ elim (T.pod_logs task.status.pod_ref.namespace task.status.pod_ref.name "task") [
      | err e ↦ fails [] (errorf_wrap "error in opening stream: " e)
      | ok stream ↦
          let (copied, failed) = stream in
          elim failed [
            | none ↦ succeeds (copied ∷ [])
            | some e ↦
                fails (copied ∷ [])
                  (errorf_wrap "error in copy information from podLogs to stdout: " e)
          ]
    ]
  ]
]

abbrev pub well_formed : Action → List Bytes → Bool
well_formed list args = true
well_formed _ (arg ∷ []) = true
well_formed _ args = false

module _ {P : Platform} (T : Tools) (flags : Flags) where
  unfoldable pub run_command : Bytes → Exec P Report
  unfolding submitted
  run_command path = elim (T.read_file path) [
    | err e ↦ pure (fails [] (errorf_wrap "failed to read file: " e))
    | ok content ↦ do
      let first = "Submitting task with code from " <> (T.text path <> "...")
      created ← attempt (send (create_task (submitted T flags path content)))
      elim created [
        | err e ↦ pure (fails (first ∷ []) e)
        | ok task ↦ pure (succeeds (first ∷ ("AgentTask created: " <> task.meta.name) ∷ []))
      ]
  ]

  -- The clock is read for each task that has a time of creation.
  unfoldable pub age : AgentTask → Exec P String
  age task = elim task.meta.creation_timestamp [
    | none ↦ pure "Unknown"
    | some created ↦
        if P.is_zero_time task.meta.creation_timestamp
        then pure "Unknown"
        else do t ← now; pure (T.human_duration (sub_time t created))
  ]

  -- The loop over the items.
  unfoldable pub list_rows : List AgentTask → Exec P (List String)
  unfolding age list_row
  list_rows [] = pure []
  list_rows (task ∷ tasks) = do
    how_old ← age task
    rows ← list_rows tasks
    pure (list_row task how_old ∷ rows)

  unfoldable pub list_command : Exec P Report
  unfolding list_rows
  list_command = do
    listed ← attempt (send (list_tasks flags.namespace))
    elim listed [
      | err e ↦ pure (fails [] e)
      | ok tasks ↦ do
        rows ← list_rows tasks
        pure (succeeds ("NAME\tPHASE\tREASON\tAGE\tPOD" ∷ rows))
    ]

  unfoldable pub get_command : String → Exec P Report
  get_command name = do
    found ← attempt (send (get_task (key flags name)))
    elim found [
      | err e ↦ pure (fails [] e)
      | ok task ↦ elim (T.yaml task) [
        | err e ↦ pure (fails [] e)
        | ok printed ↦ pure (succeeds (printed ∷ []))
      ]
    ]

  unfoldable pub describe_command : String → Exec P Report
  unfolding describe_lines
  describe_command name = do
    found ← attempt (send (get_task (key flags name)))
    elim found [ err e ↦ pure (fails [] e) | ok task ↦ pure (succeeds (describe_lines T task)) ]

  unfoldable pub delete_command : String → Exec P Report
  delete_command name = do
    deleted ← attempt (send (delete_task (key flags name)))
    elim deleted [
      | err e ↦ pure (fails [] e)
      | ok _ ↦ pure (succeeds (("AgentTask " <> (name <> " deleted")) ∷ []))
    ]

  unfoldable pub logs_command : String → Exec P Report
  unfolding stream_logs
  logs_command name = do
    found ← attempt (send (get_task (key flags name)))
    elim found [
      | err e ↦ pure (fails [] (errorf_wrap "failed to get task: " e))
      | ok task ↦
          if task.status.pod_ref.name == ""
          then pure (
              fails [] (
                errorf (
                  "task "
                  <> (name
                      <> (" has no pod assigned yet (Phase: "
                          <> (phase_text task.status.phase <> ")"))))))
          else pure (stream_logs T task)
    ]

  -- The command of an action, by its arguments: cobra tests their number for all but `list`.
  unfoldable pub command : Action → List Bytes → Exec P Report
  unfolding run_command list_command get_command describe_command delete_command logs_command
  command list args = list_command
  command run (path ∷ []) = run_command path
  command get (name ∷ []) = get_command (T.text name)
  command describe (name ∷ []) = describe_command (T.text name)
  command logs (name ∷ []) = logs_command (T.text name)
  command delete (name ∷ []) = delete_command (T.text name)
  command _ args = pure (fails [] (T.argument_error (length args)))

  -- PersistentPreRunE, between cobra's test of the arguments and the command.
  unfoldable pub agentctl : Action → List Bytes → Exec P Report
  unfolding command
  agentctl action args =
      if well_formed action args
      then elim T.get_config [
        | err e ↦ pure (fails [] e)
        | ok _ ↦ elim T.new_client [ err e ↦ pure (fails [] e) | ok _ ↦ command action args ]
      ]
      else command action args

-- Execute: os.Exit(1) where the command returned an error.
abbrev pub exit_code : Report → ℕ
exit_code r = elim r.error [ none ↦ 0 | some _ ↦ 1 ]
