-- ===== src/DeepCopy/Functions.antt =====
-- api/v1alpha1/zz_generated.deepcopy.go: the functions. `DeepCopyInto` writes its result to `out`, which
-- holds a copy of `in` by then: here it returns what `out` then holds.
use agenttask_operator.Base.{ℕ, Option, none, some, List, [], ◌∷◌}
use agenttask_operator.Base.Int.{ℤ}
use agenttask_operator.Api.Core.{
  Time, ConfigMapKeySelector, Condition, ObjectMeta, ResourceRequirements,
}
use agenttask_operator.Api.Task.{ExecutionResult}
use agenttask_operator.DeepCopy.{
  Pointer, Types, CodeStruct, SpecStruct, StatusStruct, TaskStruct, ListStruct, Cell, Cmd, pure,
  ◌>>=◌, alloc, load,
}
use agenttask_operator.DeepCopy.Regions.{Copied}

-- The deep copies of the packages whose types lie in the repository's. metav1.Time's goes from pointer to
-- pointer.
pub record Library (F : Types) : Type 1 where
  pub meta : Copied F F.Meta ObjectMeta
  pub list_meta : Copied F F.ListMeta F.ListView
  pub resources : Copied F F.Resources ResourceRequirements
  pub selector : Copied F F.Selector ConfigMapKeySelector
  pub condition : Copied F F.Condition Condition
  pub time : Copied F ℕ Time

module _ {F : Types} where
  -- A type of object by its cells.
  abbrev pub as_seconds : Cell F → Option ℤ
  as_seconds (Cell.seconds n) = some n
  as_seconds _ = none

  abbrev pub as_result : Cell F → Option ExecutionResult
  as_result (Cell.result r) = some r
  as_result _ = none

  abbrev pub as_selector : Cell F → Option F.Selector
  as_selector (Cell.selector s) = some s
  as_selector _ = none

  abbrev pub as_conditions : Cell F → Option (List F.Condition)
  as_conditions (Cell.conditions cs) = some cs
  as_conditions _ = none

  abbrev pub as_code : Cell F → Option CodeStruct
  as_code (Cell.code c) = some c
  as_code _ = none

  abbrev pub as_spec : Cell F → Option (SpecStruct F)
  as_spec (Cell.spec s) = some s
  as_spec _ = none

  abbrev pub as_status : Cell F → Option StatusStruct
  as_status (Cell.status s) = some s
  as_status _ = none

  abbrev pub as_task : Cell F → Option (TaskStruct F)
  as_task (Cell.task t) = some t
  as_task _ = none

  abbrev pub as_tasks : Cell F → Option (List (TaskStruct F))
  as_tasks (Cell.tasks ts) = some ts
  as_tasks _ = none

  abbrev pub as_task_list : Cell F → Option (ListStruct F)
  as_task_list (Cell.task_list l) = some l
  as_task_list _ = none

  -- `if in != nil { out = new(T); in.DeepCopyInto(out) }`, and nil for nil.
  unfoldable pub copy_pointer :
      {V : Type 0} → (Cell F → Option V) → (V → Cell F) → (V → Cmd F V) → Pointer → Cmd F Pointer
  copy_pointer project place into none = pure none
  copy_pointer project place into (some p) = do
    v ← load project p
    w ← into v
    q ← alloc (place w)
    pure (some q)

  -- The loop over a slice.
  unfoldable pub copy_each : {V : Type 0} → (V → Cmd F V) → List V → Cmd F (List V)
  copy_each into [] = pure []
  copy_each into (v ∷ vs) = do w ← into v; ws ← copy_each into vs; pure (w ∷ ws)

  -- (*ExecutionResult).DeepCopyInto and DeepCopy
  unfoldable pub copy_result_into : ExecutionResult → Cmd F ExecutionResult
  copy_result_into r = pure r

  unfoldable pub copy_result : Pointer → Cmd F Pointer
  unfolding copy_pointer copy_result_into
  copy_result = copy_pointer as_result Cell.result copy_result_into

module _ {F : Types} (L : Library F) where
  unfoldable pub copy_code_into : CodeStruct → Cmd F CodeStruct
  unfolding copy_pointer
  copy_code_into c = do
    ref ← copy_pointer as_selector Cell.selector L.selector.copy c.config_map_ref
    pure (record c { config_map_ref = ref })

  unfoldable pub copy_code : Pointer → Cmd F Pointer
  unfolding copy_pointer copy_code_into
  copy_code = copy_pointer as_code Cell.code copy_code_into

  -- TTLSecondsAfterFinished is copied with the struct alone.
  unfoldable pub copy_spec_into : SpecStruct F → Cmd F (SpecStruct F)
  unfolding copy_code_into
  copy_spec_into s = do
    code ← copy_code_into s.code
    resources ← L.resources.copy s.resources
    pure (record s { code = code; resources = resources })

  unfoldable pub copy_spec : Pointer → Cmd F Pointer
  unfolding copy_pointer copy_spec_into
  copy_spec = copy_pointer as_spec Cell.spec copy_spec_into

  -- `if in != nil { out = in.DeepCopy() }`
  unfoldable pub copy_time : Pointer → Cmd F Pointer
  copy_time none = pure none
  copy_time (some p) = do q ← L.time.copy p; pure (some q)

  unfoldable pub copy_status_into : StatusStruct → Cmd F StatusStruct
  unfolding copy_pointer copy_each copy_time
  copy_status_into s = do
    result ← copy_pointer as_result Cell.result pure s.result
    conditions ←
        copy_pointer as_conditions Cell.conditions (copy_each L.condition.copy) s.conditions
    start_time ← copy_time s.start_time
    completion_time ← copy_time s.completion_time
    pure (record s {
      result = result;
      conditions = conditions;
      start_time = start_time;
      completion_time = completion_time;
    })

  unfoldable pub copy_status : Pointer → Cmd F Pointer
  unfolding copy_pointer copy_status_into
  copy_status = copy_pointer as_status Cell.status copy_status_into

  unfoldable pub copy_task_into : TaskStruct F → Cmd F (TaskStruct F)
  unfolding copy_spec_into copy_status_into
  copy_task_into t = do
    meta ← L.meta.copy t.meta
    spec ← copy_spec_into t.spec
    status ← copy_status_into t.status
    pure (record t { meta = meta; spec = spec; status = status })

  unfoldable pub copy_task : Pointer → Cmd F Pointer
  unfolding copy_pointer copy_task_into
  copy_task = copy_pointer as_task Cell.task copy_task_into

  -- (*AgentTask).DeepCopyObject: an interface that is nil where the copy is.
  unfoldable pub copy_task_object : Pointer → Cmd F Pointer
  unfolding copy_task
  copy_task_object p = do c ← copy_task p; elim c [ none ↦ pure none | some q ↦ pure (some q) ]

  unfoldable pub copy_list_into : ListStruct F → Cmd F (ListStruct F)
  unfolding copy_pointer copy_each copy_task_into
  copy_list_into l = do
    meta ← L.list_meta.copy l.meta
    items ← copy_pointer as_tasks Cell.tasks (copy_each copy_task_into) l.items
    pure (record l { meta = meta; items = items })

  unfoldable pub copy_list : Pointer → Cmd F Pointer
  unfolding copy_pointer copy_list_into
  copy_list = copy_pointer as_task_list Cell.task_list copy_list_into

  unfoldable pub copy_list_object : Pointer → Cmd F Pointer
  unfolding copy_list
  copy_list_object p = do c ← copy_list p; elim c [ none ↦ pure none | some q ↦ pure (some q) ]
