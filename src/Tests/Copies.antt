-- ===== src/Tests/Copies.antt =====
-- Deep copies of a finished task that lies in a small memory.
use agenttask_operator.Base.{
  ℕ, ◌=?◌, if◌then◌else◌, ◌+◌, ◌≤◌, ◌≡◌, refl, ◌∙◌, inl, Option, none, some, [], ◌∷◌, arith,
}
use agenttask_operator.Base.Int.{pos}
use agenttask_operator.Api.Core.{
  Time, ObjectMeta, ResourceRequirements, ConfigMapKeySelector, Condition,
}
use agenttask_operator.Api.Task.{AgentTask, ExecutionResult, succeeded}
use agenttask_operator.DeepCopy.{
  Types, TypeMeta, TaskStruct, ListStruct, Cell, Heap, Cmd, pure, ◌>>=◌, alloc, load, store, update,
}
use agenttask_operator.DeepCopy.Regions.{
  Copied, Holds, Below, Since, Nowhere, Extends, Extends-alloc, Makes,
}
use agenttask_operator.DeepCopy.Functions.{
  Library, copy_task, copy_task_object, copy_list, copy_list_object,
}
use agenttask_operator.DeepCopy.Meaning.{Same, TaskStands}
use agenttask_operator.DeepCopy.Parts.{AtCell, pointed, load_at, same_self, bind_at, pure-Makes}
use agenttask_operator.DeepCopy.Sharing.{
  TaskAt, TtlAt, TtlReads, copy_task-TaskAt, copy_task_shares_ttl,
}
use agenttask_operator.DeepCopy.ListCopy.{ListAt, ListTtl, copy_list-ListAt}
use agenttask_operator.Tests.Fixtures.{finished}

-- Types of other packages as plain values, with times in cells.
abbrev plain : Types
plain = record {
  Meta = ObjectMeta;
  ListMeta = Unit;
  ListView = Unit;
  Resources = ResourceRequirements;
  Selector = ConfigMapKeySelector;
  Condition = Condition;
  Inner = Time;
}

abbrev plain_copied : {A : Type 0} → Copied plain A A
plain_copied = record {
  Stands = Same;
  copy = pure;
  copied = λ v a h q. pure-Makes Nowhere (λ w. Same w a) v h (λ g same. q h (λ r l. refl));
}

abbrev as_inner : Cell plain → Option Time
as_inner (Cell.inner t) = some t
as_inner _ = none

abbrev copy_inner : ℕ → Cmd plain ℕ
copy_inner p = do t ← load as_inner p; alloc (Cell.inner t)

inner_Makes :
    (p : ℕ) (t : Time) (h : Heap plain)
    → Holds (Below h.next) h (AtCell as_inner Cell.inner (λ v. refl) (λ v. Same v t) p)
    → Makes Nowhere (AtCell as_inner Cell.inner (λ v. refl) (λ v. Same v t)) (copy_inner p) h
unfolding alloc
inner_Makes p t h q =
    let (v, e, s) = pointed as_inner Cell.inner (λ v. refl) (λ v. Same v t) p h q in
    record {
      value = h.next;
      heap = record { next = h.next + 1; cell = update h.cell h.next (some (Cell.inner v)) };
      returns =
          bind_at (load as_inner p) (λ w. alloc (Cell.inner w)) v h h
            (load_at as_inner Cell.inner (λ v. refl) (λ v. Same v t) p v h e);
      extends = Extends-alloc (Cell.inner v) h;
      stands = λ g same. (
        v,
        same h.next (inl (omega arith, omega arith)) ∙ rw (same_self h.next) refl,
        s h (λ r l. refl),
      );
    }

abbrev library : Library plain
library = record {
  meta = plain_copied;
  list_meta = plain_copied;
  resources = plain_copied;
  selector = plain_copied;
  condition = plain_copied;
  time = record {
    Stands = λ p t. AtCell as_inner Cell.inner (λ v. refl) (λ v. Same v t) p;
    copy = copy_inner;
    copied = inner_Makes;
  };
}

abbrev kind : TypeMeta
kind = record { kind = "AgentTask"; api_version = "execution.agenttask.io/v1alpha1" }

abbrev key : ConfigMapKeySelector
key = record { name = "scripts"; key = "main.py" }

abbrev ready : Condition
ready = record { kind = "Ready"; status = "False"; reason = "Done"; message = "" }

abbrev output : ExecutionResult
output = record { json = "{}" }

-- A finished task with a time to live, a result, a condition and code in a config map.
abbrev done_task : AgentTask
done_task = record (finished succeeded) {
  spec = record (finished succeeded).spec {
    code = record { source = ""; config_map_ref = some key };
  };
  status = record (finished succeeded).status { result = some output; conditions = ready ∷ [] };
}

abbrev done_struct : TaskStruct plain
done_struct = record {
  type_meta = kind;
  meta = done_task.meta;
  spec = record {
    runtime_profile = done_task.spec.runtime_profile;
    code = record { source = ""; config_map_ref = some 5 };
    resources = done_task.spec.resources;
    timeout_seconds = done_task.spec.timeout_seconds;
    backend = "";
    tenant = "";
    canceled = done_task.spec.canceled;
    ttl_seconds_after_finished = some 1;
  };
  status = record {
    phase = succeeded;
    pod_ref = done_task.status.pod_ref;
    result = some 2;
    conditions = some 6;
    exit_code = pos 0;
    reason = "";
    message = "";
    start_time = some 3;
    completion_time = some 4;
  };
}

abbrev list_struct : ListStruct plain
list_struct = record { type_meta = kind; meta = tt; items = some 7 }

abbrev cell_at : ℕ → Option (Cell plain)
cell_at p =
    if p =? 0
    then some (Cell.task done_struct)
    else if p =? 1
    then some (Cell.seconds (pos 30))
    else if p =? 2
    then some (Cell.result output)
    else if p =? 3
    then some (Cell.inner (pos 0))
    else if p =? 4
    then some (Cell.inner (pos 10000000000))
    else if p =? 5
    then some (Cell.selector key)
    else if p =? 6
    then some (Cell.conditions (ready ∷ []))
    else if p =? 7
    then some (Cell.tasks (done_struct ∷ []))
    else if p =? 8
    then some (Cell.task_list list_struct)
    else none

-- The task lies at 0, and a list of it at 8.
abbrev memory : Heap plain
memory = record { next = 9; cell = cell_at }

abbrev done_view : TypeMeta × AgentTask
done_view = (kind, done_task)

struct_stands : Holds (Below 9) memory (TaskStands library done_struct done_view)
struct_stands g same = record {
  type_meta = refl;
  meta = refl;
  spec = record {
    runtime_profile = refl;
    code = record { source = refl; config_map_ref = (key, same 5 (omega arith), refl) };
    resources = refl;
    timeout_seconds = refl;
    backend = refl;
    tenant = refl;
    canceled = refl;
    ttl = (pos 30, same 1 (omega arith), refl);
  };
  status = record {
    phase = refl;
    pod_ref = refl;
    result = (output, same 2 (omega arith), refl);
    conditions = (ready ∷ [], same 6 (omega arith), (refl, tt));
    exit_code = refl;
    reason = refl;
    message = refl;
    start_time = (pos 0, same 3 (omega arith), refl);
    completion_time = (pos 10000000000, same 4 (omega arith), refl);
  };
}

task_stands : Holds (Below 9) memory (TaskAt library done_view 0)
task_stands g same = (done_struct, same 0 (omega arith), struct_stands g same)

list_stands : Holds (Below 9) memory (ListAt library (kind, tt, done_view ∷ []) 8)
list_stands g same = (
  list_struct,
  same 8 (omega arith),
  record {
    type_meta = refl;
    meta = refl;
    items = (done_struct ∷ [], same 7 (omega arith), (struct_stands g same, tt));
  },
)

copy_task-TaskAt_example :
    (q : ℕ) × (h' : Heap plain) × (copy_task library (some 0) memory ≡ some (some q, h'))
    × (copy_task_object library (some 0) memory ≡ some (some q, h'))
    × Extends memory h'
    × (9 ≤ q)
    × Holds (Below 9) h' (TaskAt library done_view 0)
    × Holds (Since (TtlAt memory 0) memory h') h' (TaskAt library done_view q)
copy_task-TaskAt_example = copy_task-TaskAt library 0 done_view memory task_stands

copy_task_shares_ttl_example :
    (q : ℕ) × (h' : Heap plain) × (copy_task library (some 0) memory ≡ some (some q, h'))
    × TtlReads (pos 0) 0 (store 1 (Cell.seconds (pos 0)) h')
    × TtlReads (pos 0) q (store 1 (Cell.seconds (pos 0)) h')
copy_task_shares_ttl_example =
    copy_task_shares_ttl library 0 1 done_view (pos 0) memory task_stands (done_struct, refl, refl)

copy_list-ListAt_example :
    (q : ℕ) × (h' : Heap plain) × (copy_list library (some 8) memory ≡ some (some q, h'))
    × (copy_list_object library (some 8) memory ≡ some (some q, h'))
    × Extends memory h'
    × (9 ≤ q)
    × Holds (Below 9) h' (ListAt library (kind, tt, done_view ∷ []) 8)
    × Holds (Since (ListTtl memory 8) memory h') h' (ListAt library (kind, tt, done_view ∷ []) q)
copy_list-ListAt_example = copy_list-ListAt library 8 (kind, tt, done_view ∷ []) memory list_stands
