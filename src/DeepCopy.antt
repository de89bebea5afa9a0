-- ===== src/DeepCopy.antt =====
-- api/v1alpha1/zz_generated.deepcopy.go: the objects as they lie in memory. A pointer or a slice is the
-- address of a cell, or nil; a slice's cell is its backing array. Strings and numbers lie in the object.
pub mod Regions
pub mod Functions
pub mod Meaning
pub mod Parts
pub mod StatusCopy
pub mod Objects
pub mod Sharing
pub mod ListCopy
use agenttask_operator.Base.{ℕ, ◌+◌, Bool, String, Option, none, some, List, ◌=?◌, if◌then◌else◌}
use agenttask_operator.Base.Int.{ℤ}
use agenttask_operator.Api.Core.{ObjectReference}
use agenttask_operator.Api.Task.{AgentTaskPhase, ExecutionResult}

abbrev pub Pointer : Type 0
Pointer = Option ℕ

-- The objects of k8s.io/api and apimachinery that lie in the repository's, and what else their packages
-- keep in memory. `ListView` is what a list's metadata stands for.
pub record Types : Type 1 where
  pub Meta : Type 0
  pub ListMeta : Type 0
  pub ListView : Type 0
  pub Resources : Type 0
  pub Selector : Type 0
  pub Condition : Type 0
  pub Inner : Type 0

pub record TypeMeta : Type 0 where
  pub kind : String
  pub api_version : String

pub record CodeStruct : Type 0 where
  pub source : String
  pub config_map_ref : Pointer

pub record SpecStruct (F : Types) : Type 0 where
  pub runtime_profile : String
  pub code : CodeStruct
  pub resources : F.Resources
  pub timeout_seconds : ℤ
  pub backend : String
  pub tenant : String
  pub canceled : Bool
  pub ttl_seconds_after_finished : Pointer

pub record StatusStruct : Type 0 where
  pub phase : AgentTaskPhase
  pub pod_ref : ObjectReference
  pub result : Pointer
  pub conditions : Pointer
  pub exit_code : ℤ
  pub reason : String
  pub message : String
  pub start_time : Pointer
  pub completion_time : Pointer

pub record TaskStruct (F : Types) : Type 0 where
  pub type_meta : TypeMeta
  pub meta : F.Meta
  pub spec : SpecStruct F
  pub status : StatusStruct

pub record ListStruct (F : Types) : Type 0 where
  pub type_meta : TypeMeta
  pub meta : F.ListMeta
  pub items : Pointer

-- What lies at an address.
pub data Cell (F : Types) : Type 0 where
  seconds : ℤ → Cell F
  result : ExecutionResult → Cell F
  selector : F.Selector → Cell F
  conditions : List F.Condition → Cell F
  code : CodeStruct → Cell F
  spec : SpecStruct F → Cell F
  status : StatusStruct → Cell F
  task : TaskStruct F → Cell F
  tasks : List (TaskStruct F) → Cell F
  task_list : ListStruct F → Cell F
  inner : F.Inner → Cell F

-- The addresses from `next` on are free.
pub record Heap (F : Types) : Type 0 where
  pub next : ℕ
  pub cell : ℕ → Option (Cell F)

-- `none` is a fault: a pointer to no object of its type.
abbrev pub Cmd : Types → Type 0 → Type 0
Cmd F A = Heap F → Option (A × Heap F)

module _ {F : Types} where
  abbrev pub pure : {A : Type 0} → A → Cmd F A
  pure a h = some (a, h)

  infixl 5 ◌>>=◌
  abbrev pub ◌>>=◌ : {A B : Type 0} → Cmd F A → (A → Cmd F B) → Cmd F B
  ◌>>=◌ m f h = elim (m h) [ none ↦ none | some (a, h') ↦ f a h' ]

  abbrev pub update : (ℕ → Option (Cell F)) → ℕ → Option (Cell F) → ℕ → Option (Cell F)
  update f p c q = if p =? q then c else f q

  -- new, with what is then written there
  unfoldable pub alloc : Cell F → Cmd F ℕ
  alloc c h = some (h.next, record { next = h.next + 1; cell = update h.cell h.next (some c) })

  -- `*p`, for a pointer to objects of one type
  unfoldable pub load : {V : Type 0} → (Cell F → Option V) → ℕ → Cmd F V
  load project p h = elim (h.cell p) [
    | none ↦ none
    | some c ↦ elim (project c) [ none ↦ none | some v ↦ some (v, h) ]
  ]

  -- `*p = c`
  unfoldable pub store : ℕ → Cell F → Heap F → Heap F
  store p c h = record h { cell = update h.cell p (some c) }
