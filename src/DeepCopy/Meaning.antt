-- ===== src/DeepCopy/Meaning.antt =====
-- api/v1alpha1: what an object in memory stands for, as a value of the model.
use agenttask_operator.Base.{◌≡◌, Option, none, some, List, [], ◌∷◌}
use agenttask_operator.Base.Int.{ℤ}
use agenttask_operator.Api.Task.{CodeSource, AgentTaskSpec, AgentTaskStatus, AgentTask}
use agenttask_operator.DeepCopy.{
  Pointer, Types, TypeMeta, CodeStruct, SpecStruct, StatusStruct, TaskStruct, ListStruct, Cell,
  Heap,
}
use agenttask_operator.DeepCopy.Functions.{Library}

module _ {F : Types} {V A : Type 0} where
  -- nil for nothing, or a pointer to an object that stands for the value.
  abbrev pub AtPointer :
      (V → Cell F) → (V → A → Heap F → Type 0) → Pointer → Option A → Heap F → Type 0
  AtPointer place St none none h = Unit
  AtPointer place St (some p) (some a) h = (v : V) × (h.cell p ≡ some (place v)) × St v a h
  AtPointer place St none (some a) h = ⊥
  AtPointer place St (some p) none h = ⊥

  -- Object by object.
  abbrev pub Each : (V → A → Heap F → Type 0) → List V → List A → Heap F → Type 0
  Each St [] [] h = Unit
  Each St (v ∷ vs) (a ∷ as') h = St v a h × Each St vs as' h
  Each St [] (a ∷ as') h = ⊥
  Each St (v ∷ vs) [] h = ⊥

  -- A nil slice is the empty list.
  abbrev pub AtSlice :
      (List V → Cell F) → (V → A → Heap F → Type 0) → Pointer → List A → Heap F → Type 0
  AtSlice place St none [] h = Unit
  AtSlice place St none (a ∷ as') h = ⊥
  AtSlice place St (some p) l h = (vs : List V) × (h.cell p ≡ some (place vs)) × Each St vs l h

abbrev pub Same {ℓ} : {F : Types} {A : Type ℓ} → A → A → Heap F → Type ℓ
Same v a h = v ≡ a

module _ {F : Types} (L : Library F) where
  abbrev pub AtTime : Pointer → Option ℤ → Heap F → Type 0
  AtTime none none h = Unit
  AtTime (some p) (some t) h = L.time.Stands p t h
  AtTime none (some t) h = ⊥
  AtTime (some p) none h = ⊥

  pub record CodeStands (v : CodeStruct) (a : CodeSource) (h : Heap F) : Type 0 where
    pub source : v.source ≡ a.source
    pub config_map_ref :
        AtPointer Cell.selector L.selector.Stands v.config_map_ref a.config_map_ref h

  pub record SpecStands (v : SpecStruct F) (a : AgentTaskSpec) (h : Heap F) : Type 0 where
    pub runtime_profile : v.runtime_profile ≡ a.runtime_profile
    pub code : CodeStands v.code a.code h
    pub resources : L.resources.Stands v.resources a.resources h
    pub timeout_seconds : v.timeout_seconds ≡ a.timeout_seconds
    pub backend : v.backend ≡ a.backend
    pub tenant : v.tenant ≡ a.tenant
    pub canceled : v.canceled ≡ a.canceled
    pub ttl :
        AtPointer Cell.seconds Same v.ttl_seconds_after_finished a.ttl_seconds_after_finished h

  pub record StatusStands (v : StatusStruct) (a : AgentTaskStatus) (h : Heap F) : Type 0 where
    pub phase : v.phase ≡ a.phase
    pub pod_ref : v.pod_ref ≡ a.pod_ref
    pub result : AtPointer Cell.result Same v.result a.result h
    pub conditions : AtSlice Cell.conditions L.condition.Stands v.conditions a.conditions h
    pub exit_code : v.exit_code ≡ a.exit_code
    pub reason : v.reason ≡ a.reason
    pub message : v.message ≡ a.message
    pub start_time : AtTime v.start_time a.start_time h
    pub completion_time : AtTime v.completion_time a.completion_time h

  -- With the kind and the version, which the model's task leaves out.
  pub record TaskStands (v : TaskStruct F) (a : TypeMeta × AgentTask) (h : Heap F) : Type 0 where
    pub type_meta : v.type_meta ≡ a.0
    pub meta : L.meta.Stands v.meta a.1.meta h
    pub spec : SpecStands v.spec a.1.spec h
    pub status : StatusStands v.status a.1.status h

  -- The value of an AgentTaskList.
  pub record ListStands (v : ListStruct F) (a : TypeMeta × F.ListView × List (TypeMeta × AgentTask))
      (h : Heap F) : Type 0 where
    pub type_meta : v.type_meta ≡ a.0
    pub meta : L.list_meta.Stands v.meta a.1 h
    pub items : AtSlice Cell.tasks TaskStands v.items a.2 h
