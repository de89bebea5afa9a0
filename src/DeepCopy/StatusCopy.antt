-- ===== src/DeepCopy/StatusCopy.antt =====
-- api/v1alpha1/zz_generated.deepcopy.go: what the copy of an AgentTaskStatus stands for.
use agenttask_operator.Base.{ℕ, ◌<◌, refl, Option, none, some, List, [], ◌∷◌, All}
use agenttask_operator.Base.Int.{ℤ}
use agenttask_operator.Api.Core.{Condition}
use agenttask_operator.Api.Task.{ExecutionResult, AgentTaskStatus}
use agenttask_operator.DeepCopy.{Pointer, Types, StatusStruct, Cell, Heap, pure}
use agenttask_operator.DeepCopy.Regions.{
  Holds, Below, Nowhere, Extends-refl, Extends-trans, source_kept, copy_later, part_kept, Makes,
}
use agenttask_operator.DeepCopy.Functions.{
  Library, copy_time, copy_status_into, copy_pointer, copy_each, as_result, as_conditions,
}
use agenttask_operator.DeepCopy.Meaning.{AtPointer, AtSlice, Same, AtTime, StatusStands}
use agenttask_operator.DeepCopy.Parts.{four_at, bind_at, pure-Makes, pointer_Makes, slice_Makes}

module _ {F : Types} (L : Library F) where
  All-any : {V : Type 0} (vs : List V) → All (λ _. Unit {0}) vs
  All-any [] = tt
  All-any (v ∷ vs) = (tt, All-any vs)

  time_Makes :
      (p : Pointer) (o : Option ℤ) (h : Heap F)
      → Holds (Below h.next) h (AtTime L p o)
      → Makes Nowhere (λ q. AtTime L q o) (copy_time L p) h
  unfolding copy_time
  time_Makes none none h q = pure-Makes Nowhere _ none h (λ g same. tt)
  time_Makes none (some t) h q = elim (q h (λ r l. refl)) [ ]
  time_Makes (some p) none h q = elim (q h (λ r l. refl)) [ ]
  time_Makes (some p) (some t) h q =
      let m = L.time.copied p t h q in
      record {
        value = some m.value;
        heap = m.heap;
        returns = bind_at (L.time.copy p) _ m.value h m.heap m.returns;
        extends = m.extends;
        stands = m.stands;
      }

  Nowhere-low : (h : Heap F) (p : ℕ) → Nowhere p → p < h.next
  Nowhere-low h p e = elim e [ ]

  result_Makes :
      (p : Pointer) (o : Option ExecutionResult) (h : Heap F)
      → Holds (Below h.next) h (AtPointer Cell.result Same p o)
      → Makes Nowhere
          (λ q. AtPointer Cell.result Same q o)
          (copy_pointer as_result Cell.result pure p)
          h
  result_Makes p o h q =
      pointer_Makes Same Nowhere as_result Cell.result (λ s. refl) pure
        (λ s b k r low. pure-Makes Nowhere (λ w. Same w b) s k (λ g same. r k (λ p l. refl))) p o h
        (Nowhere-low h) q

  conditions_Makes :
      (p : Pointer) (l : List Condition) (h : Heap F)
      → Holds (Below h.next) h (AtSlice Cell.conditions L.condition.Stands p l)
      → Makes Nowhere
          (λ q. AtSlice Cell.conditions L.condition.Stands q l)
          (copy_pointer as_conditions Cell.conditions (copy_each L.condition.copy) p)
          h
  conditions_Makes p l h q =
      slice_Makes L.condition.Stands Nowhere as_conditions Cell.conditions (λ s. refl)
        (λ _. Unit {0}) L.condition.copy (λ s b k u r low. L.condition.copied s b k r) p l h
        (λ r vs e f. All-any vs) (Nowhere-low h) q

  pub status_Makes :
      (v : StatusStruct) (a : AgentTaskStatus) (h : Heap F)
      → Holds (Below h.next) h (StatusStands L v a)
      → Makes Nowhere (λ w. StatusStands L w a) (copy_status_into L v) h
  unfolding copy_status_into
  status_Makes v a h q =
      let Conditions = AtSlice Cell.conditions L.condition.Stands in
      let m1 = result_Makes v.result a.result h (λ g same. (q g same).result) in
      let m2 = conditions_Makes v.conditions a.conditions m1.heap (
        source_kept (Conditions v.conditions a.conditions) h m1.heap m1.extends
          (λ g same. (q g same).conditions)) in
      let x2 = Extends-trans h m1.heap m2.heap m1.extends m2.extends in
      let m3 = time_Makes v.start_time a.start_time m2.heap (
        source_kept (AtTime L v.start_time a.start_time) h m2.heap x2
          (λ g same. (q g same).start_time)) in
      let x3 = Extends-trans h m2.heap m3.heap x2 m3.extends in
      let m4 = time_Makes v.completion_time a.completion_time m3.heap (
        source_kept (AtTime L v.completion_time a.completion_time) h m3.heap x3
          (λ g same. (q g same).completion_time)) in
      let y2 = Extends-trans m2.heap m3.heap m4.heap m3.extends m4.extends in
      let y1 = Extends-trans m1.heap m2.heap m4.heap m2.extends y2 in
      let here = q h (λ r l. refl) in
      record {
        value = record v {
          result = m1.value;
          conditions = m2.value;
          start_time = m3.value;
          completion_time = m4.value;
        };
        heap = m4.heap;
        returns =
            four_at (copy_pointer as_result Cell.result pure v.result)
              (copy_pointer as_conditions Cell.conditions (copy_each L.condition.copy) v.conditions)
              (copy_time L v.start_time) (copy_time L v.completion_time)
              (λ r c s d. record v {
                result = r;
                conditions = c;
                start_time = s;
                completion_time = d;
              })
              m1.value m2.value m3.value m4.value h m1.heap m2.heap m3.heap m4.heap m1.returns
              m2.returns m3.returns m4.returns;
        extends = Extends-trans h m3.heap m4.heap x3 m4.extends;
        stands = λ g same. record {
          phase = here.phase;
          pod_ref = here.pod_ref;
          result =
              part_kept Nowhere (AtPointer Cell.result Same m1.value a.result) h h m1.heap m4.heap
                (Nowhere-low h) (Extends-refl h) m1.extends y1 m1.stands g same;
          conditions =
              part_kept Nowhere (Conditions m2.value a.conditions) h m1.heap m2.heap m4.heap
                (Nowhere-low h) m1.extends m2.extends y2 m2.stands g same;
          exit_code = here.exit_code;
          reason = here.reason;
          message = here.message;
          start_time =
              part_kept Nowhere (AtTime L m3.value a.start_time) h m2.heap m3.heap m4.heap
                (Nowhere-low h) x2 m3.extends m4.extends m3.stands g same;
          completion_time =
              copy_later Nowhere (AtTime L m4.value a.completion_time) h m3.heap m4.heap x3
                m4.stands g same;
        };
      }
