-- ===== src/DeepCopy/Objects.antt =====
-- api/v1alpha1/zz_generated.deepcopy.go: what the copies of the repository's own types stand for, and what
-- they share with the original.
use agenttask_operator.Base.{ℕ, ◌<◌, ◌≡◌, refl, ◌∙◌, inr, Option, none, some, arith}
use agenttask_operator.Base.Int.{ℤ}
use agenttask_operator.Api.Task.{CodeSource, AgentTaskSpec, AgentTask}
use agenttask_operator.DeepCopy.{
  Pointer, Types, TypeMeta, CodeStruct, SpecStruct, TaskStruct, Cell, Heap,
}
use agenttask_operator.DeepCopy.Regions.{
  Holds, Below, Nowhere, Extends, Extends-refl, Extends-trans, source_kept, copy_later, copy_wider,
  part_kept, Makes,
}
use agenttask_operator.DeepCopy.Functions.{
  Library, copy_code_into, copy_spec_into, copy_status_into, copy_task_into, copy_pointer,
  as_seconds, as_selector,
}
use agenttask_operator.DeepCopy.Meaning.{
  AtPointer, Same, CodeStands, SpecStands, StatusStands, TaskStands,
}
use agenttask_operator.DeepCopy.Parts.{bind_at, pointer_Makes, taken}
use agenttask_operator.DeepCopy.StatusCopy.{status_Makes}

module _ {F : Types} (L : Library F) where
  code_Makes :
      (v : CodeStruct) (a : CodeSource) (h : Heap F)
      → Holds (Below h.next) h (CodeStands L v a)
      → Makes Nowhere (λ w. CodeStands L w a) (copy_code_into L v) h
  unfolding copy_code_into
  code_Makes v a h q =
      let m =
        pointer_Makes L.selector.Stands Nowhere as_selector Cell.selector (λ s. refl)
          L.selector.copy (λ s b k r low. L.selector.copied s b k r) v.config_map_ref
          a.config_map_ref h (λ r e. elim e [ ]) (λ g same. (q g same).config_map_ref) in
      record {
        value = record v { config_map_ref = m.value };
        heap = m.heap;
        returns =
            bind_at (copy_pointer as_selector Cell.selector L.selector.copy v.config_map_ref) _
              m.value h m.heap m.returns;
        extends = m.extends;
        stands = λ g same. record {
          source = (q h (λ r l. refl)).source;
          config_map_ref = m.stands g same;
        };
      }

-- The address behind TTLSecondsAfterFinished.
abbrev pub TtlOf : {F : Types} → SpecStruct F → ℕ → Type 0
TtlOf v p = v.ttl_seconds_after_finished ≡ some p

module _ {F : Types} (L : Library F) where
  pub ttl_low :
      (ttl : Pointer) (o : Option ℤ) (h : Heap F)
      → Holds (Below h.next) h (AtPointer Cell.seconds Same ttl o)
      → (p : ℕ) → ttl ≡ some p
      → p < h.next
  ttl_low none o h q p e = absurd (cc e)
  ttl_low (some r) none h q p e = elim (q h (λ s l. refl)) [ ]
  ttl_low (some r) (some n) h q p e =
      let low : r < h.next = taken as_seconds Cell.seconds (λ k. refl) (λ k. Same k n) r h q in
      let same : r ≡ p = cc e in rw (← same) low

  ttl_kept :
      (ttl : Pointer) (o : Option ℤ) (h h' g : Heap F)
      → AtPointer Cell.seconds Same ttl o h
      → ((p : ℕ) → ttl ≡ some p → p < h.next)
      → Extends h h'
      → ((p : ℕ) → ttl ≡ some p → g.cell p ≡ h'.cell p)
      → AtPointer Cell.seconds Same ttl o g
  ttl_kept none none h h' g q low x same = tt
  ttl_kept none (some n) h h' g q low x same = elim q [ ]
  ttl_kept (some r) none h h' g q low x same = elim q [ ]
  ttl_kept (some r) (some n) h h' g (v, e, s) low x same =
      (v, same r refl ∙ x.old r (low r refl) ∙ e, s)

  spec_Makes :
      (E : ℕ → Type 0) (v : SpecStruct F) (a : AgentTaskSpec) (h : Heap F)
      → ((p : ℕ) → TtlOf v p → E p)
      → ((p : ℕ) → E p → p < h.next)
      → Holds (Below h.next) h (SpecStands L v a)
      → Makes E (λ w. SpecStands L w a) (copy_spec_into L v) h
  unfolding copy_spec_into
  spec_Makes E v a h mine low q =
      let m = code_Makes L v.code a.code h (λ g same. (q g same).code) in
      let n = L.resources.copied v.resources a.resources m.heap (
        source_kept (L.resources.Stands v.resources a.resources) h m.heap m.extends
          (λ g same. (q g same).resources)) in
      let here = q h (λ r l. refl) in
      let x = Extends-trans h m.heap n.heap m.extends n.extends in
      record {
        value = record v { code = m.value; resources = n.value };
        heap = n.heap;
        returns =
            bind_at (copy_code_into L v.code) _ m.value h m.heap m.returns
            ∙ bind_at (L.resources.copy v.resources) _ n.value m.heap n.heap n.returns;
        extends = x;
        stands = λ g same. record {
          runtime_profile = here.runtime_profile;
          code =
              part_kept E (CodeStands L m.value a.code) h h m.heap n.heap low (Extends-refl h)
                m.extends n.extends (copy_wider E (CodeStands L m.value a.code) h m.heap m.stands) g
                same;
          resources =
              copy_later E (L.resources.Stands n.value a.resources) h m.heap n.heap m.extends
                (copy_wider E (L.resources.Stands n.value a.resources) m.heap n.heap n.stands) g
                same;
          timeout_seconds = here.timeout_seconds;
          backend = here.backend;
          tenant = here.tenant;
          canceled = here.canceled;
          ttl =
              ttl_kept v.ttl_seconds_after_finished a.ttl_seconds_after_finished h n.heap g here.ttl
                (λ p e. low p (mine p e)) x (λ p e. same p (inr (mine p e)));
        };
      }

  pub task_Makes :
      (E : ℕ → Type 0) (v : TaskStruct F) (a : TypeMeta × AgentTask) (h : Heap F)
      → ((p : ℕ) → TtlOf v.spec p → E p)
      → ((p : ℕ) → E p → p < h.next)
      → Holds (Below h.next) h (TaskStands L v a)
      → Makes E (λ w. TaskStands L w a) (copy_task_into L v) h
  unfolding copy_task_into
  task_Makes E v a h mine low q =
      let m1 = L.meta.copied v.meta a.1.meta h (λ g same. (q g same).meta) in
      let m2 =
        spec_Makes E v.spec a.1.spec m1.heap mine (λ p e. omega (arith, low p e, m1.extends.grows))
          (source_kept (SpecStands L v.spec a.1.spec) h m1.heap m1.extends
            (λ g same. (q g same).spec)) in
      let x2 = Extends-trans h m1.heap m2.heap m1.extends m2.extends in
      let m3 = status_Makes L v.status a.1.status m2.heap (
        source_kept (StatusStands L v.status a.1.status) h m2.heap x2
          (λ g same. (q g same).status)) in
      record {
        value = record v { meta = m1.value; spec = m2.value; status = m3.value };
        heap = m3.heap;
        returns =
            bind_at (L.meta.copy v.meta) _ m1.value h m1.heap m1.returns
            ∙ bind_at (copy_spec_into L v.spec) _ m2.value m1.heap m2.heap m2.returns
            ∙ bind_at (copy_status_into L v.status) _ m3.value m2.heap m3.heap m3.returns;
        extends = Extends-trans h m2.heap m3.heap x2 m3.extends;
        stands = λ g same. record {
          type_meta = (q h (λ r l. refl)).type_meta;
          meta =
              part_kept E (L.meta.Stands m1.value a.1.meta) h h m1.heap m3.heap low (Extends-refl h)
                m1.extends (Extends-trans m1.heap m2.heap m3.heap m2.extends m3.extends)
                (copy_wider E (L.meta.Stands m1.value a.1.meta) h m1.heap m1.stands) g same;
          spec =
              part_kept E (SpecStands L m2.value a.1.spec) h m1.heap m2.heap m3.heap low m1.extends
                m2.extends m3.extends m2.stands g same;
          status =
              copy_later E (StatusStands L m3.value a.1.status) h m2.heap m3.heap x2
                (copy_wider E (StatusStands L m3.value a.1.status) m2.heap m3.heap m3.stands) g
                same;
        };
      }
