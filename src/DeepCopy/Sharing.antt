-- ===== src/DeepCopy/Sharing.antt =====
-- api/v1alpha1/zz_generated.deepcopy.go: a task, a list of tasks and what became of the original.
use agenttask_operator.Base.{ℕ, ◌≤◌, ◌<◌, ◌≡◌, ◌≢◌, refl, ◌∙◌, Option, none, some, arith}
use agenttask_operator.Base.Int.{ℤ}
use agenttask_operator.Api.Task.{AgentTask}
use agenttask_operator.DeepCopy.{
  Pointer, Types, TypeMeta, SpecStruct, TaskStruct, Cell, Heap, Cmd, ◌>>=◌, store, update,
}
use agenttask_operator.DeepCopy.Regions.{Holds, Below, Since, Extends}
use agenttask_operator.DeepCopy.Functions.{
  Library, copy_spec_into, copy_status_into, copy_code_into, copy_task_into, copy_task,
  copy_task_object, as_task,
}
use agenttask_operator.DeepCopy.Meaning.{AtPointer, Same, TaskStands}
use agenttask_operator.DeepCopy.Parts.{AtCell, cell_Makes, pointed, taken}
use agenttask_operator.DeepCopy.Objects.{TtlOf, ttl_low, task_Makes}

module _ {F : Types} where
  -- What a chain of commands returned, its first command had returned before.
  bound :
      {A B : Type 0} (m : Cmd F A) (k : A → Cmd F B) (h : Heap F) (r : B × Heap F)
      → (m >>= k) h ≡ some r
      → (a : A) × (h' : Heap F) × (m h ≡ some (a, h')) × (k a h' ≡ some r)
  bound {A = A} {B = B} m k h r e = of (m h) e
    where
      of :
          (o : Option (A × Heap F))
          → elim o [ none ↦ none | some (a, h') ↦ k a h' ] ≡ some r
          → (a : A) × (h' : Heap F) × (o ≡ some (a, h')) × (k a h' ≡ some r)
      of none e = absurd (cc e)
      of (some (a, h')) e = (a, h', refl, e)

  -- The address behind the TTLSecondsAfterFinished of the task that lies at `p`.
  abbrev pub TtlAt : Heap F → ℕ → ℕ → Type 0
  TtlAt h p r = (v : TaskStruct F) × (h.cell p ≡ some (Cell.task v)) × TtlOf v.spec r

  -- The task at `p` has a TTLSecondsAfterFinished of `n`.
  abbrev pub TtlReads : ℤ → ℕ → Heap F → Type 0
  TtlReads n p h =
      (v : TaskStruct F) × (h.cell p ≡ some (Cell.task v))
      × AtPointer Cell.seconds Same v.spec.ttl_seconds_after_finished (some n) h

  ttl_written :
      (p r : ℕ) (v : TaskStruct F) (n : ℤ) (h : Heap F)
      → h.cell p ≡ some (Cell.task v)
      → TtlOf v.spec r
      → p ≢ r
      → TtlReads n p (store r (Cell.seconds n) h)
  unfolding store
  ttl_written p r v n h e o apart =
      let kept : (update h.cell r (some (Cell.seconds n)) p ≡ some (Cell.task v)) =
        ground (arith, e, apart) in
      let new : (update h.cell r (some (Cell.seconds n)) r ≡ some (Cell.seconds n)) =
        ground arith in
      (v, kept, rw o (n, new, refl))

  ttl_apart :
      (p r : ℕ) (v : TaskStruct F) (o : Option ℤ) (ttl : Pointer) (h : Heap F)
      → h.cell p ≡ some (Cell.task v)
      → ttl ≡ some r
      → AtPointer Cell.seconds Same ttl o h
      → p ≢ r
  ttl_apart p r v o none h at e own same = cc e
  ttl_apart p r v none (some q) h at e own same = own
  ttl_apart p r v (some n) (some q) h at e (k, f, g) same = cc (at, f, e, same)

module _ {F : Types} (L : Library F) where
  abbrev pub TaskAt : TypeMeta × AgentTask → ℕ → Heap F → Type 0
  TaskAt a = AtCell as_task Cell.task (λ v. refl) (λ v. TaskStands L v a)

  TtlAt-low :
      (p : ℕ) (a : TypeMeta × AgentTask) (h : Heap F)
      → Holds (Below h.next) h (TaskAt a p)
      → (r : ℕ) → TtlAt h p r
      → r < h.next
  TtlAt-low p a h q r (w, f, t) =
      let (v, e, s) = pointed as_task Cell.task (λ v. refl) (λ v. TaskStands L v a) p h q in
      let same : w ≡ v = cc (e, f) in
      ttl_low L v.spec.ttl_seconds_after_finished a.1.spec.ttl_seconds_after_finished h
        (λ g agree. (s g agree).spec.ttl) r (rw (← same) t)

  object_lem :
      (p : Pointer) (o : Pointer) (h h' : Heap F)
      → copy_task L p h ≡ some (o, h')
      → copy_task_object L p h ≡ some (o, h')
  unfolding copy_task_object
  object_lem p none h h' e = rw (e, ◌>>=◌) refl
  object_lem p (some q) h h' e = rw (e, ◌>>=◌) refl

  -- Where the deep copies of the types of other packages are deep, as Library says, (*AgentTask).DeepCopy,
  -- and DeepCopyObject with it, of a pointer to a task whose memory is taken returns a pointer to a task at
  -- a new address that stands for the same kind, version and task. It writes to no address that was taken,
  -- so the original stands for what it stood for, whatever is later written to new addresses; and the copy
  -- goes on standing for it, whatever is later written to the old addresses other than the one behind the
  -- original's TTLSecondsAfterFinished, which the two share.
  pub copy_task-TaskAt :
      (p : ℕ) (a : TypeMeta × AgentTask) (h : Heap F)
      → Holds (Below h.next) h (TaskAt a p)
      → (q : ℕ) × (h' : Heap F) × (copy_task L (some p) h ≡ some (some q, h'))
        × (copy_task_object L (some p) h ≡ some (some q, h'))
        × Extends h h'
        × (h.next ≤ q)
        × Holds (Below h.next) h' (TaskAt a p)
        × Holds (Since (TtlAt h p) h h') h' (TaskAt a q)
  unfolding copy_task
  copy_task-TaskAt p a h s =
      let low : (r : ℕ) → TtlAt h p r → r < h.next = TtlAt-low p a h s in
      let (q, h', e, x, fresh, t) =
        cell_Makes as_task Cell.task (λ v. refl) (λ v. TaskStands L v a) (TtlAt h p)
          (copy_task_into L) p h low
          (λ v at stands. task_Makes L (TtlAt h p) v a h (λ r own. (v, at, own)) low stands) s in
      (
        q,
        h',
        e,
        object_lem (some p) (some q) h h' e,
        x,
        fresh,
        λ g same. s g (λ r l. same r l ∙ x.old r l),
        t,
      )

  copy_spec_into-ttl :
      (v w : SpecStruct F) (h h' : Heap F)
      → copy_spec_into L v h ≡ some (w, h')
      → w.ttl_seconds_after_finished ≡ v.ttl_seconds_after_finished
  unfolding copy_spec_into
  copy_spec_into-ttl v w h h' e =
      let (c, h1, e1, f1) = bound (copy_code_into L v.code) _ h (w, h') e in
      let (r, h2, e2, f2) = bound (L.resources.copy v.resources) _ h1 (w, h') f1 in
      let same : record v { code = c; resources = r } ≡ w = cc f2 in rw (← same) refl

  copy_task_into-ttl :
      (v w : TaskStruct F) (h h' : Heap F)
      → copy_task_into L v h ≡ some (w, h')
      → w.spec.ttl_seconds_after_finished ≡ v.spec.ttl_seconds_after_finished
  unfolding copy_task_into
  copy_task_into-ttl v w h h' e =
      let (m, h1, e1, f1) = bound (L.meta.copy v.meta) _ h (w, h') e in
      let (s, h2, e2, f2) = bound (copy_spec_into L v.spec) _ h1 (w, h') f1 in
      let (u, h3, e3, f3) = bound (copy_status_into L v.status) _ h2 (w, h') f2 in
      let same : record v { meta = m; spec = s; status = u } ≡ w = cc f3 in
      rw (← same) (copy_spec_into-ttl v.spec s h1 h2 e2)

  -- Where a task's memory is taken and it has a TTLSecondsAfterFinished, its deep copy, with the types of
  -- other packages copied as Library says, and the task itself both read any number that is later written
  -- through that pointer: the copy's pointer is the original's.
  pub copy_task_shares_ttl :
      (p r : ℕ) (a : TypeMeta × AgentTask) (n : ℤ) (h : Heap F)
      → Holds (Below h.next) h (TaskAt a p)
      → TtlAt h p r
      → (q : ℕ) × (h' : Heap F) × (copy_task L (some p) h ≡ some (some q, h'))
        × TtlReads n p (store r (Cell.seconds n) h')
        × TtlReads n q (store r (Cell.seconds n) h')
  unfolding copy_task
  copy_task_shares_ttl p r a n h s own =
      let low : (r : ℕ) → TtlAt h p r → r < h.next = TtlAt-low p a h s in
      let (o, at, mine) = own in
      let (q, h', e, x, fresh, t) =
        cell_Makes as_task Cell.task (λ v. refl) (λ v k. TaskStands L v a k × TtlOf v.spec r)
          (TtlAt h p) (copy_task_into L) p h low
          (λ v at' stands.
            let m =
              task_Makes L (TtlAt h p) v a h (λ r own. (v, at', own)) low
                (λ g same. (stands g same).0) in
            record {
              value = m.value;
              heap = m.heap;
              returns = m.returns;
              extends = m.extends;
              stands = λ g same. (
                m.stands g same,
                copy_task_into-ttl v m.value h m.heap m.returns ∙ (stands h (λ q l. refl)).1,
              );
            })
          (λ g same.
            let (v, e, st) = s g same in
            let one : o ≡ v =
              cc (
                e,
                at,
                same p (taken as_task Cell.task (λ v. refl) (λ v. TaskStands L v a) p h s),
              ) in
            (v, e, (st, rw (← one) mine))) in
      let (w, f, u) = t h' (λ r l. refl) in
      let (v, f', st) = s h (λ r l. refl) in
      let one : o ≡ v = cc (f', at) in
      let apart : p ≢ r =
        ttl_apart p r o a.1.spec.ttl_seconds_after_finished o.spec.ttl_seconds_after_finished h at
          mine (rw one st.spec.ttl) in
      let placed : h'.cell p ≡ some (Cell.task o) =
        x.old p (taken as_task Cell.task (λ v. refl) (λ v. TaskStands L v a) p h s) ∙ at in
      (
        q,
        h',
        e,
        ttl_written p r o n h' placed mine apart,
        ttl_written q r w n h' f u.1 (omega (arith, low r own, fresh)),
      )
