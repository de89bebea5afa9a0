-- ===== src/DeepCopy/ListCopy.antt =====
-- api/v1alpha1/zz_generated.deepcopy.go: AgentTaskList.DeepCopy.
use agenttask_operator.Base.{
  ℕ, ◌≤◌, ◌<◌, ◌≡◌, refl, sym, ◌∙◌, ◌⊎◌, inl, inr, none, some, List, [], ◌∷◌, All, arith,
}
use agenttask_operator.Api.Task.{AgentTask}
use agenttask_operator.DeepCopy.{
  ◌>>=◌, Pointer, Types, TypeMeta, TaskStruct, ListStruct, Cell, Heap,
}
use agenttask_operator.DeepCopy.Regions.{
  Holds, Below, Since, Extends, Extends-trans, Extends-refl, source_kept, copy_later, copy_wider,
  part_kept, Makes,
}
use agenttask_operator.DeepCopy.Functions.{
  Library, copy_task_into, copy_list_into, copy_list, copy_list_object, copy_pointer, copy_each,
  as_tasks, as_task_list,
}
use agenttask_operator.DeepCopy.Meaning.{AtSlice, Each, TaskStands, ListStands}
use agenttask_operator.DeepCopy.Parts.{AtCell, cell_Makes, pointed, taken, bind_at, slice_Makes}
use agenttask_operator.DeepCopy.Objects.{TtlOf, ttl_low, task_Makes}

module _ {F : Types} where
  -- The address behind the TTLSecondsAfterFinished of one of the tasks.
  abbrev pub ItemTtl : List (TaskStruct F) → ℕ → Type 0
  ItemTtl [] r = ⊥
  ItemTtl (v ∷ vs) r = TtlOf v.spec r ⊎ ItemTtl vs r

  -- The same for the tasks of the list that lies at `p`.
  abbrev pub ListTtl : Heap F → ℕ → ℕ → Type 0
  ListTtl h p r =
      (l : ListStruct F) × (i : ℕ) × (vs : List (TaskStruct F)) × (h.cell p
        ≡ some (Cell.task_list l))
      × (l.items ≡ some i)
      × (h.cell i ≡ some (Cell.tasks vs))
      × ItemTtl vs r

  each_own :
      (E : ℕ → Type 0) (vs : List (TaskStruct F))
      → ((r : ℕ) → ItemTtl vs r → E r)
      → All (λ v. (r : ℕ) → TtlOf v.spec r → E r) vs
  each_own E [] f = tt
  each_own E (v ∷ vs) f = (λ r e. f r (inl e), each_own E vs (λ r e. f r (inr e)))

module _ {F : Types} (L : Library F) where
  abbrev pub Listing : Type 0
  Listing = TypeMeta × F.ListView × List (TypeMeta × AgentTask)

  abbrev pub ListAt : Listing → ℕ → Heap F → Type 0
  ListAt a = AtCell as_task_list Cell.task_list (λ l. refl) (λ l. ListStands L l a)

  items_low :
      (vs : List (TaskStruct F)) (l : List (TypeMeta × AgentTask)) (h : Heap F)
      → Holds (Below h.next) h (Each (TaskStands L) vs l)
      → (r : ℕ) → ItemTtl vs r
      → r < h.next
  items_low [] l h q r own = elim own [ ]
  items_low (v ∷ vs) [] h q r own = elim (q h (λ p l. refl)) [ ]
  items_low (v ∷ vs) (a ∷ l) h q r (inl e) =
      ttl_low L v.spec.ttl_seconds_after_finished a.1.spec.ttl_seconds_after_finished h
        (λ g same. (q g same).0.spec.ttl) r e
  items_low (v ∷ vs) (a ∷ l) h q r (inr own) = items_low vs l h (λ g same. (q g same).1) r own

  slice_low :
      (s : Pointer) (l : List (TypeMeta × AgentTask)) (h : Heap F) (i : ℕ)
      (vs : List (TaskStruct F))
      → Holds (Below h.next) h (AtSlice Cell.tasks (TaskStands L) s l)
      → s ≡ some i
      → h.cell i ≡ some (Cell.tasks vs)
      → (r : ℕ) → ItemTtl vs r
      → r < h.next
  slice_low none l h i vs q e at r own = absurd (cc e)
  slice_low (some j) l h i vs q e at r own =
      let (ws, f, s) =
        pointed as_tasks Cell.tasks (λ us. refl) (λ us. Each (TaskStands L) us l) j h q in
      let here : j ≡ i = cc e in
      let same : vs ≡ ws = cc (at, f, here) in items_low ws l h s r (rw (← same) own)

  slice_taken :
      (s : Pointer) (l : List (TypeMeta × AgentTask)) (h : Heap F) (i : ℕ)
      → Holds (Below h.next) h (AtSlice Cell.tasks (TaskStands L) s l)
      → s ≡ some i
      → i < h.next
  slice_taken none l h i q e = absurd (cc e)
  slice_taken (some j) l h i q e =
      let low : j < h.next =
        taken as_tasks Cell.tasks (λ us. refl) (λ us. Each (TaskStands L) us l) j h q in
      let same : j ≡ i = cc e in rw (← same) low

  list_low :
      (p : ℕ) (a : Listing) (h : Heap F)
      → Holds (Below h.next) h (ListAt a p)
      → (r : ℕ) → ListTtl h p r
      → r < h.next
  list_low p a h q r (l, i, vs, e, f, g, own) =
      let (v, e', s) =
        pointed as_task_list Cell.task_list (λ l. refl) (λ l. ListStands L l a) p h q in
      let same : v ≡ l = cc (e, e') in
      slice_low v.items a.2 h i vs (λ k agree. (s k agree).items) (rw same f) g r own

  list_Makes :
      (E : ℕ → Type 0) (v : ListStruct F) (a : Listing) (h : Heap F)
      → ((q : ℕ) (vs : List (TaskStruct F))
          → v.items ≡ some q
          → h.cell q ≡ some (Cell.tasks vs)
          → (r : ℕ) → ItemTtl vs r
          → E r)
      → ((p : ℕ) → E p → p < h.next)
      → Holds (Below h.next) h (ListStands L v a)
      → Makes E (λ w. ListStands L w a) (copy_list_into L v) h
  unfolding copy_list_into
  list_Makes E v a h mine low q =
      let m1 = L.list_meta.copied v.meta a.1 h (λ g same. (q g same).meta) in
      let m2 =
        slice_Makes (TaskStands L) E as_tasks Cell.tasks (λ s. refl)
          (λ v. (r : ℕ) → TtlOf v.spec r → E r) (copy_task_into L)
          (λ t b k own s low'. task_Makes L E t b k own low' s) v.items a.2 m1.heap
          (λ i vs e f. each_own E vs (
            mine i vs e (
              sym (m1.extends.old i (slice_taken v.items a.2 h i (λ g same. (q g same).items) e))
              ∙ f)))
          (λ p e. omega (arith, low p e, m1.extends.grows))
          (source_kept (AtSlice Cell.tasks (TaskStands L) v.items a.2) h m1.heap m1.extends
            (λ g same. (q g same).items)) in
      record {
        value = record v { meta = m1.value; items = m2.value };
        heap = m2.heap;
        returns =
            bind_at (L.list_meta.copy v.meta) _ m1.value h m1.heap m1.returns
            ∙ bind_at (copy_pointer as_tasks Cell.tasks (copy_each (copy_task_into L)) v.items) _
                m2.value m1.heap m2.heap m2.returns;
        extends = Extends-trans h m1.heap m2.heap m1.extends m2.extends;
        stands = λ g same. record {
          type_meta = (q h (λ r l. refl)).type_meta;
          meta =
              part_kept E (L.list_meta.Stands m1.value a.1) h h m1.heap m2.heap low (Extends-refl h)
                m1.extends m2.extends
                (copy_wider E (L.list_meta.Stands m1.value a.1) h m1.heap m1.stands) g same;
          items =
              copy_later E (AtSlice Cell.tasks (TaskStands L) m2.value a.2) h m1.heap m2.heap
                m1.extends m2.stands g same;
        };
      }

  object_lem :
      (p : Pointer) (o : Pointer) (h h' : Heap F)
      → copy_list L p h ≡ some (o, h')
      → copy_list_object L p h ≡ some (o, h')
  unfolding copy_list_object
  object_lem p none h h' e = rw (e, ◌>>=◌) refl
  object_lem p (some q) h h' e = rw (e, ◌>>=◌) refl

  -- Where the deep copies of the types of other packages are deep, as Library says,
  -- (*AgentTaskList).DeepCopy, and DeepCopyObject with it, of a pointer to a list whose memory is taken
  -- returns a pointer to a list at a new address that stands for the same items and the same metadata. It
  -- writes to no address that was taken, so the original stands for what it stood for, whatever is later
  -- written to new addresses; and the copy goes on standing for it, whatever is later written to the old
  -- addresses other than those behind the TTLSecondsAfterFinished of the original's items.
  pub copy_list-ListAt :
      (p : ℕ) (a : Listing) (h : Heap F)
      → Holds (Below h.next) h (ListAt a p)
      → (q : ℕ) × (h' : Heap F) × (copy_list L (some p) h ≡ some (some q, h'))
        × (copy_list_object L (some p) h ≡ some (some q, h'))
        × Extends h h'
        × (h.next ≤ q)
        × Holds (Below h.next) h' (ListAt a p)
        × Holds (Since (ListTtl h p) h h') h' (ListAt a q)
  unfolding copy_list
  copy_list-ListAt p a h s =
      let low : (r : ℕ) → ListTtl h p r → r < h.next = list_low p a h s in
      let (q, h', e, x, fresh, t) =
        cell_Makes as_task_list Cell.task_list (λ v. refl) (λ v. ListStands L v a) (ListTtl h p)
          (copy_list_into L) p h low
          (λ v at stands.
            list_Makes (ListTtl h p) v a h (λ i vs e f r own. (v, i, vs, at, e, f, own)) low stands)
          s in
      (
        q,
        h',
        e,
        object_lem (some p) (some q) h h' e,
        x,
        fresh,
        λ g same. s g (λ r l. same r l ∙ x.old r l),
        t,
      )
