-- ===== src/DeepCopy/Parts.antt =====
-- api/v1alpha1/zz_generated.deepcopy.go: pointers and slices, and what is copied behind them.
use agenttask_operator.Base.{
  ℕ, ◌+◌, ◌≤◌, ◌<◌, ◌≡◌, refl, ap, ◌∙◌, ◌=?◌, inl, true, Option, none, some, List, [], ◌∷◌, All,
  arith,
}
use mathlib.Core.Path.{subst}
use native.Mathlib.Decide.{dec_lt}
use agenttask_operator.DeepCopy.{Pointer, Types, Cell, Heap, Cmd, pure, ◌>>=◌, update, alloc, load}
use agenttask_operator.DeepCopy.Regions.{
  Holds, Below, Since, Extends, Extends-refl, Extends-trans, Extends-alloc, source_kept, copy_kept,
  copy_later, Makes,
}
use agenttask_operator.DeepCopy.Functions.{copy_pointer, copy_each}
use agenttask_operator.DeepCopy.Meaning.{AtPointer, Each, AtSlice}

pub same_self : (n : ℕ) → (n =? n) ≡ true
same_self n = ground arith

module _ {F : Types} {V : Type 0} (project : Cell F → Option V) (place : V → Cell F)
    (law : (v : V) → project (place v) ≡ some v) (Q : V → Heap F → Type 0) where
  abbrev pub AtCell : ℕ → Heap F → Type 0
  AtCell p h = (v : V) × (h.cell p ≡ some (place v)) × Q v h

  -- A pointer that holds leads to a cell that was taken.
  pub taken : (p : ℕ) (h : Heap F) → Holds (Below h.next) h (AtCell p) → p < h.next
  taken p h q = elim (dec_lt p h.next) [
    | yes l ↦ l
    | no n ↦
        let erased : Heap F = record h { cell = update h.cell p none } in
        let (v, e, s) = q erased (λ r l. ground (arith)) in absurd (cc (rw (same_self p) at e))
  ]

  pub pointed :
      (p : ℕ) (h : Heap F)
      → Holds (Below h.next) h (AtCell p)
      → (v : V) × (h.cell p ≡ some (place v)) × Holds (Below h.next) h (Q v)
  pointed p h q =
      let low : p < h.next = taken p h q in
      let (v, e, s) = q h (λ r l. refl) in
      (
        v,
        e,
        λ g same.
            let (w, f, t) = q g same in
            let placed : place v ≡ place w = cc (e, f, same p low) in
            let one : w ≡ v = cc (law v, law w, ap project placed) in subst (λ x. Q x g) one t,
      )

  pub load_at :
      (p : ℕ) (v : V) (h : Heap F) → h.cell p ≡ some (place v) → load project p h ≡ some (v, h)
  unfolding load
  load_at p v h e = rw (e, load) (rw (law v) refl)

  copy_pointer_at :
      (into : V → Cmd F V) (p : ℕ) (v w : V) (h k : Heap F)
      → h.cell p ≡ some (place v)
      → into v h ≡ some (w, k)
      → copy_pointer project place into (some p) h
        ≡ some (
          some k.next,
          record { next = k.next + 1; cell = update k.cell k.next (some (place w)) },
        )
  unfolding copy_pointer alloc
  copy_pointer_at into p v w h k e r =
      rw (load_at p v h e, copy_pointer, ◌>>=◌) (rw (r, ◌>>=◌) refl)

  -- Where what lies at the address is copied, so is the pointer.
  pub cell_Makes :
      (E : ℕ → Type 0) (into : V → Cmd F V) (p : ℕ) (h : Heap F)
      → ((q : ℕ) → E q → q < h.next)
      → ((v : V) → h.cell p ≡ some (place v) → Holds (Below h.next) h (Q v) → Makes E Q (into v) h)
      → Holds (Below h.next) h (AtCell p)
      → (q : ℕ) × (h' : Heap F) × (copy_pointer project place into (some p) h ≡ some (some q, h'))
        × Extends h h'
        × (h.next ≤ q)
        × Holds (Since E h h') h' (AtCell q)
  cell_Makes E into p h low made q =
      let (v, e, s) = pointed p h q in
      let m = made v e s in
      let h' : Heap F = record {
        next = m.heap.next + 1;
        cell = update m.heap.cell m.heap.next (some (place m.value));
      } in
      let grown : Extends m.heap h' = Extends-alloc (place m.value) m.heap in
      (
        m.heap.next,
        h',
        copy_pointer_at into p v m.value h m.heap e m.returns,
        Extends-trans h m.heap h' m.extends grown,
        m.extends.grows,
        λ g same. (
          m.value,
          same m.heap.next (inl (m.extends.grows, omega arith)) ∙ rw (same_self m.heap.next) refl,
          copy_kept E (Q m.value) h m.heap h' (λ r l. omega (arith, low r l, m.extends.grows)) grown
              m.stands g same,
        ),
      )

pub bind_at :
    {F : Types} {A B : Type 0} (m : Cmd F A) (k : A → Cmd F B) (a : A) (h h' : Heap F)
    → m h ≡ some (a, h')
    → (m >>= k) h ≡ k a h'
bind_at m k a h h' r = rw (r, ◌>>=◌) refl

-- Four commands in a row, and what is made of their results.
pub four_at :
    {F : Types} {A B C D V : Type 0} (m1 : Cmd F A) (m2 : Cmd F B) (m3 : Cmd F C) (m4 : Cmd F D)
    (f : A → B → C → D → V) (a : A) (b : B) (c : C) (d : D) (h h1 h2 h3 h4 : Heap F)
    → m1 h ≡ some (a, h1)
    → m2 h1 ≡ some (b, h2)
    → m3 h2 ≡ some (c, h3)
    → m4 h3 ≡ some (d, h4)
    → (m1 >>= (λ a. m2 >>= (λ b. m3 >>= (λ c. m4 >>= (λ d. pure (f a b c d)))))) h
      ≡ some (f a b c d, h4)
four_at m1 m2 m3 m4 f a b c d h h1 h2 h3 h4 e1 e2 e3 e4 =
    rw (e1, ◌>>=◌) (rw (e2, ◌>>=◌) (rw (e3, ◌>>=◌) (rw (e4, ◌>>=◌) refl)))

module _ {F : Types} where
  -- A value that lies in the object depends on no address.
  pub pure-Makes :
      {V : Type 0} (E : ℕ → Type 0) (Q : V → Heap F → Type 0) (v : V) (h : Heap F)
      → Holds (Since E h h) h (Q v)
      → Makes E Q (pure v) h
  pure-Makes E Q v h s = record {
    value = v;
    heap = h;
    returns = refl;
    extends = Extends-refl h;
    stands = s;
  }

  module _ {V A : Type 0} (St : V → A → Heap F → Type 0) (E : ℕ → Type 0) where
    -- A copy for each object is a copy of the list.
    pub copy_each-Makes :
        (P : V → Type 0) (into : V → Cmd F V)
        → ((v : V) (a : A) (h : Heap F)
            → P v
            → Holds (Below h.next) h (St v a)
            → ((q : ℕ) → E q → q < h.next)
            → Makes E (λ w. St w a) (into v) h)
        → (vs : List V) (l : List A) (h : Heap F) → All P vs
        → ((q : ℕ) → E q → q < h.next)
        → Holds (Below h.next) h (Each St vs l)
        → Makes E (λ ws. Each St ws l) (copy_each into vs) h
    unfolding copy_each
    copy_each-Makes P into made [] [] h all low q = pure-Makes E _ [] h (λ g same. tt)
    copy_each-Makes P into made [] (a ∷ as') h all low q = elim (q h (λ r l. refl)) [ ]
    copy_each-Makes P into made (v ∷ vs) [] h all low q = elim (q h (λ r l. refl)) [ ]
    copy_each-Makes P into made (v ∷ vs) (a ∷ as') h all low q =
        let m = made v a h all.0 (λ g same. (q g same).0) low in
        let low' : (r : ℕ) → E r → r < m.heap.next =
          λ r l. omega (arith, low r l, m.extends.grows) in
        let n =
          copy_each-Makes P into made vs as' m.heap all.1 low'
            (source_kept (Each St vs as') h m.heap m.extends (λ g same. (q g same).1)) in
        record {
          value = m.value ∷ n.value;
          heap = n.heap;
          returns =
              bind_at (into v) _ m.value h m.heap m.returns
              ∙ bind_at (copy_each into vs) _ n.value m.heap n.heap n.returns;
          extends = Extends-trans h m.heap n.heap m.extends n.extends;
          stands = λ g same. (
            copy_kept E (St m.value a) h m.heap n.heap low' n.extends m.stands g same,
            copy_later E (Each St n.value as') h m.heap n.heap m.extends n.stands g same,
          );
        }

    module _ (project : Cell F → Option V) (place : V → Cell F)
        (law : (v : V) → project (place v) ≡ some v) (into : V → Cmd F V) where
      pub pointer_Makes :
          ((v : V) (a : A) (h : Heap F)
            → Holds (Below h.next) h (St v a)
            → ((q : ℕ) → E q → q < h.next)
            → Makes E (λ w. St w a) (into v) h)
          → (p : Pointer) (o : Option A) (h : Heap F) → ((q : ℕ) → E q → q < h.next)
          → Holds (Below h.next) h (AtPointer place St p o)
          → Makes E (λ q. AtPointer place St q o) (copy_pointer project place into p) h
      unfolding copy_pointer
      pointer_Makes made none none h low q = pure-Makes E _ none h (λ g same. tt)
      pointer_Makes made none (some a) h low q = elim (q h (λ r l. refl)) [ ]
      pointer_Makes made (some p) none h low q = elim (q h (λ r l. refl)) [ ]
      pointer_Makes made (some p) (some a) h low q =
          let (r, h', returns, extends, fresh, stands) =
            cell_Makes project place law (λ v. St v a) E into p h low (λ v e s. made v a h s low)
              q in
          record {
            value = some r;
            heap = h';
            returns = returns;
            extends = extends;
            stands = stands;
          }

    pub slice_Makes :
        (project : Cell F → Option (List V)) (place : List V → Cell F)
        → ((vs : List V) → project (place vs) ≡ some vs)
        → (P : V → Type 0) (into : V → Cmd F V)
        → ((v : V) (a : A) (h : Heap F)
            → P v
            → Holds (Below h.next) h (St v a)
            → ((q : ℕ) → E q → q < h.next)
            → Makes E (λ w. St w a) (into v) h)
        → (p : Pointer) (l : List A) (h : Heap F)
        → ((q : ℕ) (vs : List V) → p ≡ some q → h.cell q ≡ some (place vs) → All P vs)
        → ((q : ℕ) → E q → q < h.next)
        → Holds (Below h.next) h (AtSlice place St p l)
        → Makes E (λ q. AtSlice place St q l) (copy_pointer project place (copy_each into) p) h
    unfolding copy_pointer
    slice_Makes project place law P into made none [] h all low q =
        pure-Makes E _ none h (λ g same. tt)
    slice_Makes project place law P into made none (a ∷ as') h all low q =
        elim (q h (λ r l. refl)) [ ]
    slice_Makes project place law P into made (some p) l h all low q =
        let (r, h', returns, extends, fresh, stands) =
          cell_Makes project place law (λ vs. Each St vs l) E (copy_each into) p h low
            (λ vs e s. copy_each-Makes P into made vs l h (all p vs refl e) low s) q in
        record { value = some r; heap = h'; returns = returns; extends = extends; stands = stands }
