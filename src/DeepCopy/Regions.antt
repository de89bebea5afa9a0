-- ===== src/DeepCopy/Regions.antt =====
-- Statements about objects in memory, by the addresses that they depend on.
use agenttask_operator.Base.{ℕ, ◌+◌, ◌≤◌, ◌<◌, ◌≡◌, refl, ◌∙◌, ◌⊎◌, inl, inr, some, arith}
use agenttask_operator.DeepCopy.{Types, Cell, Heap, Cmd, update}

abbrev pub Below : ℕ → ℕ → Type 0
Below n p = p < n

abbrev pub Nowhere : ℕ → Type 0
Nowhere p = ⊥

module _ {F : Types} where
  -- `g` has what `h` has at the addresses with `S`.
  abbrev pub Agree : (ℕ → Type 0) → Heap F → Heap F → Type 0
  Agree S h g = (p : ℕ) → S p → g.cell p ≡ h.cell p

  -- Whatever becomes of the addresses without `S`, the statement holds.
  abbrev pub Holds : (ℕ → Type 0) → Heap F → (Heap F → Type 0) → Type 0
  Holds S h Q = (g : Heap F) → Agree S h g → Q g

  -- The addresses that were taken between two heaps, and those with `E`.
  abbrev pub Since : (ℕ → Type 0) → Heap F → Heap F → ℕ → Type 0
  Since E h h' p = ((h.next ≤ p) × (p < h'.next)) ⊎ E p

  -- `h'` comes from `h` by taking addresses, and no address of `h` is written.
  pub record Extends (h h' : Heap F) : Type 0 where
    pub grows : h.next ≤ h'.next
    pub old : (p : ℕ) → p < h.next → h'.cell p ≡ h.cell p

  pub Extends-refl : (h : Heap F) → Extends h h
  Extends-refl h = record { grows = omega arith; old = λ p l. refl }

  pub Extends-trans : (h h' h'' : Heap F) → Extends h h' → Extends h' h'' → Extends h h''
  Extends-trans h h' h'' x y = record {
    grows = omega (arith, x.grows, y.grows);
    old = λ p l. y.old p (omega (arith, x.grows)) ∙ x.old p l;
  }

  pub Extends-alloc :
      (c : Cell F) (h : Heap F)
      → Extends h (record { next = h.next + 1; cell = update h.cell h.next (some c) })
  Extends-alloc c h = record { grows = omega arith; old = λ p l. ground arith }

  -- What an object was, it still is.
  pub source_kept :
      (Q : Heap F → Type 0) (h h' : Heap F)
      → Extends h h'
      → Holds (Below h.next) h Q
      → Holds (Below h'.next) h' Q
  source_kept Q h h' x q g same = q g (λ p l. same p (omega (arith, x.grows)) ∙ x.old p l)

  -- What a copy is, it is after later steps.
  pub copy_kept :
      (E : ℕ → Type 0) (Q : Heap F → Type 0) (h h' h'' : Heap F)
      → ((p : ℕ) → E p → p < h'.next)
      → Extends h' h''
      → Holds (Since E h h') h' Q
      → Holds (Since E h h'') h'' Q
  copy_kept E Q h h' h'' low x q g same = q g (λ p s. elim s [
    | inl (l, u) ↦ same p (inl (l, omega (arith, x.grows))) ∙ x.old p u
    | inr e ↦ same p (inr e) ∙ x.old p (low p e)
  ])

  -- A copy that was made later depends on no more.
  pub copy_later :
      (E : ℕ → Type 0) (Q : Heap F → Type 0) (h h' h'' : Heap F)
      → Extends h h'
      → Holds (Since E h' h'') h'' Q
      → Holds (Since E h h'') h'' Q
  copy_later E Q h h' h'' x q g same = q g (λ p s. elim s [
    | inl (l, u) ↦ same p (inl (omega (arith, x.grows), u))
    | inr e ↦ same p (inr e)
  ])

  pub copy_wider :
      (E : ℕ → Type 0) (Q : Heap F → Type 0) (h h' : Heap F)
      → Holds (Since Nowhere h h') h' Q
      → Holds (Since E h h') h' Q
  copy_wider E Q h h' q g same = q g (λ p s. elim s [ inl l ↦ same p (inl l) | inr e ↦ elim e [ ] ])

  -- What one of several steps copied, after all of them.
  pub part_kept :
      (E : ℕ → Type 0) (Q : Heap F → Type 0) (h i j k : Heap F)
      → ((p : ℕ) → E p → p < h.next)
      → Extends h i
      → Extends i j
      → Extends j k
      → Holds (Since E i j) j Q
      → Holds (Since E h k) k Q
  part_kept E Q h i j k low x y z q =
      copy_kept E Q h j k (λ p e. omega (arith, low p e, x.grows, y.grows)) z
        (copy_later E Q h i j x q)

-- The command returns a value with `Q`, which depends on the addresses that it took and those with `E`.
pub record Makes {F : Types} {V : Type 0} (E : ℕ → Type 0) (Q : V → Heap F → Type 0) (m : Cmd F V)
    (h : Heap F) : Type 0 where
  pub value : V
  pub heap : Heap F
  pub returns : m h ≡ some (value, heap)
  pub extends : Extends h heap
  pub stands : Holds (Since E h heap) heap (Q value)

module _ {F : Types} {V : Type 0} {m : Cmd F V} {h : Heap F} where
  -- The same, with more addresses allowed.
  pub Makes-wider : (E : ℕ → Type 0) (Q : V → Heap F → Type 0) → Makes Nowhere Q m h → Makes E Q m h
  Makes-wider E Q r = record {
    value = r.value;
    heap = r.heap;
    returns = r.returns;
    extends = r.extends;
    stands = copy_wider E (Q r.value) h r.heap r.stands;
  }

-- How a type's values stand for values of the model, and a copy of it that is deep.
pub record Copied (F : Types) (V A : Type 0) : Type 1 where
  pub Stands : V → A → Heap F → Type 0
  pub copy : V → Cmd F V
  pub copied :
      (v : V) (a : A) (h : Heap F)
      → Holds (Below h.next) h (Stands v a)
      → Makes Nowhere (λ w. Stands w a) (copy v) h
