-- ===== src/Text/Search.antt =====
-- What a search for a part of a text finds.
use agenttask_operator.Base.{
  ◌=?◌, ℕ, suc, ◌≤◌, ◌≡◌, ◌≢◌, refl, ap, ◌↔◌, inl, inr, Bool-cases, Option-cases, true, some, [],
  ◌∷◌, ◌++◌, length, arith, All,
}
use agenttask_operator.Text.{Bytes, take, drop, has_prefix, trim_prefix, index, contains_part}

-- `t` stands somewhere in `s`.
abbrev pub Occurs : Bytes → Bytes → Type 0
Occurs t s = (a : Bytes) × (b : Bytes) × (s ≡ a ++ (t ++ b))

-- No byte of the text is `c`.
abbrev pub Lacks : ℕ → Bytes → Type 0
Lacks c = All (λ x. x ≢ c)

pub =?_iff : (a b : ℕ) → ((a =? b) ≡ true) ↔ (a ≡ b)
=?_iff a b = ground arith

pub has_prefix-append : (p r : Bytes) → has_prefix (p ++ r) p ≡ true
unfolding has_prefix
has_prefix-append [] r = refl
has_prefix-append (c ∷ p) r = ground (arith, has_prefix-append p r)

pub has_prefix-eq : (s p : Bytes) → has_prefix s p ≡ true → (r : Bytes) × (s ≡ p ++ r)
unfolding has_prefix
has_prefix-eq s [] h = (s, refl)
has_prefix-eq [] (c ∷ p) h = absurd (cc h)
has_prefix-eq (x ∷ s) (c ∷ p) h =
    let (r, e) = has_prefix-eq s p (ground arith) in
    let same : x ≡ c = ground arith in (r, cc (same, e))

pub drop-append : (a b : Bytes) → drop (length a) (a ++ b) ≡ b
drop-append [] b = refl
drop-append (c ∷ a) b = drop-append a b

pub take-append : (a b : Bytes) → take (length a) (a ++ b) ≡ a
take-append [] b = refl
take-append (c ∷ a) b = ap (λ x. c ∷ x) (take-append a b)

pub trim_prefix-append : (p r : Bytes) → trim_prefix (p ++ r) p ≡ r
unfolding trim_prefix
trim_prefix-append p r = rw has_prefix-append (drop-append p r)

-- An index is that of an occurrence.
pub index_sound :
    (s t : Bytes) (n : ℕ)
    → index s t ≡ some n
    → (a : Bytes) × (b : Bytes) × (s ≡ a ++ (t ++ b)) × (length a ≡ n)
unfolding index
index_sound [] t n h = elim (Bool-cases (has_prefix [] t)) [
  | inl e ↦ let (r, f) = has_prefix-eq [] t e in ([], r, f, ground arith)
  | inr e ↦ absurd (cc (rw e at h))
]
index_sound (c ∷ s) t n h = elim (Bool-cases (has_prefix (c ∷ s) t)) [
  | inl e ↦ let (r, f) = has_prefix-eq (c ∷ s) t e in ([], r, f, ground arith)
  | inr e ↦ elim (Option-cases (index s t)) [
    | inl f ↦ absurd (cc (rw f at (rw e at h)))
    | inr (m, f) ↦
        let (a, b, g, l) = index_sound s t m f in (c ∷ a, b, ap (λ x. c ∷ x) g, ground arith)
  ]
]

index_here : (s t : Bytes) → has_prefix s t ≡ true → index s t ≡ some 0
unfolding index
index_here [] t h = rw h refl
index_here (c ∷ s) t h = rw h refl

-- A text that occurs is found, no later than there.
pub index_complete : (a t b : Bytes) → (n : ℕ) × (index (a ++ (t ++ b)) t ≡ some n) × (n ≤ length a)
unfolding index
index_complete [] t b = (0, index_here (t ++ b) t (has_prefix-append t b), omega arith)
index_complete (c ∷ a) t b = elim (Bool-cases (has_prefix (c ∷ (a ++ (t ++ b))) t)) [
  | inl e ↦ (0, rw e refl, omega arith)
  | inr e ↦ let (n, f, l) = index_complete a t b in (suc n, rw (e, f) refl, omega arith)
]

pub contains_part_iff : (s t : Bytes) → (contains_part s t ≡ true) ↔ Occurs t s
contains_part_iff s t = (
  λ h. elim (Option-cases (index s t)) [
    | inl e ↦ absurd (cc (rw (e, contains_part) at h))
    | inr (n, e) ↦ let (a, b, f, l) = index_sound s t n e in (a, b, f)
  ],
  λ (a, b, e). let (n, f, l) = index_complete a t b in rw e (rw (f, contains_part) refl),
)
