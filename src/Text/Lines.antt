-- ===== src/Text/Lines.antt =====
-- The lines of a text, split and joined.
use agenttask_operator.Base.{
  ◌=?◌, ◌<◌, ◌≡◌, refl, ap, ◌∙◌, ◌↔◌, ◌⊎◌, inl, inr, Bool, Bool-cases, true, false, ◌||◌, List, [],
  ◌∷◌, ◌++◌, length, arith, All, if◌then◌else◌,
}
use mathlib.Core.List.{append-nil, append_assoc}
use agenttask_operator.Text.{
  Bytes, is_empty, contains_part, split_from, split_lines, raw_from, drop_cr, max_token, fitting,
  scan_lines,
}
use agenttask_operator.Text.Search.{=?_iff, Occurs, Lacks, contains_part_iff}

-- Lines with a newline between each two.
abbrev pub join_lines : List Bytes → Bytes
join_lines [] = []
join_lines (l ∷ []) = l
join_lines (l ∷ m ∷ ls) = l ++ 10 ∷ join_lines (m ∷ ls)

split_from-append :
    (line a b : Bytes) → split_from line (a ++ 10 ∷ b) ≡ split_from line a ++ split_from [] b
unfolding split_from
split_from-append line [] b = refl
split_from-append line (c ∷ a) b = elim (Bool-cases (c =? 10)) [
  | inl e ↦ rw (e, split_from) (ap (λ ls. line ∷ ls) (split_from-append [] a b))
  | inr e ↦ rw (e, split_from) (split_from-append (line ++ c ∷ []) a b)
]

-- Splitting at newlines takes a text apart at each of them.
pub split_lines-append : (a b : Bytes) → split_lines (a ++ 10 ∷ b) ≡ split_lines a ++ split_lines b
unfolding split_lines
split_lines-append a b = split_from-append [] a b

split_from-Lacks : (line a : Bytes) → Lacks 10 a → split_from line a ≡ (line ++ a) ∷ []
unfolding split_from
split_from-Lacks line [] h = rw append-nil refl
split_from-Lacks line (c ∷ a) h =
    ground (arith, split_from-Lacks (line ++ c ∷ []) a, append_assoc line (c ∷ []) a)

pub split_lines-Lacks : (a : Bytes) → Lacks 10 a → split_lines a ≡ a ∷ []
unfolding split_lines
split_lines-Lacks a h = split_from-Lacks [] a h

raw_from-append :
    (line a b : Bytes) → Lacks 10 a → raw_from line (a ++ 10 ∷ b) ≡ (line ++ a) ∷ raw_from [] b
unfolding raw_from
raw_from-append line [] b h = rw append-nil refl
raw_from-append line (c ∷ a) b h =
    ground (arith, raw_from-append (line ++ c ∷ []) a b, append_assoc line (c ∷ []) a)

raw_from-Lacks :
    (line a : Bytes)
    → Lacks 10 a
    → raw_from line a ≡ (if is_empty (line ++ a) then [] else (line ++ a) ∷ [])
unfolding raw_from
raw_from-Lacks line [] h = rw append-nil refl
raw_from-Lacks line (c ∷ a) h =
    ground (arith, raw_from-Lacks (line ++ c ∷ []) a, append_assoc line (c ∷ []) a)

-- A line that the scanner returns as it is: no newline, no carriage return at its end, and short enough.
pub record IsLine (l : Bytes) : Type 0 where
  pub lacks : Lacks 10 l
  pub no_cr : drop_cr l ≡ l
  pub short : length l < max_token

-- Each line is one, and the last is not empty.
abbrev pub Lines : List Bytes → Type 0
Lines [] = Unit
Lines (l ∷ []) = IsLine l × (is_empty l ≡ false)
Lines (l ∷ m ∷ ls) = IsLine l × Lines (m ∷ ls)

fitting-IsLine : (l : Bytes) (ls : List Bytes) → IsLine l → fitting (l ∷ ls) ≡ l ∷ fitting ls
unfolding fitting
fitting-IsLine l ls h = ground (arith, h.no_cr, h.short)

-- Scanning joined lines gives the lines back.
pub scan_lines-join : (ls : List Bytes) → Lines ls → scan_lines (join_lines ls) ≡ ls
unfolding scan_lines fitting raw_from
scan_lines-join [] h = refl
scan_lines-join (l ∷ []) (h, ne) = rw (raw_from-Lacks [] l h.lacks) (rw ne (fitting-IsLine l [] h))
scan_lines-join (l ∷ m ∷ ls) (h, hs) = rw (raw_from-append [] l (join_lines (m ∷ ls)) h.lacks) (
    fitting-IsLine l (raw_from [] (join_lines (m ∷ ls))) h
    ∙ ap (λ r. l ∷ r) (scan_lines-join (m ∷ ls) hs))

-- A newline at the end adds no line.
pub scan_lines-end :
    (l : Bytes) (ls : List Bytes)
    → All IsLine (l ∷ ls)
    → scan_lines (join_lines (l ∷ ls) ++ 10 ∷ []) ≡ l ∷ ls
unfolding scan_lines fitting raw_from
scan_lines-end l [] (h, _) = rw (raw_from-append [] l [] h.lacks) (fitting-IsLine l [] h)
scan_lines-end l (m ∷ ls) (h, hs) = rw (append_assoc l (10 ∷ join_lines (m ∷ ls)) (10 ∷ [])) (
    rw (raw_from-append [] l (join_lines (m ∷ ls) ++ 10 ∷ []) h.lacks) (
      fitting-IsLine l (raw_from [] (join_lines (m ∷ ls) ++ 10 ∷ [])) h
      ∙ ap (λ r. l ∷ r) (scan_lines-end m ls hs)))

-- A text with no newline that ends before the newline of another.
prefix_before : (t b l r : Bytes) → Lacks 10 t → l ++ 10 ∷ r ≡ t ++ b → (b' : Bytes) × (l ≡ t ++ b')
prefix_before [] b l r h e = (l, refl)
prefix_before (c ∷ t) b [] r h e = absurd (h.0 (cc e))
prefix_before (c ∷ t) b (x ∷ l) r h e =
    let same : x ≡ c = cc e in
    let rest : l ++ 10 ∷ r ≡ t ++ b = cc e in
    let (b', f) = prefix_before t b l r h.1 rest in (b', cc (same, f))

Occurs-aside :
    (a t b l r : Bytes) → Lacks 10 t → l ++ 10 ∷ r ≡ a ++ (t ++ b) → Occurs t l ⊎ Occurs t r
Occurs-aside [] t b l r h e = let (b', f) = prefix_before t b l r h e in inl ([], b', f)
Occurs-aside (c ∷ a) t b [] r h e = let rest : r ≡ a ++ (t ++ b) = cc e in inr (a, b, rest)
Occurs-aside (c ∷ a) t b (x ∷ l) r h e =
    let rest : l ++ 10 ∷ r ≡ a ++ (t ++ b) = cc e in
    elim (Occurs-aside a t b l r h rest) [
      | inl (a', b', f) ↦ inl (x ∷ a', b', ap (λ y. x ∷ y) f)
      | inr o ↦ inr o
    ]

abbrev pub any_line : Bytes → List Bytes → Bool
any_line t [] = false
any_line t (l ∷ ls) = contains_part l t || any_line t ls

Occurs-parts : (t l r : Bytes) → Lacks 10 t → Occurs t (l ++ 10 ∷ r) ↔ (Occurs t l ⊎ Occurs t r)
Occurs-parts t l r h = (
  λ (a, b, e). Occurs-aside a t b l r h e,
  λ o. elim o [
    | inl (a, b, e) ↦ (a, b ++ 10 ∷ r, rw e (rw append_assoc (rw append_assoc refl)))
    | inr (a, b, e) ↦ (l ++ 10 ∷ a, b, rw e (rw append_assoc refl))
  ],
)

any_line-cons :
    (t l : Bytes) (ls : List Bytes)
    → (any_line t (l ∷ ls) ≡ true) ↔ (Occurs t l ⊎ (any_line t ls ≡ true))
any_line-cons t l ls = (
  λ e. elim (Bool-cases (contains_part l t)) [
    | inl f ↦ inl ((contains_part_iff l t).0 f)
    | inr f ↦ inr (ground arith)
  ],
  λ o. elim o [
    | inl w ↦ let f = (contains_part_iff l t).1 w in ground arith
    | inr f ↦ ground arith
  ],
)

pub any_line-split_from :
    (t : Bytes) (h : Lacks 10 t) (line s : Bytes)
    → (any_line t (split_from line s) ≡ true) ↔ Occurs t (line ++ s)
unfolding split_from
any_line-split_from t h line [] = rw append-nil (
  λ e. (contains_part_iff line t).0 (ground arith),
  λ o. ground (arith, (contains_part_iff line t).1 o),
)
any_line-split_from t h line (c ∷ s) = elim (Bool-cases (c =? 10)) [
  | inl e ↦
      rw (e, split_from)
        (rw ((=?_iff c 10).0 e) (
          λ f. (Occurs-parts t line s h).1 (elim ((any_line-cons t line (split_from [] s)).0 f) [
            | inl o ↦ inl o
            | inr g ↦ inr ((any_line-split_from t h [] s).0 g)
          ]),
          λ o. (any_line-cons t line (split_from [] s)).1 (elim ((Occurs-parts t line s h).0 o) [
            | inl u ↦ inl u
            | inr u ↦ inr ((any_line-split_from t h [] s).1 u)
          ]),
        ))
  | inr e ↦
      rw (e, split_from)
        (rw (← append_assoc line (c ∷ []) s) (any_line-split_from t h (line ++ c ∷ []) s))
]
