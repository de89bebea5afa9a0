-- ===== src/TestUtils/Commands.antt =====
-- test/utils/utils.go: what the helpers make of the output of commands.
use agenttask_operator.Base.{
  ◌≡◌, refl, ap, ◌∙◌, ◌↔◌, ◌⊎◌, Bool, true, false, ◌||◌, Option-cases, none, List, [], ◌∷◌, ◌++◌,
  arith, All, inl, inr,
}
use mathlib.Core.List.{append-nil}
use agenttask_operator.Text.{Bytes, is_empty, contains_part, split_lines, split_from, index}
use agenttask_operator.Text.Search.{Occurs, Lacks}
use agenttask_operator.Text.Lines.{
  join_lines, any_line, any_line-split_from, split_lines-append, split_lines-Lacks,
}
use agenttask_operator.TestUtils.{
  Host, run, keep_nonempty, get_non_empty_lines, on_some_line, lists_some_crd, cert_manager_crds,
  is_cert_manager_installed, crds_command,
}

keep_nonempty-append :
    (xs ys : List Bytes) → keep_nonempty (xs ++ ys) ≡ keep_nonempty xs ++ keep_nonempty ys
keep_nonempty-append [] ys = refl
keep_nonempty-append (x ∷ xs) ys = ground (arith, keep_nonempty-append xs ys)

-- Lines that are not empty, with no newline in them.
abbrev pub IsItem : Bytes → Type 0
IsItem l = Lacks 10 l × (is_empty l ≡ false)

one_item : (l : Bytes) → IsItem l → get_non_empty_lines l ≡ l ∷ []
unfolding get_non_empty_lines
one_item l (h, ne) = rw (split_lines-Lacks l h) (rw ne refl)

get_non_empty_lines-append :
    (a b : Bytes)
    → get_non_empty_lines (a ++ 10 ∷ b) ≡ get_non_empty_lines a ++ get_non_empty_lines b
unfolding get_non_empty_lines
get_non_empty_lines-append a b =
    rw split_lines-append (keep_nonempty-append (split_lines a) (split_lines b))

read_back : (items : List Bytes) → All IsItem items → get_non_empty_lines (join_lines items) ≡ items
read_back [] h = unfold get_non_empty_lines split_lines split_from in refl
read_back (l ∷ []) (h, _) = one_item l h
read_back (l ∷ m ∷ ls) (h, hs) =
    rw (get_non_empty_lines-append l (join_lines (m ∷ ls)))
      (rw (one_item l h) (ap (λ r. l ∷ r) (read_back (m ∷ ls) hs)))

read_back_end :
    (items : List Bytes)
    → All IsItem items
    → get_non_empty_lines (join_lines items ++ 10 ∷ []) ≡ items
read_back_end items h =
    get_non_empty_lines-append (join_lines items) []
    ∙ rw (read_back items h) (unfold get_non_empty_lines split_lines split_from in append-nil items)

-- Items that are not empty and have no newline, printed one to a line, are read back, whether or not a
-- newline ends the output.
pub get_non_empty_lines-join :
    (items : List Bytes)
    → All IsItem items
    → (get_non_empty_lines (join_lines items) ≡ items)
      × (get_non_empty_lines (join_lines items ++ 10 ∷ []) ≡ items)
get_non_empty_lines-join items h = (read_back items h, read_back_end items h)

on_some_line-keep :
    (crd : Bytes) (ls : List Bytes)
    → is_empty crd ≡ false
    → on_some_line crd (keep_nonempty ls) ≡ any_line crd ls
unfolding on_some_line index
on_some_line-keep crd [] ne = refl
on_some_line-keep [] (l ∷ ls) ne = absurd (cc ne)
on_some_line-keep (d ∷ crd) ([] ∷ ls) ne = on_some_line-keep (d ∷ crd) ls ne
on_some_line-keep (d ∷ crd) ((c ∷ l) ∷ ls) ne =
    ap (λ b. contains_part (c ∷ l) (d ∷ crd) || b) (on_some_line-keep (d ∷ crd) ls ne)

-- One of the items has the property.
abbrev pub Some : (Bytes → Type 0) → List Bytes → Type 0
Some P [] = ⊥
Some P (x ∷ xs) = P x ⊎ Some P xs

on_some_line_iff :
    (crd output : Bytes)
    → IsItem crd
    → (on_some_line crd (get_non_empty_lines output) ≡ true) ↔ Occurs crd output
unfolding get_non_empty_lines split_lines
on_some_line_iff crd output (h, ne) =
    rw (on_some_line-keep crd (split_from [] output) ne) (any_line-split_from crd h [] output)

or_iff : (b c : Bool) → ((b || c) ≡ true) ↔ ((b ≡ true) ⊎ (c ≡ true))
or_iff true c = (λ h. inl refl, λ o. refl)
or_iff false c = (λ h. inr h, λ o. elim o [ inl e ↦ cc e | inr e ↦ e ])

lists_some_crd_iff :
    (crds : List Bytes) (output : Bytes)
    → All IsItem crds
    → (lists_some_crd crds (get_non_empty_lines output) ≡ true)
      ↔ Some (λ crd. Occurs crd output) crds
unfolding lists_some_crd
lists_some_crd_iff [] output h = (λ e. cc e, λ o. absurd o)
lists_some_crd_iff (crd ∷ crds) output (h, hs) =
    let one = on_some_line_iff crd output h in
    let more = lists_some_crd_iff crds output hs in
    let either =
      or_iff (on_some_line crd (get_non_empty_lines output))
        (lists_some_crd crds (get_non_empty_lines output)) in
    (
      λ e. elim (either.0 e) [ inl a ↦ inl (one.0 a) | inr b ↦ inr (more.0 b) ],
      λ o. either.1 (elim o [ inl a ↦ inl (one.1 a) | inr b ↦ inr (more.1 b) ]),
    )

crds-IsItem : All IsItem cert_manager_crds
crds-IsItem = (
  (omega arith, refl),
  (
    (omega arith, refl),
    ((omega arith, refl), ((omega arith, refl), ((omega arith, refl), ((omega arith, refl), tt)))),
  ),
)

-- The CRDs of cert-manager count as installed exactly when `kubectl get crds` succeeds and one of the
-- six names stands somewhere in its output; taking the output apart into lines changes nothing.
pub installed_iff :
    (H : Host) (s : H.State)
    → ((is_cert_manager_installed H s).0 ≡ true) ↔ (
        ((run H crds_command s).0.1 ≡ none)
        × Some (λ crd. Occurs crd (run H crds_command s).0.0) cert_manager_crds)
unfolding is_cert_manager_installed
installed_iff H s = elim (Option-cases (run H crds_command s).0.1) [
  | inl e ↦
      rw (e, is_cert_manager_installed)
        (let iff = lists_some_crd_iff cert_manager_crds (run H crds_command s).0.0 crds-IsItem in
          (λ h. (refl, iff.0 h), λ h. iff.1 h.1))
  | inr (x, e) ↦ rw (e, is_cert_manager_installed) (λ h. absurd (cc h), λ h. absurd (cc h.0))
]
