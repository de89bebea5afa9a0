-- ===== src/Agentctl/Stems.antt =====
-- cmd/agentctl/cmd/run.go: the name that is derived from a path, beside the path's parts.
use agenttask_operator.Base.{
  ◌=?◌, ℕ, ◌+◌, ◌<◌, ◌≡◌, ◌≢◌, refl, sym, ap, ◌∙◌, Bool-cases, true, false, [], ◌∷◌, ◌++◌, map,
  length, arith, All, inl, inr, if◌then◌else◌,
}
use mathlib.Core.List.{append-nil, append_assoc}
use agenttask_operator.Text.{Bytes, codes, is_empty, equal, has_prefix, replace_all, replace_from}
use agenttask_operator.Text.Search.{Lacks}
use agenttask_operator.Agentctl.{Tools}
use agenttask_operator.Agentctl.Names.{
  strip_slashes, after_slash, base_name, extension, trim_suffix, lower, is_ascii, to_lower, stem,
  task_name,
}

strip-Lacks : (s : Bytes) → Lacks 47 s → strip_slashes s ≡ s
unfolding strip_slashes
strip-Lacks [] h = refl
strip-Lacks (c ∷ s) h = ground (arith, strip-Lacks s)

is_empty-append : (a : Bytes) (c : ℕ) (s : Bytes) → is_empty (a ++ c ∷ s) ≡ false
is_empty-append [] c s = refl
is_empty-append (x ∷ a) c s = refl

strip-append :
    (a : Bytes) (c : ℕ) (s : Bytes) → Lacks 47 (c ∷ s) → strip_slashes (a ++ c ∷ s) ≡ a ++ c ∷ s
unfolding strip_slashes
strip-append [] c s h = strip-Lacks (c ∷ s) h
strip-append (x ∷ a) c s h = rw (strip-append a c s h) (rw (is_empty-append a c s) refl)

after_slash-Lacks : (seen s : Bytes) → Lacks 47 s → after_slash seen s ≡ seen ++ s
unfolding after_slash
after_slash-Lacks seen [] h = sym (append-nil seen)
after_slash-Lacks seen (c ∷ s) h =
    ground (arith, after_slash-Lacks (seen ++ c ∷ []) s, append_assoc seen (c ∷ []) s)

after_slash-append : (seen a s : Bytes) → after_slash seen (a ++ 47 ∷ s) ≡ after_slash [] s
unfolding after_slash
after_slash-append seen [] s = ground arith
after_slash-append seen (c ∷ a) s = after_slash-append (if c =? 47 then [] else seen ++ c ∷ []) a s

extension-Lacks : (s : Bytes) → Lacks 46 s → extension s ≡ []
unfolding extension
extension-Lacks [] h = refl
extension-Lacks (c ∷ s) h = ground (arith, extension-Lacks s)

extension-append : (a s : Bytes) → Lacks 46 s → extension (a ++ 46 ∷ s) ≡ 46 ∷ s
unfolding extension
extension-append [] s h = ground (arith, extension-Lacks s)
extension-append (c ∷ a) s h = rw (extension-append a s h) refl

equal-eq : (s t : Bytes) → equal s t ≡ true → s ≡ t
unfolding equal
equal-eq [] [] h = refl
equal-eq [] (d ∷ t) h = absurd (cc h)
equal-eq (c ∷ s) [] h = absurd (cc h)
equal-eq (c ∷ s) (d ∷ t) h = ground (arith, equal-eq s t)

equal_refl : (s : Bytes) → equal s s ≡ true
unfolding equal
equal_refl [] = refl
equal_refl (c ∷ s) = ground (arith, equal_refl s)

length-append : (s t : Bytes) → length (s ++ t) ≡ length s + length t
length-append [] t = omega arith
length-append (c ∷ s) t = omega (arith, length-append s t)

trim_suffix-append : (a s : Bytes) → trim_suffix (a ++ s) s ≡ a
unfolding trim_suffix
trim_suffix-append [] [] = refl
trim_suffix-append [] (c ∷ s) = rw (equal_refl (c ∷ s), trim_suffix) refl
trim_suffix-append (c ∷ a) s = elim (Bool-cases (equal (c ∷ (a ++ s)) s)) [
  | inl e ↦ absurd (omega (arith, ap length (equal-eq (c ∷ (a ++ s)) s e), length-append a s))
  | inr e ↦ rw (e, trim_suffix) (ap (λ x. c ∷ x) (trim_suffix-append a s))
]

-- What becomes of a byte of the name.
abbrev pub tidy : ℕ → ℕ
tidy c = lower (if c =? b'_' then b'-' else c)

abbrev dashed : ℕ → ℕ
dashed c = if c =? b'_' then b'-' else c

replace-dashed : (s : Bytes) → replace_from (codes "_") (codes "-") 0 s ≡ map dashed s
unfolding replace_from has_prefix
replace-dashed [] = refl
replace-dashed (c ∷ s) = ground (arith, replace-dashed s)

dashed-ascii : (s : Bytes) → All (λ c. c < 128) s → is_ascii (map dashed s) ≡ true
dashed-ascii [] h = refl
dashed-ascii (c ∷ s) h = ground (arith, dashed-ascii s)

lower-dashed : (s : Bytes) → map lower (map dashed s) ≡ map tidy s
lower-dashed [] = refl
lower-dashed (c ∷ s) = ap (λ x. tidy c ∷ x) (lower-dashed s)

-- From the file's name on.
name_of :
    (T : Tools) (path a ext : Bytes)
    → base_name path ≡ a ++ 46 ∷ ext
    → Lacks 46 ext
    → All (λ c. c < 128) a
    → task_name T path ≡ map tidy a
unfolding task_name stem replace_all to_lower
name_of T path a ext e h ascii = rw e (
    rw (extension-append a ext h) (
      rw (trim_suffix-append a (46 ∷ ext))
        (rw (replace-dashed a) (rw (dashed-ascii a ascii) (lower-dashed a)))))

strip-dir :
    (dir : Bytes) (c : ℕ) (f : Bytes)
    → Lacks 47 (c ∷ f)
    → strip_slashes (dir ++ 47 ∷ c ∷ f) ≡ dir ++ 47 ∷ c ∷ f
unfolding strip_slashes
strip-dir [] c f h = rw (strip-Lacks (c ∷ f) h) refl
strip-dir (x ∷ dir) c f h = rw (strip-dir dir c f h) (rw (is_empty-append dir 47 (c ∷ f)) refl)

base-dir : (dir f : Bytes) → f ≢ [] → Lacks 47 f → base_name (dir ++ 47 ∷ f) ≡ f
unfolding base_name
base-dir dir [] n h = absurd (n refl)
base-dir dir (c ∷ f) n h = rw (is_empty-append dir 47 (c ∷ f)) (
    rw (strip-dir dir c f h) (
      rw (is_empty-append dir 47 (c ∷ f))
        (after_slash-append [] dir (c ∷ f) ∙ after_slash-Lacks [] (c ∷ f) h)))

Lacks-append : (k : ℕ) (a b : Bytes) → Lacks k a → Lacks k b → Lacks k (a ++ b)
Lacks-append k [] b h g = g
Lacks-append k (c ∷ a) b h g = ground (arith, Lacks-append k a b)

-- The name that `run` derives from a file `dir/a.ext`, where `a` is ASCII with no slash and may have dots
-- of its own and `ext` has neither slash nor dot, is `a`, with its capitals lowered and its underscores
-- turned to dashes, whatever `dir` is.
pub task_name-path :
    (T : Tools) (dir a ext : Bytes)
    → All (λ c. c < 128) a
    → Lacks b'/' a
    → Lacks b'/' ext
    → Lacks b'.' ext
    → task_name T (dir ++ b'/' ∷ (a ++ b'.' ∷ ext)) ≡ map tidy a
task_name-path T dir a ext ascii flat flat_ext dotless =
    let file = a ++ b'.' ∷ ext in
    let slashless : Lacks b'/' file =
      Lacks-append b'/' a (b'.' ∷ ext) flat (ground (arith, flat_ext)) in
    name_of T (dir ++ b'/' ∷ file) a ext
      (base-dir dir file (λ e. absurd (cc (is_empty-append a b'.' ext, ap is_empty e))) slashless)
      dotless ascii
