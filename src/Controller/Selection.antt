-- ===== src/Controller/Selection.antt =====
-- internal/controller/agenttask_controller.go: which backend a task gets, beside the rules that the
-- choice follows.
use agenttask_operator.Base.{
  ◌≡◌, ◌↔◌, ◌||◌, Bool-cases, ◌⊎◌, inl, inr, refl, Bool, true, false, String, ◌==◌, arith, eq_iff,
  if◌then◌else◌,
}
use agenttask_operator.Api.Task.{AgentTask}
use agenttask_operator.Platform.{Platform, Error, Result, Result-cases, ok, err, get_crd}
use agenttask_operator.Platform.Exec.{World, pure, raise, ◌>>=◌}
use agenttask_operator.Controller.Backend.{
  backend_auto, backend_pod, backend_sandbox, requested_backend, check_sandbox_availability,
  sandbox_available, select_backend, choose_backend,
}

-- The definition of sandboxes is there: its lookup gets no error.
abbrev pub IsInstalled : (P : Platform) → World P → Type 0
IsInstalled P w = (P.serve (get_crd "sandboxes.execution.agenttask.io") w.api).0 ≡ ok tt

-- The task leaves the choice to the operator.
abbrev pub LeavesChoice : AgentTask → Type 0
LeavesChoice task = (task.spec.backend ≡ "") ⊎ (task.spec.backend ≡ "auto")

-- The task asks for a sandbox or leaves the choice to the operator.
abbrev pub MayBeSandboxed : AgentTask → Type 0
MayBeSandboxed task = (task.spec.backend ≡ "sandbox") ⊎ LeavesChoice task

-- The default counts as "auto".
pub requests_sandbox :
    (task : AgentTask) → (requested_backend task == "sandbox") ≡ (task.spec.backend == "sandbox")
unfolding requested_backend
requests_sandbox task = elim (Bool-cases (task.spec.backend == "")) [
  | inl e ↦ rw e (rw ((eq_iff task.spec.backend "").0 e) refl)
  | inr e ↦ rw e refl
]

requests_auto :
    (task : AgentTask)
    → (requested_backend task == "auto") ≡ (task.spec.backend == "" || task.spec.backend == "auto")
unfolding requested_backend
requests_auto task = elim (Bool-cases (task.spec.backend == "")) [
  | inl e ↦ rw e refl
  | inr e ↦ rw e refl
]

abbrev chosen : Platform → Bool → Bool → Bool → Result String
chosen P true _ true = ok backend_sandbox
chosen P true _ false = err (P.bad_request "sandbox backend requested but not available")
chosen P false true true = ok backend_sandbox
chosen P false _ _ = ok backend_pod

module _ (P : Platform) {S L : Type 0} where
  chosen_sandbox :
      (asked auto available : Bool)
      → ((asked ≡ true) ↔ S)
      → ((auto ≡ true) ↔ L)
      → (chosen P asked auto available ≡ ok "sandbox") ↔ ((available ≡ true) × (S ⊎ L))
  chosen_sandbox true auto true s l = ground arith
  chosen_sandbox true auto false s l = ground arith
  chosen_sandbox false true true s l = ground arith
  chosen_sandbox false true false s l = (λ e. cc e, λ h. cc h.0)
  chosen_sandbox false false true s l =
      (λ e. cc e, λ h. elim h.1 [ inl x ↦ cc (s.1 x) | inr x ↦ cc (l.1 x) ])
  chosen_sandbox false false false s l = (λ e. cc e, λ h. cc h.0)

  chosen_pod :
      (asked auto available : Bool)
      → ((asked ≡ true) ↔ S)
      → ((auto ≡ true) ↔ L)
      → (S → ¬ L)
      → (chosen P asked auto available ≡ ok "pod") ↔ ((¬ (S ⊎ L)) ⊎ (L × (available ≡ false)))
  chosen_pod true auto true s l only =
      (λ e. cc e, λ h. elim h [ inl n ↦ absurd (n (inl (s.0 refl))) | inr (x, y) ↦ cc y ])
  chosen_pod true auto false s l only = (
    λ e. cc e,
    λ h. elim h [ inl n ↦ absurd (n (inl (s.0 refl))) | inr (x, y) ↦ absurd (only (s.0 refl) x) ],
  )
  chosen_pod false true true s l only =
      (λ e. cc e, λ h. elim h [ inl n ↦ absurd (n (inr (l.0 refl))) | inr (x, y) ↦ cc y ])
  chosen_pod false true false s l only = (λ e. inr (l.0 refl, refl), λ h. refl)
  chosen_pod false false true s l only =
      (λ e. inl (λ h. elim h [ inl x ↦ cc (s.1 x) | inr x ↦ cc (l.1 x) ]), λ h. refl)
  chosen_pod false false false s l only =
      (λ e. inl (λ h. elim h [ inl x ↦ cc (s.1 x) | inr x ↦ cc (l.1 x) ]), λ h. refl)

asks_iff :
    (task : AgentTask) → ((task.spec.backend == "sandbox") ≡ true) ↔ (task.spec.backend ≡ "sandbox")
asks_iff task = eq_iff task.spec.backend "sandbox"

leaves_iff :
    (task : AgentTask)
    → ((task.spec.backend == "" || task.spec.backend == "auto") ≡ true) ↔ LeavesChoice task
leaves_iff task = ground (arith, eq_iff task.spec.backend "", eq_iff task.spec.backend "auto")

asks_or_leaves : (task : AgentTask) → task.spec.backend ≡ "sandbox" → ¬ LeavesChoice task
asks_or_leaves task s (inl e) = cc (s, e)
asks_or_leaves task s (inr e) = cc (s, e)

module _ {P : Platform} where
  installed_lem : (w : World P) → IsInstalled P w → (sandbox_available {P = P} w).0 ≡ ok true
  unfolding sandbox_available check_sandbox_availability ◌>>=◌
  installed_lem w there = rw there refl

  not_installed_lem :
      (w : World P) (e : Error)
      → (P.serve (get_crd "sandboxes.execution.agenttask.io") w.api).0 ≡ err e
      → (sandbox_available {P = P} w).0 ≡ ok false
  unfolding sandbox_available check_sandbox_availability ◌>>=◌
  not_installed_lem w e gone = rw gone (ground arith)

  select_lem :
      (task : AgentTask) (w : World P) (b : Bool)
      → (sandbox_available {P = P} w).0 ≡ ok b
      → (select_backend {P = P} task w).0
        ≡ (choose_backend {P = P} (requested_backend task) b (sandbox_available {P = P} w).1).0
  unfolding select_backend ◌>>=◌
  select_lem task w b e = rw e refl

  choose_lem :
      (requested : String) (available : Bool) (w : World P)
      → (choose_backend {P = P} requested available w).0
        ≡ chosen P (requested == backend_sandbox) (requested == backend_auto) available
  unfolding choose_backend ◌>>=◌
  choose_lem requested available w =
      go (requested == backend_sandbox) (requested == backend_auto) available
    where
      go :
          (x y b : Bool)
          → ((if x
                then if b
                  then pure {P = P} backend_sandbox
                  else raise (P.bad_request "sandbox backend requested but not available")
                else if y
                then if b then pure backend_sandbox else pure backend_pod
                else pure backend_pod)
              w).0
            ≡ chosen P x y b
      go true true true = refl
      go true true false = refl
      go true false true = refl
      go true false false = refl
      go false true true = refl
      go false true false = refl
      go false false true = refl
      go false false false = refl

  choose_sandbox :
      (task : AgentTask) (w : World P) (b : Bool)
      → ((choose_backend {P = P} (requested_backend task) b w).0 ≡ ok "sandbox")
        ↔ ((b ≡ true) × MayBeSandboxed task)
  choose_sandbox task w b = rw choose_lem (
      rw requests_sandbox (
        rw requests_auto (
          chosen_sandbox P (task.spec.backend == "sandbox") _ b (asks_iff task) (leaves_iff task))))

  choose_pod :
      (task : AgentTask) (w : World P) (b : Bool)
      → ((choose_backend {P = P} (requested_backend task) b w).0 ≡ ok "pod")
        ↔ ((¬ MayBeSandboxed task) ⊎ (LeavesChoice task × (b ≡ false)))
  choose_pod task w b = rw choose_lem (
      rw requests_sandbox (
        rw requests_auto (
          chosen_pod P (task.spec.backend == "sandbox") _ b (asks_iff task) (leaves_iff task)
            (asks_or_leaves task))))

  by_answer :
      (task : AgentTask) (w : World P) (b : Bool)
      → (sandbox_available {P = P} w).0 ≡ ok b
      → (b ≡ true → IsInstalled P w)
      → (IsInstalled P w → b ≡ true)
      → (((select_backend task w).0 ≡ ok "sandbox") ↔ (IsInstalled P w × MayBeSandboxed task))
        × (((select_backend task w).0 ≡ ok "pod")
            ↔ ((¬ MayBeSandboxed task) ⊎ (LeavesChoice task × ¬ IsInstalled P w)))
  by_answer task w b e there back = rw (select_lem task w b e) (
      ground (
        arith,
        choose_sandbox task (sandbox_available {P = P} w).1 b,
        choose_pod task (sandbox_available {P = P} w).1 b,
      ))

  -- select_backend returns "sandbox" exactly when the definition of sandboxes is installed and the task
  -- asks for a sandbox or leaves the choice, and "pod" exactly when the task names another backend, or
  -- leaves the choice and the definition is not installed. A lookup that gets any error counts as not
  -- installed.
  pub select_backend_iff :
      (task : AgentTask) (w : World P)
      → (((select_backend task w).0 ≡ ok "sandbox") ↔ (IsInstalled P w × MayBeSandboxed task))
        × (((select_backend task w).0 ≡ ok "pod")
            ↔ ((¬ MayBeSandboxed task) ⊎ (LeavesChoice task × ¬ IsInstalled P w)))
  select_backend_iff task w =
      elim (Result-cases (P.serve (get_crd "sandboxes.execution.agenttask.io") w.api).0) [
        | inl (u, e) ↦ by_answer task w true (installed_lem w e) (λ _. e) (λ _. refl)
        | inr (x, e) ↦ by_answer task w false (not_installed_lem w x e) (λ f. cc f) (λ f. cc (f, e))
      ]
