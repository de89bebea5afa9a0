-- ===== src/Cluster/Exchange.antt =====
-- The list of the stored tasks while one of them is exchanged or erased, and what that keeps.
use agenttask_operator.Base.{
  ◌≤◌, ◌≡◌, ◌≢◌, refl, sym, ap, ◌∙◌, Bool-cases, inl, inr, true, false, String, List, [], ◌∷◌, All,
  count, arith,
}
use agenttask_operator.Api.Core.{NamespacedName}
use agenttask_operator.Api.Task.{AgentTask, is_terminal}
use agenttask_operator.Platform.{ok, err}
use agenttask_operator.Webhook.{is_active}
use agenttask_operator.Webhook.Rules.{IsAdmissible}
use agenttask_operator.Cluster.{find, replace, erase, in_namespace, missing, same_key, task_key}
use agenttask_operator.Cluster.Store.{same_key_iff}

-- No two tasks have the same key.
abbrev pub IsUnique : List AgentTask → Type 0
IsUnique [] = Unit
IsUnique (x ∷ xs) = (find task_key (task_key x) xs ≡ err missing) × IsUnique xs

-- Each task is admissible, and no two have one key.
pub record IsSound (ts : List AgentTask) : Type 0 where
  pub unique : IsUnique ts
  pub admissible : All IsAdmissible ts

-- What a task keeps for as long as it is stored: its profile, its inline source, and that it has ended.
pub record IsHeir (a b : AgentTask) : Type 0 where
  pub profile : b.spec.runtime_profile ≡ a.spec.runtime_profile
  pub source : b.spec.code.source ≡ a.spec.code.source
  pub ended : is_terminal a.status.phase ≡ true → is_terminal b.status.phase ≡ true

pub IsHeir-refl : (a : AgentTask) → IsHeir a a
IsHeir-refl a = record { profile = refl; source = refl; ended = λ over. over }

-- The second list is the first where tasks `old` stand as tasks that `V` admits, or are left out.
pub data Turned (old : AgentTask) (V : AgentTask → Type 0)
    : List AgentTask → List AgentTask → Type 0 where
  over : Turned old V [] []
  other :
      {x : AgentTask} {xs ys : List AgentTask}
      → task_key x ≢ task_key old
      → Turned old V xs ys
      → Turned old V (x ∷ xs) (x ∷ ys)
  turned :
      {y : AgentTask} {xs ys : List AgentTask}
      → V y
      → Turned old V xs ys
      → Turned old V (old ∷ xs) (y ∷ ys)
  dropped : {xs ys : List AgentTask} → Turned old V xs ys → Turned old V (old ∷ xs) ys

-- What `V` keeps of `old`.
pub record IsFair (old : AgentTask) (V : AgentTask → Type 0) : Type 0 where
  pub key : (y : AgentTask) → V y → task_key y ≡ task_key old
  pub admissible : (y : AgentTask) → V y → IsAdmissible old → IsAdmissible y
  pub heir : (y : AgentTask) → V y → IsHeir old y

differ : (a b : NamespacedName) → a ≢ b → same_key a b ≡ false
differ a b ne = elim (Bool-cases (same_key a b)) [
  | inl same ↦ absurd (ne ((same_key_iff a b).0 same))
  | inr different ↦ different
]

module _ {old : AgentTask} {V : AgentTask → Type 0} where
  absent-Turned :
      (xs : List AgentTask) → find task_key (task_key old) xs ≡ err missing → Turned old V xs xs
  unfolding find
  absent-Turned [] e = over
  absent-Turned (x ∷ xs) e =
      other (λ same. ground (arith, (same_key_iff (task_key x) (task_key old)).1 same))
        (absent-Turned xs (ground (arith)))

  pub start-Turned :
      (xs : List AgentTask)
      → IsUnique xs
      → find task_key (task_key old) xs ≡ ok old
      → V old
      → Turned old V xs xs
  unfolding find
  start-Turned [] u e v = absurd (cc e)
  start-Turned (x ∷ xs) u e v = elim (Bool-cases (same_key (task_key x) (task_key old))) [
    | inl same ↦
        let head : x ≡ old = ground (arith) in
        rw head (turned v (absent-Turned xs (rw head at u.0)))
    | inr different ↦
        other (λ same. cc ((same_key_iff (task_key x) (task_key old)).1 same, different))
          (start-Turned xs u.1 (ground (arith)) v)
  ]

module _ {old : AgentTask} {V : AgentTask → Type 0} (fair : IsFair old V) where
  own_key : (y : AgentTask) → V y → same_key (task_key y) (task_key old) ≡ true
  own_key y v = (same_key_iff (task_key y) (task_key old)).1 (fair.key y v)

  pub found-Turned :
      (xs ys : List AgentTask) (a : AgentTask)
      → Turned old V xs ys
      → find task_key (task_key old) ys ≡ ok a
      → V a
  unfolding find
  found-Turned _ _ a over e = absurd (cc e)
  found-Turned _ _ a (other {x} {xs} {ys} ne h) e =
      found-Turned xs ys a h (ground (arith, same_key_iff (task_key x) (task_key old)))
  found-Turned _ _ a (turned {y} {xs} {ys} v h) e =
      let same : y ≡ a = ground (arith, own_key y v) in rw (← same) v
  found-Turned _ _ a (dropped {xs} {ys} h) e = found-Turned xs ys a h e

  pub replace-Turned :
      (xs ys : List AgentTask) (new : AgentTask)
      → V new
      → Turned old V xs ys
      → Turned old V xs (replace task_key new ys)
  unfolding replace
  replace-Turned _ _ new n over = over
  replace-Turned _ _ new n (other {x} {xs} {ys} ne h) =
      rw (differ (task_key x) (task_key new) (λ same. ne (same ∙ fair.key new n)))
        (other ne (replace-Turned xs ys new n h))
  replace-Turned _ _ new n (turned {y} {xs} {ys} v h) =
      rw ((same_key_iff (task_key y) (task_key new)).1 (fair.key y v ∙ sym (fair.key new n)))
        (turned n (replace-Turned xs ys new n h))
  replace-Turned _ _ new n (dropped {xs} {ys} h) = dropped (replace-Turned xs ys new n h)

  pub erase-Turned :
      (xs ys : List AgentTask)
      → Turned old V xs ys
      → Turned old V xs (erase task_key (task_key old) ys)
  unfolding erase
  erase-Turned _ _ over = over
  erase-Turned _ _ (other {x} {xs} {ys} ne h) =
      rw (differ (task_key x) (task_key old) ne) (other ne (erase-Turned xs ys h))
  erase-Turned _ _ (turned {y} {xs} {ys} v h) = rw (own_key y v) (dropped (erase-Turned xs ys h))
  erase-Turned _ _ (dropped {xs} {ys} h) = dropped (erase-Turned xs ys h)

  missing-Turned :
      (k : NamespacedName) (xs ys : List AgentTask)
      → Turned old V xs ys
      → find task_key k xs ≡ err missing
      → find task_key k ys ≡ err missing
  unfolding find
  missing-Turned k _ _ over e = e
  missing-Turned k _ _ (other {x} {xs} {ys} ne h) e = ground (arith, missing-Turned k xs ys h)
  missing-Turned k _ _ (turned {y} {xs} {ys} v h) e =
      ground (arith, missing-Turned k xs ys h, ap (λ j. same_key j k) (fair.key y v))
  missing-Turned k _ _ (dropped {xs} {ys} h) e = missing-Turned k xs ys h (ground (arith))

  IsUnique-Turned : (xs ys : List AgentTask) → Turned old V xs ys → IsUnique xs → IsUnique ys
  IsUnique-Turned _ _ over u = tt
  IsUnique-Turned _ _ (other {x} {xs} {ys} ne h) u =
      (missing-Turned (task_key x) xs ys h u.0, IsUnique-Turned xs ys h u.1)
  IsUnique-Turned _ _ (turned {y} {xs} {ys} v h) u =
      (rw (fair.key y v) (missing-Turned (task_key old) xs ys h u.0), IsUnique-Turned xs ys h u.1)
  IsUnique-Turned _ _ (dropped {xs} {ys} h) u = IsUnique-Turned xs ys h u.1

  IsAdmissible-Turned :
      (xs ys : List AgentTask) → Turned old V xs ys → All IsAdmissible xs → All IsAdmissible ys
  IsAdmissible-Turned _ _ over a = tt
  IsAdmissible-Turned _ _ (other {x} {xs} {ys} ne h) a = (a.0, IsAdmissible-Turned xs ys h a.1)
  IsAdmissible-Turned _ _ (turned {y} {xs} {ys} v h) a =
      (fair.admissible y v a.0, IsAdmissible-Turned xs ys h a.1)
  IsAdmissible-Turned _ _ (dropped {xs} {ys} h) a = IsAdmissible-Turned xs ys h a.1

  pub active-Turned :
      (namespace : String) (xs ys : List AgentTask)
      → Turned old V xs ys
      → count is_active (in_namespace namespace ys) ≤ count is_active (in_namespace namespace xs)
  unfolding in_namespace
  active-Turned n _ _ over = omega arith
  active-Turned n _ _ (other {x} {xs} {ys} ne h) = ground (arith, active-Turned n xs ys h)
  active-Turned n _ _ (turned {y} {xs} {ys} v h) =
      ground (
        arith,
        active-Turned n xs ys h,
        (fair.heir y v).ended,
        ap (λ k. k.namespace) (fair.key y v),
      )
  active-Turned n _ _ (dropped {xs} {ys} h) = ground (arith, active-Turned n xs ys h)

  -- Such a list is sound where the first was.
  pub IsSound-Turned : (xs ys : List AgentTask) → Turned old V xs ys → IsSound xs → IsSound ys
  IsSound-Turned xs ys h s = record {
    unique = IsUnique-Turned xs ys h s.unique;
    admissible = IsAdmissible-Turned xs ys h s.admissible;
  }

  others-Turned :
      (k : NamespacedName) (xs ys : List AgentTask)
      → same_key (task_key old) k ≡ false
      → Turned old V xs ys
      → find task_key k ys ≡ find task_key k xs
  unfolding find
  others-Turned k _ _ ne over = refl
  others-Turned k _ _ ne (other {x} {xs} {ys} d h) = ground (arith, others-Turned k xs ys ne h)
  others-Turned k _ _ ne (turned {y} {xs} {ys} v h) =
      ground (arith, others-Turned k xs ys ne h, ap (λ j. same_key j k) (fair.key y v))
  others-Turned k _ _ ne (dropped {xs} {ys} h) = ground (arith, others-Turned k xs ys ne h)

  pub IsHeir-Turned :
      (k : NamespacedName) (xs ys : List AgentTask) (a b : AgentTask)
      → find task_key (task_key old) xs ≡ ok old
      → Turned old V xs ys
      → find task_key k xs ≡ ok a
      → find task_key k ys ≡ ok b
      → IsHeir a b
  IsHeir-Turned k xs ys a b here h e f = elim (Bool-cases (same_key (task_key old) k)) [
    | inl same ↦
        let own : task_key old ≡ k = (same_key_iff (task_key old) k).0 same in
        let first : old ≡ a = cc (own, here, e) in
        rw (← first) (fair.heir b (found-Turned xs ys b h (ap (λ j. find task_key j ys) own ∙ f)))
    | inr different ↦
        let same : a ≡ b = cc (others-Turned k xs ys different h, e, f) in rw same (IsHeir-refl b)
  ]
