-- ===== src/Cluster/Store.antt =====
-- The lists of objects of the small cluster: what is found after a write or a deletion.
use agenttask_operator.Base.{◌≡◌, ◌↔◌, true, List, [], ◌∷◌, eq_iff, arith, if◌then◌else◌}
use agenttask_operator.Api.Core.{NamespacedName}
use agenttask_operator.Platform.{Error, Result, ok, err}
use agenttask_operator.Cluster.{same_key, missing, find, erase, replace}

pub same_key_iff : (a b : NamespacedName) → (same_key a b ≡ true) ↔ (a ≡ b)
same_key_iff a b = ground (arith, eq_iff a.name b.name, eq_iff a.namespace b.namespace)

-- An object that is there is exchanged.
abbrev pub exchanged {ℓ} : {A : Type ℓ} → A → Result A → Result A
exchanged a (ok _) = ok a
exchanged a (err e) = err e

module _ {A : Type 0} (key : A → NamespacedName) where
  pub find-replace :
      (k : NamespacedName) (a : A) (xs : List A)
      → find key k (replace key a xs)
        ≡ (if same_key (key a) k then exchanged a (find key k xs) else find key k xs)
  unfolding find replace
  find-replace k a [] = ground arith
  find-replace k a (x ∷ xs) = ground (
    arith,
    find-replace k a xs,
    same_key_iff (key x) (key a),
    same_key_iff (key x) k,
    same_key_iff (key a) k,
  )

  pub find-erase :
      (k j : NamespacedName) (xs : List A)
      → find key k (erase key j xs) ≡ (if same_key j k then err missing else find key k xs)
  unfolding find erase
  find-erase k j [] = ground arith
  find-erase k j (x ∷ xs) =
      ground
        (arith, find-erase k j xs, same_key_iff (key x) j, same_key_iff (key x) k, same_key_iff j k)

  pub find-key : (k : NamespacedName) (xs : List A) (a : A) → find key k xs ≡ ok a → key a ≡ k
  unfolding find
  find-key k [] a h = cc h
  find-key k (x ∷ xs) a h = ground (arith, find-key k xs a, same_key_iff (key x) k)

  -- The only error is that nothing has the key.
  pub find-err :
      (k : NamespacedName) (xs : List A) (x : Error) → find key k xs ≡ err x → x ≡ missing
  unfolding find
  find-err k [] x h = cc h
  find-err k (y ∷ ys) x h = ground (arith, find-err k ys x)
