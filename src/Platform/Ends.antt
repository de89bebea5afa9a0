-- ===== src/Platform/Ends.antt =====
-- Steps that return no error: one rule for each way to build a step.
use agenttask_operator.Base.{
  ◌≡◌, refl, Bool, true, false, Option, none, some, ◌∷◌, if◌then◌else◌, inl, inr,
}
use agenttask_operator.Platform.{Platform, Error, Result, Result-cases, Request, Answer, ok, err}
use agenttask_operator.Platform.Exec.{World, Exec, pure, raise, attempt, send, ◌>>=◌}

-- From every world, `m` returns no error and leaves a world with `Q`.
pub record Ends {ℓ} {P : Platform} {A : Type ℓ} (Q : World P → Type 0) (m : Exec P A) : Type ℓ where
  pub value : (w : World P) → (a : A) × ((m w).0 ≡ ok a)
  pub after : (w : World P) → Q (m w).1

-- `m` returns no error.
abbrev pub Succeeds {ℓ} : {P : Platform} {A : Type ℓ} → Exec P A → Type ℓ
Succeeds {P = P} m = Ends {P = P} (λ _. Unit {0}) m

module _ {P : Platform} where
  pub Succeeds-pure {ℓ} : {A : Type ℓ} (a : A) → Succeeds {P = P} (pure a)
  unfolding pure
  Succeeds-pure a = record { value = λ w. (a, refl); after = λ w. tt }

  module _ {ℓ κ} {A : Type ℓ} {B : Type κ} (Q : World P → Type 0) where
    pub Ends-bind :
        (m : Exec P A) (f : A → Exec P B) → Succeeds m → ((a : A) → Ends Q (f a)) → Ends Q (m >>= f)
    unfolding ◌>>=◌
    Ends-bind m f hm hf = record {
      value = λ w. let (a, e) = hm.value w in rw e ((hf a).value (m w).1);
      after = λ w. let (a, e) = hm.value w in rw e ((hf a).after (m w).1);
    }

    -- The first step always returns the same value.
    pub Ends-bind_value :
        (m : Exec P A) (f : A → Exec P B) (a : A)
        → ((w : World P) → (m w).0 ≡ ok a)
        → Ends Q (f a)
        → Ends Q (m >>= f)
    unfolding ◌>>=◌
    Ends-bind_value m f a hm hf = record {
      value = λ w. rw (hm w) (hf.value (m w).1);
      after = λ w. rw (hm w) (hf.after (m w).1);
    }

    pub Ends-bind_attempt :
        (m : Exec P A) (f : Result A → Exec P B)
        → ((a : A) → Ends Q (f (ok a)))
        → ((e : Error) → Ends Q (f (err e)))
        → Ends Q (attempt m >>= f)
    unfolding ◌>>=◌
    Ends-bind_attempt m f hok herr = record {
      value = λ w. (cases (m w).0).value (m w).1;
      after = λ w. (cases (m w).0).after (m w).1;
    }
      where
        cases : (r : Result A) → Ends Q (f r)
        cases (ok a) = hok a
        cases (err e) = herr e

    pub Ends-attempt_ok :
        (m : Exec P A) (f : Result A → Exec P B)
        → Succeeds m
        → ((a : A) → Ends Q (f (ok a)))
        → Ends Q (attempt m >>= f)
    unfolding ◌>>=◌
    Ends-attempt_ok m f hm hf = record {
      value = λ w. let (a, e) = hm.value w in rw e ((hf a).value (m w).1);
      after = λ w. let (a, e) = hm.value w in rw e ((hf a).after (m w).1);
    }

  module _ {ℓ} {B : Type ℓ} where
    pub send_then :
        (r : Request) (f : Answer r → Exec P B) (w : World P)
        → ((y : Answer r) → Succeeds (f y))
        → ((y : Answer r) × ((P.serve r w.api).0 ≡ ok y))
        → (b : B) × (((send r >>= f) w).0 ≡ ok b)
    unfolding ◌>>=◌
    send_then r f w hf (y, e) = rw e ((hf y).value (send r w).1)

  module _ {ℓ κ} {A : Type ℓ} {B : Type κ} {Q : World P → Type 0} where
    pub Ends-Option :
        (o : Option A) (m : Exec P B) (f : A → Exec P B)
        → Ends Q m
        → ((a : A) → Ends Q (f a))
        → Ends Q (elim o [ none ↦ m | some a ↦ f a ])
    Ends-Option none m f hm hf = hm
    Ends-Option (some a) m f hm hf = hf a

  module _ {ℓ} {B : Type ℓ} {Q : World P → Type 0} where
    pub Ends-if : (b : Bool) (m n : Exec P B) → Ends Q m → Ends Q n → Ends Q (if b then m else n)
    Ends-if true m n hm hn = hm
    Ends-if false m n hm hn = hn

  -- Looking an object up, and making it where it is missing.
  module _ {ℓ} {B : Type ℓ} where
    pub Succeeds-lookup :
        (g : Request) (f : Answer g → Exec P B) (make : Exec P B)
        → ((x : Answer g) → Succeeds (f x))
        → ((w : World P) (e : Error)
            → (P.serve g w.api).0 ≡ err e
            → (e.not_found ≡ true)
              × ((b : B) × ((make
                      (record w { api = (P.serve g w.api).1; requests = g ∷ w.requests })).0
                    ≡ ok b)))
        → Succeeds (
            attempt (send g) >>= λ found. elim found [
              | ok x ↦ f x
              | err e ↦ if e.not_found then make else raise e
            ])
    unfolding ◌>>=◌
    Succeeds-lookup g f make hf hm = record {
      value = λ w. elim (Result-cases (P.serve g w.api).0) [
        | inl (x, e) ↦ rw e ((hf x).value (send g w).1)
        | inr (x, e) ↦ let (gone, made) = hm w x e in rw e (rw gone made)
      ];
      after = λ w. tt;
    }
