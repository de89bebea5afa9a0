-- ===== src/Platform/Sends.antt =====
-- Which requests a step may send, whatever the server answers: one rule for each way to build a step.
use agenttask_operator.Base.{
  ◌≡◌, refl, Bool, true, false, Option, none, some, List, [], All, if◌then◌else◌,
}
use agenttask_operator.Platform.{Error, Result, ok, err, Request, Platform, Metric}
use agenttask_operator.Platform.Exec.{
  World, Exec, continue, pure, raise, attempt, send, now, record_metric, ◌>>=◌,
}

-- The requests of a run of `m` from `w`, the latest first.
abbrev pub sent {ℓ} : {P : Platform} {A : Type ℓ} → Exec P A → World P → List Request
sent m w = (m (record w { requests = [] })).1.requests

-- A statement about worlds that stays true when a request with `Q` is sent, whatever the answer, when
-- the clock is read and when a metric is recorded.
pub record IsKept {P : Platform} (Q : Request → Type 0) (I : World P → Type 0) : Type 0 where
  pub by_send : (w : World P) (r : Request) → Q r → I w → I (send r w).1
  pub by_now : (w : World P) → I w → I (now w).1
  pub by_metric : (w : World P) (m : Metric) → I w → I (record_metric m w).1

-- `m` changes the world by requests with `Q`, readings of the clock and metrics, and by nothing else.
pub record Sends {ℓ} {P : Platform} {A : Type ℓ} (Q : Request → Type 0) (m : Exec P A)
    : Type 1 where
  pub at : (I : World P → Type 0) → IsKept Q I → (w : World P) → I w → I (m w).1

module _ {ℓ} {P : Platform} {A : Type ℓ} {Q : Request → Type 0} where
  pub Sends-pure : (a : A) → Sends {P = P} Q (pure a)
  unfolding pure
  Sends-pure a = record { at = λ I k w h. h }

  pub Sends-raise : (e : Error) → Sends {P = P} {A = A} Q (raise e)
  unfolding raise
  Sends-raise e = record { at = λ I k w h. h }

  pub Sends-attempt : (m : Exec P A) → Sends Q m → Sends Q (attempt m)
  unfolding attempt
  Sends-attempt m h = record { at = h.at }

  pub Sends-if :
      (b : Bool) (m n : Exec P A)
      → (b ≡ true → Sends Q m)
      → (b ≡ false → Sends Q n)
      → Sends Q (if b then m else n)
  Sends-if true m n hm hn = hm refl
  Sends-if false m n hm hn = hn refl

-- Fewer requests are allowed than by `R`.
pub Sends-weaken {ℓ} :
    {P : Platform} {A : Type ℓ} {Q R : Request → Type 0} (m : Exec P A)
    → ((r : Request) → Q r → R r)
    → Sends Q m
    → Sends R m
Sends-weaken m f h = record {
  at = λ I k w i.
      h.at I
        (record {
          by_send = λ u r q g. k.by_send u r (f r q) g;
          by_now = k.by_now;
          by_metric = k.by_metric;
        })
        w i;
}

module _ {P : Platform} {Q : Request → Type 0} where
  All-IsKept : IsKept {P = P} Q (λ w. All Q w.requests)
  unfolding send now record_metric
  All-IsKept = record { by_send = λ w r q h. (q, h); by_now = λ w h. h; by_metric = λ w m h. h }

  -- A statement about the server's state that every request keeps.
  pub api-IsKept :
      (J : P.State → Type 0)
      → ((r : Request) (s : P.State) → J s → J (P.serve r s).1)
      → IsKept {P = P} Q (λ w. J w.api)
  unfolding send now record_metric
  api-IsKept J keep = record {
    by_send = λ w r q h. keep r w.api h;
    by_now = λ w h. h;
    by_metric = λ w m h. h;
  }

  pub Sends-send : (r : Request) → Q r → Sends {P = P} Q (send r)
  Sends-send r q = record { at = λ I k w h. k.by_send w r q h }

  pub Sends-now : Sends {P = P} Q now
  Sends-now = record { at = λ I k w h. k.by_now w h }

  pub Sends-record_metric : (m : Metric) → Sends {P = P} Q (record_metric m)
  Sends-record_metric m = record { at = λ I k w h. k.by_metric w m h }

module _ {ℓ} {P : Platform} {A : Type ℓ} {Q : Request → Type 0} where
  pub requests-All :
      (m : Exec P A) → Sends Q m → (w : World P) → All Q w.requests → All Q (m w).1.requests
  requests-All m h = h.at (λ w. All Q w.requests) All-IsKept

  pub sent-All : (m : Exec P A) → Sends Q m → (w : World P) → All Q (sent m w)
  sent-All m h w = requests-All m h (record w { requests = [] }) tt

module _ {ℓ μ} {P : Platform} {A : Type ℓ} {B : Type μ} {Q : Request → Type 0} where
  go_on :
      (r : Result A) (f : A → Exec P B) (w : World P)
      → ((a : A) → r ≡ ok a → Sends Q (f a))
      → (I : World P → Type 0) → IsKept Q I
      → I w
      → I (continue r f w).1
  go_on (ok a) f w hf I k h = (hf a refl).at I k w h
  go_on (err e) f w hf I k h = h

  -- The rest may use that the first step returned the value.
  pub Sends-bind_after :
      (m : Exec P A) (f : A → Exec P B)
      → Sends Q m
      → ((w : World P) (a : A) → (m w).0 ≡ ok a → Sends Q (f a))
      → Sends Q (m >>= f)
  unfolding ◌>>=◌
  Sends-bind_after m f hm hf = record {
    at = λ I k w h. go_on (m w).0 f (m w).1 (hf w) I k (hm.at I k w h);
  }

  pub Sends-bind :
      (m : Exec P A) (f : A → Exec P B) → Sends Q m → ((a : A) → Sends Q (f a)) → Sends Q (m >>= f)
  Sends-bind m f hm hf = Sends-bind_after m f hm (λ w a e. hf a)

module _ {ℓ μ} {P : Platform} {A : Type ℓ} {B : Type μ} {Q : Request → Type 0} where
  pub Sends-bind_attempt :
      (m : Exec P A) (f : Result A → Exec P B)
      → Sends Q m
      → ((a : A) → Sends Q (f (ok a)))
      → ((e : Error) → Sends Q (f (err e)))
      → Sends Q (attempt m >>= f)
  Sends-bind_attempt m f hm hok herr = record {
    at = (Sends-bind (attempt m) f (Sends-attempt m hm) cases).at;
  }
    where
      cases : (r : Result A) → Sends Q (f r)
      cases (ok a) = hok a
      cases (err e) = herr e

module _ {ℓ μ} {P : Platform} {A : Type ℓ} {B : Type μ} {Q : Request → Type 0} where
  pub Sends-Option :
      (o : Option A) (m : Exec P B) (f : A → Exec P B)
      → Sends Q m
      → ((a : A) → Sends Q (f a))
      → Sends Q (elim o [ none ↦ m | some a ↦ f a ])
  Sends-Option none m f hm hf = hm
  Sends-Option (some a) m f hm hf = hf a

  -- The rest may use what the value is.
  pub Sends-Option_eq :
      (o : Option A) (m : Exec P B) (f : A → Exec P B)
      → Sends Q m
      → ((a : A) → o ≡ some a → Sends Q (f a))
      → Sends Q (elim o [ none ↦ m | some a ↦ f a ])
  Sends-Option_eq none m f hm hf = hm
  Sends-Option_eq (some a) m f hm hf = hf a refl

pub ruleset sends_rules = (
  Sends-pure, Sends-raise, Sends-if, Sends-send, Sends-now, Sends-record_metric, Sends-bind,
  Sends-bind_attempt,
)
