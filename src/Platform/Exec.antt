-- ===== src/Platform/Exec.antt =====
-- The program's steps: a function that may return a Go error, over what it runs against.
use agenttask_operator.Base.{◌+◌, ℕ, List, ◌∷◌}
use agenttask_operator.Api.Core.{Time}
use agenttask_operator.Platform.{Error, Result, ok, err, Request, Answer, Platform, Metric}

-- `requests` lists the requests sent so far, the latest first; `readings` counts the readings of the
-- clock; `metrics` lists what the registry was told, the latest first.
pub record World (P : Platform) : Type 0 where
  pub api : P.State
  pub requests : List Request
  pub readings : ℕ
  pub metrics : List Metric

abbrev pub Exec {ℓ} : Platform → Type ℓ → Type ℓ
Exec P A = World P → Result A × World P

module _ {P : Platform} where
  module _ {ℓ} {A : Type ℓ} where
    unfoldable pub pure : A → Exec P A
    pure a w = (ok a, w)

    -- return err
    unfoldable pub raise : Error → Exec P A
    raise e w = (err e, w)

    -- `v, err := m`, where the code looks at err
    unfoldable pub attempt : Exec P A → Exec P (Result A)
    attempt m w = let (r, w') = m w in (ok r, w')

  unfoldable pub send : (r : Request) → Exec P (Answer r)
  send r w = let (a, s) = P.serve r w.api in (a, record w { api = s; requests = r ∷ w.requests })

  -- time.Now()
  unfoldable pub now : Exec P Time
  now w = (ok (P.clock w.readings), record w { readings = w.readings + 1 })

  unfoldable pub record_metric : Metric → Exec P (Unit {0})
  record_metric m w = (ok tt, record w { metrics = m ∷ w.metrics })

  module _ {ℓ κ} {A : Type ℓ} {B : Type κ} where
    abbrev pub continue : Result A → (A → Exec P B) → Exec P B
    continue (ok a) f w = f a w
    continue (err e) f w = (err e, w)

    infixl 5 ◌>>=◌ ◌>>◌
    -- Each call returns early on an error. Opening this opens the steps above.
    unfoldable pub ◌>>=◌ : Exec P A → (A → Exec P B) → Exec P B
    unfolding pure raise attempt send now record_metric
    ◌>>=◌ m f w = let (r, w') = m w in continue r f w'

    abbrev pub ◌>>◌ : Exec P A → Exec P B → Exec P B
    m >> k = m >>= λ _. k
