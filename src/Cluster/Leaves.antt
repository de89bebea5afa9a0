-- ===== src/Cluster/Leaves.antt =====
-- The small cluster: steps that leave a part of what is stored as it is.
use agenttask_operator.Base.{◌≡◌, refl, ◌∙◌, String, List}
use agenttask_operator.Api.Core.{Pod}
use agenttask_operator.Platform.{Request, Result, ok, err}
use agenttask_operator.Platform.Exec.{World, Exec, send, now, record_metric}
use agenttask_operator.Platform.Sends.{Sends}
use agenttask_operator.Cluster.{Objects, small_cluster, serve, stored}

-- What a task is placed among.
abbrev pub around : Objects → List Pod × List String
around s = (s.pods, s.crds)

module _ {X : Type 0} (part : Objects → X) where
  -- A request that leaves the part as it is.
  abbrev pub Leaves : Request → Type 0
  Leaves r = (s : Objects) → part (serve r s).1 ≡ part s

  pub keeps {ℓ} :
      {A : Type ℓ} (m : Exec small_cluster A)
      → Sends Leaves m
      → (w : World small_cluster) → part (m w).1.api ≡ part w.api
  keeps m h w =
      h.at (λ u. part u.api ≡ part w.api)
        (record {
          by_send = λ u r a g. unfold send in (a u.api ∙ g);
          by_now = λ u g. unfold now in g;
          by_metric = λ u m' g. unfold record_metric in g;
        })
        w refl

  -- Storing a new object in another part.
  pub stored_lem :
      {A : Type 0} (r : Result A) (s : Objects) (f : A → Objects)
      → ((a : A) → part (f a) ≡ part s)
      → part (stored r s f).1 ≡ part s
  unfolding stored
  stored_lem (ok a) s f h = h a
  stored_lem (err e) s f h = refl
