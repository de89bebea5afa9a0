-- ===== src/Cluster/Changes.antt =====
-- What one event does to the list of the stored tasks.
use agenttask_operator.Base.{◌≤◌, String, ◌≡◌, List, arith, count}
use agenttask_operator.Api.Core.{NamespacedName}
use agenttask_operator.Api.Task.{AgentTask}
use agenttask_operator.Platform.{ok}
use agenttask_operator.Webhook.{is_active}
use agenttask_operator.Cluster.{find, in_namespace, task_key}
use agenttask_operator.Cluster.Exchange.{
  IsHeir, IsHeir-refl, IsHeir-Turned, IsSound, Turned, IsFair, IsSound-Turned, active-Turned,
}

-- The list stays, or has a task exchanged or erased.
pub data Change (xs ys : List AgentTask) : Type 1 where
  rests : ys ≡ xs → Change xs ys
  turns :
      (old : AgentTask) (V : AgentTask → Type 0)
      → IsFair old V
      → find task_key (task_key old) xs ≡ ok old
      → Turned old V xs ys
      → Change xs ys

module _ {xs ys : List AgentTask} where
  pub Change-IsSound : Change xs ys → IsSound xs → IsSound ys
  unfolding in_namespace
  Change-IsSound (rests e) h = rw e h
  Change-IsSound (turns old V fair here t) h = IsSound-Turned fair xs ys t h

  pub active-Change :
      Change xs ys
      → (namespace : String)
      → count is_active (in_namespace namespace ys) ≤ count is_active (in_namespace namespace xs)
  active-Change (rests e) namespace = rw e (omega arith)
  active-Change (turns old V fair here t) namespace = active-Turned fair namespace xs ys t

  -- A task that is stored before and after keeps its profile, its source and having ended.
  pub Change-IsHeir :
      Change xs ys
      → (k : NamespacedName) (a b : AgentTask) → find task_key k xs ≡ ok a
      → find task_key k ys ≡ ok b
      → IsHeir a b
  unfolding find
  Change-IsHeir (rests same) k a b e f = let eq : a ≡ b = cc (same, e, f) in rw eq (IsHeir-refl b)
  Change-IsHeir (turns old V fair here t) k a b e f = IsHeir-Turned fair k xs ys a b here t e f
