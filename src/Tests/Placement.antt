-- ===== src/Tests/Placement.antt =====
-- A pending task on the small cluster with every write of a status acknowledged.
use agenttask_operator.Platform.{Platform, Result, Request, Answer, ok, update_status}
use agenttask_operator.Cluster.{Objects, small_cluster, serve}

unfoldable keep_status : (r : Request) → Objects → Result (Answer r) × Objects
unfolding serve
keep_status (update_status t) s = (ok t, (serve (update_status t) s).1)
keep_status r s = serve r s

abbrev calm_cluster : Platform
calm_cluster = record small_cluster { serve = keep_status }
