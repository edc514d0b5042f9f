-- ===== src/Tables.antt =====
-- `db.get(Model, key)` and writes to the attributes of a loaded row.
use worker_context_protocol.Prelude.{String, Option, none, some, List, [], ◌∷◌, ◌==◌, if◌then◌else◌}
use worker_context_protocol.Models.{WcpWorker, WcpTask, WcpClaim}

unfoldable pub find_worker : String → List WcpWorker → Option WcpWorker
find_worker k [] = none
find_worker k (w ∷ rest) =
    let later = find_worker k rest in if w.worker_id == k then some w else later

unfoldable pub find_task : String → List WcpTask → Option WcpTask
find_task k [] = none
find_task k (t ∷ rest) = let later = find_task k rest in if t.task_id == k then some t else later

unfoldable pub find_claim : String → List WcpClaim → Option WcpClaim
find_claim k [] = none
find_claim k (c ∷ rest) = let later = find_claim k rest in if c.claim_id == k then some c else later

-- The row with the key of `w` becomes `w`.
unfoldable pub save_worker : WcpWorker → List WcpWorker → List WcpWorker
save_worker w [] = []
save_worker w (x ∷ rest) =
    let later = save_worker w rest in if x.worker_id == w.worker_id then w ∷ rest else x ∷ later

unfoldable pub save_task : WcpTask → List WcpTask → List WcpTask
save_task t [] = []
save_task t (x ∷ rest) =
    let later = save_task t rest in if x.task_id == t.task_id then t ∷ rest else x ∷ later

unfoldable pub save_claim : WcpClaim → List WcpClaim → List WcpClaim
save_claim c [] = []
save_claim c (x ∷ rest) =
    let later = save_claim c rest in if x.claim_id == c.claim_id then c ∷ rest else x ∷ later
