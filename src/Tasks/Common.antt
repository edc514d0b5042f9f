-- ===== src/Tasks/Common.antt =====
-- What the methods of `TasksService` share.
use worker_context_protocol.Prelude.{String, Option, none, some, List, map}
use worker_context_protocol.Json.{Value, null, str, of_list, Items}
use worker_context_protocol.Models.{WcpTask, WcpClaim}
use worker_context_protocol.Platform.{Platform}
use worker_context_protocol.Result.{Result, ok, err, task_not_found}
use worker_context_protocol.Exec.{Exec, modify, pure, ◌>>=◌}
use worker_context_protocol.Tables.{find_task, find_claim, save_task}
use worker_context_protocol.Verifier.Outcome.{Decision, pass, fail, review, Reason}

abbrev pub or_not_found {ℓ} : {A : Type ℓ} → Option A → Result A
or_not_found none = err task_not_found
or_not_found (some a) = ok a

-- `self._db.get(WcpTask, task_id)`, and the raise
abbrev pub load_task : String → Exec WcpTask
load_task task_id db = (or_not_found (find_task task_id db.tasks), db)

-- `self._db.get(WcpClaim, claim_id)`, and the raise
abbrev pub load_claim : String → Exec WcpClaim
load_claim claim_id db = (or_not_found (find_claim claim_id db.claims), db)

-- `_claim_and_task`
unfoldable pub claim_and_task : String → Exec (WcpClaim × WcpTask)
claim_and_task claim_id = do
  claim ← load_claim claim_id
  task ← load_task claim.task_id
  pure (claim, task)

-- `task.state = state` on a loaded row
abbrev pub store_task : WcpTask → Exec (Unit {0})
store_task task = modify (λ db. record db { tasks = save_task task db.tasks })

-- an optional text in a payload
abbrev pub optional : Option String → Value
optional none = null
optional (some s) = str s

abbrev pub decision_value : Decision → String
decision_value pass = "pass"
decision_value fail = "fail"
decision_value review = "review"

-- `list(outcome.reasons)`, each f-string filled in
abbrev pub reason_items : Platform → List Reason → Items
reason_items py rs = of_list (map (λ r. str (py.format r.text r.args)) rs)

abbrev pub coordinator_did : String
coordinator_did = "did:wcp:coordinator"
