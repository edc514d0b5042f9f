-- ===== src/Tasks/Claim.antt =====
-- tasks/claim: `claim` of wcp_coordinator/tasks_service.py.
pub mod Checks
use worker_context_protocol.Prelude.{
  ℕ, String, Bool, true, false, not, ◌&&◌, ◌||◌, Option, none, some, List, [], ◌∷◌, ◌++◌, ◌==◌, any,
  ltb, if◌then◌else◌,
}
use worker_context_protocol.Json.{Value, str, arr, obj, Fields, end, field, get, get_or}
use worker_context_protocol.Json.Builtins.{or_else, as_dict, as_str, contains_text, truthy}
use worker_context_protocol.Models.{
  TaskState, WcpTask, WcpClaim, WcpWorker, Db, posted, claimed, executing, supervising, attesting,
  rechecking, completed, voided, aborted,
}
use worker_context_protocol.Platform.{Platform}
use worker_context_protocol.Resolver.{Resolver}
use worker_context_protocol.Result.{task_preempted, task_state_invalid}
use worker_context_protocol.Exec.{
  Exec, lift, pure, gets, modify, raise_if, uuid, utcnow, ◌>>=◌, ◌>>◌,
}
use worker_context_protocol.Audit.{append}
use worker_context_protocol.Tasks.Claim.Checks.{
  claimable, or_unknown_worker, check_self_dealing, check_acceptance,
}
use worker_context_protocol.Tables.{find_worker}
use worker_context_protocol.Tasks.Common.{load_task, store_task, optional}
use worker_context_protocol.Tasks.Post.Requirement.{instant_of}

-- `WHERE task_id = :task_id AND accepted`
abbrev pub accepted_for : String → WcpClaim → Bool
accepted_for task_id c = (c.task_id == task_id) && c.accepted

-- the dict that `claim` returns; `counter` and `reason` are None
pub record ClaimReply : Type 0 where
  pub claim_id : String
  pub accepted : Bool

unfoldable pub claim :
    Platform → Resolver → String → String → String → Fields → Option String → Exec ClaimReply
claim py resolver task_id worker_id eta acceptance bid = do
  task ← load_task task_id
  lift (claimable task.state)
  now ← utcnow py
  raise_if (ltb task.expiry now) task_state_invalid
  worker ← (λ db. (or_unknown_worker (find_worker worker_id db.workers), db))
  lift (check_self_dealing task worker)
  lift (check_acceptance py resolver task_id worker_id eta bid acceptance)
  taken ← gets (λ db. any (accepted_for task_id) db.claims)
  raise_if taken task_preempted
  eta_dt ← lift (instant_of py eta)
  heartbeat ← utcnow py
  claim_id ← uuid py
  claimed_at ← utcnow py
  modify (λ db. record db {
    claims =
        db.claims
        ++ record {
          claim_id = claim_id;
          task_id = task_id;
          worker_id = worker_id;
          bid_amount = bid;
          eta = eta_dt;
          acceptance_attestation_json = acceptance;
          accepted = true;
          claimed_at = claimed_at;
          last_heartbeat_at = some heartbeat;
        }
          ∷ [];
  })
  store_task (record task { state = claimed })
  append py "task_claimed" worker_id
      (field "task_id" (str task_id)
        (field "claim_id" (str claim_id) (field "bid" (optional bid) end)))
      (some claim_id) (some task_id)
  pure (record { claim_id = claim_id; accepted = true })
