-- ===== src/Tasks/Execute.antt =====
-- tasks/execute and its events: `execute_open`, `execute_event` and `check_heartbeats`.
use worker_context_protocol.Prelude.{
  ℕ, ◌+◌, ◌*◌, String, Bool, true, false, not, Option, none, some, List, [], ◌∷◌, ◌++◌, ◌==◌, leb,
  if◌then◌else◌,
}
use worker_context_protocol.Json.{str, obj, Fields, end, field}
use worker_context_protocol.Models.{TaskState, WcpTask, WcpClaim, claimed, executing, supervising}
use worker_context_protocol.Platform.{Platform}
use worker_context_protocol.Resolver.{Resolver, ResolvedDid}
use worker_context_protocol.Result.{Result, ok, err, crash, task_state_invalid, value_error}
use worker_context_protocol.Exec.{Exec, lift, pure, modify, raise_if, uuid, utcnow, ◌>>=◌, ◌>>◌}
use worker_context_protocol.Audit.{append}
use worker_context_protocol.Tables.{find_task, save_claim}
use worker_context_protocol.Tasks.Common.{claim_and_task, store_task, coordinator_did}
use worker_context_protocol.Tasks.Post.Requirement.{instant_of}

unfoldable pub can_open : TaskState → Bool
can_open claimed = true
can_open supervising = true
can_open _ = false

-- the dict that `execute_open` returns
pub record OpenReply : Type 0 where
  pub session_id : String
  pub state : TaskState

unfoldable pub execute_open : Platform → String → Exec OpenReply
execute_open py claim_id = do
  (claim, task) ← claim_and_task claim_id
  raise_if (not (can_open task.state)) task_state_invalid
  session_id ← uuid py
  opened_at ← utcnow py
  modify (λ db. record db {
    sessions =
        db.sessions
        ++ record {
          session_id = session_id;
          claim_id = claim_id;
          opened_at = opened_at;
          closed_at = none;
          events_count = 0;
        }
          ∷ [];
  })
  store_task (record task { state = executing })
  append py "execution_started" claim.worker_id
      (field "claim_id" (str claim_id) (field "session_id" (str session_id) end)) (some claim_id)
      (some task.task_id)
  pure (record { session_id = session_id; state = executing })

unfoldable pub is_executing : TaskState → Bool
is_executing executing = true
is_executing _ = false

-- A DID that does not resolve is no ValueError: nothing handles it.
abbrev pub resolve_or_crash : Option ResolvedDid → Result ResolvedDid
resolve_or_crash none = err crash
resolve_or_crash (some r) = ok r

abbrev pub event_fields : String → String → String → Fields → Fields
event_fields claim_id event_type timestamp payload = field "claim_id" (str claim_id) (
    field "event_type" (str event_type)
      (field "timestamp" (str timestamp) (field "payload" (obj payload) end)))

-- `if event_type == "heartbeat"`
unfoldable pub beat : Platform → WcpClaim → String → String → Exec (Unit {0})
beat py claim event_type timestamp =
    if event_type == "heartbeat"
    then (do
      at ← lift (instant_of py timestamp)
      modify (λ db. record db {
        claims = save_claim (record claim { last_heartbeat_at = some at }) db.claims;
      }))
    else pure tt

unfoldable pub execute_event :
    Platform → Resolver → String → String → String → Fields → String → Exec (Unit {0})
execute_event py resolver claim_id event_type timestamp payload sig = do
  (claim, task) ← claim_and_task claim_id
  raise_if (not (is_executing task.state)) task_state_invalid
  resolved ← lift (resolve_or_crash (resolver.resolve claim.worker_id))
  raise_if
      (not (
        resolver.check_sig resolved
          (py.dumps (obj (event_fields claim_id event_type timestamp payload))) sig))
      (value_error "UNAUTHENTICATED: ")
  beat py claim event_type timestamp
  append py event_type claim.worker_id payload (some claim_id) (some task.task_id)

abbrev pub heartbeat_seconds : ℕ
heartbeat_seconds = 15

abbrev pub missed_heartbeats : ℕ
missed_heartbeats = 3

-- the join of claims with tasks that are executing
unfoldable pub executing_rows : List WcpTask → List WcpClaim → List (WcpClaim × WcpTask)
unfolding is_executing
executing_rows tasks [] = []
executing_rows tasks (c ∷ cs) =
    let later = executing_rows tasks cs in
    elim (find_task c.task_id tasks) [
      | none ↦ later
      | some t ↦ if is_executing t.state then (c, t) ∷ later else later
    ]

-- `hb >= now - timedelta(seconds=45)`, in microseconds and with the subtraction moved over
unfoldable pub is_fresh : ℕ → ℕ → Bool
is_fresh now hb = leb now (hb + heartbeat_seconds * missed_heartbeats * 1000000)

-- the body of the loop on a stale row
unfoldable pub promote : Platform → WcpClaim → WcpTask → ℕ → Exec (Unit {0})
promote py claim task hb = do
  store_task (record task { state = supervising })
  append py "heartbeat_timeout" coordinator_did
      (field "claim_id" (str claim.claim_id) (
        field "last_heartbeat_at" (str (py.stored_isoformat hb))
          (field "handoff_reason" (str "connectivity_lost") end)))
      (some claim.claim_id) (some task.task_id)

unfoldable pub stale_at : ℕ → Option ℕ → Option ℕ
stale_at now none = none
stale_at now (some hb) = if is_fresh now hb then none else some hb

unfoldable pub promote_stale : Platform → ℕ → List (WcpClaim × WcpTask) → Exec (List String)
unfolding promote
promote_stale py now [] = pure []
promote_stale py now ((claim, task) ∷ rows) =
    let later : Exec (List String) = promote_stale py now rows in
    elim (stale_at now claim.last_heartbeat_at) [
      | none ↦ later
      | some hb ↦ do promote py claim task hb; ids ← later; pure (claim.claim_id ∷ ids)
    ]

-- with `now` left to the clock
unfoldable pub check_heartbeats : Platform → Exec (List String)
check_heartbeats py = do
  now ← utcnow py
  λ db. promote_stale py now (executing_rows db.tasks db.claims) db
