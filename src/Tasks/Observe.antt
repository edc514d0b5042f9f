-- ===== src/Tasks/Observe.antt =====
-- audit/observe: `observe_audit` of wcp_coordinator/tasks_service.py.
use worker_context_protocol.Prelude.{
  ℕ, String, Bool, false, not, ◌&&◌, Option, none, some, List, [], ◌∷◌, ◌==◌, length, map, select,
  if◌then◌else◌,
}
use worker_context_protocol.Json.{Value, Fields, get}
use worker_context_protocol.Models.{WcpAudit}
use worker_context_protocol.Platform.{Platform}
use worker_context_protocol.Result.{value_error}
use worker_context_protocol.Exec.{Exec, pure, gets, raise_if, ◌>>=◌, ◌>>◌}
use worker_context_protocol.Audit.{is_set, or_empty, has_claim, order_by_timestamp, verify_chain}

-- `WHERE task_id = :task_id`
abbrev has_task : String → WcpAudit → Bool
has_task task_id e = elim e.task_id [ none ↦ false | some t ↦ t == task_id ]

-- the rows of the query, by claim if one is given
unfoldable pub observed_rows : Option String → Option String → List WcpAudit → List WcpAudit
observed_rows claim_id task_id rows = order_by_timestamp (
    if is_set claim_id
    then select (has_claim (or_empty claim_id)) rows
    else select (has_task (or_empty task_id)) rows)

abbrev is_event : String → WcpAudit → Bool
is_event event_type e = e.event_type == event_type

-- `_first_payload`
unfoldable pub first_payload : String → List WcpAudit → Option Fields
first_payload event_type [] = none
first_payload event_type (e ∷ rest) =
    let later = first_payload event_type rest in
    if is_event event_type e then some e.payload_json else later

-- The dict that `observe_audit` returns. Its entries are the rows, less their keys and signatures,
-- with the time as text.
pub record Observation : Type 0 where
  pub entries : List WcpAudit
  pub event_types : List String
  pub verify_chain_ok : Option Bool
  pub task_completed_payload : Option Fields
  pub task_voided_payload : Option Fields
  pub task_aborted_payload : Option Fields
  pub attestation_attempts : ℕ
  pub attempt_verifier_decisions : List Value

unfoldable pub observe_audit : Platform → Option String → Option String → Exec Observation
unfolding observed_rows first_payload
observe_audit py claim_id task_id = do
  raise_if (not (is_set claim_id) && not (is_set task_id))
      (value_error "INVALID_PARAMS: claim_id or task_id required")
  log ← gets (λ db. db.audit)
  let rows = observed_rows claim_id task_id log
  let attempts = select (is_event "attestation_attempt") rows
  pure (record {
    entries = rows;
    event_types = map (λ (e : WcpAudit). e.event_type) rows;
    verify_chain_ok =
        if is_set claim_id then some (verify_chain py (or_empty claim_id) log) else none;
    task_completed_payload = first_payload "task_completed" rows;
    task_voided_payload = first_payload "task_voided" rows;
    task_aborted_payload = first_payload "task_aborted" rows;
    attestation_attempts = length attempts;
    attempt_verifier_decisions = map (λ (e : WcpAudit). get "decision" e.payload_json) attempts;
  })
