-- ===== src/Tasks/Attest.antt =====
-- tasks/attest: the recheck loop of `attest` in wcp_coordinator/tasks_service.py.
pub mod Evidence
use worker_context_protocol.Prelude.{
  ℕ, ◌+◌, ◌-◌, String, Bool, true, false, not, Option, none, some, List, [], ◌∷◌, ltb,
  if◌then◌else◌,
}
use worker_context_protocol.Prelude.Int.{ℤ, pos, pos_part}
use worker_context_protocol.Json.{Value, int, str, arr, obj, Fields, end, field, get, get_or}
use worker_context_protocol.Json.Builtins.{or_else, as_dict}
use worker_context_protocol.Models.{
  TaskState, WcpTask, WcpClaim, Db, posted, claimed, executing, supervising, attesting, rechecking,
  completed, voided, aborted,
}
use worker_context_protocol.Platform.{Platform}
use worker_context_protocol.Resolver.{Resolver, ResolvedDid}
use worker_context_protocol.Result.{Result, ok, err, task_state_invalid, value_error}
use worker_context_protocol.Exec.{Exec, lift, pure, raise_if, ◌>>=◌, ◌>>◌}
use worker_context_protocol.Audit.{append}
use worker_context_protocol.Tasks.Common.{
  claim_and_task, store_task, decision_value, reason_items, coordinator_did,
}
use worker_context_protocol.Tasks.Execute.{resolve_or_crash}
use worker_context_protocol.Tasks.Attest.Evidence.{examine, flushed}
use worker_context_protocol.Verifier.Outcome.{
  Decision, pass, fail, review, Reason, VerificationOutcome,
}
use worker_context_protocol.Verifier.Registry.{Registry}
use worker_context_protocol.Verifier.Threshold.{evaluate_threshold, int_of}

-- the two tests of the state
unfoldable pub attestable : TaskState → Result (Unit {0})
attestable voided = err (
    value_error
      "RECHECK_MAX_ATTEMPTS_REACHED: claim is voided; post a new task with continuation_of if work should continue")
attestable executing = ok tt
attestable supervising = ok tt
attestable rechecking = ok tt
attestable _ = err task_state_invalid

-- the state after an attempt; a review leaves the task in `attesting`
unfoldable pub next_state : Decision → ℕ → TaskState
next_state pass remaining = completed
next_state fail remaining = if ltb 0 remaining then rechecking else voided
next_state review remaining = attesting

-- `max(0, max_attempts - attempt_number)`
abbrev pub remaining_after : ℤ → ℕ → ℕ
remaining_after max_attempts attempt_number = pos_part max_attempts - attempt_number

abbrev completed_payload : String → WcpTask → Fields
completed_payload claim_id task = field "claim_id" (str claim_id) (
    field "task_id" (str task.task_id)
      (field "accounting_ref" (get "accounting_ref" task.task_json) end))

abbrev recheck_payload : Platform → String → ℕ → ℕ → List Reason → Fields
recheck_payload py claim_id attempt_number remaining reasons = field "claim_id" (str claim_id) (
    field "attempt_number_just_failed" (int (pos attempt_number)) (
      field "attempts_remaining" (int (pos remaining))
        (field "verifier_reasons" (arr (reason_items py reasons)) end)))

abbrev voided_payload : Platform → String → WcpTask → ℕ → List Reason → Fields
voided_payload py claim_id task attempt_number reasons = field "claim_id" (str claim_id) (
    field "task_id" (str task.task_id) (
      field "attempts_used" (int (pos attempt_number)) (
        field "verifier_reasons" (arr (reason_items py reasons))
          (field "accounting_ref" (get "accounting_ref" task.task_json) end))))

-- the entry that the routing of the decision appends
unfoldable pub announce :
    Platform → String → WcpTask → ℕ → ℕ → VerificationOutcome → Decision → Exec (Unit {0})
announce py claim_id task attempt_number remaining aggregate pass =
    append py "task_completed" coordinator_did (completed_payload claim_id task) (some claim_id)
      (some task.task_id)
announce py claim_id task attempt_number remaining aggregate fail =
    if ltb 0 remaining
    then append py "recheck_requested" coordinator_did
        (recheck_payload py claim_id attempt_number remaining aggregate.reasons) (some claim_id)
        (some task.task_id)
    else append py "task_voided" coordinator_did
        (voided_payload py claim_id task attempt_number aggregate.reasons) (some claim_id)
        (some task.task_id)
announce py claim_id task attempt_number remaining aggregate review = pure tt

-- the dict that `attest` returns; `residual` is always empty
pub record AttestReply : Type 0 where
  pub verifier_decision : Decision
  pub reasons : List Reason
  pub attempt_number : ℕ
  pub attempts_remaining : ℕ

-- From the aggregate on: the counter, the entries and the new state.
unfoldable pub conclude :
    Platform → String → WcpClaim → WcpTask → ℤ → VerificationOutcome → Exec AttestReply
unfolding announce next_state
conclude py claim_id claim task max_attempts aggregate = do
  let attempt_number = task.attestation_attempts_used + 1
  let remaining = remaining_after max_attempts attempt_number
  store_task (record task { attestation_attempts_used = attempt_number; state = attesting })
  append py "attestation_attempt" claim.worker_id
      (field "claim_id" (str claim_id) (
        field "attempt_number" (int (pos attempt_number))
          (field "decision" (str (decision_value aggregate.decision)) end)))
      (some claim_id) (some task.task_id)
  store_task (record task {
    attestation_attempts_used = attempt_number;
    state = next_state aggregate.decision remaining;
  })
  announce py claim_id task attempt_number remaining aggregate aggregate.decision
  pure (record {
    verifier_decision = aggregate.decision;
    reasons = aggregate.reasons;
    attempt_number = attempt_number;
    attempts_remaining = remaining;
  })

-- From the loop over the evidence on.
unfoldable pub judge :
    Platform
    → Resolver
    → Registry
    → String
    → WcpClaim
    → WcpTask
    → ℤ
    → ResolvedDid
    → List Fields
    → Exec AttestReply
judge py resolver registry claim_id claim task max_attempts resolved attestations = do
  let task_payload = get_or "descriptor_payload" (obj end) task.task_json
  outcomes ← flushed (examine py resolver registry claim resolved task_payload attestations)
  req ← lift (as_dict (get_or "attestation_requirement" (obj end) task.task_json))
  aggregate ← lift (evaluate_threshold py req outcomes)
  conclude py claim_id claim task max_attempts aggregate

-- `int(task_json.get("max_attestation_attempts", 1) or 1)`
abbrev pub attempt_limit : Platform → WcpTask → Result ℤ
attempt_limit py task =
    int_of py
      (or_else (get_or "max_attestation_attempts" (int (pos 1)) task.task_json) (int (pos 1)))

unfoldable pub attest : Platform → Resolver → Registry → String → List Fields → Exec AttestReply
attest py resolver registry claim_id attestations = do
  (claim, task) ← claim_and_task claim_id
  lift (attestable task.state)
  max_attempts ← lift (attempt_limit py task)
  resolved ← lift (resolve_or_crash (resolver.resolve claim.worker_id))
  judge py resolver registry claim_id claim task max_attempts resolved attestations
