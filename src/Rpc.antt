-- ===== src/Rpc.antt =====
-- wcp_coordinator/rpc_dispatch.py: the wire's error codes, the keyword arguments of the methods, and
-- the dispatch of a call.
pub mod Binding
pub mod Serve
pub mod Dispatch
pub mod Codes
pub mod Steps
use text.Mathlib.Text.{starts_with}
use worker_context_protocol.Prelude.{ℕ, String, ◌-◌, if◌then◌else◌}
use worker_context_protocol.Prelude.Int.{ℤ, negsuc}
use worker_context_protocol.Result.{
  Error, task_not_found, task_preempted, task_state_invalid, crash, row_refused, value_error,
}

-- the negative number -n, for a positive n
abbrev pub minus : ℕ → ℤ
minus n = negsuc (n - 1)

abbrev pub parse_error : ℤ
parse_error = minus 32700

abbrev pub invalid_request : ℤ
invalid_request = minus 32600

abbrev pub method_not_found : ℤ
method_not_found = minus 32601

abbrev pub invalid_params : ℤ
invalid_params = minus 32602

abbrev pub internal_error : ℤ
internal_error = minus 32603

abbrev pub unauthenticated : ℤ
unauthenticated = minus 40001

abbrev pub unauthorized : ℤ
unauthorized = minus 40002

abbrev pub did_not_resolved : ℤ
did_not_resolved = minus 40003

abbrev pub invalid_attestation_requirement : ℤ
invalid_attestation_requirement = minus 41001

abbrev pub attestation_failed_code : ℤ
attestation_failed_code = minus 41002

abbrev pub task_not_found_code : ℤ
task_not_found_code = minus 42001

abbrev pub task_preempted_code : ℤ
task_preempted_code = minus 42002

abbrev pub task_state_invalid_code : ℤ
task_state_invalid_code = minus 42004

abbrev pub invalid_descriptor : ℤ
invalid_descriptor = minus 42010

abbrev pub subcontract_forbidden : ℤ
subcontract_forbidden = minus 45001

abbrev pub out_of_scope_task_class : ℤ
out_of_scope_task_class = minus 45002

abbrev pub policy_violation : ℤ
policy_violation = minus 46001

abbrev pub recheck_max_attempts_reached : ℤ
recheck_max_attempts_reached = minus 47001

abbrev pub recheck_not_available_for_task : ℤ
recheck_not_available_for_task = minus 47002

-- `_map_value_error`: the code for a ValueError's message. The tests look at its head only.
unfoldable pub map_value_error : String → ℤ
map_value_error msg =
    if starts_with msg "DID_NOT_RESOLVED"
    then did_not_resolved
    else if starts_with msg "UNAUTHENTICATED"
    then unauthenticated
    else if starts_with msg "UNAUTHORIZED"
    then unauthorized
    else if starts_with msg "INVALID_ATTESTATION_REQUIREMENT"
    then invalid_attestation_requirement
    else if starts_with msg "ATTESTATION_FAILED"
    then attestation_failed_code
    else if starts_with msg "SUBCONTRACT_FORBIDDEN"
    then subcontract_forbidden
    else if starts_with msg "OUT_OF_SCOPE_TASK_CLASS"
    then out_of_scope_task_class
    else if starts_with msg "POLICY_VIOLATION"
    then policy_violation
    else if starts_with msg "INVALID_DESCRIPTOR"
    then invalid_descriptor
    else if starts_with msg "RECHECK_MAX_ATTEMPTS_REACHED"
    then recheck_max_attempts_reached
    else if starts_with msg "RECHECK_NOT_AVAILABLE_FOR_TASK"
    then recheck_not_available_for_task
    else invalid_params

-- What leaves `dispatch`: a JsonRpcError with its code, or another exception.
pub data Failure : Type 0 where
  rpc_error : ℤ → Failure
  internal : Failure

-- the `except` clauses of `dispatch`
unfoldable pub failure_of : Error → Failure
unfolding map_value_error
failure_of task_not_found = rpc_error task_not_found_code
failure_of task_preempted = rpc_error task_preempted_code
failure_of task_state_invalid = rpc_error task_state_invalid_code
failure_of (value_error msg) = rpc_error (map_value_error msg)
failure_of crash = internal
failure_of row_refused = internal
