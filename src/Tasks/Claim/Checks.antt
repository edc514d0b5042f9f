-- ===== src/Tasks/Claim/Checks.antt =====
-- The tests of tasks/claim before anything is written.
use worker_context_protocol.Prelude.{
  String, Bool, false, not, ◌&&◌, Option, none, some, ◌==◌, if◌then◌else◌,
}
use worker_context_protocol.Json
use worker_context_protocol.Json.{Value, str, arr, obj, Fields, end, field, get, get_or}
use worker_context_protocol.Json.Builtins.{or_else, as_dict, as_str, contains_text, truthy}
use worker_context_protocol.Models.{TaskState, WcpTask, WcpWorker, posted, claimed}
use worker_context_protocol.Platform.{Platform}
use worker_context_protocol.Resolver.{Resolver, ResolvedDid}
use worker_context_protocol.Result.{
  Result, ok, err, task_preempted, task_state_invalid, value_error, raise_if, ◌>>=◌, ◌>>◌,
}
use worker_context_protocol.Tasks.Common.{optional}

-- the tests `task.state != POSTED` and, inside, `task.state == CLAIMED`
unfoldable pub claimable : TaskState → Result (Unit {0})
claimable posted = ok tt
claimable claimed = err task_preempted
claimable _ = err task_state_invalid

abbrev pub or_unknown_worker : Option WcpWorker → Result WcpWorker
or_unknown_worker none = err (value_error "DID_NOT_RESOLVED: worker ")
or_unknown_worker (some w) = ok w

-- A worker of the poster's own principal needs a third-party witness.
unfoldable pub check_self_dealing : WcpTask → WcpWorker → Result (Unit {0})
check_self_dealing task worker =
    if task.posted_by == worker.principal_id
    then (do
      req ← as_dict (get_or "attestation_requirement" (obj end) task.task_json)
      witnessed ← contains_text "third-party-witness" (or_else (get "modes" req) (arr Json.nil))
      raise_if (not witnessed) (
          value_error
            "POLICY_VIOLATION: self-dealing detected (posted_by == worker.principal_id) and attestation_requirement lacks third-party-witness"))
    else ok tt

-- the dict that the worker signs
abbrev pub acceptance_fields : String → String → String → Option String → Value → Value → Fields
acceptance_fields task_id worker_id eta bid payload_hash signed_at = field "task_id" (str task_id) (
    field "worker_id" (str worker_id) (
      field "eta" (str eta) (
        field "bid" (optional bid)
          (field "payload_hash" payload_hash (field "signed_at" signed_at end)))))

-- `resolver.resolve` and `resolver.verify` of the canonical bytes, as one test
abbrev pub signature_holds : Platform → Resolver → String → Fields → String → Bool
signature_holds py resolver did fields sig = elim (resolver.resolve did) [
  | none ↦ false
  | some resolved ↦ resolver.check_sig resolved (py.dumps (obj fields)) sig
]

-- the signature of the acceptance, which needs a resolved DID and a text
abbrev acceptance_sig : Option ResolvedDid → Value → Result String
acceptance_sig none sig = err (value_error "UNAUTHENTICATED: ")
acceptance_sig (some resolved) sig = as_str sig

unfoldable pub check_acceptance :
    Platform → Resolver → String → String → String → Option String → Fields → Result (Unit {0})
check_acceptance py resolver task_id worker_id eta bid acceptance = do
  raise_if
      (not (
        truthy (get "sig" acceptance)
        && truthy (get "payload_hash" acceptance)
        && truthy (get "signed_at" acceptance)))
      (value_error "UNAUTHENTICATED: acceptance_attestation incomplete")
  sig ← acceptance_sig (resolver.resolve worker_id) (get "sig" acceptance)
  raise_if
      (not (
        signature_holds py resolver worker_id
          (acceptance_fields task_id worker_id eta bid (get "payload_hash" acceptance)
            (get "signed_at" acceptance))
          sig))
      (value_error "UNAUTHENTICATED: ")
