-- ===== src/Tests/Sessions.antt =====
-- The SDK's sessions at concrete inputs.
use worker_context_protocol.Prelude.{String, ◌≡◌, refl, true, false, some, none, List, [], ◌∷◌, map}
use worker_context_protocol.Prelude.Int.{pos}
use worker_context_protocol.Json.{Fields, str, int, bool, obj, end, field}
use worker_context_protocol.Models.{
  Db, empty_db, WcpWorker, WcpClaim, sensor_witness, posted, claimed, executing,
}
use worker_context_protocol.Did.Resolve.{Keys, did_resolver, join}
use worker_context_protocol.Did.Base58.{number_from, leading_zeros, char_at, with_ones}
use worker_context_protocol.Requests.{Request}
use worker_context_protocol.Rpc.Binding.{Bound}
use worker_context_protocol.Rpc.Dispatch.{dispatch, returned}
use worker_context_protocol.Rpc.Serve.{claim_dict}
use worker_context_protocol.Sdk.Accepted.{claim_accepted, event_accepted, IsOnOffer}
use worker_context_protocol.Sdk.Bindings.{binding, calls_bind}
use worker_context_protocol.Models.{human}
use worker_context_protocol.Sdk.Calls.{
  claim_call, acceptance_of, execute_call, event_call, event_canonical, attest_call, supervise_call,
  abort_call, publish_capabilities, post_call, subscribe_call, build_evidence, make_task_descriptor,
}
use worker_context_protocol.Sdk.Client.{
  Event, handle, handle_all, new_client, outcome_of, is_pending, Settled, call,
}
use worker_context_protocol.Sdk.Client.Settling.{settled_at_most_once, IsTracked}
use worker_context_protocol.Sdk.Client.Lasting.{find_settled, response_settles}
use worker_context_protocol.Sdk.Identity.{
  Keypair, Identity, identity_from_key, sign, sdk_did_from_pubkey, encode_key, encode_loop,
}
use worker_context_protocol.Sdk.Signatures.{IsMatching, built_evidence_authentic}
use worker_context_protocol.Sdk.Types.{
  AttestationEvidence, TaskDescriptor, CapabilityDescriptor, evidence_to_dict, task_to_dict,
}
use worker_context_protocol.Tables.{find_task, find_worker, find_claim}
use worker_context_protocol.Tasks.Attest.Evidence.{evidence_fields}
use worker_context_protocol.Tasks.Claim.Checks.{check_self_dealing, signature_holds}
use worker_context_protocol.Tests.{test_platform, task_in, test_worker, test_claim}
use worker_context_protocol.Tests.Identifiers.{test_key, test_did, test_key-IsByte}
use worker_context_protocol.Tests.Transport.{test_platform-Digests}
use worker_context_protocol.Verifier.Registry.{default_registry}

abbrev key_pair : Keypair
key_pair = record { public_bytes = test_key; ed25519_sign = λ m. 7 ∷ []; encode_base64 = λ b. "Bw" }

abbrev test_keys : Keys
test_keys = record { decode_base64 = λ s. some (7 ∷ []); ed25519_verify = λ key sig m. true }

matching : IsMatching key_pair test_keys
matching = record { bytes = test_key-IsByte; decodes = λ m. refl; signs = λ m. refl }

abbrev me : Identity
me = record { did = test_did; public_key_b64url = "Bw"; key = key_pair }

me-made : identity_from_key key_pair ≡ some me
unfolding identity_from_key sdk_did_from_pubkey encode_key encode_loop number_from leading_zeros
    char_at with_ones join
me-made = refl

abbrev my_worker : WcpWorker
my_worker = record test_worker { worker_id = test_did }

abbrev my_claim : WcpClaim
my_claim = record test_claim { worker_id = test_did }

abbrev offered : Db
offered = record empty_db { workers = my_worker ∷ []; tasks = task_in posted ∷ [] }

offered-IsOnOffer : IsOnOffer test_platform "t1" me.did (task_in posted) offered
unfolding find_task find_worker check_self_dealing
offered-IsOnOffer = record {
  found = refl;
  waiting = refl;
  in_time = refl;
  worker = my_worker;
  registered = refl;
  fair = refl;
  untaken = refl;
}

abbrev noon : String
noon = "2026-01-01T12:00:00+00:00"

claim_accepted_example :
    ((dispatch test_platform
        (did_resolver test_keys)
        default_registry
        (claim_call test_platform me "t1" noon none noon).method
        (obj (claim_call test_platform me "t1" noon none noon).params)
        offered).0
      ≡ returned (claim_dict (record { claim_id = "id-0"; accepted = true })))
    × (find_task "t1"
          (dispatch test_platform
            (did_resolver test_keys)
            default_registry
            (claim_call test_platform me "t1" noon none noon).method
            (obj (claim_call test_platform me "t1" noon none noon).params)
            offered).1.tasks
        ≡ some (task_in claimed))
claim_accepted_example =
    claim_accepted test_platform key_pair test_keys me matching me-made test_platform-Digests
      default_registry "t1" noon none noon 1000 (task_in posted) offered (λ e. cc) refl
      offered-IsOnOffer

abbrev working : Db
working = record empty_db {
  workers = my_worker ∷ [];
  tasks = task_in executing ∷ [];
  claims = my_claim ∷ [];
}

event_accepted_example :
    (dispatch test_platform
      (did_resolver test_keys)
      default_registry
      (event_call test_platform me "c1" "heartbeat" end noon).method
      (obj (event_call test_platform me "c1" "heartbeat" end noon).params)
      working).0
    ≡ returned (obj (field "accepted" (bool true) end))
unfolding find_claim find_task
event_accepted_example =
    event_accepted test_platform key_pair test_keys me matching me-made test_platform-Digests
      default_registry "c1" "heartbeat" end noon 1000 working my_claim (task_in executing) refl refl
      refl refl refl

abbrev weight : Fields
weight = field "before_kg" (int (pos 3)) (field "after_kg" (int (pos 1)) end)

built_evidence_authentic_example :
    signature_holds test_platform
      (did_resolver test_keys)
      test_did
      (evidence_fields my_claim (
        evidence_to_dict
          (build_evidence test_platform me "c1" sensor_witness "weight_delta" weight none noon)))
      (build_evidence test_platform me "c1" sensor_witness "weight_delta" weight none noon).sig
    ≡ true
built_evidence_authentic_example =
    built_evidence_authentic test_platform key_pair test_keys me my_claim sensor_witness
      "weight_delta" weight none noon matching me-made refl

abbrev some_task : TaskDescriptor
some_task =
    make_task_descriptor "t1" "did:wcp:poster" "delivery" end (sensor_witness ∷ []) end (pos 1)
      (pos 1) none none none (pos 1) none

abbrev some_evidence : List AttestationEvidence
some_evidence =
    build_evidence test_platform me "c1" sensor_witness "weight_delta" weight none noon ∷ []

abbrev conversation : List Event
conversation =
    Event.called "tasks/execute" (some (field "claim_id" (str "c1") end))
    ∷ Event.called "tasks/abort" none
    ∷ Event.arrived none
    ∷ Event.arrived (some (obj (field "id" (int (pos 1)) (field "result" (obj end) end))))
    ∷ []

settled_at_most_once_example : IsTracked (handle_all test_platform conversation new_client)
settled_at_most_once_example = settled_at_most_once test_platform conversation

abbrev first_call : List Event
first_call = Event.called "tasks/execute" (some (field "claim_id" (str "c1") end)) ∷ []

abbrev first_response : Fields
first_response = field "id" (int (pos 1)) (field "result" (str "done") end)

-- a second response with the id, and another call
abbrev later_events : List Event
later_events = Event.arrived (some (obj first_response)) ∷ Event.called "tasks/execute" none ∷ []

response_settles_example :
    (find_settled 1
        (handle_all test_platform later_events (
          handle test_platform
            (Event.arrived (some (obj first_response)))
            (handle_all test_platform first_call new_client))).settled
      ≡ some (Settled.fulfilled (str "done")))
    × (is_pending 1
          (handle_all test_platform later_events (
            handle test_platform
              (Event.arrived (some (obj first_response)))
              (handle_all test_platform first_call new_client))).pending
        ≡ false)
unfolding handle_all handle call outcome_of
response_settles_example =
    response_settles test_platform first_call later_events 1 first_response
      (Settled.fulfilled (str "done")) refl refl refl refl refl

abbrev some_capability : CapabilityDescriptor
some_capability = record {
  worker_id = test_did;
  principal_id = "did:wcp:owner";
  worker_class = human;
  current_location = end;
  attestation_methods_supported = [];
  attestation_keys = [];
  available_windows = [];
  certifications = [];
  policy_windows = [];
  class_extension = end;
  as_of = none;
  schema_version = "wcp/0.2";
}

calls_bind_example :
    (binding (claim_call test_platform me "t1" noon (some "12.50") noon)
      ≡ some (
          Bound.call (
            Request.tasks_claim "t1" test_did noon
              (acceptance_of test_platform me "t1" noon (some "12.50") noon)
              (some "12.50"))))
    × (binding (execute_call "c1") ≡ some (Bound.call (Request.tasks_execute "c1")))
    × (binding (event_call test_platform me "c1" "progress" weight noon)
        ≡ some (
            Bound.call (
              Request.tasks_execute_event "c1" "progress" noon weight
                (sign test_platform me (obj (event_canonical "c1" "progress" weight noon))))))
    × (binding (attest_call "c1" some_evidence none)
        ≡ some (Bound.call (Request.tasks_attest "c1" (map evidence_to_dict some_evidence))))
    × (binding (supervise_call "c1" "stuck" end "high")
        ≡ some (Bound.call (Request.tasks_supervise "c1" "stuck" "high")))
    × (binding (abort_call "c1" "stuck" end)
        ≡ some (Bound.call (Request.tasks_abort "c1" "stuck" end)))
    × (binding (post_call some_task noon none)
        ≡ some (Bound.call (Request.tasks_post (task_to_dict some_task) noon end)))
    × (binding (subscribe_call me (some weight) (some (pos 4)))
        ≡ some (Bound.call (Request.capabilities_subscribe test_did (some weight) (some (pos 4)))))
    × (binding (publish_capabilities me noon some_capability) ≡ some Bound.type_error)
calls_bind_example =
    calls_bind test_platform me "t1" "c1" noon noon "stuck" "high" noon "progress" (some "12.50")
      weight end some_evidence none (some weight) none (some (pos 4)) some_task some_capability
