-- ===== src/Sdk/Calls.antt =====
-- wcp_sdk_python/wcp_sdk/session.py: the method and the parameters of each call of the sessions.
use worker_context_protocol.Prelude.{String, Bool, Option, none, some, List, [], ◌∷◌, map}
use worker_context_protocol.Prelude.Int.{ℤ}
use worker_context_protocol.Json.{Value, str, int, arr, obj, Fields, end, field, of_list, get_or}
use worker_context_protocol.Models.{AttestationMode, WorkerClass, human, worker_class_value}
use worker_context_protocol.Platform.{Platform}
use worker_context_protocol.Sdk.Identity.{Identity, sign}
use worker_context_protocol.Sdk.Types.{
  AttestationEvidence, evidence_to_dict, TaskDescriptor, task_to_dict, CapabilityDescriptor,
  capability_to_dict, mode_value, schema_version, text_or,
}
use worker_context_protocol.Tasks.Common.{optional}

-- a call of the RPC client
pub record Call : Type 0 where
  pub method : String
  pub params : Fields

unfoldable pub publish_capabilities : Identity → String → CapabilityDescriptor → Call
publish_capabilities me now d = record {
  method = "capabilities/list";
  params =
      field "worker_id" (str me.did) (field "capabilities" (obj (capability_to_dict now d)) end);
}

-- the hash of the dict with the task's identifier alone
abbrev pub claim_hash : Platform → String → String
claim_hash py task_id = py.sha256_hex (py.dumps (obj (field "task_id" (str task_id) end)))

abbrev pub claim_canonical : Platform → Identity → String → String → Option String → String → Fields
claim_canonical py me task_id eta bid now = field "task_id" (str task_id) (
    field "worker_id" (str me.did) (
      field "eta" (str eta) (
        field "bid" (optional bid)
          (field "payload_hash" (str (claim_hash py task_id)) (field "signed_at" (str now) end)))))

abbrev pub acceptance_of : Platform → Identity → String → String → Option String → String → Fields
acceptance_of py me task_id eta bid now =
    field "sig" (str (sign py me (obj (claim_canonical py me task_id eta bid now)))) (
      field "alg" (str "Ed25519")
        (field "payload_hash" (str (claim_hash py task_id)) (field "signed_at" (str now) end)))

-- `WorkerSession.claim` at the time with the text `now`
unfoldable pub claim_call : Platform → Identity → String → String → Option String → String → Call
claim_call py me task_id eta bid now = record {
  method = "tasks/claim";
  params = field "task_id" (str task_id) (
      field "worker_id" (str me.did) (
        field "eta" (str eta) (
          field "bid" (optional bid)
            (field "acceptance_attestation" (obj (acceptance_of py me task_id eta bid now)) end))));
}

unfoldable pub execute_call : String → Call
execute_call claim_id = record {
  method = "tasks/execute";
  params = field "claim_id" (str claim_id) end;
}

abbrev pub event_canonical : String → String → Fields → String → Fields
event_canonical claim_id event_type payload now = field "claim_id" (str claim_id) (
    field "event_type" (str event_type)
      (field "timestamp" (str now) (field "payload" (obj payload) end)))

-- `WorkerSession.emit_event`
unfoldable pub event_call : Platform → Identity → String → String → Fields → String → Call
event_call py me claim_id event_type payload now = record {
  method = "tasks/execute.event";
  params = field "claim_id" (str claim_id) (
      field "event_type" (str event_type) (
        field "timestamp" (str now) (
          field "payload" (obj payload) (
            field "sig" (str (sign py me (obj (event_canonical claim_id event_type payload now))))
              end))));
}

-- the event that `_heartbeat_loop` repeats
unfoldable pub heartbeat_call : Platform → Identity → String → String → Call
unfolding event_call
heartbeat_call py me claim_id now =
    event_call py me claim_id "heartbeat" (field "claim_id" (str claim_id) end) now

abbrev compensation : Option Fields → Fields
compensation none = end
compensation (some action) = field "compensating_action" (obj action) end

unfoldable pub attest_call : String → List AttestationEvidence → Option Fields → Call
attest_call claim_id evidence action = record {
  method = "tasks/attest";
  params = field "claim_id" (str claim_id) (
      field "attestations" (arr (of_list (map (λ e. obj (evidence_to_dict e)) evidence)))
        (compensation action));
}

unfoldable pub supervise_call : String → String → Fields → String → Call
supervise_call claim_id reason snapshot urgency = record {
  method = "tasks/supervise";
  params = field "claim_id" (str claim_id) (
      field "handoff_reason" (str reason)
        (field "state_snapshot" (obj snapshot) (field "urgency" (str urgency) end)));
}

unfoldable pub abort_call : String → String → Fields → Call
abort_call claim_id reason snapshot = record {
  method = "tasks/abort";
  params =
      field "claim_id" (str claim_id)
        (field "reason" (str reason) (field "state_snapshot" (obj snapshot) end));
}

abbrev pub evidence_canonical :
    Platform → Identity → String → AttestationMode → String → Fields → String → Fields
evidence_canonical py me claim_id mode kind payload at = field "mode" (str (mode_value mode)) (
    field "kind" (str kind) (
      field "payload_hash" (str (py.sha256_hex (py.dumps (obj payload)))) (
        field "worker_id" (str me.did)
          (field "claim_id" (str claim_id) (field "collected_at" (str at) end)))))

-- `WorkerSession.build_evidence`; `now` is the text of the clock's time
unfoldable pub build_evidence :
    Platform
    → Identity
    → String
    → AttestationMode
    → String
    → Fields
    → Option String
    → String
    → AttestationEvidence
build_evidence py me claim_id mode kind payload collected_at now =
    let at = text_or now collected_at in
    record {
      mode = mode;
      kind = kind;
      payload = payload;
      payload_hash = py.sha256_hex (py.dumps (obj payload));
      sig = sign py me (obj (evidence_canonical py me claim_id mode kind payload at));
      worker_id = me.did;
      claim_id = claim_id;
      collected_at = at;
      schema_version = schema_version;
    }

abbrev supervision_of : Option Fields → Fields
supervision_of none = end
supervision_of (some s) = field "supervision" (obj s) end

-- `AgentSession.post`
unfoldable pub post_call : TaskDescriptor → String → Option Fields → Call
post_call task expiry supervision = record {
  method = "tasks/post";
  params =
      field "task" (obj (task_to_dict task))
        (field "expiry" (str expiry) (supervision_of supervision));
}

abbrev since : Option ℤ → Fields
since none = end
since (some n) = field "since_revision" (int n) end

abbrev filtered : Option Fields → Fields → Fields
filtered none rest = rest
filtered (some f) rest = field "filter" (obj f) rest

-- `AgentSession.subscribe`
unfoldable pub subscribe_call : Identity → Option Fields → Option ℤ → Call
subscribe_call me filter revision = record {
  method = "capabilities/subscribe";
  params = field "agent_did" (str me.did) (filtered filter (since revision));
}

-- `attestation_kinds.get(m.value, [])`
abbrev kinds_for : Fields → String → Value
kinds_for kinds m = get_or m (arr (of_list [])) kinds

abbrev classes_or_human : Option (List WorkerClass) → List WorkerClass
classes_or_human none = human ∷ []
classes_or_human (some []) = human ∷ []
classes_or_human (some (c ∷ cs)) = c ∷ cs

abbrev dict_or_empty : Option Fields → Fields
dict_or_empty none = end
dict_or_empty (some f) = f

-- `make_task_descriptor`; `new_id` is the text of a fresh uuid
unfoldable pub make_task_descriptor :
    String
    → String
    → String
    → Fields
    → List AttestationMode
    → Fields
    → ℤ
    → ℤ
    → Option (List WorkerClass)
    → Option String
    → Option Fields
    → ℤ
    → Option String
    → TaskDescriptor
make_task_descriptor new_id poster type payload modes kinds m n classes task_id window attempts
      ref =
    record {
      task_id = text_or new_id task_id;
      posted_by = poster;
      descriptor_type = type;
      descriptor_payload = payload;
      constraints = field "time_window" (obj (dict_or_empty window)) (
          field "worker_class_filter"
            (obj (
              field "allowed"
                (arr (of_list (map (λ c. str (worker_class_value c)) (classes_or_human classes))))
                end))
            end);
      attestation_requirement = record {
        modes = modes;
        threshold = "M-of-N";
        required = m;
        total = n;
        evidence_schema =
            map
              (λ mode. obj (
                field "mode" (str (mode_value mode))
                  (field "kinds" (kinds_for kinds (mode_value mode)) end)))
              modes;
      };
      max_attestation_attempts = attempts;
      accounting_ref = ref;
      supervision = field "default" (str "autonomous") end;
      x_subcontract_allowed = Bool.false;
      schema_version = schema_version;
    }
