-- ===== src/Sdk/Types.antt =====
-- wcp_sdk_python/wcp_sdk/types.py: the typed objects and the dicts that they serialize to.
use worker_context_protocol.Prelude.{
  String, Bool, Option, none, some, List, map, ◌==◌, if◌then◌else◌,
}
use worker_context_protocol.Prelude.Int.{ℤ}
use worker_context_protocol.Json.{Value, str, int, bool, arr, obj, Fields, end, field, of_list}
use worker_context_protocol.Models.{
  AttestationMode, sensor_witness, third_party_witness, cryptographic_presence, owner_sign_off,
  WorkerClass, worker_class_value,
}

-- `mode.value`
abbrev pub mode_value : AttestationMode → String
mode_value sensor_witness = "sensor-witness"
mode_value third_party_witness = "third-party-witness"
mode_value cryptographic_presence = "cryptographic-presence"
mode_value owner_sign_off = "owner-sign-off"

pub record CapabilityDescriptor : Type 0 where
  pub worker_id : String
  pub principal_id : String
  pub worker_class : WorkerClass
  pub current_location : Fields
  pub attestation_methods_supported : List Value
  pub attestation_keys : List Value
  pub available_windows : List Value
  pub certifications : List Value
  pub policy_windows : List Value
  pub class_extension : Fields
  pub as_of : Option String
  pub schema_version : String

-- `text or default`
abbrev pub text_or : String → Option String → String
text_or default none = default
text_or default (some s) = if s == "" then default else s

-- `CapabilityDescriptor.to_dict`, with the text of the clock's time
unfoldable pub capability_to_dict : String → CapabilityDescriptor → Fields
capability_to_dict now d = field "schema_version" (str d.schema_version) (
    field "worker_id" (str d.worker_id) (
      field "principal_id" (str d.principal_id) (
        field "class" (str (worker_class_value d.worker_class)) (
          field "required"
            (obj (
              field "current_location" (obj d.current_location) (
                field "available_windows" (arr (of_list d.available_windows)) (
                  field "attestation_methods_supported"
                    (arr (of_list d.attestation_methods_supported))
                    (field "certifications" (arr (of_list d.certifications)) (
                      field "policy_windows" (arr (of_list d.policy_windows)) (
                        field "attestation_keys" (arr (of_list d.attestation_keys))
                          (field "as_of" (str (text_or now d.as_of)) end))))))))
            (field "class_extension" (obj d.class_extension) end)))))

pub record AttestationRequirement : Type 0 where
  pub modes : List AttestationMode
  pub threshold : String
  pub required : ℤ
  pub total : ℤ
  pub evidence_schema : List Value

-- `AttestationRequirement.to_dict`; `required` and `total` are the fields M and N
unfoldable pub requirement_to_dict : AttestationRequirement → Fields
requirement_to_dict r = field "modes" (arr (of_list (map (λ m. str (mode_value m)) r.modes))) (
    field "threshold" (str r.threshold) (
      field "M" (int r.required)
        (field "N" (int r.total) (field "evidence_schema" (arr (of_list r.evidence_schema)) end))))

pub record TaskDescriptor : Type 0 where
  pub task_id : String
  pub posted_by : String
  pub descriptor_type : String
  pub descriptor_payload : Fields
  pub constraints : Fields
  pub attestation_requirement : AttestationRequirement
  pub max_attestation_attempts : ℤ
  pub accounting_ref : Option String
  pub supervision : Fields
  pub x_subcontract_allowed : Bool
  pub schema_version : String

-- `if self.accounting_ref is not None: out["accounting_ref"] = …`
abbrev accounting : Option String → Fields
accounting none = end
accounting (some ref) = field "accounting_ref" (str ref) end

-- `TaskDescriptor.to_dict`
unfoldable pub task_to_dict : TaskDescriptor → Fields
task_to_dict t = field "schema_version" (str t.schema_version) (
    field "task_id" (str t.task_id) (
      field "posted_by" (str t.posted_by) (
        field "descriptor_type" (str t.descriptor_type) (
          field "descriptor_payload" (obj t.descriptor_payload) (
            field "constraints" (obj t.constraints) (
              field "attestation_requirement" (obj (requirement_to_dict t.attestation_requirement))
                (field "max_attestation_attempts" (int t.max_attestation_attempts) (
                  field "supervision" (obj t.supervision) (
                    field "x-subcontract-allowed" (bool t.x_subcontract_allowed)
                      (accounting t.accounting_ref))))))))))

pub record AttestationEvidence : Type 0 where
  pub mode : AttestationMode
  pub kind : String
  pub payload : Fields
  pub payload_hash : String
  pub sig : String
  pub worker_id : String
  pub claim_id : String
  pub collected_at : String
  pub schema_version : String

-- `AttestationEvidence.to_dict`
unfoldable pub evidence_to_dict : AttestationEvidence → Fields
evidence_to_dict e = field "schema_version" (str e.schema_version) (
    field "mode" (str (mode_value e.mode)) (
      field "kind" (str e.kind) (
        field "payload" (obj e.payload) (
          field "payload_hash" (str e.payload_hash) (
            field "sig" (str e.sig) (
              field "worker_id" (str e.worker_id) (
                field "claim_id" (str e.claim_id)
                  (field "collected_at" (str e.collected_at) end))))))))

abbrev pub schema_version : String
schema_version = "wcp/0.2"
