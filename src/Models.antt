-- ===== src/Models.antt =====
-- The rows of wcp_coordinator/models.py. A datetime column holds microseconds on the UTC line;
-- `expiry` and the heartbeat are compared after a missing time zone has been read as UTC.
use worker_context_protocol.Prelude.{ℕ, String, Bool, Option, none, some, List, ◌==◌, if◌then◌else◌}
use worker_context_protocol.Prelude.Int.{ℤ}
use worker_context_protocol.Json.{Value, Fields}
use worker_context_protocol.Verifier.Outcome.{Decision, Reason}

pub data WorkerClass : Type 0 where
  human autonomous_robot teleoperated_robot semi_autonomous hybrid : WorkerClass

pub data TaskState : Type 0 where
  posted claimed executing supervising attesting rechecking completed voided aborted : TaskState

pub TaskState-discrete : Discrete TaskState
TaskState-discrete = hlevel

pub data AttestationMode : Type 0 where
  sensor_witness third_party_witness cryptographic_presence owner_sign_off : AttestationMode

-- `WorkerClass(text)`, none for a ValueError
abbrev pub worker_class_of : String → Option WorkerClass
worker_class_of s =
    if s == "human"
    then some human
    else if s == "autonomous_robot"
    then some autonomous_robot
    else if s == "teleoperated_robot"
    then some teleoperated_robot
    else if s == "semi_autonomous"
    then some semi_autonomous
    else if s == "hybrid"
    then some hybrid
    else none

-- `worker_class.value`
abbrev pub worker_class_value : WorkerClass → String
worker_class_value human = "human"
worker_class_value autonomous_robot = "autonomous_robot"
worker_class_value teleoperated_robot = "teleoperated_robot"
worker_class_value semi_autonomous = "semi_autonomous"
worker_class_value hybrid = "hybrid"

-- `AttestationMode(text)`, none for a ValueError
abbrev pub attestation_mode_of : String → Option AttestationMode
attestation_mode_of s =
    if s == "sensor-witness"
    then some sensor_witness
    else if s == "third-party-witness"
    then some third_party_witness
    else if s == "cryptographic-presence"
    then some cryptographic_presence
    else if s == "owner-sign-off"
    then some owner_sign_off
    else none

-- `state.value`
abbrev pub state_value : TaskState → String
state_value posted = "posted"
state_value claimed = "claimed"
state_value executing = "executing"
state_value supervising = "supervising"
state_value attesting = "attesting"
state_value rechecking = "rechecking"
state_value completed = "completed"
state_value voided = "voided"
state_value aborted = "aborted"

pub record WcpWorker : Type 0 where
  pub worker_id : String
  pub principal_id : String
  pub worker_class : WorkerClass
  pub capabilities_json : Fields
  pub revision : ℕ
  pub ttl_seconds : ℤ
  pub as_of : ℕ
  pub created_at : ℕ

pub record WcpTask : Type 0 where
  pub task_id : String
  pub posted_by : String
  pub descriptor_type : Value
  pub task_json : Fields
  pub expiry : ℕ
  pub state : TaskState
  pub attestation_attempts_used : ℕ
  pub posted_at : ℕ

pub record WcpClaim : Type 0 where
  pub claim_id : String
  pub task_id : String
  pub worker_id : String
  pub bid_amount : Option String
  pub eta : ℕ
  pub acceptance_attestation_json : Fields
  pub accepted : Bool
  pub claimed_at : ℕ
  pub last_heartbeat_at : Option ℕ

pub record WcpSession : Type 0 where
  pub session_id : String
  pub claim_id : String
  pub opened_at : ℕ
  pub closed_at : Option ℕ
  pub events_count : ℕ

pub record WcpAttestation : Type 0 where
  pub attestation_id : String
  pub claim_id : String
  pub mode : AttestationMode
  pub kind : String
  pub payload_hash : String
  pub sig : String
  pub worker_id : String
  pub collected_at : ℕ
  pub verifier_decision : Decision
  pub verifier_reasons : List Reason
  pub payload_json : Value

pub record WcpAudit : Type 0 where
  pub entry_id : String
  pub claim_id : Option String
  pub task_id : Option String
  pub event_type : String
  pub timestamp : ℕ
  pub actor_did : String
  pub payload_json : Fields
  pub payload_hash : String
  pub prev_hash : Option String
  pub this_hash : String
  pub sig : String

pub record WcpSubscription : Type 0 where
  pub subscription_id : String
  pub agent_did : String
  pub filter_json : Option Fields
  pub since_revision : Option ℤ
  pub stream_endpoint : String
  pub ttl_seconds : ℤ
  pub created_at : ℕ

-- The tables, each in insertion order, and how often the clock and `uuid4` have been read.
pub record Db : Type 0 where
  pub workers : List WcpWorker
  pub tasks : List WcpTask
  pub claims : List WcpClaim
  pub sessions : List WcpSession
  pub attestations : List WcpAttestation
  pub audit : List WcpAudit
  pub subscriptions : List WcpSubscription
  pub ticks : ℕ
  pub uuids : ℕ

abbrev pub empty_db : Db
empty_db = record {
  workers = List.[];
  tasks = List.[];
  claims = List.[];
  sessions = List.[];
  attestations = List.[];
  audit = List.[];
  subscriptions = List.[];
  ticks = 0;
  uuids = 0;
}
