-- ===== src/Tests.antt =====
-- The development at concrete inputs: a small database, a platform and a resolver.
pub mod Runs
pub mod Aggregates
pub mod Matching
pub mod Transport
pub mod Anchors
pub mod Identifiers
pub mod Sessions
pub mod Previews
pub mod Registry
use worker_context_protocol.Prelude.{
  ℕ, zero, suc, String, true, Option, none, some, List, [], ◌∷◌, ◌==◌, if◌then◌else◌,
}
use worker_context_protocol.Prelude.Int.{pos}
use worker_context_protocol.Json.{str, int, obj, arr, Fields, end, field, of_list}
use worker_context_protocol.Models.{
  Db, empty_db, WcpTask, WcpClaim, WcpWorker, TaskState, executing, human, autonomous_robot,
}
use worker_context_protocol.Platform.{Platform}
use worker_context_protocol.Resolver.{Resolver}

-- Distinct texts for the first readings.
abbrev name_of : ℕ → String
name_of zero = "id-0"
name_of (suc zero) = "id-1"
name_of (suc (suc zero)) = "id-2"
name_of (suc (suc (suc zero))) = "id-3"
name_of (suc (suc (suc (suc n)))) = "id-4"

abbrev pub test_platform : Platform
test_platform = record {
  now = λ n. n;
  uuid4 = name_of;
  parse_iso = λ s. some (record { micros = 1000; aware = true });
  isoformat = λ n. "1970-01-01T00:00:00";
  stored_isoformat = λ n. "1970-01-01T00:00:00+00:00";
  stored_text = λ v. none;
  strip = λ s. s;
  int_of_str = λ s. none;
  format = λ text args. text;
  dumps = λ v. "{}";
  sha256_hex = λ s. "44136fa3";
  sign = λ s. s;
  verify = λ bytes sig. bytes == sig;
}

abbrev pub test_resolver : Resolver
test_resolver = record {
  resolve = λ did.
      if did == "did:wcp:unknown"
      then none
      else some (record { did = did; public_key = []; path = none });
  check_sig = λ who payload sig. sig == "ed25519:good";
}

abbrev pub requirement : Fields
requirement =
    field "modes" (arr (of_list (str "sensor-witness" ∷ []))) (field "threshold" (str "all") end)

abbrev pub descriptor : Fields
descriptor = field "task_id" (str "t1") (
    field "posted_by" (str "did:wcp:poster") (
      field "max_attestation_attempts" (int (pos 2))
        (field "attestation_requirement" (obj requirement) end)))

abbrev pub task_in : TaskState → WcpTask
task_in state = record {
  task_id = "t1";
  posted_by = "did:wcp:poster";
  descriptor_type = str "delivery";
  task_json = descriptor;
  expiry = 1000;
  state = state;
  attestation_attempts_used = 0;
  posted_at = 0;
}

abbrev pub test_claim : WcpClaim
test_claim = record {
  claim_id = "c1";
  task_id = "t1";
  worker_id = "did:wcp:worker";
  bid_amount = none;
  eta = 500;
  acceptance_attestation_json = end;
  accepted = true;
  claimed_at = 1;
  last_heartbeat_at = some 1;
}

abbrev pub test_worker : WcpWorker
test_worker = record {
  worker_id = "did:wcp:worker";
  principal_id = "did:wcp:owner";
  worker_class = autonomous_robot;
  capabilities_json = field "required" (obj end) end;
  revision = 1;
  ttl_seconds = pos 3600;
  as_of = 0;
  created_at = 0;
}

abbrev pub db_in : TaskState → Db
db_in state = record empty_db {
  workers = test_worker ∷ [];
  tasks = task_in state ∷ [];
  claims = test_claim ∷ [];
}

-- Evidence that passes.
abbrev pub weighed : Fields
weighed = field "mode" (str "sensor-witness") (
    field "kind" (str "weight_delta") (
      field "payload" (obj (field "before_kg" (int (pos 3)) (field "after_kg" (int (pos 1)) end)))
        (field "collected_at" (str "2026-01-01T00:00:00Z") (field "sig" (str "ed25519:good") end))))
