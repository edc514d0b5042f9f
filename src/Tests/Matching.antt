-- ===== src/Tests/Matching.antt =====
-- The theorems on registration, matching and claiming, applied.
use mathlib.Core.List.{Permᴰ}
use worker_context_protocol.Prelude.{◌≡◌, refl, none, List, [], ◌∷◌}
use worker_context_protocol.Prelude.Int.{pos}
use worker_context_protocol.Json.{Fields, str, arr, end, field, of_list}
use worker_context_protocol.Models.{WcpWorker, posted}
use worker_context_protocol.Result.{ok}
use worker_context_protocol.Capabilities.{
  CapabilityReply, upsert_capabilities, list_capabilities, write_worker,
}
use worker_context_protocol.Capabilities.Invariance.{matching_workers-map, map_ok}
use worker_context_protocol.Capabilities.Matching.{matching_workers}
use worker_context_protocol.Capabilities.Registration.{upsert-list}
use worker_context_protocol.Requests.{Request}
use worker_context_protocol.Models.{Db}
use worker_context_protocol.Tables.{find_worker}
use worker_context_protocol.Tasks.Claim.{claim}
use worker_context_protocol.Verifier.OrderFree.{decision_of, evaluate_threshold-Permᴰ}
use worker_context_protocol.Verifier.Outcome.{because, fail, passed}
use worker_context_protocol.Verifier.Threshold.{Outcomes, evaluate_threshold}
use worker_context_protocol.Tests.{test_platform, test_resolver, test_worker, requirement, db_in}

-- a query for a method, and a worker whose revision and principal change
abbrev query : Fields
query = field "attestation_methods" (arr (of_list (str "sensor-witness" ∷ []))) end

abbrev renewed : WcpWorker → WcpWorker
renewed w = record w { revision = 7; principal_id = "did:wcp:other" }

matching_workers-map_example :
    matching_workers query [] (renewed test_worker ∷ [])
    ≡ map_ok renewed (matching_workers query [] (test_worker ∷ []))
matching_workers-map_example =
    matching_workers-map renewed (λ w. (refl, refl)) query [] (test_worker ∷ [])

abbrev envelope : Fields
envelope = field "schema_version" (str "wcp/0.2") (field "class" (str "human") end)

abbrev renewed_reply : CapabilityReply
renewed_reply = record {
  worker_id = "did:wcp:worker";
  capabilities = envelope;
  ttl_seconds = pos 60;
  revision = 2;
}

upsert-list_example :
    list_capabilities "did:wcp:worker"
      (upsert_capabilities test_platform test_resolver "did:wcp:worker" envelope "did:wcp:owner"
        (pos 60)
        (db_in posted)).1
    ≡ (
      ok renewed_reply,
      (upsert_capabilities test_platform test_resolver "did:wcp:worker" envelope "did:wcp:owner"
          (pos 60)
          (db_in posted)).1,
    )
unfolding upsert_capabilities write_worker find_worker
upsert-list_example =
    upsert-list test_platform test_resolver "did:wcp:worker" envelope "did:wcp:owner" (pos 60)
      (db_in posted) renewed_reply refl

abbrev acceptance : Fields
acceptance =
    field "sig" (str "ed25519:good")
      (field "payload_hash" (str "00") (field "signed_at" (str "2026-01-01T00:00:00Z") end))

abbrev before_claim : Db
before_claim = record (db_in posted) { claims = [] }

abbrev after_claim : Db
after_claim =
    (claim test_platform test_resolver "t1" "did:wcp:worker" "2026-01-01T00:00:00Z" acceptance none
      before_claim).1

-- the session is opened, so that the task is executing
abbrev opened : List Request
opened = Request.tasks_execute "id-0" ∷ []

abbrev evidence : Outcomes
evidence = (str "sensor-witness", passed) ∷ (str "owner-sign-off", because fail "no" []) ∷ []

evaluate_threshold-Permᴰ_example :
    decision_of (evaluate_threshold test_platform requirement evidence)
    ≡ decision_of (
        evaluate_threshold test_platform requirement
          ((str "owner-sign-off", because fail "no" []) ∷ (str "sensor-witness", passed) ∷ []))
evaluate_threshold-Permᴰ_example =
    evaluate_threshold-Permᴰ test_platform requirement evidence
      ((str "owner-sign-off", because fail "no" []) ∷ (str "sensor-witness", passed) ∷ [])
      (Permᴰ.swap refl refl)
