-- ===== src/Tests/Anchors.antt =====
-- Trust anchors and peers at concrete inputs.
use worker_context_protocol.Prelude.{ℕ, ◌≡◌, refl, true, some, none, List, [], ◌∷◌, ◌++◌}
use worker_context_protocol.Prelude.Int.{pos}
use worker_context_protocol.Json.{str, end, field}
use worker_context_protocol.Models.{empty_db}
use worker_context_protocol.Audit.{verify_chain}
use worker_context_protocol.Federation.{Host, TrustAnchor, Local, Seconds, failed, peer_revoked}
use worker_context_protocol.Federation.Anchors.{
  get_anchor, verify_signature, ed25519_verify, is_expired, add, put_anchor, find_anchor,
  anchors_for_class, allows,
}
use worker_context_protocol.Federation.Genuine.{stored_anchors_genuine}
use worker_context_protocol.Federation.Ledger.{federated_log-IsSound, federated_chains_verify}
use worker_context_protocol.Federation.Operations.{
  Operation, operate, apply, forward_task, pick_peer, first_admitting, admits, Forwarder, Forwarded,
}
use worker_context_protocol.Federation.Revocation.{revoked_refused}
use worker_context_protocol.Federation.Selection.{picked_peer_allowed, IsOffered}
use worker_context_protocol.Requests.{run}
use worker_context_protocol.Tests.{test_platform, test_resolver}
use worker_context_protocol.History.Chains.{Sound-IsOrdered}
use worker_context_protocol.Tests.Runs.{test_platform-Signs, test_platform-Ticks, worked}
use worker_context_protocol.Verifier.Registry.{default_registry}

abbrev at : ℕ → Seconds
at n = record { mantissa = pos n; exponent = 0 }

abbrev test_host : Host
test_host = record {
  time = at;
  decode_padded = λ s. some [];
  decode_base64 = λ s. some [];
  encode_base64 = λ b. "";
  ed25519_verify = λ key sig body. true;
}

abbrev anchor : TrustAnchor
anchor = record {
  peer_coordinator_did = "did:wcp:peer";
  peer_public_key = [];
  peer_endpoint_url = "https://peer.example";
  scope = "capability_discovery" ∷ [];
  established_at = at 0;
  expires_at = at 100;
  signature = "ed25519:AAAA";
}

abbrev start : Local
start = record {
  store = record { by_did = []; audited = true };
  db = empty_db;
  readings = 0;
  sent = [];
}

abbrev added : List Operation
added = Operation.add_anchor anchor ∷ []

stored_anchors_genuine_example :
    (anchor.peer_coordinator_did ≡ "did:wcp:peer")
    × (verify_signature test_platform test_host anchor ≡ true)
unfolding operate apply add verify_signature ed25519_verify is_expired put_anchor find_anchor
stored_anchors_genuine_example =
    stored_anchors_genuine test_platform test_host start added "did:wcp:peer" anchor refl refl

abbrev peer_forwarder : Forwarder
peer_forwarder url method params = Forwarded.result (field "task_id" (str "t1") end)

revoked_refused_example :
    forward_task test_platform
      (some peer_forwarder)
      anchor
      (field "task_id" (str "t1") end)
      "soon"
      end
      (operate test_platform test_host
        (added ++ Operation.remove_anchor "did:wcp:peer" "contract ended" ∷ [])
        start)
    ≡ (
      failed peer_revoked,
      operate test_platform test_host
          (added ++ Operation.remove_anchor "did:wcp:peer" "contract ended" ∷ [])
          start,
    )
revoked_refused_example =
    revoked_refused test_platform test_host start added [] "contract ended" peer_forwarder anchor
      (field "task_id" (str "t1") end) "soon" end refl tt

picked_peer_allowed_example :
    (get_anchor anchor.peer_coordinator_did (operate test_platform test_host added start)
      ≡ some anchor)
    × IsOffered test_host "capability_discovery" 1 2 anchor
    × (admits "delivery" none anchor ≡ true)
unfolding operate apply add verify_signature ed25519_verify is_expired put_anchor pick_peer
    anchors_for_class allows first_admitting admits
picked_peer_allowed_example =
    picked_peer_allowed test_platform test_host start added "delivery" none anchor refl refl

federated_chains_verify_example :
    verify_chain test_platform "id-1"
      (operate test_platform test_host added (record start {
        db = run test_platform test_resolver default_registry empty_db worked;
      })).db.audit
    ≡ true
federated_chains_verify_example =
    federated_chains_verify test_platform test_platform-Signs test_resolver default_registry
      test_host worked added
      (record start { db = run test_platform test_resolver default_registry empty_db worked })
      "id-1" refl (λ e. cc)
      (Sound-IsOrdered test_platform
        (operate test_platform test_host added (record start {
          db = run test_platform test_resolver default_registry empty_db worked;
        })).db
        "id-1" test_platform-Ticks
        (federated_log-IsSound test_platform test_platform-Signs test_resolver default_registry
          test_host worked added
          (record start { db = run test_platform test_resolver default_registry empty_db worked })
          refl))
