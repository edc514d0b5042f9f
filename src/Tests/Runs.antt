-- ===== src/Tests/Runs.antt =====
-- The theorems on whole runs and on single calls, applied.
use worker_context_protocol.Prelude.{
  none, ◌≡◌, refl, ◌⊎◌, some, List, [], ◌∷◌, eq_iff, Exists, true, arith,
}
use worker_context_protocol.Prelude.Int.{pos}
use worker_context_protocol.Json.{field, Fields, str, obj, end, get_or}
use worker_context_protocol.Json.Builtins.{as_dict}
use worker_context_protocol.Models.{WcpTask, WcpClaim, completed, executing, posted, empty_db}
use worker_context_protocol.Resolver.{ResolvedDid}
use worker_context_protocol.Result.{ok}
use worker_context_protocol.Audit.{append, verify_chain}
use worker_context_protocol.Tasks.Supervise.{is_terminal, supervise, handed_over, SuperviseReply}
use worker_context_protocol.Lifecycle.Handover.{supervise-supervise}
use worker_context_protocol.Audit.Append.{Signs}
use worker_context_protocol.History.{Ticks}
use worker_context_protocol.History.Chains.{Sound-IsOrdered, run_from_empty-IsSound, chains_verify}
use worker_context_protocol.Lifecycle.{Evolves}
use worker_context_protocol.Lifecycle.Attempt.{pass_needs_proof, payload_of}
use worker_context_protocol.Lifecycle.Attempts.{IsCounted, attempts_bounded}
use worker_context_protocol.Lifecycle.Refinement.{run-Evolves}
use worker_context_protocol.Lifecycle.Terminal.{terminal_absorbs, tasks_persist, SameTask}
use worker_context_protocol.Lifecycle.Verdict.{Proves}
use worker_context_protocol.Requests.{Request, run, step}
use worker_context_protocol.Tables.{find_task, find_claim}
use worker_context_protocol.Tasks.Attest.{
  AttestReply, attest, attestable, judge, conclude, announce, next_state,
}
use worker_context_protocol.Tasks.Attest.Evidence.{examine, examine_one, record_evidence, flushed}
use worker_context_protocol.Tasks.Post.{post, insert_task, posted_row}
use worker_context_protocol.Tasks.Post.Requirement.{
  admit_task, reject_legacy, validate_requirement, validate_bounds, validate_kinds, validate_schema,
  poster_of,
}
use worker_context_protocol.Tasks.Post.Eligible.{count_eligible}
use worker_context_protocol.Capabilities.Matching.{matching_workers, candidates, wanted_of, matched}
use worker_context_protocol.Verifier.Threshold.{int_of, evaluate_threshold, evaluate_all}
use worker_context_protocol.Verifier.Sensor.{sensor_verify, verify_weight}
use worker_context_protocol.Tasks.Common.{claim_and_task}
use worker_context_protocol.Verifier.Outcome.{pass}
use worker_context_protocol.Verifier.Quorum.{AsksForNone}
use worker_context_protocol.Verifier.Registry.{
  default_registry, verify_single, verify_kind, dispatch_mode,
}
use worker_context_protocol.Tests.{
  test_platform, test_resolver, descriptor, task_in, db_in, weighed,
}

abbrev abort_and_attest : List Request
abort_and_attest =
    Request.tasks_abort "c1" "changed my mind" end ∷ Request.tasks_attest "c1" (weighed ∷ []) ∷ []

terminal_absorbs_example :
    find_task "t1"
      (run test_platform test_resolver default_registry (db_in completed) abort_and_attest).tasks
    ≡ some (task_in completed)
unfolding find_task is_terminal
terminal_absorbs_example =
    terminal_absorbs test_platform test_resolver default_registry (db_in completed) abort_and_attest
      "t1" (task_in completed) refl refl

tasks_persist_example :
    (t' : WcpTask) × (find_task "t1"
        (run test_platform test_resolver default_registry (db_in executing) abort_and_attest).tasks
      ≡ some t')
    × SameTask (task_in executing) t'
unfolding find_task
tasks_persist_example =
    tasks_persist test_platform test_resolver default_registry (db_in executing) abort_and_attest
      "t1" (task_in executing) refl

run-Evolves_example :
    Evolves test_platform
      (db_in executing).tasks
      (run test_platform test_resolver default_registry (db_in executing) abort_and_attest).tasks
run-Evolves_example =
    run-Evolves test_platform test_resolver default_registry (db_in executing) abort_and_attest

abbrev posts : List Request
posts = Request.tasks_post descriptor "2026-01-01T00:00:00Z" end ∷ []

pub test_platform-Signs : Signs test_platform
test_platform-Signs bytes = (eq_iff bytes bytes).1 refl

pub test_platform-Ticks : Ticks test_platform
test_platform-Ticks n = omega arith

-- a registration, a post, a claim and the start of the execution
abbrev pub worked : List Request
worked =
    Request.capabilities_upsert "did:wcp:worker"
      (field "schema_version" (str "wcp/0.2") (field "class" (str "human") end)) "did:wcp:owner"
      (pos 60)
    ∷ Request.tasks_post descriptor "2026-01-01T00:00:00Z" end
    ∷ Request.tasks_claim "t1" "did:wcp:worker" "2026-01-01T00:00:00Z"
        (field "sig" (str "ed25519:good")
          (field "payload_hash" (str "00") (field "signed_at" (str "2026-01-01T00:00:00Z") end)))
        none
    ∷ Request.tasks_execute "id-1"
    ∷ []

chains_verify_example :
    verify_chain test_platform "id-1"
      (run test_platform test_resolver default_registry empty_db worked).audit
    ≡ true
chains_verify_example =
    chains_verify test_platform test_platform-Signs test_resolver default_registry worked "id-1"
      (λ e. cc)
      (Sound-IsOrdered test_platform
        (run test_platform test_resolver default_registry empty_db worked) "id-1"
        test_platform-Ticks
        (run_from_empty-IsSound test_platform test_platform-Signs test_resolver default_registry
          worked))

abbrev passed_reply : AttestReply
passed_reply = record {
  verifier_decision = pass;
  reasons = [];
  attempt_number = 1;
  attempts_remaining = 1;
}

attest_passes :
    (attest test_platform test_resolver default_registry "c1" (weighed ∷ []) (db_in executing)).0
    ≡ ok passed_reply
unfolding attest claim_and_task find_claim find_task attestable int_of judge examine examine_one
    flushed verify_single verify_kind dispatch_mode sensor_verify verify_weight record_evidence
    evaluate_threshold evaluate_all conclude append announce next_state
attest_passes = refl

pass_needs_proof_example :
    (claim : WcpClaim) × (task : WcpTask) × (who : ResolvedDid) × (req : Fields) × (claim_and_task
        "c1"
        (db_in executing)
      ≡ (ok (claim, task), db_in executing))
    × (test_resolver.resolve claim.worker_id ≡ some who)
    × (as_dict (get_or "attestation_requirement" (obj end) task.task_json) ≡ ok req)
    × (Exists
          (Proves test_platform test_resolver default_registry claim who (payload_of task))
          (weighed ∷ [])
        ⊎ AsksForNone test_platform req)
pass_needs_proof_example =
    pass_needs_proof test_platform test_resolver default_registry "c1" (weighed ∷ [])
      (db_in executing) passed_reply attest_passes refl

abbrev posted_task : WcpTask
posted_task = record (task_in posted) { descriptor_type = str "unknown" }

posts_it :
    find_task "t1" (run test_platform test_resolver default_registry empty_db posts).tasks
    ≡ some posted_task
unfolding find_task run step post admit_task insert_task posted_row append count_eligible
    reject_legacy validate_requirement validate_bounds validate_kinds validate_schema poster_of
    matching_workers candidates wanted_of matched
posts_it = refl

attempts_bounded_example : IsCounted test_platform posted_task
attempts_bounded_example =
    attempts_bounded test_platform test_resolver default_registry posts "t1" posted_task posts_it

abbrev handover : SuperviseReply
handover = record {
  supervisor_id = "did:wcp:rentably-ops";
  session_url = "wss://localhost/wcp/sup/{}";
  takeover_authority = "full";
}

supervise-supervise_example :
    (supervise test_platform "c1" "back to the worker" "low"
      (supervise test_platform "c1" "connectivity_lost" "high" (db_in executing)).1).1.tasks
    ≡ (db_in executing).tasks
unfolding supervise claim_and_task find_claim find_task handed_over append
supervise-supervise_example =
    supervise-supervise test_platform "c1" "connectivity_lost" "high" (db_in executing) handover
      refl "back to the worker" "low"
