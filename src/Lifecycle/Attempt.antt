-- ===== src/Lifecycle/Attempt.antt =====
-- A call of tasks/attest that replies: what it loaded, judged, replied and stored.
use worker_context_protocol.Prelude.{
  ℕ, ◌+◌, String, ◌≡◌, refl, sym, ◌⊎◌, inl, inr, some, List, arith, Option-cases, Exists, ◌∙◌, ap,
}
use worker_context_protocol.Prelude.Int.{ℤ}
use worker_context_protocol.Json.{Value, Fields, obj, end, get_or}
use worker_context_protocol.Json.Builtins.{as_dict}
use worker_context_protocol.Models.{Db, WcpTask, WcpClaim}
use worker_context_protocol.Platform.{Platform}
use worker_context_protocol.Resolver.{Resolver, ResolvedDid}
use worker_context_protocol.Result.{ok, Result-cases}
use worker_context_protocol.Audit.{append}
use worker_context_protocol.Tables.{find_task, save_task}
use worker_context_protocol.Tasks.Common.{claim_and_task}
use worker_context_protocol.Tasks.Attest.{
  attest, attempt_limit, attestable, conclude, judge, remaining_after, next_state, AttestReply,
  announce,
}
use worker_context_protocol.Tasks.Attest.Evidence.{examine, flushed}
use worker_context_protocol.Lifecycle.Evidence.{flushed-rows}
use worker_context_protocol.Lifecycle.{CanAttest, HasLimit}
use worker_context_protocol.Lifecycle.Operations.{claim_and_task-cases}
use worker_context_protocol.Lifecycle.Attest.{
  after_attempt, conclude-tasks, examine-tasks, attestable-CanAttest,
}
use worker_context_protocol.Lifecycle.Verdict.{Proves, examine-Proves}
use worker_context_protocol.Verifier.Outcome.{pass, Decision, VerificationOutcome}
use worker_context_protocol.Verifier.Quorum.{AsksForNone, evaluate_threshold-needs_pass}
use worker_context_protocol.Verifier.Registry.{Registry}
use worker_context_protocol.Verifier.Threshold.{evaluate_threshold, Outcomes}

abbrev pub payload_of : WcpTask → Value
payload_of task = get_or "descriptor_payload" (obj end) task.task_json

pub record Attempt (py : Platform) (r : Resolver) (reg : Registry) (c : String) (evs : List Fields)
    (db db' : Db) (reply : AttestReply) : Type 0 where
  pub claim : WcpClaim
  pub task : WcpTask
  pub loaded : claim_and_task c db ≡ (ok (claim, task), db)
  pub found : find_task claim.task_id db.tasks ≡ some task
  pub allowed : CanAttest task.state
  pub limit : ℤ
  pub known : HasLimit py task limit
  pub who : ResolvedDid
  pub resolved : r.resolve claim.worker_id ≡ some who
  pub req : Fields
  pub asked : as_dict (get_or "attestation_requirement" (obj end) task.task_json) ≡ ok req
  pub outcomes : Outcomes
  pub seen : (examine py r reg claim who (payload_of task) evs db).0 ≡ ok outcomes
  pub judged : VerificationOutcome
  pub aggregated : evaluate_threshold py req outcomes ≡ ok judged
  pub decided : reply.verifier_decision ≡ judged.decision
  pub numbered : reply.attempt_number ≡ task.attestation_attempts_used + 1
  pub left : reply.attempts_remaining ≡ remaining_after limit reply.attempt_number
  pub stored :
      db'.tasks
      ≡ save_task
          (record task {
            attestation_attempts_used = reply.attempt_number;
            state = next_state reply.verifier_decision reply.attempts_remaining;
          })
          db.tasks

reply_of : WcpTask → ℤ → VerificationOutcome → AttestReply
reply_of task limit agg = record {
  verifier_decision = agg.decision;
  reasons = agg.reasons;
  attempt_number = task.attestation_attempts_used + 1;
  attempts_remaining = remaining_after limit (task.attestation_attempts_used + 1);
}

pub announce-ok :
    (py : Platform) (c : String) (task : WcpTask) (n left : ℕ) (agg : VerificationOutcome)
    (d : Decision) (db : Db)
    → (announce py c task n left agg d db).0 ≡ ok tt
unfolding announce append
announce-ok py c task n left agg d db = ground arith

conclude-reply :
    (py : Platform) (c : String) (claim : WcpClaim) (task : WcpTask) (limit : ℤ)
    (agg : VerificationOutcome) (db : Db)
    → (conclude py c claim task limit agg db).0 ≡ ok (reply_of task limit agg)
unfolding conclude append reply_of
conclude-reply py c claim task limit agg db =
    let n = task.attestation_attempts_used + 1 in
    rw (announce-ok py c task n (remaining_after limit n) agg agg.decision _) refl

module _ (py : Platform) (r : Resolver) (reg : Registry) (c : String) (evs : List Fields) (db : Db)
    (reply : AttestReply) where
  -- From the aggregate on, with what was loaded before.
  judge-Attempt :
      (claim : WcpClaim) (task : WcpTask) (limit : ℤ) (who : ResolvedDid)
      → claim_and_task c db ≡ (ok (claim, task), db)
      → find_task claim.task_id db.tasks ≡ some task
      → CanAttest task.state
      → HasLimit py task limit
      → r.resolve claim.worker_id ≡ some who
      → (judge py r reg c claim task limit who evs db).0 ≡ ok reply
      → Attempt py r reg c evs db (judge py r reg c claim task limit who evs db).1 reply
  unfolding judge
  judge-Attempt claim task limit who loaded found allowed known resolved h =
      let loop = examine py r reg claim who (payload_of task) evs in
      let seen = flushed loop db in
      let same : seen.1.tasks ≡ db.tasks =
        (flushed-rows loop db).0.0 ∙ examine-tasks py r reg claim who (payload_of task) evs db in
      elim (Result-cases seen.0) [
        | inl (e, o) ↦ absurd (cc (rw o at h))
        | inr (outcomes, o) ↦
            let h1 = rw o at h in
            elim (Result-cases
              (as_dict (get_or "attestation_requirement" (obj end) task.task_json))) [
                | inl (e, q) ↦ absurd (cc (rw q at h1))
                | inr (req, q) ↦
                    let h2 = rw q at h1 in
                    elim (Result-cases (evaluate_threshold py req outcomes)) [
                      | inl (e, v) ↦ absurd (cc (rw v at h2))
                      | inr (agg, v) ↦
                          let h3 = rw v at h2 in
                          let same_reply : reply ≡ reply_of task limit agg =
                            cc (h3, conclude-reply py c claim task limit agg seen.1) in
                          rw same_reply (record {
                            claim = claim;
                            task = task;
                            loaded = loaded;
                            found = found;
                            allowed = allowed;
                            limit = limit;
                            known = known;
                            who = who;
                            resolved = resolved;
                            req = req;
                            asked = q;
                            outcomes = outcomes;
                            seen = sym (flushed-rows loop db).1 ∙ o;
                            judged = agg;
                            aggregated = v;
                            decided = unfold reply_of in refl;
                            numbered = unfold reply_of in refl;
                            left = unfold reply_of in refl;
                            stored =
                                unfold reply_of after_attempt in
                                rw o (
                                  rw q (
                                    rw v (
                                      conclude-tasks py c claim task limit agg seen.1
                                      ∙ ap (save_task (after_attempt task limit agg.decision))
                                          same)));
                          })
                    ]
              ]
      ]

pub attest-Attempt :
    (py : Platform) (r : Resolver) (reg : Registry) (c : String) (evs : List Fields) (db : Db)
    (reply : AttestReply)
    → (attest py r reg c evs db).0 ≡ ok reply
    → Attempt py r reg c evs db (attest py r reg c evs db).1 reply
unfolding attest
attest-Attempt py r reg c evs db reply h = elim (claim_and_task-cases c db) [
  | inl (e, p) ↦ absurd (cc (rw p at h))
  | inr (claim, task, p, found) ↦
      let h1 = rw p at h in
      elim (Result-cases (attestable task.state)) [
        | inl (e, q) ↦ absurd (cc (rw q at h1))
        | inr (u, q) ↦
            let h2 = rw q at h1 in
            elim (Result-cases (attempt_limit py task)) [
              | inl (e, l) ↦ absurd (cc (rw l at h2))
              | inr (limit, l) ↦
                  let h3 = rw l at h2 in
                  elim (Option-cases (r.resolve claim.worker_id)) [
                    | inl w ↦ absurd (cc (rw w at h3))
                    | inr (who, w) ↦ rw p (
                        rw q (
                          rw l (
                            rw w (
                              judge-Attempt py r reg c evs db reply claim task limit who p found
                                (attestable-CanAttest task.state q) l w (rw w at h3)))))
                  ]
            ]
      ]
]

-- Where tasks/attest replies `pass`, the worker of the claim has signed a piece of the submitted
-- evidence that the verifier passes for the task, unless the task asks for `M-of-N` with an M below one.
pub pass_needs_proof :
    (py : Platform) (r : Resolver) (reg : Registry) (c : String) (evs : List Fields) (db : Db)
    (reply : AttestReply)
    → (attest py r reg c evs db).0 ≡ ok reply
    → reply.verifier_decision ≡ pass
    → (claim : WcpClaim) × (task : WcpTask) × (who : ResolvedDid) × (req : Fields) × (claim_and_task
          c db
        ≡ (ok (claim, task), db))
      × (r.resolve claim.worker_id ≡ some who)
      × (as_dict (get_or "attestation_requirement" (obj end) task.task_json) ≡ ok req)
      × (Exists (Proves py r reg claim who (payload_of task)) evs ⊎ AsksForNone py req)
pass_needs_proof py r reg c evs db reply h p =
    let a = attest-Attempt py r reg c evs db reply h in
    (
      a.claim,
      a.task,
      a.who,
      a.req,
      a.loaded,
      a.resolved,
      a.asked,
      elim (evaluate_threshold-needs_pass py a.req a.outcomes a.judged a.aggregated
          (sym a.decided ∙ p)) [
            | inl n ↦ inl (
                examine-Proves py r reg a.claim a.who (payload_of a.task) evs db a.outcomes a.seen
                  n)
            | inr none_asked ↦ inr none_asked
          ],
    )
