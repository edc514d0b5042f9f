-- ===== src/Lifecycle/Evidence.antt =====
-- A round of the loop over the evidence writes a row of wcp_attestations and nothing else.
use worker_context_protocol.Prelude.{String, ◌≡◌, refl, inl, inr, Bool-cases}
use worker_context_protocol.Exec.{Exec, pure, ◌>>◌}
use worker_context_protocol.Json.{Value, Fields, obj, str, end, get, get_or}
use worker_context_protocol.Json.Builtins.{as_str, index}
use worker_context_protocol.Models.{Db, WcpClaim}
use worker_context_protocol.Platform.{Platform}
use worker_context_protocol.Resolver.{Resolver, ResolvedDid}
use worker_context_protocol.Result.{Error, Result, ok, err, Result-cases}
use worker_context_protocol.Tasks.Attest.Evidence.{
  examine_one, record_evidence, flushed, undo, evidence_fields, mode_value, text_column,
}
use worker_context_protocol.Tasks.Post.Requirement.{instant_of}
use worker_context_protocol.Verifier.Outcome.{VerificationOutcome}
use worker_context_protocol.Verifier.Registry.{Registry, verify_single}
use worker_context_protocol.Verifier.Threshold.{Outcomes}

-- The tasks, the audit log and the clock are as they were.
abbrev pub SameLog : Db → Db → Type 0
SameLog db db' = (db'.tasks ≡ db.tasks) × (db'.audit ≡ db.audit) × (db'.ticks ≡ db.ticks)

module _ (py : Platform) (r : Resolver) (reg : Registry) (claim : WcpClaim) (who : ResolvedDid)
    (payload : Value) where
  record_evidence-rows :
      (ev : Fields) (given : Value) (sig : String) (o : VerificationOutcome) (db : Db)
      → SameLog db (record_evidence py claim ev given sig o db).1
  unfolding record_evidence
  record_evidence-rows ev given sig o db = elim (Result-cases (mode_value (get "mode" ev))) [
    | inl (e, a) ↦ rw a (refl, refl, refl)
    | inr (m, a) ↦ rw a (elim (Result-cases (index "collected_at" (obj ev))) [
      | inl (e, b) ↦ rw b (refl, refl, refl)
      | inr (v, b) ↦ rw b (elim (Result-cases (as_str v)) [
        | inl (e, c) ↦ rw c (refl, refl, refl)
        | inr (s, c) ↦ rw c (elim (Result-cases (instant_of py s)) [
          | inl (e, d) ↦ rw d (refl, refl, refl)
          | inr (at, d) ↦ rw d (elim (Result-cases (text_column py (get "kind" ev))) [
            | inl (e, k) ↦ rw k (refl, refl, refl)
            | inr (kind, k) ↦
                rw k (elim (Result-cases (text_column py (get_or "payload_hash" (str "") ev))) [
                  | inl (e, h) ↦ rw h (refl, refl, refl)
                  | inr (hash, h) ↦ rw h (refl, refl, refl)
                ])
          ])
        ])
      ])
    ])
  ]

  -- the mode beside the outcome is what the round returns when the row is written
  recorded-rows :
      (ev : Fields) (given : Value) (sig : String) (o : VerificationOutcome) (db : Db)
      → let round : Exec (Value × VerificationOutcome) =
          record_evidence py claim ev given sig o >> pure (get "mode" ev, o) in
        SameLog db (round db).1
  recorded-rows ev given sig o db =
      let same = record_evidence-rows ev given sig o db in
      elim (Result-cases (record_evidence py claim ev given sig o db).0) [
        | inl (e, p) ↦ rw p same
        | inr (u, p) ↦ rw p same
      ]

  pub examine_one-rows :
      (ev : Fields) (db : Db) → SameLog db (examine_one py r reg claim who payload ev db).1
  unfolding examine_one
  examine_one-rows ev db = elim (Result-cases (as_str (get_or "sig" (str "") ev))) [
    | inl (e, a) ↦ rw a (refl, refl, refl)
    | inr (sig, a) ↦
        rw a (elim (Bool-cases (r.check_sig who (py.dumps (obj (evidence_fields claim ev))) sig)) [
          | inr b ↦ rw b (refl, refl, refl)
          | inl b ↦
              rw b
                (elim (Result-cases (
                  verify_single py reg (get "mode" ev) (get "kind" ev)
                    (get_or "payload" (obj end) ev) payload)) [
                      | inl (e, v) ↦ rw v (refl, refl, refl)
                      | inr (o, v) ↦
                          rw v (recorded-rows ev (get_or "payload" (obj end) ev) sig o db)
                    ])
        ])
  ]

undo-rows :
    (db : Db) (o : Result Outcomes) (db' : Db)
    → SameLog db' (undo db (o, db')).1 × ((undo db (o, db')).0 ≡ o)
undo-rows db (ok os) db' = ((refl, refl, refl), refl)
undo-rows db (err Error.row_refused) db' = ((refl, refl, refl), refl)
undo-rows db (err Error.task_not_found) db' = ((refl, refl, refl), refl)
undo-rows db (err Error.task_preempted) db' = ((refl, refl, refl), refl)
undo-rows db (err Error.task_state_invalid) db' = ((refl, refl, refl), refl)
undo-rows db (err Error.crash) db' = ((refl, refl, refl), refl)
undo-rows db (err (Error.value_error m)) db' = ((refl, refl, refl), refl)

-- The flush takes back no more than rows of wcp_attestations, and what the loop returned is returned.
pub flushed-rows :
    (loop : Exec Outcomes) (db : Db)
    → SameLog (loop db).1 (flushed loop db).1 × ((flushed loop db).0 ≡ (loop db).0)
unfolding flushed
flushed-rows loop db = undo-rows db (loop db).0 (loop db).1
