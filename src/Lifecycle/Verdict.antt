-- ===== src/Lifecycle/Verdict.antt =====
-- The evidence of tasks/attest, piece by piece.
use worker_context_protocol.Prelude.{
  ◌≤◌, String, true, false, ◌≡◌, inl, inr, List, [], ◌∷◌, arith, Bool-cases, Exists, here, later,
}
use worker_context_protocol.Json.{Value, Fields, str, obj, end, get, get_or}
use worker_context_protocol.Json.Builtins.{as_str}
use worker_context_protocol.Models.{Db, WcpClaim}
use worker_context_protocol.Platform.{Platform}
use worker_context_protocol.Resolver.{Resolver, ResolvedDid}
use worker_context_protocol.Result.{Result, ok, err, Result-cases}
use worker_context_protocol.Exec.{resume, pure}
use worker_context_protocol.Verifier.Quorum.{is_pass-eq}
use worker_context_protocol.Tasks.Attest.Evidence.{
  examine, examine_one, evidence_fields, record_evidence,
}
use worker_context_protocol.Verifier.Outcome.{pass, VerificationOutcome, is_pass}
use worker_context_protocol.Verifier.Registry.{Registry, verify_single}
use worker_context_protocol.Verifier.Threshold.{Outcomes, count}

-- A piece of evidence that the resolved worker signed and that the verifier passes.
pub record Proves (py : Platform) (r : Resolver) (reg : Registry) (claim : WcpClaim)
    (who : ResolvedDid) (task_payload : Value) (ev : Fields) : Type 0 where
  pub sig : String
  pub given : as_str (get_or "sig" (str "") ev) ≡ ok sig
  pub signed : r.check_sig who (py.dumps (obj (evidence_fields claim ev))) sig ≡ true
  pub outcome : VerificationOutcome
  pub verified :
      verify_single py reg
        (get "mode" ev)
        (get "kind" ev)
        (get_or "payload" (obj end) ev)
        task_payload
      ≡ ok outcome
  pub passes : outcome.decision ≡ pass

recorded :
    (x : Result (Unit {0}) × Db) (m mode : Value) (found o : VerificationOutcome)
    → (resume {B = Value × VerificationOutcome} (λ _. pure (m, found)) x.0 x.1).0 ≡ ok (mode, o)
    → o.decision ≡ pass
    → found.decision ≡ pass
recorded (ok u, db) m mode found o h p = ground (arith, h, p)
recorded (err e, db) m mode found o h p = cc

counted :
    (mode : Value) (o : VerificationOutcome) (rest outcomes : Outcomes)
    → ok ((mode, o) ∷ rest) ≡ ok outcomes
    → is_pass o.decision ≡ false
    → 1 ≤ count is_pass outcomes
    → 1 ≤ count is_pass rest
counted mode o rest outcomes h b n = ground (arith, h, b, n)

module _ (py : Platform) (r : Resolver) (reg : Registry) (claim : WcpClaim) (who : ResolvedDid)
    (task_payload : Value) where
  examine_one-Proves :
      (ev : Fields) (db : Db) (mode : Value) (o : VerificationOutcome)
      → (examine_one py r reg claim who task_payload ev db).0 ≡ ok (mode, o)
      → o.decision ≡ pass
      → Proves py r reg claim who task_payload ev
  unfolding examine_one
  examine_one-Proves ev db mode o h p = elim (Result-cases (as_str (get_or "sig" (str "") ev))) [
    | inl (e, q) ↦ absurd (cc (rw q at h))
    | inr (sig, q) ↦
        let h1 = rw q at h in
        elim (Bool-cases (r.check_sig who (py.dumps (obj (evidence_fields claim ev))) sig)) [
          | inr b ↦ absurd (ground (arith, rw b at h1, p))
          | inl b ↦
              let h2 = rw b at h1 in
              let payload : Value = get_or "payload" (obj end) ev in
              elim (Result-cases
                (verify_single py reg (get "mode" ev) (get "kind" ev) payload task_payload)) [
                  | inl (e, v) ↦ absurd (cc (rw v at h2))
                  | inr (found, v) ↦
                      let h3 = rw v at h2 in
                      record {
                        sig = sig;
                        given = q;
                        signed = b;
                        outcome = found;
                        verified = v;
                        passes =
                            recorded (record_evidence py claim ev payload sig found db)
                              (get "mode" ev) mode found o h3 p;
                      }
                ]
        ]
  ]

  pub examine-Proves :
      (evs : List Fields) (db : Db) (outcomes : Outcomes)
      → (examine py r reg claim who task_payload evs db).0 ≡ ok outcomes
      → 1 ≤ count is_pass outcomes
      → Exists (Proves py r reg claim who task_payload) evs
  unfolding examine
  examine-Proves [] db outcomes h n = absurd (ground (arith, h, n))
  examine-Proves (ev ∷ evs) db outcomes h n =
      let one = examine_one py r reg claim who task_payload ev db in
      elim (Result-cases one.0) [
        | inl (e, q) ↦ absurd (cc (rw q at h))
        | inr ((mode, o), q) ↦
            let h1 = rw q at h in
            elim (Result-cases (examine py r reg claim who task_payload evs one.1).0) [
              | inl (e, w) ↦ absurd (cc (rw w at h1))
              | inr (rest, w) ↦ elim (Bool-cases (is_pass o.decision)) [
                | inl b ↦ here (examine_one-Proves ev db mode o q (is_pass-eq o.decision b))
                | inr b ↦ later (
                    examine-Proves evs one.1 rest w (counted mode o rest outcomes (rw w at h1) b n))
              ]
            ]
      ]
