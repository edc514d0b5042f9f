-- ===== src/Tasks/Attest/Evidence.antt =====
-- The loop of `attest` over the submitted evidence.
use worker_context_protocol.Prelude.{String, Option, none, some, List, [], ◌∷◌, ◌++◌, if◌then◌else◌}
use worker_context_protocol.Json.{Value, null, str, obj, Fields, end, field, get, get_or}
use worker_context_protocol.Json.Builtins.{or_else, as_str, index}
use worker_context_protocol.Models.{Db, AttestationMode, WcpClaim, attestation_mode_of}
use worker_context_protocol.Platform.{Platform}
use worker_context_protocol.Resolver.{Resolver, ResolvedDid}
use worker_context_protocol.Result.{Result, ok, err, value_error, row_refused}
use worker_context_protocol.Exec.{Exec, lift, pure, modify, uuid, ◌>>=◌, ◌>>◌}
use worker_context_protocol.Tasks.Post.Requirement.{instant_of}
use worker_context_protocol.Verifier.Outcome.{VerificationOutcome, because, fail}
use worker_context_protocol.Verifier.Registry.{Registry, verify_single}
use worker_context_protocol.Verifier.Threshold.{Outcomes}

abbrev pub evidence_fields : WcpClaim → Fields → Fields
evidence_fields claim ev = field "mode" (get "mode" ev) (
    field "kind" (get "kind" ev) (
      field "payload_hash" (get "payload_hash" ev) (
        field "worker_id" (str claim.worker_id) (
          field "claim_id" (str claim.claim_id)
            (field "collected_at" (get "collected_at" ev) end)))))

-- `AttestationMode(mode)`: the ValueError's message begins with the value itself
abbrev mode_or_raise : Option AttestationMode → Result AttestationMode
mode_or_raise none = err (value_error "")
mode_or_raise (some m) = ok m

abbrev pub mode_value : Value → Result AttestationMode
mode_value (str s) = mode_or_raise (attestation_mode_of s)
mode_value _ = err (value_error "")

-- what the driver makes of a value, or its refusal
abbrev stored_or_raise : Option String → Result String
stored_or_raise none = err row_refused
stored_or_raise (some s) = ok s

-- A text column that is NOT NULL: None is an IntegrityError.
abbrev pub text_column : Platform → Value → Result String
text_column py (str s) = ok s
text_column py null = err row_refused
text_column py v = stored_or_raise (py.stored_text v)

-- `self._db.add(WcpAttestation(…))`: the arguments are evaluated from left to right. The row is
-- refused here by its columns, and `flushed` undoes the loop; the source does both at its next flush.
unfoldable pub record_evidence :
    Platform → WcpClaim → Fields → Value → String → VerificationOutcome → Exec (Unit {0})
record_evidence py claim ev payload sig outcome = do
  mode ← lift (mode_value (get "mode" ev))
  collected ← lift (index "collected_at" (obj ev))
  collected_text ← lift (as_str collected)
  collected_at ← lift (instant_of py collected_text)
  kind ← lift (text_column py (get "kind" ev))
  payload_hash ← lift (text_column py (get_or "payload_hash" (str "") ev))
  attestation_id ← uuid py
  modify (λ db. record db {
    attestations =
        db.attestations
        ++ record {
          attestation_id = attestation_id;
          claim_id = claim.claim_id;
          mode = mode;
          kind = kind;
          payload_hash = payload_hash;
          sig = sig;
          worker_id = claim.worker_id;
          collected_at = collected_at;
          verifier_decision = outcome.decision;
          verifier_reasons = outcome.reasons;
          payload_json = payload;
        }
          ∷ [];
  })

-- One round: a bad signature is an outcome and writes no row.
unfoldable pub examine_one :
    Platform
    → Resolver
    → Registry
    → WcpClaim
    → ResolvedDid
    → Value
    → Fields
    → Exec (Value × VerificationOutcome)
examine_one py resolver registry claim resolved task_payload ev = do
  sig ← lift (as_str (get_or "sig" (str "") ev))
  if resolver.check_sig resolved (py.dumps (obj (evidence_fields claim ev))) sig
      then (do
        let payload = get_or "payload" (obj end) ev
        outcome ←
            lift (verify_single py registry (get "mode" ev) (get "kind" ev) payload task_payload)
        record_evidence py claim ev payload sig outcome
        pure (get "mode" ev, outcome))
      else pure (or_else (get "mode" ev) (str "?"), because fail "signature: {}" [])

unfoldable pub examine :
    Platform → Resolver → Registry → WcpClaim → ResolvedDid → Value → List Fields → Exec Outcomes
examine py resolver registry claim resolved task_payload [] = pure []
examine py resolver registry claim resolved task_payload (ev ∷ evs) =
    let later : Exec Outcomes = examine py resolver registry claim resolved task_payload evs in
    do
      outcome ← examine_one py resolver registry claim resolved task_payload ev
      outcomes ← later
      pure (outcome ∷ outcomes)

-- what is left of the rows where the flush has failed
abbrev pub undo : Db → Result Outcomes × Db → Result Outcomes × Db
undo before (err row_refused, after) =
    (err row_refused, record after { attestations = before.attestations })
undo before (r, after) = (r, after)

-- The flush after the loop: a row that is refused takes back the rows of the loop.
unfoldable pub flushed : Exec Outcomes → Exec Outcomes
flushed loop db = undo db (loop db)
