-- ===== src/Verifier/Presence.antt =====
-- wcp_coordinator/attestation_verifier/cryptographic_presence.py
use worker_context_protocol.Prelude.{
  ℕ, ◌+◌, ◌-◌, ◌*◌, String, Bool, true, false, ◌||◌, none, some, [], ◌∷◌, ◌==◌, ltb, leb,
  if◌then◌else◌,
}
use worker_context_protocol.Prelude.Int.{pos}
use worker_context_protocol.Json.{Value, bool, int, str, get}
use worker_context_protocol.Json.Builtins.{as_dict, as_str, index}
use worker_context_protocol.Platform.{Platform, Instant}
use worker_context_protocol.Result.{Result, ok, err, crash, ◌>>=◌}
use worker_context_protocol.Verifier.Outcome.{VerificationOutcome, passed, because, fail, review}
use worker_context_protocol.Verifier.Required.{first_missing}

abbrev same_zone : Bool → Bool → Bool
same_zone true true = true
same_zone false false = true
same_zone _ _ = false

-- The 90% rule in microseconds: a minute is 60_000_000 of them, and the tolerance 1e-6 minutes
-- is 60. The source computes in floats; this is the exact arithmetic.
unfoldable pub too_short : ℕ → Value → Bool
too_short elapsed (int (pos required)) = ltb (elapsed + 60) (required * 54000000)
too_short elapsed (bool true) = ltb (elapsed + 60) 54000000
too_short elapsed _ = false

-- From the two parsed times on. The first gap of the reason is filled from the microseconds.
unfoldable pub verify_duration : Instant → Instant → Value → Result VerificationOutcome
unfolding too_short
verify_duration t_in t_out task_payload =
    if same_zone t_in.aware t_out.aware
    then (if leb t_out.micros t_in.micros
        then ok (because fail "check_out_at must be strictly after check_in_at" [])
        else do
          p ← as_dict task_payload
          ok (
              if too_short (t_out.micros - t_in.micros) (get "duration_minutes" p)
              then because review "presence duration {:.1f} minutes is below 90% of required {}"
                  (int (pos (t_out.micros - t_in.micros)) ∷ get "duration_minutes" p ∷ [])
              else passed))
    else err crash

unfoldable pub verify_times : Platform → Value → Value → Result VerificationOutcome
unfolding verify_duration
verify_times py payload task_payload = do
  check_in ← as_str (← index "check_in_at" payload)
  elim (py.parse_iso check_in) [
    | none ↦ ok (because fail "check_in/out timestamp parse: {}" (str check_in ∷ []))
    | some t_in ↦ do
      check_out ← as_str (← index "check_out_at" payload)
      elim (py.parse_iso check_out) [
        | none ↦ ok (because fail "check_in/out timestamp parse: {}" (str check_out ∷ []))
        | some t_out ↦ verify_duration t_in t_out task_payload
      ]
  ]

unfoldable pub presence_verify : Platform → String → Value → Value → Result VerificationOutcome
unfolding first_missing verify_times
presence_verify py kind payload task_payload =
    if kind == "pose_bounded_presence_proof" || kind == "geofence_check_in_out"
    then (do
      missing ← first_missing ("check_in_at" ∷ "check_out_at" ∷ "region" ∷ []) payload
      elim missing [
        | some k ↦ ok (because fail "{} missing field: {}" (str kind ∷ str k ∷ []))
        | none ↦ verify_times py payload task_payload
      ])
    else ok (because fail "cryptographic-presence verifier: unknown kind {}" (str kind ∷ []))
