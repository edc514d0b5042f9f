-- ===== src/Verifier/Outcome.antt =====
-- The outcome of one verification, of wcp_coordinator/attestation_verifier/__init__.py.
-- `residual` is left out: every outcome of the source has the default, an empty dict.
use worker_context_protocol.Prelude.{String, Bool, true, false, List, [], ◌∷◌}
use worker_context_protocol.Json.{Value}

pub data Decision : Type 0 where
  pass fail review : Decision

pub Decision-discrete : Discrete Decision
Decision-discrete = hlevel

-- An f-string: its literal text, `{}` at each gap, and the values that fill the gaps.
pub record Reason : Type 0 where
  pub text : String
  pub args : List Value

pub record VerificationOutcome : Type 0 where
  pub decision : Decision
  pub reasons : List Reason

abbrev pub passed : VerificationOutcome
passed = record { decision = pass; reasons = [] }

abbrev pub because : Decision → String → List Value → VerificationOutcome
because d text args = record { decision = d; reasons = record { text = text; args = args } ∷ [] }

abbrev pub is_pass : Decision → Bool
is_pass pass = true
is_pass _ = false

abbrev pub is_fail : Decision → Bool
is_fail fail = true
is_fail _ = false

abbrev pub is_review : Decision → Bool
is_review review = true
is_review _ = false
