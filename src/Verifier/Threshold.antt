-- ===== src/Verifier/Threshold.antt =====
-- `evaluate_threshold` of attestation_verifier/__init__.py: the decision over all the evidence.
use worker_context_protocol.Prelude.{
  ℕ, suc, ◌+◌, Bool, true, false, not, ◌&&◌, ◌||◌, Option, none, some, List, [], ◌∷◌, ◌++◌, ltb,
  nat_beq, leb, is_empty, select, if◌then◌else◌,
}
use worker_context_protocol.Prelude.Int.{ℤ, pos, ltb_ℤ, leb_ℤ}
use worker_context_protocol.Json.{
  Value, null, bool, int, float, str, arr, obj, Fields, get, get_or, of_list,
}
use worker_context_protocol.Json.Builtins.{
  or_else, iterate, set_of, subset, member, is_text, sorted, dedup, truncate,
}
use worker_context_protocol.Json
use worker_context_protocol.Platform.{Platform}
use worker_context_protocol.Result.{Result, ok, err, crash, value_error, ◌>>=◌}
use worker_context_protocol.Verifier.Outcome.{
  Decision, fail, review, Reason, VerificationOutcome, passed, because, is_pass, is_fail, is_review,
}

-- the list of (mode, outcome) pairs, in submission order
abbrev pub Outcomes : Type 0
Outcomes = List (Value × VerificationOutcome)

abbrev pub count : (Decision → Bool) → Outcomes → ℕ
count p [] = 0
count p ((_, o) ∷ rest) = if p o.decision then suc (count p rest) else count p rest

abbrev pub all_reasons : Outcomes → List Reason
all_reasons [] = []
all_reasons ((_, o) ∷ rest) = o.reasons ++ all_reasons rest

-- the modes of the outcomes that pass
abbrev pub passing_modes : Outcomes → List Value
passing_modes [] = []
passing_modes ((m, o) ∷ rest) =
    if is_pass o.decision then m ∷ passing_modes rest else passing_modes rest

abbrev with_reasons : Decision → List Reason → VerificationOutcome
with_reasons d rs = record { decision = d; reasons = rs }

unfoldable pub evaluate_any : Outcomes → VerificationOutcome
evaluate_any outcomes =
    if leb 1 (count is_pass outcomes)
    then passed
    else if leb 1 (count is_review outcomes) && nat_beq (count is_fail outcomes) 0
    then with_reasons review (all_reasons outcomes)
    else with_reasons fail (all_reasons outcomes)

-- the required modes with no passing evidence
abbrev pub missing_modes : List Value → Outcomes → List Value
missing_modes required outcomes =
    select (λ m. not (member m (passing_modes outcomes))) (dedup required)

unfoldable pub evaluate_all : List Value → Outcomes → Result VerificationOutcome
evaluate_all required outcomes =
    let missing = missing_modes required outcomes in
    if not (is_empty required)
      && subset required (passing_modes outcomes)
      && nat_beq (count is_fail outcomes) 0
    then ok passed
    else if ltb 0 (count is_fail outcomes) || not (is_empty missing)
    then (do
      listed ← sorted missing
      ok (
          with_reasons fail (
            all_reasons outcomes
            ++ (if is_empty listed
                then []
                else record {
                  text = "required mode(s) without passing evidence: {}";
                  args = arr (of_list listed) ∷ [];
                }
                  ∷ []))))
    else ok (with_reasons review (all_reasons outcomes))

unfoldable pub evaluate_m_of_n : ℤ → ℤ → Outcomes → VerificationOutcome
evaluate_m_of_n m n outcomes =
    if ltb_ℤ n m
    then because fail "M > N ({} > {})" (int m ∷ int n ∷ [])
    else if leb_ℤ m (pos (count is_pass outcomes))
    then passed
    else if leb_ℤ m (pos (count is_pass outcomes + count is_review outcomes))
        && nat_beq (count is_fail outcomes) 0
    then with_reasons review (all_reasons outcomes)
    else with_reasons fail (all_reasons outcomes)

abbrev parsed_int : Option ℤ → Result ℤ
parsed_int (some z) = ok z
parsed_int none = err (value_error "invalid literal for int() with base 10: ")

-- `int(v)`
unfoldable pub int_of : Platform → Value → Result ℤ
int_of py (int z) = ok z
int_of py (bool true) = ok (pos 1)
int_of py (bool false) = ok (pos 0)
int_of py (float m e) = ok (truncate m e)
int_of py (str s) = parsed_int (py.int_of_str s)
int_of py _ = err crash

-- The handler `except (KeyError, ValueError, TypeError)` round the two conversions. A missing key
-- reads as None, for which `int` raises as the lookup would.
abbrev pub m_of_n_or_fail : Result ℤ → Result ℤ → Outcomes → VerificationOutcome
m_of_n_or_fail (ok m) (ok n) outcomes = evaluate_m_of_n m n outcomes
m_of_n_or_fail _ _ outcomes = because fail "M-of-N threshold requires integer M and N" []

unfoldable pub evaluate_threshold : Platform → Fields → Outcomes → Result VerificationOutcome
evaluate_threshold py requirement outcomes =
    let threshold = get_or "threshold" (str "all") requirement in
    if is_text "any" threshold
    then ok (evaluate_any outcomes)
    else if is_text "all" threshold
    then (do
      modes ← iterate (or_else (get "modes" requirement) (arr Json.nil))
      required ← set_of modes
      evaluate_all required outcomes)
    else if is_text "M-of-N" threshold
    then ok (
        m_of_n_or_fail (int_of py (get "M" requirement)) (int_of py (get "N" requirement)) outcomes)
    else ok (because fail "unknown threshold: {}" (threshold ∷ []))
