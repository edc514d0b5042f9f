-- ===== src/Tests/Aggregates.antt =====
-- The theorems on the aggregate of the evidence, applied.
use worker_context_protocol.Prelude.{◌≤◌, ◌≢◌, refl, ◌⊎◌, [], ◌∷◌, All}
use worker_context_protocol.Json.{str}
use worker_context_protocol.Verifier.Outcome.{passed, is_pass}
use worker_context_protocol.Verifier.Quorum.{
  Covered, NoneFails, AsksForNone, evaluate_all-Covered, evaluate_threshold-needs_pass,
}
use worker_context_protocol.Verifier.Threshold.{Outcomes, count, evaluate_all, evaluate_threshold}
use worker_context_protocol.Tests.{test_platform, requirement}

abbrev one_pass : Outcomes
one_pass = (str "sensor-witness", passed) ∷ []

evaluate_all-Covered_example :
    (str "sensor-witness" ∷ [] ≢ [])
    × All (λ m. Covered m one_pass) (str "sensor-witness" ∷ [])
    × NoneFails one_pass
unfolding evaluate_all
evaluate_all-Covered_example =
    evaluate_all-Covered (str "sensor-witness" ∷ []) one_pass passed refl refl

evaluate_threshold-needs_pass_example :
    (1 ≤ count is_pass one_pass) ⊎ AsksForNone test_platform requirement
unfolding evaluate_threshold evaluate_all
evaluate_threshold-needs_pass_example =
    evaluate_threshold-needs_pass test_platform requirement one_pass passed refl refl
