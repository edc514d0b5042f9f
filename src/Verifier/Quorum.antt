-- ===== src/Verifier/Quorum.antt =====
-- A passing aggregate and the evidence behind it.
use worker_context_protocol.Prelude.{
  ◌≤◌, ◌≡◌, ◌≢◌, refl, ap, ◌⊎◌, inl, inr, true, false, List, [], ◌∷◌, All, arith, all, Bool-cases,
  is_empty,
}
use worker_context_protocol.Prelude.Int.{ℤ, pos, negsuc, leb_ℤ}
use worker_context_protocol.Json.{Value, Fields, get, get_or, str, arr}
use worker_context_protocol.Json
use worker_context_protocol.Json.Builtins.{
  scalar_eq, member, subset, is_text, set_of, hashable, iterate, or_else,
}
use worker_context_protocol.Platform.{Platform}
use worker_context_protocol.Result.{Result, ok, err, ◌>>=◌}
use worker_context_protocol.Verifier.Outcome.{
  Decision, pass, fail, VerificationOutcome, is_pass, is_fail,
}
use worker_context_protocol.Verifier.Threshold.{
  Outcomes, count, passing_modes, evaluate_any, evaluate_all, evaluate_m_of_n, evaluate_threshold,
  int_of, m_of_n_or_fail,
}

-- Some evidence of the mode passes.
pub data Covered (m : Value) : Outcomes → Type 0 where
  here :
      {mode : Value} {o : VerificationOutcome} {rest : Outcomes}
      → scalar_eq m mode ≡ true
      → o.decision ≡ pass
      → Covered m ((mode, o) ∷ rest)
  later :
      {x : Value × VerificationOutcome} {rest : Outcomes} → Covered m rest → Covered m (x ∷ rest)

-- No evidence fails.
abbrev pub NoneFails : Outcomes → Type 0
NoneFails outcomes = All (λ x. x.1.decision ≢ fail) outcomes

pub is_pass-eq : (d : Decision) → is_pass d ≡ true → d ≡ pass
is_pass-eq pass h = refl
is_pass-eq _ h = cc

is_fail-ne : (d : Decision) → is_fail d ≡ false → d ≢ fail
is_fail-ne fail h = λ e. cc
is_fail-ne _ h = λ e. cc

member-Covered :
    (m : Value) (outcomes : Outcomes)
    → member m (passing_modes outcomes) ≡ true
    → Covered m outcomes
member-Covered m [] h = absurd (cc)
member-Covered m ((mode, o) ∷ rest) h = elim (Bool-cases (is_pass o.decision)) [
  | inr p ↦ later (member-Covered m rest (ground (arith, h, p)))
  | inl p ↦ elim (Bool-cases (scalar_eq m mode)) [
    | inl b ↦ here b (is_pass-eq o.decision p)
    | inr b ↦ later (member-Covered m rest (ground (arith, h, p, b)))
  ]
]

subset-Covered :
    (required : List Value) (outcomes : Outcomes)
    → subset required (passing_modes outcomes) ≡ true
    → All (λ m. Covered m outcomes) required
subset-Covered [] outcomes h = tt
subset-Covered (m ∷ ms) outcomes h =
    (member-Covered m outcomes (ground arith), subset-Covered ms outcomes (ground arith))

no_fails-NoneFails : (outcomes : Outcomes) → count is_fail outcomes ≡ 0 → NoneFails outcomes
no_fails-NoneFails [] h = tt
no_fails-NoneFails ((mode, o) ∷ rest) h = elim (Bool-cases (is_fail o.decision)) [
  | inl p ↦ absurd (ground (arith, h, p))
  | inr p ↦ (is_fail-ne o.decision p, no_fails-NoneFails rest (ground (arith, h, p)))
]

all-conditions :
    (required : List Value) (outcomes : Outcomes) (o : VerificationOutcome)
    → evaluate_all required outcomes ≡ ok o
    → o.decision ≡ pass
    → (is_empty required ≡ false)
      × (subset required (passing_modes outcomes) ≡ true)
      × (count is_fail outcomes ≡ 0)
unfolding evaluate_all
all-conditions required outcomes o h p = ground arith

-- Where the threshold `all` passes there is a required mode, every required mode has passing
-- evidence, and no evidence fails.
pub evaluate_all-Covered :
    (required : List Value) (outcomes : Outcomes) (o : VerificationOutcome)
    → evaluate_all required outcomes ≡ ok o
    → o.decision ≡ pass
    → (required ≢ []) × All (λ m. Covered m outcomes) required × NoneFails outcomes
evaluate_all-Covered required outcomes o h p =
    let (some_mode, covered, clean) = all-conditions required outcomes o h p in
    (
      (λ e. cc (some_mode, e)),
      subset-Covered required outcomes covered,
      no_fails-NoneFails outcomes clean,
    )

Covered-count : (m : Value) (outcomes : Outcomes) → Covered m outcomes → 1 ≤ count is_pass outcomes
Covered-count m _ (here {mode = mode} {o = o} {rest = rest} s p) = ground (arith, p, ap is_pass p)
Covered-count m _ (later {x = (mode, o)} {rest = rest} c) = ground (arith, Covered-count m rest c)

some_required :
    (required : List Value) (outcomes : Outcomes)
    → required ≢ []
    → All (λ m. Covered m outcomes) required
    → 1 ≤ count is_pass outcomes
some_required [] outcomes h c = absurd (h refl)
some_required (m ∷ ms) outcomes h c = Covered-count m outcomes c.0

-- The task asks for `M-of-N` with an M below one.
abbrev pub AsksForNone : Platform → Fields → Type 0
AsksForNone py req =
    (is_text "M-of-N" (get_or "threshold" (str "all") req) ≡ true)
    × (m : ℤ) × (int_of py (get "M" req) ≡ ok m)
    × (leb_ℤ m (pos 0) ≡ true)

any-needs_pass :
    (outcomes : Outcomes) → (evaluate_any outcomes).decision ≡ pass → 1 ≤ count is_pass outcomes
unfolding evaluate_any
any-needs_pass outcomes h = ground arith

m_of_n-needs_pass :
    (m n : ℤ) (outcomes : Outcomes)
    → (evaluate_m_of_n m n outcomes).decision ≡ pass
    → (1 ≤ count is_pass outcomes) ⊎ (leb_ℤ m (pos 0) ≡ true)
unfolding evaluate_m_of_n
m_of_n-needs_pass (pos m) n outcomes h = ground arith
m_of_n-needs_pass (negsuc m) n outcomes h = inr (ground arith)

all-needs_pass :
    (required : List Value) (outcomes : Outcomes) (o : VerificationOutcome)
    → evaluate_all required outcomes ≡ ok o
    → o.decision ≡ pass
    → 1 ≤ count is_pass outcomes
all-needs_pass required outcomes o h p =
    let (some_mode, covered, clean) = evaluate_all-Covered required outcomes o h p in
    some_required required outcomes some_mode covered

m_of_n_or_fail-needs_pass :
    (m n : Result ℤ) (outcomes : Outcomes)
    → (m_of_n_or_fail m n outcomes).decision ≡ pass
    → (1 ≤ count is_pass outcomes) ⊎ ((z : ℤ) × (m ≡ ok z) × (leb_ℤ z (pos 0) ≡ true))
m_of_n_or_fail-needs_pass (ok m) (ok n) outcomes h = elim (m_of_n-needs_pass m n outcomes h) [
  | inl l ↦ inl l
  | inr l ↦ inr (m, refl, l)
]
m_of_n_or_fail-needs_pass (ok m) (err e) outcomes h = cc
m_of_n_or_fail-needs_pass (err e) n outcomes h = cc

module _ (py : Platform) (req : Fields) (outcomes : Outcomes) (o : VerificationOutcome) where
  all_branch-needs_pass :
      (modes : Result (List Value))
      → (modes >>= λ ms. set_of ms >>= λ required. evaluate_all required outcomes) ≡ ok o
      → o.decision ≡ pass
      → 1 ≤ count is_pass outcomes
  all_branch-needs_pass (ok ms) h p = elim (Bool-cases (all hashable ms)) [
    | inl b ↦ all-needs_pass ms outcomes o (rw b at h) p
    | inr b ↦ absurd (cc (rw b at h))
  ]
  all_branch-needs_pass (err e) h p = cc

-- An aggregate passes only with a piece of passing evidence, unless the threshold is `M-of-N` with
-- an M of zero or less.
pub evaluate_threshold-needs_pass :
    (py : Platform) (req : Fields) (outcomes : Outcomes) (o : VerificationOutcome)
    → evaluate_threshold py req outcomes ≡ ok o
    → o.decision ≡ pass
    → (1 ≤ count is_pass outcomes) ⊎ AsksForNone py req
unfolding evaluate_threshold
evaluate_threshold-needs_pass py req outcomes o h p =
    let threshold = get_or "threshold" (str "all") req in
    elim (Bool-cases (is_text "any" threshold)) [
      | inl a ↦ inl (any-needs_pass outcomes (ground (arith, h, p, a)))
      | inr a ↦
          let h1 = rw a at h in
          elim (Bool-cases (is_text "all" threshold)) [
            | inl b ↦ inl (
                all_branch-needs_pass py req outcomes o
                  (iterate (or_else (get "modes" req) (arr Json.nil))) (rw b at h1) p)
            | inr b ↦
                let h2 = rw b at h1 in
                elim (Bool-cases (is_text "M-of-N" threshold)) [
                  | inl c ↦
                      let h3 = rw c at h2 in
                      elim (m_of_n_or_fail-needs_pass (int_of py (get "M" req))
                        (int_of py (get "N" req)) outcomes (ground (arith, h3, p))) [
                          | inl l ↦ inl l
                          | inr (z, read, low) ↦ inr (c, z, read, low)
                        ]
                  | inr c ↦ absurd (ground (arith, rw c at h2, p))
                ]
          ]
    ]
