-- ===== src/Verifier/OrderFree.antt =====
-- `evaluate_threshold` and the order of the evidence.
use mathlib.Core.List.{Permᴰ}
use mathlib.Core.Path.{subst}
use worker_context_protocol.Prelude.{
  ◌≡◌, refl, sym, ap, ◌∙◌, inl, inr, Bool, false, not, ◌||◌, ◌&&◌, List, [], ◌∷◌, arith, all,
  Bool-cases, select,
}
use worker_context_protocol.Prelude.Int.{ℤ}
use worker_context_protocol.Json
use worker_context_protocol.Json.{Value, Fields, get, get_or, str, arr}
use worker_context_protocol.Json.Builtins.{
  scalar_eq, member, subset, dedup, sorted, is_text, iterate, or_else, set_of, hashable,
}
use worker_context_protocol.Platform.{Platform}
use worker_context_protocol.Result.{Result, ok, err, ◌>>=◌, Result-cases}
use worker_context_protocol.Verifier.Outcome.{
  Decision, VerificationOutcome, is_pass, is_fail, is_review,
}
use worker_context_protocol.Verifier.Threshold.{
  Outcomes, count, passing_modes, missing_modes, evaluate_any, evaluate_all, evaluate_m_of_n,
  m_of_n_or_fail, evaluate_threshold, int_of,
}

-- the decision of a result, or its error
abbrev pub decision_of : Result VerificationOutcome → Result Decision
decision_of (ok o) = ok o.decision
decision_of (err e) = err e

count-Permᴰ : (p : Decision → Bool) (xs ys : Outcomes) → Permᴰ xs ys → count p xs ≡ count p ys
count-Permᴰ p _ _ Permᴰ.nil = refl
count-Permᴰ p _ _ (Permᴰ.cons {a = a} {b = b} {l₁ = xs} {l₂ = ys} e d) =
    subst (λ z. count p (a ∷ xs) ≡ count p (z ∷ ys)) e (ground (arith, count-Permᴰ p xs ys d))
count-Permᴰ p _ _ (Permᴰ.swap {a = a} {b = b} {a' = c} {l = xs} e f) =
    subst (λ z. count p (a ∷ b ∷ xs) ≡ count p (c ∷ z ∷ xs)) e
      (subst (λ z. count p (a ∷ b ∷ xs) ≡ count p (z ∷ a ∷ xs)) f (ground arith))
count-Permᴰ p _ _ (Permᴰ.trans {l₁ = xs} {l₂ = ys} {l₃ = zs} d e) =
    count-Permᴰ p xs ys d ∙ count-Permᴰ p ys zs e

-- A mode is covered by the same tests in whatever order.
covered : Value → Outcomes → Bool
covered m [] = false
covered m ((mode, o) ∷ rest) = (is_pass o.decision && scalar_eq m mode) || covered m rest

member-covered : (m : Value) (xs : Outcomes) → member m (passing_modes xs) ≡ covered m xs
unfolding covered
member-covered m [] = refl
member-covered m ((mode, o) ∷ xs) = elim (Bool-cases (is_pass o.decision)) [
  | inl b ↦ rw b (ap (λ z. scalar_eq m mode || z) (member-covered m xs))
  | inr b ↦ rw b (member-covered m xs)
]

covered-Permᴰ : (m : Value) (xs ys : Outcomes) → Permᴰ xs ys → covered m xs ≡ covered m ys
unfolding covered
covered-Permᴰ m _ _ Permᴰ.nil = refl
covered-Permᴰ m _ _ (Permᴰ.cons {a = a} {b = b} {l₁ = xs} {l₂ = ys} e d) =
    subst (λ z. covered m (a ∷ xs) ≡ covered m (z ∷ ys)) e (rw (covered-Permᴰ m xs ys d) refl)
covered-Permᴰ m _ _ (Permᴰ.swap {a = a} {b = b} {a' = c} {l = xs} e f) =
    subst (λ z. covered m (a ∷ b ∷ xs) ≡ covered m (c ∷ z ∷ xs)) e
      (subst (λ z. covered m (a ∷ b ∷ xs) ≡ covered m (z ∷ a ∷ xs)) f (ground arith))
covered-Permᴰ m _ _ (Permᴰ.trans {l₁ = xs} {l₂ = ys} {l₃ = zs} d e) =
    covered-Permᴰ m xs ys d ∙ covered-Permᴰ m ys zs e

member-Permᴰ :
    (xs ys : Outcomes)
    → Permᴰ xs ys
    → (m : Value) → member m (passing_modes xs) ≡ member m (passing_modes ys)
member-Permᴰ xs ys d m = member-covered m xs ∙ covered-Permᴰ m xs ys d ∙ sym (member-covered m ys)

module _ (p q : Value → Bool) (same : (m : Value) → p m ≡ q m) where
  select-eq : (ms : List Value) → select p ms ≡ select q ms
  select-eq [] = refl
  select-eq (m ∷ ms) = rw (same m) (rw (select-eq ms) refl)

  all-eq : (ms : List Value) → all p ms ≡ all q ms
  all-eq [] = refl
  all-eq (m ∷ ms) = rw (same m) (rw (all-eq ms) refl)

module _ (xs ys : Outcomes) (d : Permᴰ xs ys) where
  any-Permᴰ : (evaluate_any xs).decision ≡ (evaluate_any ys).decision
  unfolding evaluate_any
  any-Permᴰ =
      rw (count-Permᴰ is_pass xs ys d)
        (rw (count-Permᴰ is_review xs ys d) (rw (count-Permᴰ is_fail xs ys d) (ground arith)))

  m_of_n-Permᴰ : (m n : ℤ) → (evaluate_m_of_n m n xs).decision ≡ (evaluate_m_of_n m n ys).decision
  unfolding evaluate_m_of_n
  m_of_n-Permᴰ m n =
      rw (count-Permᴰ is_pass xs ys d)
        (rw (count-Permᴰ is_review xs ys d) (rw (count-Permᴰ is_fail xs ys d) (ground arith)))

  all-Permᴰ :
      (required : List Value)
      → decision_of (evaluate_all required xs) ≡ decision_of (evaluate_all required ys)
  unfolding evaluate_all
  all-Permᴰ required =
      let missing : missing_modes required xs ≡ missing_modes required ys =
        select-eq _ _ (λ m. ap not (member-Permᴰ xs ys d m)) (dedup required) in
      let cover : subset required (passing_modes xs) ≡ subset required (passing_modes ys) =
        all-eq _ _ (member-Permᴰ xs ys d) required in
      rw missing (
        rw cover (
          rw (count-Permᴰ is_fail xs ys d)
            (elim (Result-cases (sorted (missing_modes required ys))) [
              | inl (e, s) ↦ rw s (ground arith)
              | inr (l, s) ↦ rw s (ground arith)
            ])))

  m_of_n_or_fail-Permᴰ :
      (m n : Result ℤ) → (m_of_n_or_fail m n xs).decision ≡ (m_of_n_or_fail m n ys).decision
  m_of_n_or_fail-Permᴰ (ok m) (ok n) = m_of_n-Permᴰ m n
  m_of_n_or_fail-Permᴰ (ok m) (err e) = refl
  m_of_n_or_fail-Permᴰ (err e) n = refl

  all_branch-Permᴰ :
      (modes : Result (List Value))
      → decision_of (modes >>= λ ms. set_of ms >>= λ required. evaluate_all required xs)
        ≡ decision_of (modes >>= λ ms. set_of ms >>= λ required. evaluate_all required ys)
  all_branch-Permᴰ (err e) = refl
  all_branch-Permᴰ (ok ms) = elim (Bool-cases (all hashable ms)) [
    | inl b ↦ rw b (all-Permᴰ ms)
    | inr b ↦ rw b refl
  ]

-- The decision over the submitted evidence, and whether it raises, is the same for every order of
-- submission, whatever the task requires.
pub evaluate_threshold-Permᴰ :
    (py : Platform) (req : Fields) (xs ys : Outcomes)
    → Permᴰ xs ys
    → decision_of (evaluate_threshold py req xs) ≡ decision_of (evaluate_threshold py req ys)
unfolding evaluate_threshold
evaluate_threshold-Permᴰ py req xs ys d =
    let threshold = get_or "threshold" (str "all") req in
    elim (Bool-cases (is_text "any" threshold)) [
      | inl a ↦ rw a (ap ok (any-Permᴰ xs ys d))
      | inr a ↦ rw a (elim (Bool-cases (is_text "all" threshold)) [
        | inl b ↦
            rw b (all_branch-Permᴰ xs ys d (iterate (or_else (get "modes" req) (arr Json.nil))))
        | inr b ↦ rw b (elim (Bool-cases (is_text "M-of-N" threshold)) [
          | inl c ↦ rw c (
              ap ok
                (m_of_n_or_fail-Permᴰ xs ys d (int_of py (get "M" req)) (int_of py (get "N" req))))
          | inr c ↦ rw c refl
        ])
      ])
    ]
