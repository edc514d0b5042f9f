-- ===== src/Capabilities/Invariance.antt =====
-- The matcher and the parts of a worker that it is not meant to read.
use worker_context_protocol.Prelude.{
  ◌||◌, String, ◌≡◌, refl, ap, ◌∙◌, List, [], ◌∷◌, map, any, Bool-cases, inl, inr, ◌==◌,
}
use worker_context_protocol.Json.{Value, Fields, obj}
use worker_context_protocol.Json.Builtins.{truthy}
use worker_context_protocol.Models.{WcpWorker, worker_class_value}
use worker_context_protocol.Result.{Result, ok, err, ◌>>=◌, Result-cases}
use worker_context_protocol.Capabilities.Matching.{
  Wanted, wanted_of, required_block, satisfies, matched, filter_texts, class_allowed,
  worker_class_name, with_class, candidates, matching_workers,
}

-- the workers of a result, changed
abbrev pub map_ok : (WcpWorker → WcpWorker) → Result (List WcpWorker) → Result (List WcpWorker)
map_ok f (ok ws) = ok (map f ws)
map_ok f (err e) = err e

-- `change` may rewrite anything of a worker but its class and its `required` block.
abbrev pub KeepsOffer : (WcpWorker → WcpWorker) → Type 0
KeepsOffer change =
    (w : WcpWorker)
    → ((change w).worker_class ≡ w.worker_class) × (required_block (change w) ≡ required_block w)

module _ (change : WcpWorker → WcpWorker) (keeps : KeepsOffer change) where
  class_allowed-eq :
      (cs : List String) (w : WcpWorker) → class_allowed cs (change w) ≡ class_allowed cs w
  unfolding class_allowed
  class_allowed-eq cs w =
      ap (λ k. any (λ c. c == worker_class_value k || c == worker_class_name k) cs) (keeps w).0

  matched-map :
      (q : Wanted) (ws : List WcpWorker) → matched q (map change ws) ≡ map_ok change (matched q ws)
  unfolding matched
  matched-map q [] = refl
  matched-map q (w ∷ ws) = elim (Result-cases (satisfies q (required_block w))) [
    | inl (e, p) ↦ let p' = ap (satisfies q) (keeps w).1 ∙ p in rw p (rw p' refl)
    | inr (fits, p) ↦
        let p' = ap (satisfies q) (keeps w).1 ∙ p in
        rw p (
          rw p' (
            rw (matched-map q ws) (elim (Result-cases (matched q ws)) [
              | inl (e, r) ↦ rw r refl
              | inr (rest, r) ↦
                  rw r (elim (Bool-cases fits) [ inl b ↦ rw b refl | inr b ↦ rw b refl ])
            ])))
  ]

  with_class-map :
      (cs : List String) (ws : List WcpWorker)
      → with_class cs (map change ws) ≡ map change (with_class cs ws)
  unfolding with_class
  with_class-map cs [] = refl
  with_class-map cs (w ∷ ws) = rw (class_allowed-eq cs w) (
      rw (with_class-map cs ws)
        (elim (Bool-cases (class_allowed cs w)) [ inl b ↦ rw b refl | inr b ↦ rw b refl ]))

  candidates-map :
      (filter : List Value) (ws : List WcpWorker)
      → candidates filter (map change ws) ≡ map_ok change (candidates filter ws)
  unfolding candidates
  candidates-map [] ws = refl
  candidates-map (v ∷ vs) ws = elim (Result-cases (filter_texts (v ∷ vs))) [
    | inl (e, p) ↦ rw p refl
    | inr (cs, p) ↦ rw p (ap ok (with_class-map cs ws))
  ]

  matched-candidates :
      (query : Fields) (rows : List WcpWorker)
      → (wanted_of query >>= λ q. matched q (map change rows))
        ≡ map_ok change (wanted_of query >>= λ q. matched q rows)
  matched-candidates query rows = elim (Result-cases (wanted_of query)) [
    | inl (e, p) ↦ rw p refl
    | inr (q, p) ↦ rw p (matched-map q rows)
  ]

-- The matcher reads a worker's class and its `required` block and nothing else: where every worker
-- is changed in any other respect, `class_extension` included, the same workers match, as changed,
-- and the same queries raise.
pub matching_workers-map :
    (change : WcpWorker → WcpWorker)
    → KeepsOffer change
    → (query : Fields) (filter : List Value) (ws : List WcpWorker)
    → matching_workers query filter (map change ws)
      ≡ map_ok change (matching_workers query filter ws)
unfolding matching_workers
matching_workers-map change keeps query filter ws =
    rw (candidates-map change keeps filter ws) (elim (Result-cases (candidates filter ws)) [
      | inl (e, p) ↦ rw p refl
      | inr (rows, p) ↦ rw p (elim (Bool-cases (truthy (obj query))) [
        | inl b ↦ rw b (matched-candidates change keeps query rows)
        | inr b ↦ rw b refl
      ])
    ])
