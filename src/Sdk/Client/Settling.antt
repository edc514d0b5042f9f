-- ===== src/Sdk/Client/Settling.antt =====
-- The futures of the client over any calls and any arrivals.
use worker_context_protocol.Prelude.{
  ℕ, ◌<◌, String, ◌≡◌, refl, ap, inl, inr, Bool, true, false, Option, none, some, List, [], ◌∷◌,
  nat_beq, All, All-map, Bool-cases, Option-cases, arith,
}
use worker_context_protocol.Prelude.Int.{ℤ, pos, negsuc}
use worker_context_protocol.Json.{Value, str, int, bool, float, arr, obj, Fields, get, has}
use worker_context_protocol.Platform.{Platform}
use worker_context_protocol.Result.{Result, ok, err}
use worker_context_protocol.Verifier.Threshold.{int_of}
use worker_context_protocol.Sdk.Client.{
  Client, Settled, new_client, call, is_pending, forget, outcome_of, settle, answer, on_response,
  receive, Event, arrive, handle, handle_all, is_null, stopped,
}

-- No number twice.
abbrev pub IsDistinct : List ℕ → Type 0
IsDistinct [] = Unit
IsDistinct (n ∷ ns) = (is_pending n ns ≡ false) × IsDistinct ns

abbrev pub ids : List (ℕ × Settled) → List ℕ
ids [] = []
ids ((n, s) ∷ rest) = n ∷ ids rest

-- Every call is issued once, and is pending or settled, not both.
pub record IsTracked (c : Client) : Type 0 where
  pub issued : All (λ n. n < c.next_id) c.pending
  pub answered : All (λ n. n < c.next_id) (ids c.settled)
  pub pending_once : IsDistinct c.pending
  pub settled_once : IsDistinct (ids c.settled)
  pub apart : All (λ n. is_pending n c.pending ≡ false) (ids c.settled)

nat_beq_iff : (m n : ℕ) → nat_beq m n ≡ true → m ≡ n
nat_beq_iff m n h = ground (arith, h)

later-fresh : (n : ℕ) (ns : List ℕ) → All (λ m. m < n) ns → is_pending n ns ≡ false
later-fresh n [] h = refl
later-fresh n (m ∷ ms) h =
    let off : nat_beq n m ≡ false = ground (arith, h.0) in rw off (later-fresh n ms h.1)

forget-fewer : (P : ℕ → Type 0) (n : ℕ) (ns : List ℕ) → All P ns → All P (forget n ns)
unfolding forget
forget-fewer P n [] h = tt
forget-fewer P n (m ∷ ms) h = elim (Bool-cases (nat_beq n m)) [
  | inl b ↦ rw b h.1
  | inr b ↦ rw b (h.0, forget-fewer P n ms h.1)
]

forget-absent :
    (k n : ℕ) (ns : List ℕ) → is_pending k ns ≡ false → is_pending k (forget n ns) ≡ false
unfolding forget
forget-absent k n [] h = refl
forget-absent k n (m ∷ ms) h = elim (Bool-cases (nat_beq k m)) [
  | inl a ↦ absurd (cc (rw a at h))
  | inr a ↦
      let h' = rw a at h in
      elim (Bool-cases (nat_beq n m)) [
        | inl b ↦ rw b h'
        | inr b ↦ rw b (rw a (forget-absent k n ms h'))
      ]
]

forget-IsDistinct : (n : ℕ) (ns : List ℕ) → IsDistinct ns → IsDistinct (forget n ns)
unfolding forget
forget-IsDistinct n [] h = tt
forget-IsDistinct n (m ∷ ms) h = elim (Bool-cases (nat_beq n m)) [
  | inl b ↦ rw b h.1
  | inr b ↦ rw b (forget-absent m n ms h.0, forget-IsDistinct n ms h.1)
]

-- what is popped is gone
forget-gone : (n : ℕ) (ns : List ℕ) → IsDistinct ns → is_pending n (forget n ns) ≡ false
unfolding forget
forget-gone n [] h = refl
forget-gone n (m ∷ ms) h = elim (Bool-cases (nat_beq n m)) [
  | inl b ↦ let same : n ≡ m = nat_beq_iff n m b in rw b (rw same h.0)
  | inr b ↦ rw b (rw b (forget-gone n ms h.1))
]

-- a pending id is issued
pending-issued : (n k : ℕ) (ns : List ℕ) → is_pending n ns ≡ true → All (λ m. m < k) ns → n < k
pending-issued n k [] h a = absurd (cc h)
pending-issued n k (m ∷ ms) h a = elim (Bool-cases (nat_beq n m)) [
  | inl b ↦ let same : n ≡ m = nat_beq_iff n m b in rw same a.0
  | inr b ↦ let h' = rw b at h in pending-issued n k ms h' a.1
]

-- a pending id is none of the ids that are apart from the pending ones
pending-apart :
    (n : ℕ) (ns ms : List ℕ)
    → is_pending n ns ≡ true
    → All (λ m. is_pending m ns ≡ false) ms
    → is_pending n ms ≡ false
pending-apart n ns [] h a = refl
pending-apart n ns (m ∷ ms) h a = elim (Bool-cases (nat_beq n m)) [
  | inl b ↦
      let same : n ≡ m = nat_beq_iff n m b in absurd (cc (ap (λ k. is_pending k ns) same, h, a.0))
  | inr b ↦ rw b (pending-apart n ns ms h a.1)
]

-- a new id is none of the settled ones
still_apart :
    (k : ℕ) (ns ms : List ℕ)
    → All (λ m. m < k) ms
    → All (λ m. is_pending m ns ≡ false) ms
    → All (λ m. is_pending m (k ∷ ns) ≡ false) ms
still_apart k ns [] lt a = tt
still_apart k ns (m ∷ ms) lt a =
    let off : nat_beq m k ≡ false = ground (arith, lt.0) in
    (rw off a.0, still_apart k ns ms lt.1 a.1)

pub call-IsTracked :
    (m : String) (p : Option Fields) (c : Client) → IsTracked c → IsTracked (call m p c).1
unfolding call
call-IsTracked m p c h =
    let fresh = later-fresh c.next_id c.pending h.issued in
    record {
      issued = (omega arith, All-map (λ n lt. omega (arith, lt)) c.pending h.issued);
      answered = All-map (λ n lt. omega (arith, lt)) (ids c.settled) h.answered;
      pending_once = (fresh, h.pending_once);
      settled_once = h.settled_once;
      apart = still_apart c.next_id c.pending (ids c.settled) h.answered h.apart;
    }

settle-IsTracked :
    (n : ℕ) (response : Fields) (c : Client)
    → is_pending n c.pending ≡ true
    → IsTracked c
    → IsTracked (settle n response c)
unfolding settle
settle-IsTracked n response c waiting h =
    let fewer = forget-fewer (λ m. m < c.next_id) n c.pending h.issued in
    let once = forget-IsDistinct n c.pending h.pending_once in
    let apart = All-map (λ k. forget-absent k n c.pending) (ids c.settled) h.apart in
    elim (Option-cases (outcome_of response)) [
      | inl p ↦
          rw (p, settle)
            (record {
              issued = fewer;
              answered = h.answered;
              pending_once = once;
              settled_once = h.settled_once;
              apart = apart;
            })
      | inr (s, p) ↦
          rw (p, settle)
            (record {
              issued = fewer;
              answered = (pending-issued n c.next_id c.pending waiting h.issued, h.answered);
              pending_once = once;
              settled_once =
                  (pending-apart n c.pending (ids c.settled) waiting h.apart, h.settled_once);
              apart = (forget-gone n c.pending h.pending_once, apart);
            })
    ]

answer-IsTracked :
    (r : Result ℤ) (response : Fields) (c : Client) → IsTracked c → IsTracked (answer r response c)
unfolding answer
answer-IsTracked (err e) response c h = record {
  issued = h.issued;
  answered = h.answered;
  pending_once = h.pending_once;
  settled_once = h.settled_once;
  apart = h.apart;
}
answer-IsTracked (ok (negsuc n)) response c h = h
answer-IsTracked (ok (pos n)) response c h = elim (Bool-cases (is_pending n c.pending)) [
  | inl b ↦ rw b (settle-IsTracked n response c b h)
  | inr b ↦ rw b h
]

on_response-IsTracked :
    (py : Platform) (response : Fields) (c : Client)
    → IsTracked c
    → IsTracked (on_response py response c)
unfolding on_response
on_response-IsTracked py response c h = elim (Bool-cases (is_null (get "id" response))) [
  | inl b ↦ rw b h
  | inr b ↦ rw b (answer-IsTracked (int_of py (get "id" response)) response c h)
]

stopped-IsTracked : (c : Client) → IsTracked c → IsTracked (stopped c)
stopped-IsTracked c h = record {
  issued = h.issued;
  answered = h.answered;
  pending_once = h.pending_once;
  settled_once = h.settled_once;
  apart = h.apart;
}

receive-IsTracked :
    (py : Platform) (raw : Option Value) (c : Client) → IsTracked c → IsTracked (receive py raw c)
unfolding receive
receive-IsTracked py none c h = h
receive-IsTracked py (some (obj f)) c h = elim (Bool-cases (has "event_type" f)) [
  | inl b ↦ rw b h
  | inr b ↦ rw b (on_response-IsTracked py f c h)
]
receive-IsTracked py (some Value.null) c h = stopped-IsTracked c h
receive-IsTracked py (some (bool b)) c h = stopped-IsTracked c h
receive-IsTracked py (some (str s)) c h = stopped-IsTracked c h
receive-IsTracked py (some (int z)) c h = stopped-IsTracked c h
receive-IsTracked py (some (float m e)) c h = stopped-IsTracked c h
receive-IsTracked py (some (arr xs)) c h = stopped-IsTracked c h

pub arrive-IsTracked :
    (py : Platform) (reading : Bool) (raw : Option Value) (c : Client)
    → IsTracked c
    → IsTracked (arrive py reading raw c)
unfolding arrive
arrive-IsTracked py true raw c h = receive-IsTracked py raw c h
arrive-IsTracked py false raw c h = h

pub handle_all-IsTracked :
    (py : Platform) (es : List Event) (c : Client) → IsTracked c → IsTracked (handle_all py es c)
unfolding handle_all handle
handle_all-IsTracked py [] c h = h
handle_all-IsTracked py (Event.called m p ∷ es) c h =
    handle_all-IsTracked py es (call m p c).1 (call-IsTracked m p c h)
handle_all-IsTracked py (Event.arrived raw ∷ es) c h =
    handle_all-IsTracked py es (arrive py c.reading raw c) (arrive-IsTracked py c.reading raw c h)

-- Whatever a session calls and whatever texts arrive, in any order: no future is settled twice, no
-- future is both pending and settled, and only ids of calls that were made are either.
pub settled_at_most_once :
    (py : Platform) (es : List Event) → IsTracked (handle_all py es new_client)
settled_at_most_once py es =
    handle_all-IsTracked py es new_client
      (record { issued = tt; answered = tt; pending_once = tt; settled_once = tt; apart = tt })
