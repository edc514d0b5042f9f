-- ===== src/Sdk/Client/Lasting.antt =====
-- What a call's future is settled with lasts.
use worker_context_protocol.Prelude.{
  ℕ, String, ◌≡◌, refl, sym, ap, ◌∙◌, inl, inr, Bool, true, false, Option, none, some, List, [],
  ◌∷◌, nat_beq, if◌then◌else◌, All, Bool-cases, Option-cases, arith,
}
use worker_context_protocol.Prelude.Int.{ℤ, pos, negsuc}
use worker_context_protocol.Json.{Value, str, int, bool, float, arr, obj, Fields, get, has}
use worker_context_protocol.Platform.{Platform}
use worker_context_protocol.Result.{Result, ok, err}
use worker_context_protocol.Verifier.Threshold.{int_of}
use worker_context_protocol.Sdk.Client.{
  Client, Settled, new_client, call, is_pending, outcome_of, settle, answer, on_response, receive,
  Event, arrive, handle, handle_all, is_null,
}
use worker_context_protocol.Sdk.Client.Settling.{
  IsTracked, ids, settled_at_most_once, handle_all-IsTracked, arrive-IsTracked, call-IsTracked,
}

-- what the future of the call is settled with
abbrev pub find_settled : ℕ → List (ℕ × Settled) → Option Settled
find_settled n [] = none
find_settled n ((m, s) ∷ rest) =
    let older = find_settled n rest in if nat_beq n m then some s else older

-- a settled future is not among those that are apart from it
settled-not_pending :
    (n : ℕ) (o : Settled) (ns : List ℕ) (settled : List (ℕ × Settled))
    → All (λ m. is_pending m ns ≡ false) (ids settled)
    → find_settled n settled ≡ some o
    → is_pending n ns ≡ false
settled-not_pending n o ns [] apart h = absurd (cc h)
settled-not_pending n o ns ((m, s) ∷ rest) apart h = elim (Bool-cases (nat_beq n m)) [
  | inl b ↦ let same : n ≡ m = ground (arith, b) in ap (λ k. is_pending k ns) same ∙ apart.0
  | inr b ↦ let h' = rw b at h in settled-not_pending n o ns rest apart.1 h'
]

module _ (py : Platform) (n : ℕ) (o : Settled) where
  abbrev IsSettled : Client → Type 0
  IsSettled c = find_settled n c.settled ≡ some o

  settle-IsSettled :
      (m : ℕ) (response : Fields) (c : Client)
      → IsTracked c
      → is_pending m c.pending ≡ true
      → IsSettled c
      → IsSettled (settle m response c)
  unfolding settle
  settle-IsSettled m response c t waiting h = elim (Option-cases (outcome_of response)) [
    | inl p ↦ rw (p, settle) h
    | inr (s, p) ↦ elim (Bool-cases (nat_beq n m)) [
      | inl b ↦
          let same : n ≡ m = ground (arith, b) in
          let gone = settled-not_pending n o c.pending c.settled t.apart h in
          absurd (cc (sym gone ∙ ap (λ k. is_pending k c.pending) same ∙ waiting))
      | inr b ↦ rw (p, settle) (rw b h)
    ]
  ]

  answer-IsSettled :
      (id : Result ℤ) (response : Fields) (c : Client)
      → IsTracked c
      → IsSettled c
      → IsSettled (answer id response c)
  unfolding answer
  answer-IsSettled (err e) response c t h = h
  answer-IsSettled (ok (negsuc m)) response c t h = h
  answer-IsSettled (ok (pos m)) response c t h = elim (Bool-cases (is_pending m c.pending)) [
    | inl b ↦ rw b (settle-IsSettled m response c t b h)
    | inr b ↦ rw b h
  ]

  receive-IsSettled :
      (raw : Option Value) (c : Client) → IsTracked c → IsSettled c → IsSettled (receive py raw c)
  unfolding receive on_response
  receive-IsSettled none c t h = h
  receive-IsSettled (some (obj f)) c t h = elim (Bool-cases (has "event_type" f)) [
    | inl b ↦ rw b h
    | inr b ↦ rw b (elim (Bool-cases (is_null (get "id" f))) [
      | inl z ↦ rw z h
      | inr z ↦ rw z (answer-IsSettled (int_of py (get "id" f)) f c t h)
    ])
  ]
  receive-IsSettled (some Value.null) c t h = h
  receive-IsSettled (some (bool b)) c t h = h
  receive-IsSettled (some (str s)) c t h = h
  receive-IsSettled (some (int z)) c t h = h
  receive-IsSettled (some (float m e)) c t h = h
  receive-IsSettled (some (arr xs)) c t h = h

  arrive-IsSettled :
      (reading : Bool) (raw : Option Value) (c : Client)
      → IsTracked c
      → IsSettled c
      → IsSettled (arrive py reading raw c)
  unfolding arrive
  arrive-IsSettled true raw c t h = receive-IsSettled raw c t h
  arrive-IsSettled false raw c t h = h

  call-IsSettled :
      (m : String) (p : Option Fields) (c : Client) → IsSettled c → IsSettled (call m p c).1
  unfolding call
  call-IsSettled m p c h = h

  handle_all-IsSettled :
      (es : List Event) (c : Client) → IsTracked c → IsSettled c → IsSettled (handle_all py es c)
  unfolding handle_all handle
  handle_all-IsSettled [] c t h = h
  handle_all-IsSettled (Event.called m p ∷ es) c t h =
      handle_all-IsSettled es (call m p c).1 (call-IsTracked m p c t) (call-IsSettled m p c h)
  handle_all-IsSettled (Event.arrived raw ∷ es) c t h =
      handle_all-IsSettled es (arrive py c.reading raw c) (arrive-IsTracked py c.reading raw c t)
        (arrive-IsSettled c.reading raw c t h)

  receive-settles :
      (c : Client) (response : Fields)
      → is_pending n c.pending ≡ true
      → get "id" response ≡ int (pos n)
      → has "event_type" response ≡ false
      → outcome_of response ≡ some o
      → IsSettled (receive py (some (obj response)) c)
  unfolding receive on_response answer settle int_of
  receive-settles c response waiting named plain given =
      let itself : nat_beq n n ≡ true = ground arith in
      rw plain (rw named (rw waiting (rw (given, settle) (rw itself refl))))

-- While the reader runs, a dict that is no event of a stream, has the id of a pending call and
-- carries a result or an error dict settles the call's future with what it carries; whatever is
-- called and whatever arrives after that, the future stays settled with it and is not pending.
pub response_settles :
    (py : Platform) (es later : List Event) (n : ℕ) (response : Fields) (o : Settled)
    → is_pending n (handle_all py es new_client).pending ≡ true
    → (handle_all py es new_client).reading ≡ true
    → get "id" response ≡ int (pos n)
    → has "event_type" response ≡ false
    → outcome_of response ≡ some o
    → let after =
        handle_all py later
          (handle py (Event.arrived (some (obj response))) (handle_all py es new_client)) in
      (find_settled n after.settled ≡ some o) × (is_pending n after.pending ≡ false)
unfolding handle arrive
response_settles py es later n response o waiting running named plain given =
    let before = handle_all py es new_client in
    let now = handle py (Event.arrived (some (obj response))) before in
    let read : now ≡ receive py (some (obj response)) before =
      ap (λ b. arrive py b (some (obj response)) before) running in
    let tracked : IsTracked now =
      arrive-IsTracked py before.reading (some (obj response)) before
        (settled_at_most_once py es) in
    let settled_now : find_settled n now.settled ≡ some o =
      ap (λ c. find_settled n c.settled) read
      ∙ receive-settles py n o before response waiting named plain given in
    let lasts = handle_all-IsSettled py n o later now tracked settled_now in
    (
      lasts,
      settled-not_pending n o (handle_all py later now).pending (handle_all py later now).settled
          (handle_all-IsTracked py later now tracked).apart lasts,
    )
