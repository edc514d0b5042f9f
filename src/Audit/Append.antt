-- ===== src/Audit/Append.antt =====
-- `append` against `verify_chain`.
use mathlib.Core.List.{append-nil}
use mathlib.Core.Path.{subst}
use worker_context_protocol.Prelude.{
  ℕ, ◌<◌, String, ◌≡◌, ◌≢◌, refl, sym, ap, true, false, Option, none, some, List, [], ◌∷◌, ◌++◌,
  ◌==◌, eq_iff, All, Bool-cases, Option-cases, ◌∙◌, inl, inr, select, arith,
}
use worker_context_protocol.Json.{Fields}
use worker_context_protocol.Models.{WcpAudit}
use worker_context_protocol.Platform.{Platform}
use worker_context_protocol.Audit.{
  has_claim, latest_row, hash_of, latest_hash_for_claim, prev_hash_for, make_entry, same_hash,
  entry_ok, walk, verify_chain,
}
use worker_context_protocol.Audit.Order.{
  IsIncreasing, last_row, select-append, order_by_timestamp-eq_self, latest_row-eq-last_row,
  IsIncreasing-append, IsIncreasing-prefix,
}

-- A signature made with the private key verifies under the public key.
abbrev pub Signs : Platform → Type 0
Signs py = (bytes : String) → py.verify bytes (py.sign bytes) ≡ true

str_eq_self : (s : String) → (s == s) ≡ true
str_eq_self s = (eq_iff s s).1 refl

make_entry-ok :
    (py : Platform) (event actor : String) (payload : Fields) (claim task : Option String) (ts : ℕ)
    (prev : Option String) (id : String)
    → Signs py
    → entry_ok py (make_entry py event actor payload claim task ts prev id) ≡ true
unfolding entry_ok make_entry
make_entry-ok py event actor payload claim task ts prev id signs = simp (str_eq_self, signs)

same_hash_self : (h : Option String) → same_hash h h ≡ true
same_hash_self none = refl
same_hash_self (some s) = str_eq_self s

-- the hash before the end of a walk
abbrev end_hash : Option String → List WcpAudit → Option String
end_hash prev [] = prev
end_hash prev (e ∷ rest) = end_hash (some e.this_hash) rest

walk-append :
    (py : Platform) (prev : Option String) (rows : List WcpAudit) (e : WcpAudit)
    → walk py prev rows ≡ true
    → e.prev_hash ≡ end_hash prev rows
    → entry_ok py e ≡ true
    → walk py prev (rows ++ e ∷ []) ≡ true
unfolding walk
walk-append py prev [] e w p k = ground (arith, ap (λ h. same_hash h prev) p, same_hash_self prev)
walk-append py prev (x ∷ rows) e w p k = ground (arith, walk-append py (some x.this_hash) rows e)

hash_of-last_row :
    (prev : Option String) (e : WcpAudit) (rows : List WcpAudit)
    → hash_of (last_row (e ∷ rows)) ≡ end_hash prev (e ∷ rows)
hash_of-last_row prev e [] = refl
hash_of-last_row prev e (x ∷ rows) = hash_of-last_row (some e.this_hash) x rows

-- In a log whose times increase, the hash that `append` reads is the one that the walk ends with.
latest-eq-end_hash :
    (rows : List WcpAudit) → IsIncreasing rows → hash_of (latest_row rows) ≡ end_hash none rows
latest-eq-end_hash [] h = refl
latest-eq-end_hash (e ∷ rows) h =
    rw (latest_row-eq-last_row (e ∷ rows) h) (hash_of-last_row none e rows)

-- A log that `append` can go on from at the time `ts`.
pub record IsTimely (rows : List WcpAudit) (ts : ℕ) : Type 0 where
  pub increasing : IsIncreasing rows
  pub past : All (λ e. e.timestamp < ts) rows

-- The rows of the claim were written at increasing times.
abbrev pub IsOrdered : String → List WcpAudit → Type 0
IsOrdered c rows = IsIncreasing (select (has_claim c) rows)

-- The chain of a claim is the walk over its rows as they stand.
verify_chain-eq-walk :
    (py : Platform) (c : String) (rows : List WcpAudit)
    → IsOrdered c rows
    → verify_chain py c rows ≡ walk py none (select (has_claim c) rows)
unfolding verify_chain
verify_chain-eq-walk py c rows h =
    ap (walk py none) (order_by_timestamp-eq_self (select (has_claim c) rows) h)

module _ (py : Platform) (signs : Signs py) (event actor : String) (payload : Fields)
    (claim task : Option String) (ts : ℕ) (id : String) (rows : List WcpAudit) where
  abbrev entry : WcpAudit
  entry = make_entry py event actor payload claim task ts (prev_hash_for claim rows) id

  pub entry-timestamp : entry.timestamp ≡ ts
  unfolding make_entry
  entry-timestamp = refl

  entry-claim_id : entry.claim_id ≡ claim
  unfolding make_entry
  entry-claim_id = refl

  entry-prev_hash : entry.prev_hash ≡ prev_hash_for claim rows
  unfolding make_entry
  entry-prev_hash = refl

  pub entry-IsIncreasing : IsTimely rows ts → IsIncreasing (rows ++ entry ∷ [])
  entry-IsIncreasing timely =
      IsIncreasing-append rows entry timely.increasing (rw entry-timestamp timely.past)

  entry-has_claim : (c : String) → has_claim c entry ≡ true → claim ≡ some c
  unfolding make_entry
  entry-has_claim c h = elim (Option-cases claim) [
    | inl p ↦
        absurd (cc (h, ap (λ (o : Option String). elim o [ none ↦ false | some d ↦ d == c ]) p))
    | inr (d, p) ↦
        p
        ∙ ap some (
            (eq_iff d c).0
              (sym (ap (λ (o : Option String). elim o [ none ↦ false | some x ↦ x == c ]) p) ∙ h))
  ]

  prev_hash_for-eq_end :
      (c : String)
      → c ≢ ""
      → IsOrdered c rows
      → prev_hash_for (some c) rows ≡ end_hash none (select (has_claim c) rows)
  unfolding latest_hash_for_claim
  prev_hash_for-eq_end c named ordered = elim (Bool-cases (c == "")) [
    | inl b ↦ absurd (named ((eq_iff c "").0 b))
    | inr b ↦ rw b (latest-eq-end_hash (select (has_claim c) rows) ordered)
  ]

  extend_walk :
      (c : String)
      → c ≢ ""
      → IsOrdered c rows
      → walk py none (select (has_claim c) rows) ≡ true
      → walk py none (select (has_claim c) (rows ++ entry ∷ [])) ≡ true
  extend_walk c named ordered w = elim (Bool-cases (has_claim c entry)) [
    | inl b ↦
        let mine : claim ≡ some c = entry-has_claim c b in
        rw (select-append (has_claim c) rows (entry ∷ [])) (
          rw b (
            walk-append py none (select (has_claim c) rows) entry w
              (entry-prev_hash
                ∙ ap (λ k. prev_hash_for k rows) mine
                ∙ prev_hash_for-eq_end c named ordered)
              (make_entry-ok py event actor payload claim task ts (prev_hash_for claim rows) id
                signs)))
    | inr b ↦ rw (select-append (has_claim c) rows (entry ∷ [])) (rw b (rw append-nil w))
  ]

  pub entry-IsOrdered : (c : String) → IsOrdered c (rows ++ entry ∷ []) → IsOrdered c rows
  entry-IsOrdered c h =
      IsIncreasing-prefix (select (has_claim c) rows) (select (has_claim c) (entry ∷ []))
        (subst IsIncreasing (select-append (has_claim c) rows (entry ∷ [])) h)

  -- Where signatures made with the private key verify, the row that `append` makes leaves every chain
  -- that verifies verifying, of every claim whose identifier is not empty and whose rows, with the
  -- new one, have increasing times.
  pub entry_verifies :
      (c : String)
      → c ≢ ""
      → IsOrdered c (rows ++ entry ∷ [])
      → verify_chain py c rows ≡ true
      → verify_chain py c (rows ++ entry ∷ []) ≡ true
  entry_verifies c named ordered h =
      let before = entry-IsOrdered c ordered in
      rw (verify_chain-eq-walk py c (rows ++ entry ∷ []) ordered)
        (extend_walk c named before (rw (verify_chain-eq-walk py c rows before) at h))
