-- ===== src/Audit/Order.antt =====
-- The rows of a claim in a log whose times increase: sorting is the identity, and the first row of
-- the descending order is the last one written.
use worker_context_protocol.Prelude.{
  ◌<◌, ◌≡◌, refl, ap, Bool, Option, none, some, List, [], ◌∷◌, ◌++◌, All, Bool-cases, inl, inr,
  select, arith,
}
use worker_context_protocol.Models.{WcpAudit}
use worker_context_protocol.Audit.{latest_row, insert_by_time, order_by_timestamp}

-- Each row is later than the rows before it.
abbrev pub IsIncreasing : List WcpAudit → Type 0
IsIncreasing [] = Unit
IsIncreasing (e ∷ rest) = All (λ x. e.timestamp < x.timestamp) rest × IsIncreasing rest

abbrev pub last_row : List WcpAudit → Option WcpAudit
last_row [] = none
last_row (e ∷ []) = some e
last_row (e ∷ x ∷ rest) = last_row (x ∷ rest)

module _ (P : WcpAudit → Type 0) (p : WcpAudit → Bool) where
  pub All-select : (rows : List WcpAudit) → All P rows → All P (select p rows)
  All-select [] h = tt
  All-select (e ∷ rows) h = elim (Bool-cases (p e)) [
    | inl b ↦ rw (b, select) (h.0, All-select rows h.1)
    | inr b ↦ rw (b, select) (All-select rows h.1)
  ]

module _ (p : WcpAudit → Bool) where
  pub select-append : (xs ys : List WcpAudit) → select p (xs ++ ys) ≡ select p xs ++ select p ys
  select-append [] ys = refl
  select-append (x ∷ xs) ys = elim (Bool-cases (p x)) [
    | inl b ↦ rw (b, select) (ap (λ zs. x ∷ zs) (select-append xs ys))
    | inr b ↦ rw (b, select) (select-append xs ys)
  ]

  pub select-IsIncreasing :
      (rows : List WcpAudit) → IsIncreasing rows → IsIncreasing (select p rows)
  select-IsIncreasing [] h = tt
  select-IsIncreasing (e ∷ rows) h = elim (Bool-cases (p e)) [
    | inl b ↦
        rw (b, select)
          (All-select (λ x. e.timestamp < x.timestamp) p rows h.0, select-IsIncreasing rows h.1)
    | inr b ↦ rw (b, select) (select-IsIncreasing rows h.1)
  ]

insert_by_time-first :
    (e : WcpAudit) (rows : List WcpAudit)
    → All (λ x. e.timestamp < x.timestamp) rows
    → insert_by_time e rows ≡ e ∷ rows
insert_by_time-first e [] h = refl
insert_by_time-first e (x ∷ rows) h = ground arith

pub order_by_timestamp-eq_self :
    (rows : List WcpAudit) → IsIncreasing rows → order_by_timestamp rows ≡ rows
unfolding order_by_timestamp
order_by_timestamp-eq_self [] h = refl
order_by_timestamp-eq_self (e ∷ rows) h =
    rw (order_by_timestamp-eq_self rows h.1) (insert_by_time-first e rows h.0)

All-last_row :
    (P : WcpAudit → Type 0) (x : WcpAudit) (rows : List WcpAudit)
    → All P (x ∷ rows)
    → (l : WcpAudit) × (last_row (x ∷ rows) ≡ some l) × P l
All-last_row P x [] h = (x, refl, h.0)
All-last_row P x (y ∷ rows) h = All-last_row P y rows h.1

pub latest_row-eq-last_row :
    (rows : List WcpAudit) → IsIncreasing rows → latest_row rows ≡ last_row rows
latest_row-eq-last_row [] h = refl
latest_row-eq-last_row (e ∷ []) h = refl
latest_row-eq-last_row (e ∷ x ∷ rows) h =
    let (l, same, later) = All-last_row (λ y. e.timestamp < y.timestamp) x rows h.0 in
    let ih = latest_row-eq-last_row (x ∷ rows) h.1 in ground (arith, ih, same)

pub IsIncreasing-append :
    (rows : List WcpAudit) (e : WcpAudit)
    → IsIncreasing rows
    → All (λ x. x.timestamp < e.timestamp) rows
    → IsIncreasing (rows ++ e ∷ [])
IsIncreasing-append [] e h b = (tt, tt)
IsIncreasing-append (x ∷ rows) e h b =
    (All-before x rows h.0 b.0, IsIncreasing-append rows e h.1 b.1)
  where
    All-before :
        (y : WcpAudit) (rs : List WcpAudit)
        → All (λ z. y.timestamp < z.timestamp) rs
        → y.timestamp < e.timestamp
        → All (λ z. y.timestamp < z.timestamp) (rs ++ e ∷ [])
    All-before y [] hs lt = (lt, tt)
    All-before y (z ∷ rs) hs lt = (hs.0, All-before y rs hs.1 lt)

All-prefix : (P : WcpAudit → Type 0) (xs ys : List WcpAudit) → All P (xs ++ ys) → All P xs
All-prefix P [] ys h = tt
All-prefix P (x ∷ xs) ys h = (h.0, All-prefix P xs ys h.1)

pub IsIncreasing-prefix : (xs ys : List WcpAudit) → IsIncreasing (xs ++ ys) → IsIncreasing xs
IsIncreasing-prefix [] ys h = tt
IsIncreasing-prefix (x ∷ xs) ys h =
    (All-prefix (λ y. x.timestamp < y.timestamp) xs ys h.0, IsIncreasing-prefix xs ys h.1)
