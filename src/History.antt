-- ===== src/History.antt =====
-- Soundness of the audit log as an invariant of wcp_coordinator/audit_chain.py over whole runs.
pub mod Steps
pub mod Attempts
pub mod Registrations
pub mod Chains
use mathlib.Core.Path.{subst}
use worker_context_protocol.Prelude.{
  ℕ, zero, suc, ◌+◌, ◌<◌, ◌≤◌, String, ◌≡◌, ◌≢◌, refl, true, Option, List, [], ◌∷◌, ◌++◌, All,
  arith,
}
use worker_context_protocol.Json.{Fields}
use worker_context_protocol.Models.{Db, WcpAudit}
use worker_context_protocol.Platform.{Platform}
use worker_context_protocol.Result.{ok}
use worker_context_protocol.Audit.{append, verify_chain, make_entry, prev_hash_for}
use worker_context_protocol.Audit.Append.{
  Signs, IsTimely, IsOrdered, entry-IsIncreasing, entry-IsOrdered, entry_verifies, entry-timestamp,
}

-- Each reading of the clock is later than the readings before it.
abbrev pub Ticks : Platform → Type 0
Ticks py = (n : ℕ) → py.now n < py.now (n + 1)

-- The chain of every claim whose rows have increasing times verifies. Where each reading of the
-- clock is later than the one before, all rows have increasing times before the next reading.
pub record IsSound (py : Platform) (rows : List WcpAudit) (ticks : ℕ) : Type 0 where
  pub timely : Ticks py → IsTimely rows (py.now ticks)
  pub intact : (c : String) → c ≢ "" → IsOrdered c rows → verify_chain py c rows ≡ true

-- The log of the session is sound.
abbrev pub Sound : Platform → Db → Type 0
Sound py db = IsSound py db.audit db.ticks

now_mono : (py : Platform) → Ticks py → (m k : ℕ) → py.now m ≤ py.now (m + k)
now_mono py clock m zero = ground arith
now_mono py clock m (suc k) =
    let one_more : m + k + 1 ≡ m + suc k = omega arith in
    subst (λ j. py.now m ≤ py.now j) one_more (omega (arith, now_mono py clock m k, clock (m + k)))

All-before :
    (s t : ℕ)
    → s ≤ t
    → (rows : List WcpAudit) → All (λ e. e.timestamp < s) rows
    → All (λ e. e.timestamp < t) rows
All-before s t le [] h = tt
All-before s t le (e ∷ rows) h = (omega (arith, h.0), All-before s t le rows h.1)

All-snoc :
    (s : ℕ) (rows : List WcpAudit) (e : WcpAudit)
    → All (λ x. x.timestamp < s) rows
    → e.timestamp < s
    → All (λ x. x.timestamp < s) (rows ++ e ∷ [])
All-snoc s [] e h lt = (lt, tt)
All-snoc s (x ∷ rows) e h lt = (h.0, All-snoc s rows e h.1 lt)

module _ (py : Platform) (signs : Signs py) where
  pub later-IsSound : (rows : List WcpAudit) (m k : ℕ) → IsSound py rows m → IsSound py rows (m + k)
  later-IsSound rows m k h = record {
    timely = λ clock. record {
      increasing = (h.timely clock).increasing;
      past =
          All-before (py.now m) (py.now (m + k)) (now_mono py clock m k) rows (h.timely clock).past;
    };
    intact = h.intact;
  }

  pub append-IsSound :
      (event actor : String) (payload : Fields) (c t : Option String) (db : Db)
      → IsSound py db.audit db.ticks
      → IsSound py
          (append py event actor payload c t db).1.audit
          (append py event actor payload c t db).1.ticks
  unfolding append
  append-IsSound event actor payload c t db h =
      let ts = py.now db.ticks in
      record {
        timely = λ clock. record {
          increasing =
              entry-IsIncreasing py signs event actor payload c t ts (py.uuid4 db.uuids) db.audit
                (h.timely clock);
          past =
              All-snoc (py.now (db.ticks + 1)) db.audit _
                (All-before ts (py.now (db.ticks + 1)) (omega (arith, clock db.ticks)) db.audit
                  (h.timely clock).past)
                (rw
                  (entry-timestamp py signs event actor payload c t ts (py.uuid4 db.uuids) db.audit)
                  (clock db.ticks));
        };
        intact = λ k named ordered.
            entry_verifies py signs event actor payload c t ts (py.uuid4 db.uuids) db.audit k named
              ordered
              (h.intact k named (
                entry-IsOrdered py signs event actor payload c t ts (py.uuid4 db.uuids) db.audit k
                  ordered));
      }
