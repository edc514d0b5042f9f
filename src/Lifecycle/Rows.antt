-- ===== src/Lifecycle/Rows.antt =====
-- Lookups after a write, for the table of tasks, and composing evolutions of it.
use worker_context_protocol.Prelude.{
  String, ◌≡◌, refl, Option, none, some, List, [], ◌∷◌, ◌++◌, ◌==◌, eq_iff, arith, All, ◌⊎◌, inl,
  inr, Bool-cases, if◌then◌else◌,
}
use mathlib.Core.Path.{subst}
use worker_context_protocol.Models.{WcpTask}
use worker_context_protocol.Platform.{Platform}
use worker_context_protocol.Tables.{find_task, save_task}
use worker_context_protocol.Lifecycle.{Evolves, still, adds, moves, Move}

pub Evolves-trans :
    {py : Platform} {ts us vs : List WcpTask}
    → Evolves py ts us
    → Evolves py us vs
    → Evolves py ts vs
Evolves-trans e still = e
Evolves-trans e (adds t f free s n) = adds t (Evolves-trans e f) free s n
Evolves-trans e (moves t t' f found m s) = moves t t' (Evolves-trans e f) found m s

abbrev replaced : WcpTask → Option WcpTask → Option WcpTask
replaced u none = none
replaced u (some t) = some u

pub find_task-save_task :
    (k : String) (u : WcpTask) (ts : List WcpTask)
    → find_task k (save_task u ts)
      ≡ (if u.task_id == k then replaced u (find_task k ts) else find_task k ts)
unfolding find_task save_task
find_task-save_task k u [] = ground arith
find_task-save_task k u (x ∷ ts) = ground (
  arith,
  find_task-save_task k u ts,
  eq_iff x.task_id k,
  eq_iff u.task_id k,
  eq_iff x.task_id u.task_id,
)

-- Writing a row back as it was changes nothing.
pub save_task_same :
    (t : WcpTask) (ts : List WcpTask) → find_task t.task_id ts ≡ some t → save_task t ts ≡ ts
unfolding find_task save_task
save_task_same t [] h = cc
save_task_same t (x ∷ ts) h = ground (arith, save_task_same t ts)

-- A row that is added at the end hides none before it.
pub find_task-append :
    (k : String) (t : WcpTask) (ts us : List WcpTask)
    → find_task k ts ≡ some t
    → find_task k (ts ++ us) ≡ some t
unfolding find_task
find_task-append k t [] us h = cc
find_task-append k t (x ∷ ts) us h = ground (arith, find_task-append k t ts us)

pub Move-task_id : (py : Platform) (t t' : WcpTask) → Move py t t' → t'.task_id ≡ t.task_id
Move-task_id py t t' (Move.take _) = refl
Move-task_id py t t' (Move.start _) = refl
Move-task_id py t t' (Move.hand_over _) = refl
Move-task_id py t t' (Move.accept _) = refl
Move-task_id py t t' (Move.recheck _ _ _ _) = refl
Move-task_id py t t' (Move.exhaust _ _ _ _) = refl
Move-task_id py t t' (Move.hold _) = refl
Move-task_id py t t' (Move.withdraw _) = refl

find_task-cons :
    (k : String) (t x : WcpTask) (ts : List WcpTask)
    → find_task k (x ∷ ts) ≡ some t
    → (x ≡ t) ⊎ (find_task k ts ≡ some t)
unfolding find_task
find_task-cons k t x ts h = ground arith

module _ (P : WcpTask → Type 0) where
  pub All-save_task : (u : WcpTask) (ts : List WcpTask) → P u → All P ts → All P (save_task u ts)
  unfolding save_task
  All-save_task u [] p h = tt
  All-save_task u (x ∷ ts) p h = elim (Bool-cases (x.task_id == u.task_id)) [
    | inl b ↦ rw (b, save_task) (p, h.1)
    | inr b ↦ rw (b, save_task) (h.0, All-save_task u ts p h.1)
  ]

  pub All-add : (u : WcpTask) (ts : List WcpTask) → P u → All P ts → All P (ts ++ u ∷ [])
  All-add u [] p h = (p, tt)
  All-add u (x ∷ ts) p h = (h.0, All-add u ts p h.1)

  pub All-find_task :
      (k : String) (t : WcpTask) (ts : List WcpTask) → find_task k ts ≡ some t → All P ts → P t
  unfolding find_task
  All-find_task k t [] e h = absurd (cc)
  All-find_task k t (x ∷ ts) e h = elim (find_task-cons k t x ts e) [
    | inl same ↦ subst P same h.0
    | inr later ↦ All-find_task k t ts later h.1
  ]
