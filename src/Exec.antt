-- ===== src/Exec.antt =====
-- The methods of the services: they read and write the session's rows and may raise. What was
-- written before a raise stays in the session, so the rows come back beside the error too.
use worker_context_protocol.Prelude.{ℕ, ◌+◌, String, Bool}
use worker_context_protocol.Models.{Db}
use worker_context_protocol.Platform.{Platform}
use worker_context_protocol.Result
use worker_context_protocol.Result.{Error, Result, ok, err}

abbrev pub Exec : Type 0 → Type 0
Exec A = Db → Result A × Db

module _ {A B : Type 0} where
  abbrev pub resume : (A → Exec B) → Result A → Exec B
  resume f (ok a) db = f a db
  resume f (err e) db = (err e, db)

  infixl 5 ◌>>=◌ ◌>>◌
  abbrev pub ◌>>=◌ : Exec A → (A → Exec B) → Exec B
  ◌>>=◌ m f db = let (r, db') = m db in resume f r db'

  abbrev pub ◌>>◌ : Exec A → Exec B → Exec B
  ◌>>◌ m n = m >>= λ _. n

module _ {A : Type 0} where
  abbrev pub pure : A → Exec A
  pure a db = (ok a, db)

  abbrev pub raise : Error → Exec A
  raise e db = (err e, db)

  abbrev pub lift : Result A → Exec A
  lift r db = (r, db)

  abbrev pub gets : (Db → A) → Exec A
  gets f db = (ok (f db), db)

abbrev pub modify : (Db → Db) → Exec (Unit {0})
modify f db = (ok tt, f db)

-- `if test: raise e`
abbrev pub raise_if : Bool → Error → Exec (Unit {0})
raise_if test e db = (Result.raise_if test e, db)

-- `datetime.now(timezone.utc)`
abbrev pub utcnow : Platform → Exec ℕ
utcnow py db = (ok (py.now db.ticks), record db { ticks = db.ticks + 1 })

-- `str(uuid.uuid4())`
abbrev pub uuid : Platform → Exec String
uuid py db = (ok (py.uuid4 db.uuids), record db { uuids = db.uuids + 1 })
