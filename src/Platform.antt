-- ===== src/Platform.antt =====
-- What the coordinator takes from outside its own source: the clock, identifiers, the standard
-- library's text functions, json, hashlib and the signature scheme.
use worker_context_protocol.Prelude.{ℕ, String, Bool, Option, List}
use worker_context_protocol.Prelude.Int.{ℤ}
use worker_context_protocol.Json.{Value}

-- A `datetime`: microseconds on the UTC line, and whether it carries a time zone.
pub record Instant : Type 0 where
  pub micros : ℕ
  pub aware : Bool

pub record Platform : Type 0 where
  -- the n-th reading of `datetime.now(timezone.utc)`, in microseconds
  pub now : ℕ → ℕ
  -- the n-th `str(uuid.uuid4())`
  pub uuid4 : ℕ → String
  -- `datetime.fromisoformat(s.replace("Z", "+00:00"))`, none for a ValueError
  pub parse_iso : String → Option Instant
  -- `isoformat` of a naive UTC datetime
  pub isoformat : ℕ → String
  -- `isoformat` of a time column as it is read back, where the driver gives it a time zone or not
  pub stored_isoformat : ℕ → String
  -- what the driver stores in a text column of a value that is no text, none if it refuses it
  pub stored_text : Value → Option String
  -- `str.strip`
  pub strip : String → String
  -- `int(s)` on a text, none for a ValueError
  pub int_of_str : String → Option ℤ
  -- an f-string with its interpolated values filled in
  pub format : String → List Value → String
  -- `json.dumps(v, sort_keys=True, separators=(",", ":")).encode("utf-8")`
  pub dumps : Value → String
  -- `hashlib.sha256(data).hexdigest()`
  pub sha256_hex : String → String
  -- the audit signer's key pair
  pub sign : String → String
  pub verify : String → String → Bool
