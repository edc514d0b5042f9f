-- ===== src/Federation.antt =====
-- wcp_coordinator/federation: trust anchors between coordinators, and the operations under them.
pub mod Anchors
pub mod Segment
pub mod Operations
pub mod Effects
pub mod Genuine
pub mod Revocation
pub mod Selection
pub mod Interop
pub mod Ledger
use worker_context_protocol.Prelude.{ℕ, String, Bool, Option, List, ◌≡◌, refl, ◌⊎◌, inl, inr}
use worker_context_protocol.Prelude.Int.{ℤ}
use worker_context_protocol.Json.{Fields}
use worker_context_protocol.Models.{Db}

-- A float of unix seconds, `mantissa / 2 ^ exponent`.
pub record Seconds : Type 0 where
  pub mantissa : ℤ
  pub exponent : ℕ

-- What the modules take from outside the source.
pub record Host : Type 0 where
  -- the n-th reading of `time.time()`
  pub time : ℕ → Seconds
  -- `base64.urlsafe_b64decode(s + "=" * (-len(s) % 4))`, none for a ValueError
  pub decode_padded : String → Option (List ℕ)
  -- `base64.urlsafe_b64decode(s)`, none for a ValueError
  pub decode_base64 : String → Option (List ℕ)
  -- `base64.urlsafe_b64encode(b).rstrip(b"=").decode("ascii")`
  pub encode_base64 : List ℕ → String
  -- `Ed25519PublicKey.from_public_bytes(key).verify(sig, data)`, false for what it raises
  pub ed25519_verify : List ℕ → List ℕ → String → Bool

pub record TrustAnchor : Type 0 where
  pub peer_coordinator_did : String
  pub peer_public_key : List ℕ
  pub peer_endpoint_url : String
  -- the members of a frozenset, each once
  pub scope : List String
  pub established_at : Seconds
  pub expires_at : Seconds
  pub signature : String

-- A store, with the pairs of its dict in insertion order, and whether it was given an audit chain.
pub record TrustAnchorStore : Type 0 where
  pub by_did : List (String × TrustAnchor)
  pub audited : Bool

-- A call of a peer: its endpoint, the method and the parameters.
pub record PeerCall : Type 0 where
  pub endpoint : String
  pub method : String
  pub params : Fields

-- The store, the session of the local audit chain, how often `time.time()` has been read, and the
-- calls of peers that have been made, the last one first.
pub record Local : Type 0 where
  pub store : TrustAnchorStore
  pub db : Db
  pub readings : ℕ
  pub sent : List PeerCall

-- The exceptions. `fetch_failed` is what the fetcher raises, `off_type` an argument that the model
-- does not follow.
pub data FederationError : Type 0 where
  signature_invalid already_expired unknown_scope no_forwarder peer_revoked no_fetcher :
      FederationError
  fetch_failed missing_key off_type : FederationError

pub data Outcome {ℓ} (A : Type ℓ) : Type ℓ where
  failed : FederationError → Outcome A
  done : A → Outcome A

infixl 5 ◌>>=◌
abbrev pub ◌>>=◌ {ℓ κ} : {A : Type ℓ} {B : Type κ} → Outcome A → (A → Outcome B) → Outcome B
failed e >>= next = failed e
done a >>= next = next a

pub Outcome-cases {ℓ} :
    {A : Type ℓ} (o : Outcome A)
    → ((e : FederationError) × (o ≡ failed e)) ⊎ ((a : A) × (o ≡ done a))
Outcome-cases (failed e) = inl (e, refl)
Outcome-cases (done a) = inr (a, refl)
