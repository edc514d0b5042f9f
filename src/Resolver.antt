-- ===== src/Resolver.antt =====
-- What the services need of a DID resolver (wcp_coordinator/did_resolver.py).
use worker_context_protocol.Prelude.{ℕ, String, Bool, Option, List}

pub record ResolvedDid : Type 0 where
  pub did : String
  pub public_key : List ℕ
  pub path : Option String

pub record Resolver : Type 0 where
  -- none for a DIDResolutionError
  pub resolve : String → Option ResolvedDid
  -- false for a SignatureVerificationError
  pub check_sig : ResolvedDid → String → String → Bool
