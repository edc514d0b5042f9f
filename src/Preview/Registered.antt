-- ===== src/Preview/Registered.antt =====
-- The registry of external trust roots under the roots that the constructors make.
use mathlib.Core.Path.{subst}
use worker_context_protocol.Prelude.{
  ℕ, String, ◌≡◌, refl, inl, inr, false, Option, none, some, List, [], ◌∷◌, ◌==◌, All, Bool-cases,
}
use worker_context_protocol.Prelude.Int.{ℤ}
use worker_context_protocol.Json.{Fields}
use worker_context_protocol.Platform.{Platform}
use worker_context_protocol.Result.{ok}
use worker_context_protocol.Preview.Roots.{
  VerificationResult, X509ChainTrustRoot, DidResolutionTrustRoot, ExternalTrustRoot, jwks,
  x509_chain, did_resolution, new_jwks_root, Registry, register_trust_root, unregister_trust_root,
  get_trust_root, verify_external_evidence,
}
use worker_context_protocol.Preview.Vouched.{accepted_evidence-IsVouched}

-- What may happen to the registry while the previews' own constructors make the roots.
pub data Change : Type 0 where
  register_jwks : (id root_identifier url algorithm freshness_field : String) → ℤ → ℤ → Change
  register_x509 : String → X509ChainTrustRoot → Change
  register_did : String → DidResolutionTrustRoot → Change
  unregister : String → Change

abbrev pub change : Change → Registry → Registry
change (register_jwks id name url algorithm freshness_field age anchor_age) registry =
    register_trust_root id (jwks (new_jwks_root name url algorithm freshness_field age anchor_age))
      registry
change (register_x509 id root) registry = register_trust_root id (x509_chain root) registry
change (register_did id root) registry = register_trust_root id (did_resolution root) registry
change (unregister id) registry = unregister_trust_root id registry

-- one after the other, from the empty registry
abbrev pub changes : List Change → Registry
changes [] = []
changes (c ∷ before) = change c (changes before)

abbrev IsBare : ExternalTrustRoot → Type 0
IsBare (jwks root) = root.cached_jwks ≡ none
IsBare _ = Unit

abbrev IsBareOption : Option ExternalTrustRoot → Type 0
IsBareOption none = Unit
IsBareOption (some root) = IsBare root

abbrev IsBarePair : String × ExternalTrustRoot → Type 0
IsBarePair pair = IsBare pair.1

register_trust_root-IsBare :
    (id : String) (root : ExternalTrustRoot) (registry : Registry)
    → IsBare root
    → All IsBarePair registry
    → All IsBarePair (register_trust_root id root registry)
unfolding register_trust_root
register_trust_root-IsBare id root [] b h = (b, tt)
register_trust_root-IsBare id root ((k, r) ∷ rest) b h = elim (Bool-cases (k == id)) [
  | inl e ↦ rw e (b, h.1)
  | inr e ↦ rw e (h.0, register_trust_root-IsBare id root rest b h.1)
]

unregister_trust_root-IsBare :
    (id : String) (registry : Registry)
    → All IsBarePair registry
    → All IsBarePair (unregister_trust_root id registry)
unfolding unregister_trust_root
unregister_trust_root-IsBare id [] h = tt
unregister_trust_root-IsBare id ((k, r) ∷ rest) h = elim (Bool-cases (k == id)) [
  | inl e ↦ rw e h.1
  | inr e ↦ rw e (h.0, unregister_trust_root-IsBare id rest h.1)
]

get_trust_root-IsBare :
    (id : String) (registry : Registry) (root : ExternalTrustRoot)
    → All IsBarePair registry
    → get_trust_root id registry ≡ some root
    → IsBare root
unfolding get_trust_root
get_trust_root-IsBare id [] root h g = absurd (cc g)
get_trust_root-IsBare id ((k, r) ∷ rest) root h g = elim (Bool-cases (k == id)) [
  | inl e ↦ let g' = rw e at g in subst IsBareOption g' h.0
  | inr e ↦ let g' = rw e at g in get_trust_root-IsBare id rest root h.1 g'
]

changes-IsBare : (cs : List Change) → All IsBarePair (changes cs)
unfolding new_jwks_root
changes-IsBare [] = tt
changes-IsBare (register_jwks id name url algorithm freshness_field age anchor_age ∷ cs) =
    register_trust_root-IsBare id _ (changes cs) refl (changes-IsBare cs)
changes-IsBare (register_x509 id root ∷ cs) =
    register_trust_root-IsBare id (x509_chain root) (changes cs) tt (changes-IsBare cs)
changes-IsBare (register_did id root ∷ cs) =
    register_trust_root-IsBare id (did_resolution root) (changes cs) tt (changes-IsBare cs)
changes-IsBare (unregister id ∷ cs) =
    unregister_trust_root-IsBare id (changes cs) (changes-IsBare cs)

-- As long as the roots come from their constructors, whatever is registered and unregistered, no
-- evidence is accepted.
pub constructed_roots_refuse :
    (py : Platform) (now : ℕ) (cs : List Change) (kind : String) (payload : Fields)
    (result : VerificationResult)
    → verify_external_evidence py now (changes cs) kind payload ≡ ok result
    → result.accepted ≡ false
constructed_roots_refuse py now cs kind payload result h = elim (Bool-cases result.accepted) [
  | inr a ↦ a
  | inl a ↦
      let (b, root, g, v) =
        accepted_evidence-IsVouched py now (changes cs) kind payload result h a in
      absurd (v.0 (get_trust_root-IsBare _ (changes cs) (jwks root) (changes-IsBare cs) g))
]
