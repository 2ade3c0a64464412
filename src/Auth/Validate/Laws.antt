-- ===== src/Auth/Validate/Laws.antt =====
-- web/src/lib/server-jwt.ts: exactly which tokens `validateRefreshToken` accepts.
use scylladb_grpc_microservi.Common.{
  ℕ, String, ◌≡◌, ◌↔◌, refl, ap, Option, none, some, [], ◌∷◌, arith, is_blank, str_eq, truthy, inl,
  inr, Option-cases, Bool-cases, true, false, eq_iff, eq_refl,
}
use scylladb_grpc_microservi.Auth.Jwks.{
  ed_dsa, Jwk, JwksState, Outside, JwkResolution, found, failed, resolve_refresh_token_jwk,
}
use scylladb_grpc_microservi.Auth.Validate.{
  Header, Claim, text, number, other, JwtPayload, Jose, valid, JwksEnv, jwks_url, required_claims,
  is_refresh, is_text, is_number, is_supported_algorithm, check_payload, check_signature,
  verify_with, validate_header, validate_refresh_token,
}

-- What the claims of an accepted payload are.
pub record IsRefreshPayload (p : JwtPayload) : Type 0 where
  pub refresh : p.token_type ≡ some (text "refresh")
  pub session : String
  pub has_sid : p.sid ≡ some (text session)
  pub generation : String
  pub has_gen : p.gen ≡ some (number generation)

is_refresh-eq : (c : Option Claim) → is_refresh c ≡ true → c ≡ some (text "refresh")
is_refresh-eq none h = cc
is_refresh-eq (some (text t)) h = ground (arith, eq_iff t "refresh")
is_refresh-eq (some (number n)) h = cc
is_refresh-eq (some other) h = cc

is_text-eq : (c : Option Claim) → is_text c ≡ true → (t : String) × (c ≡ some (text t))
is_text-eq none h = cc
is_text-eq (some (text t)) h = (t, refl)
is_text-eq (some (number n)) h = cc
is_text-eq (some other) h = cc

is_number-eq : (c : Option Claim) → is_number c ≡ true → (n : String) × (c ≡ some (number n))
is_number-eq none h = cc
is_number-eq (some (text t)) h = cc
is_number-eq (some (number n)) h = (n, refl)
is_number-eq (some other) h = cc

check_payload-IsRefreshPayload : (p q : JwtPayload) → check_payload p ≡ valid q → IsRefreshPayload p
unfolding check_payload
check_payload-IsRefreshPayload p q h =
    let (t, st) = is_text-eq p.sid (ground arith) in
    let (n, sn) = is_number-eq p.gen (ground arith) in
    record {
      refresh = is_refresh-eq p.token_type (ground arith);
      session = t;
      has_sid = st;
      generation = n;
      has_gen = sn;
    }

check_payload-eq : (p q : JwtPayload) → check_payload p ≡ valid q → p ≡ q
unfolding check_payload
check_payload-eq p q h = ground arith

check_payload_of_IsRefreshPayload :
    (p : JwtPayload) → IsRefreshPayload p → check_payload p ≡ valid p
unfolding check_payload
check_payload_of_IsRefreshPayload p r = rw (r.refresh, r.has_sid, r.has_gen)

truthy-eq :
    (o : Option String) (s : String) → truthy o ≡ some s → (o ≡ some s) × (is_blank s ≡ false)
truthy-eq none s h = cc
truthy-eq (some t) s h = ground arith

module _ (jose : Jose) (out : Outside) (env : JwksEnv) (now : ℕ) (s : JwksState) where
  open jose use {PublicKey, decode_protected_header, import_jwk, jwt_verify}

  -- Each step of an accepted validation. `p` is what `jwtVerify` returned.
  pub record IsAccepted (token : Option String) (p : JwtPayload) : Type 0 where
    pub jwt : String
    pub given : token ≡ some jwt
    pub not_blank : is_blank jwt ≡ false
    pub header : Header
    pub decoded : decode_protected_header jwt ≡ some header
    pub signed : header.alg ≡ some "EdDSA"
    pub kid : String
    pub named : header.kid ≡ some kid
    pub kid_not_blank : is_blank kid ≡ false
    pub key : Jwk
    pub resolved : (resolve_refresh_token_jwk out (jwks_url env) kid now s).1 ≡ found key ed_dsa
    pub public_key : PublicKey
    pub imported : import_jwk key "EdDSA" ≡ some public_key
    pub verified : jwt_verify jwt public_key ("EdDSA" ∷ []) required_claims ≡ some p
    pub claims : IsRefreshPayload p

  check_signature-valid :
      (jwt : String) (pk : Option PublicKey) (p : JwtPayload)
      → check_signature jose jwt pk "EdDSA" ≡ valid p
      → (k : PublicKey) × (pk ≡ some k)
        × (jwt_verify jwt k ("EdDSA" ∷ []) required_claims ≡ some p)
        × IsRefreshPayload p
  unfolding check_signature
  check_signature-valid jwt none p h = cc
  check_signature-valid jwt (some k) p h =
      elim (Option-cases (jwt_verify jwt k ("EdDSA" ∷ []) required_claims)) [
        | inl bad ↦ absurd (ground arith)
        | inr (q, good) ↦
            let e : check_payload q ≡ valid p = ground arith in
            let same = check_payload-eq q p e in
            (k, refl, rw good (ap some same), rw same at (check_payload-IsRefreshPayload q p e))
      ]

  verify_with-valid :
      (jwt : String) (r : JwkResolution) (p : JwtPayload)
      → verify_with jose jwt "EdDSA" r ≡ valid p
      → (key : Jwk) × (r ≡ found key ed_dsa)
        × (check_signature jose jwt (import_jwk key "EdDSA") "EdDSA" ≡ valid p)
  unfolding verify_with
  verify_with-valid jwt (failed reason) p h = cc
  verify_with-valid jwt (found key ed_dsa) p h = (key, refl, ground (arith, eq_refl "EdDSA"))

  validate_header-valid :
      (jwt : String) (d : Option Header) (p : JwtPayload)
      → (validate_header jose out env now jwt d s).1 ≡ valid p
      → (h : Header) × (d ≡ some h)
        × (h.alg ≡ some "EdDSA")
        × ((kid : String) × (truthy h.kid ≡ some kid)
            × (verify_with jose jwt "EdDSA"
                  (resolve_refresh_token_jwk out (jwks_url env) kid now s).1
                ≡ valid p))
  unfolding validate_header is_supported_algorithm
  validate_header-valid jwt none p e = cc
  validate_header-valid jwt (some h) p e = elim (Option-cases (truthy h.alg)) [
    | inl missing ↦ absurd (ground arith)
    | inr (a, has) ↦ elim (Bool-cases (str_eq a "EdDSA")) [
      | inl same ↦ elim (Option-cases (truthy h.kid)) [
        | inl missing ↦ absurd (ground arith)
        | inr (kid, named) ↦
            let e' : a ≡ "EdDSA" = (eq_iff a "EdDSA").0 same in
            (h, refl, ground (arith, truthy-eq h.alg a has), (kid, named, ground arith))
      ]
      | inr different ↦ absurd (ground arith)
    ]
  ]

  -- A token is accepted only if every step of the validation passed.
  IsAccepted-sound :
      (token : Option String) (p : JwtPayload)
      → (validate_refresh_token jose out env now token s).1 ≡ valid p
      → IsAccepted token p
  unfolding validate_refresh_token
  IsAccepted-sound token p e = elim (Option-cases (truthy token)) [
    | inl missing ↦ absurd (ground arith)
    | inr (jwt, given) ↦
        let (h, decoded, signed, (kid, named, v)) =
          validate_header-valid jwt (decode_protected_header jwt) p (ground arith) in
        let (key, resolved, sig) = verify_with-valid jwt _ p v in
        let (k, imported, verified, claims) =
          check_signature-valid jwt (import_jwk key "EdDSA") p sig in
        record {
          jwt = jwt;
          given = (truthy-eq token jwt given).0;
          not_blank = (truthy-eq token jwt given).1;
          header = h;
          decoded = decoded;
          signed = signed;
          kid = kid;
          named = (truthy-eq h.kid kid named).0;
          kid_not_blank = (truthy-eq h.kid kid named).1;
          key = key;
          resolved = resolved;
          public_key = k;
          imported = imported;
          verified = verified;
          claims = claims;
        }
  ]

  accepted_verified :
      (token : Option String) (p : JwtPayload) (a : IsAccepted token p)
      → verify_with jose a.jwt "EdDSA" (found a.key ed_dsa) ≡ valid p
  unfolding verify_with check_signature
  accepted_verified token p a =
      rw (a.imported, check_signature, a.verified) (check_payload_of_IsRefreshPayload p a.claims)

  accepted_header :
      (token : Option String) (p : JwtPayload) (a : IsAccepted token p)
      → (validate_header jose out env now a.jwt (some a.header) s).1 ≡ valid p
  unfolding validate_header is_supported_algorithm
  accepted_header token p a = ground (arith, accepted_verified token p a)

  accepted_complete :
      (token : Option String) (p : JwtPayload)
      → IsAccepted token p
      → (validate_refresh_token jose out env now token s).1 ≡ valid p
  unfolding validate_refresh_token
  accepted_complete token p a = ground (arith, accepted_header token p a)

  -- A refresh token is accepted exactly when it is present, its header names EdDSA and a key id, the
  -- key set has a key for that id, the key imports, the signature and the required claims verify
  -- under EdDSA alone, its type is "refresh", its session id is a text and its generation a number.
  pub validate_refresh_token-valid_iff :
      (token : Option String) (p : JwtPayload)
      → ((validate_refresh_token jose out env now token s).1 ≡ valid p) ↔ IsAccepted token p
  validate_refresh_token-valid_iff token p = (IsAccepted-sound token p, accepted_complete token p)
