-- ===== src/Auth/Validate.antt =====
-- web/src/lib/server-jwt.ts: `validateRefreshToken`. The functions of the `jose` package are
-- parameters: `none` stands for an exception.
pub mod Laws
use scylladb_grpc_microservi.Common.{
  ℕ, String, Option, none, some, List, [], ◌∷◌, Bool, true, false, ◌||◌, truthy, is_blank, str_eq,
  not, if◌then◌else◌,
}
use scylladb_grpc_microservi.Auth.Jwks.{
  SupportedJwsAlgorithm, ed_dsa, Jwk, JwksState, Outside, JwkFailure, JwkResolution, found, failed,
  resolve_refresh_token_jwk,
}

-- The two fields of the protected header that the code reads.
pub record Header : Type 0 where
  pub alg : Option String
  pub kid : Option String

-- A claim, by the tests that the code makes of it; `other` is any further JSON value. A
-- number is its JSON text.
pub data Claim : Type 0 where
  text : String → Claim
  number : (digits : String) → Claim
  other : Claim

pub record JwtPayload : Type 0 where
  pub token_type : Option Claim
  pub sid : Option Claim
  pub gen : Option Claim

pub record Jose : Type 1 where
  pub PublicKey : Type 0
  pub decode_protected_header : String → Option Header
  pub import_jwk : Jwk → String → Option PublicKey
  -- The token, the key, the accepted algorithms and the required claims.
  pub jwt_verify : String → PublicKey → List String → List String → Option JwtPayload

pub data Reason : Type 0 where
  missing_token : Reason
  invalid_token : Reason
  invalid_token_type : Reason
  invalid_algorithm : Reason
  jwks_fetch_failed : Reason

pub data Validation : Type 0 where
  valid : JwtPayload → Validation
  invalid : Reason → Validation

abbrev pub required_claims : List String
required_claims = "exp" ∷ "iat" ∷ "sub" ∷ "token_type" ∷ "sid" ∷ "gen" ∷ []

-- `process.env.X`; the empty text is false for `||`.
pub record JwksEnv : Type 0 where
  pub auth_service_jwks_url : Option String
  pub public_auth_jwks_url : Option String

abbrev pub or_text : Option String → String → String
or_text none d = d
or_text (some s) d = if is_blank s then d else s

abbrev pub jwks_url : JwksEnv → String
jwks_url env =
    or_text env.auth_service_jwks_url
      (or_text env.public_auth_jwks_url "http://localhost:50051/.well-known/jwks.json")

abbrev pub alg_name : SupportedJwsAlgorithm → String
alg_name ed_dsa = "EdDSA"

pub is_supported_algorithm : String → Bool
is_supported_algorithm algorithm = str_eq algorithm "EdDSA"

abbrev pub is_refresh : Option Claim → Bool
is_refresh (some (text t)) = str_eq t "refresh"
is_refresh _ = false

abbrev pub is_text : Option Claim → Bool
is_text (some (text t)) = true
is_text _ = false

abbrev pub is_number : Option Claim → Bool
is_number (some (number n)) = true
is_number _ = false

abbrev pub to_reason : JwkFailure → Reason
to_reason JwkFailure.invalid_token = invalid_token
to_reason JwkFailure.jwks_fetch_failed = jwks_fetch_failed

-- The tests of the verified payload.
pub check_payload : JwtPayload → Validation
check_payload payload =
    if not (is_refresh payload.token_type)
    then invalid invalid_token_type
    else if not (is_text payload.sid) || not (is_number payload.gen)
    then invalid invalid_token
    else valid payload

module _ (jose : Jose) where
  open jose use {PublicKey, decode_protected_header, import_jwk, jwt_verify}

  pub check_signature : String → Option PublicKey → String → Validation
  unfolding check_payload
  check_signature token none algorithm = invalid invalid_token
  check_signature token (some key) algorithm =
      elim (jwt_verify token key (algorithm ∷ []) required_claims) [
        | none ↦ invalid invalid_token
        | some payload ↦ check_payload payload
      ]

  -- The inner `try`, with the key that was found.
  pub verify_with : String → String → JwkResolution → Validation
  unfolding check_signature
  verify_with token algorithm (failed reason) = invalid (to_reason reason)
  verify_with token algorithm (found key alg) =
      if not (str_eq (alg_name alg) algorithm)
      then invalid invalid_token
      else check_signature token (import_jwk key algorithm) algorithm

  pub validate_header :
      Outside → JwksEnv → ℕ → String → Option Header → JwksState → JwksState × Validation
  unfolding verify_with is_supported_algorithm
  validate_header out env now token none s = (s, invalid invalid_token)
  validate_header out env now token (some header) s = elim (truthy header.alg) [
    | none ↦ (s, invalid invalid_token)
    | some algorithm ↦
        if not (is_supported_algorithm algorithm)
        then (s, invalid invalid_algorithm)
        else elim (truthy header.kid) [
          | none ↦ (s, invalid invalid_token)
          | some kid ↦
              let (s', key) = resolve_refresh_token_jwk out (jwks_url env) kid now s in
              (s', verify_with token algorithm key)
        ]
  ]

  unfoldable pub validate_refresh_token :
      Outside → JwksEnv → ℕ → Option String → JwksState → JwksState × Validation
  unfolding validate_header
  validate_refresh_token out env now token s = elim (truthy token) [
    | none ↦ (s, invalid missing_token)
    | some t ↦ validate_header out env now t (decode_protected_header t) s
  ]
