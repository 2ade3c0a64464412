-- ===== src/Auth/Tests.antt =====
-- The session code on concrete inputs, and the theorems applied to them.
use scylladb_grpc_microservi.Common.{
  String, ◌≡◌, ◌≢◌, ◌↔◌, refl, none, some, [], ◌∷◌, arith, str_eq, if◌then◌else◌, empty, write,
}
use scylladb_grpc_microservi.Auth.Jwks.{
  ed_dsa, Jwk, CachedJwkEntry, JwksState, JwksResponse, network_error, keys, refreshed, Outside,
  JwkFailure, found, failed, normalize_jwk_algorithm, keep_recent, prune_expired_jwks_entries,
  refresh_jwks_cache, pick_entry, resolve_refresh_token_jwk, store_keys, store_key,
}
use scylladb_grpc_microservi.Auth.Jwks.Laws.{
  IsGenuine, published, overlay, refresh_jwks_cache-published,
}
use scylladb_grpc_microservi.Auth.Jwks.Resolve.{resolve-found, resolve_cached-ne-failed}
use scylladb_grpc_microservi.Auth.Validate.{
  text, number, JwtPayload, Jose, JwksEnv, valid, validate_refresh_token,
}
use scylladb_grpc_microservi.Auth.Validate.Laws.{IsAccepted, validate_refresh_token-valid_iff}

unfoldable pub program : Unit {0}
unfolding refresh_jwks_cache pick_entry resolve_refresh_token_jwk validate_refresh_token
    normalize_jwk_algorithm prune_expired_jwks_entries store_keys store_key
program = tt

abbrev pub key_a : Jwk
key_a = record { kid = some "k1"; alg = some "EdDSA"; kty = none; crv = none; material = "x" }

abbrev pub entry_a : CachedJwkEntry
entry_a = record { key = key_a; alg = ed_dsa; observed_at = 1000 }

abbrev pub cached_state : JwksState
cached_state = record { cache = write "k1" entry_a empty; last_fetch_at = 1000 }

abbrev new_state : JwksState
new_state = record { cache = empty; last_fetch_at = 0 }

-- Nobody else runs at the pauses.
abbrev pub alone : JwksResponse → Outside
alone r = record { fetch = λ url. r; meanwhile = λ s. s; resumed = λ s. s }

abbrev pub key_set : JwksResponse
key_set = keys (none ∷ some key_a ∷ [])

new_state-IsGenuine : IsGenuine (λ key. key ≡ key_a) new_state.cache
new_state-IsGenuine kid e h = cc

refresh_jwks_cache-published_example :
    ((refresh_jwks_cache key_set 5000 cached_state).1 ≡ refreshed)
    × ((refresh_jwks_cache key_set 5000 cached_state).0.last_fetch_at ≡ 5000)
    × ((refresh_jwks_cache key_set 5000 cached_state).0.cache "k1"
        ≡ overlay 5000
            (published "k1" (none ∷ some key_a ∷ []))
            (keep_recent 5000 (cached_state.cache "k1")))
refresh_jwks_cache-published_example =
    refresh_jwks_cache-published (none ∷ some key_a ∷ []) 5000 cached_state "k1"

fetched_key :
    (resolve_refresh_token_jwk (alone key_set) "u" "k1" 4000000 new_state).1 ≡ found key_a ed_dsa
unfolding program
fetched_key = refl

resolve-found_example :
    (key_a ≡ key_a) × (key_a.kid ≡ some "k1") × (normalize_jwk_algorithm key_a ≡ some ed_dsa)
resolve-found_example =
    resolve-found (λ key. key ≡ key_a) (alone key_set) "u" "k1" 4000000 new_state key_a ed_dsa
      (refl, tt) (λ s g. g) (λ s g. g) new_state-IsGenuine fetched_key

resolve_cached-ne-failed_example :
    (resolve_refresh_token_jwk (alone network_error) "u" "k1" 4000000 cached_state).1
    ≢ failed JwkFailure.jwks_fetch_failed
resolve_cached-ne-failed_example =
    resolve_cached-ne-failed (alone network_error) "u" "k1" 4000000 cached_state entry_a
      JwkFailure.jwks_fetch_failed refl (omega arith)

-- A signature scheme in which the one good token verifies under the key "x".
abbrev pub claims : JwtPayload
claims = record {
  token_type = some (text "refresh");
  sid = some (text "s1");
  gen = some (number "3");
}

abbrev pub jose : Jose
jose = record {
  PublicKey = String;
  decode_protected_header = λ t. some (record { alg = some "EdDSA"; kid = some "k1" });
  import_jwk = λ k alg. some k.material;
  jwt_verify = λ t k algs required.
      if str_eq t "good" then (if str_eq k "x" then some claims else none) else none;
}

abbrev pub env : JwksEnv
env = record { auth_service_jwks_url = none; public_auth_jwks_url = some "" }

pub good_token :
    (validate_refresh_token jose (alone network_error) env 5000 (some "good") cached_state).1
    ≡ valid claims
unfolding program
good_token = refl

validate_refresh_token-valid_iff_example :
    ((validate_refresh_token jose (alone network_error) env 5000 (some "good") cached_state).1
      ≡ valid claims)
    ↔ IsAccepted jose (alone network_error) env 5000 cached_state (some "good") claims
validate_refresh_token-valid_iff_example =
    validate_refresh_token-valid_iff jose (alone network_error) env 5000 cached_state (some "good")
      claims
