-- ===== src/Auth/Jwks.antt =====
-- web/src/lib/server-jwt.ts, the key cache: `jwksCache`, `lastJwksFetchAt`, `refreshJwksCache`,
-- `pruneExpiredJwksEntries`, `normalizeJwkAlgorithm` and `resolveRefreshTokenJwk`.
-- Times are milliseconds. `now - t` is truncated here and may be negative there; both are compared
-- with a positive bound, so the tests agree.
pub mod Laws
pub mod Resolve
use scylladb_grpc_microservi.Common.{
  ℕ, ◌*◌, ◌-◌, String, Bool, ◌&&◌, ◌||◌, Option, none, some, List, [], ◌∷◌, ltb, is_some, opt_is,
  str_eq, if◌then◌else◌, Store, write,
}

pub data SupportedJwsAlgorithm : Type 0 where
  ed_dsa : SupportedJwsAlgorithm

-- A published key. A field is `none` where the JSON has no string there; `material` is the rest.
pub record Jwk : Type 0 where
  pub kid : Option String
  pub alg : Option String
  pub kty : Option String
  pub crv : Option String
  pub material : String

pub record CachedJwkEntry : Type 0 where
  pub key : Jwk
  pub alg : SupportedJwsAlgorithm
  pub observed_at : ℕ

abbrev pub jwks_refresh_interval_ms : ℕ
jwks_refresh_interval_ms = 60 * 60 * 1000

abbrev pub jwks_retention_ms : ℕ
jwks_retention_ms = 8 * 24 * 60 * 60 * 1000

-- The module's two variables.
pub record JwksState : Type 0 where
  pub cache : Store CachedJwkEntry
  pub last_fetch_at : ℕ

-- How `fetch` and `response.json()` end. An element of `keys` that is no object is `none`; a body
-- without an array of keys is `keys []`.
pub data JwksResponse : Type 0 where
  network_error : JwksResponse
  not_ok : JwksResponse
  bad_json : JwksResponse
  keys : List (Option Jwk) → JwksResponse

pub data RefreshResult : Type 0 where
  refreshed : RefreshResult
  fetch_failed : RefreshResult

unfoldable pub normalize_jwk_algorithm : Jwk → Option SupportedJwsAlgorithm
normalize_jwk_algorithm key =
    if opt_is key.alg "EdDSA" || (opt_is key.kty "OKP" && opt_is key.crv "Ed25519")
    then some ed_dsa
    else none

abbrev pub keep_recent : ℕ → Option CachedJwkEntry → Option CachedJwkEntry
keep_recent now none = none
keep_recent now (some e) = if ltb jwks_retention_ms (now - e.observed_at) then none else some e

unfoldable pub prune_expired_jwks_entries : ℕ → Store CachedJwkEntry → Store CachedJwkEntry
prune_expired_jwks_entries now cache kid = keep_recent now (cache kid)

-- `jwksCache.set(key.kid, …)` for a key that passes the two `continue` tests.
unfoldable pub store_key :
    ℕ
    → Jwk
    → Option String
    → Option SupportedJwsAlgorithm
    → Store CachedJwkEntry
    → Store CachedJwkEntry
store_key now key (some kid) (some alg) cache =
    write kid (record { key = key; alg = alg; observed_at = now }) cache
store_key now key _ _ cache = cache

-- The `for` loop over the fetched keys.
unfoldable pub store_keys : ℕ → List (Option Jwk) → Store CachedJwkEntry → Store CachedJwkEntry
store_keys now [] cache = cache
store_keys now (none ∷ ks) cache = store_keys now ks cache
store_keys now (some key ∷ ks) cache =
    store_keys now ks (store_key now key key.kid (normalize_jwk_algorithm key) cache)

-- The part of `refreshJwksCache` behind its awaits: it runs to its end without another pause.
unfoldable pub refresh_jwks_cache : JwksResponse → ℕ → JwksState → JwksState × RefreshResult
refresh_jwks_cache network_error now s = (s, fetch_failed)
refresh_jwks_cache not_ok now s = (s, fetch_failed)
refresh_jwks_cache bad_json now s = (s, fetch_failed)
refresh_jwks_cache (keys ks) now s = (
  record {
    cache = prune_expired_jwks_entries now (store_keys now ks s.cache);
    last_fetch_at = now;
  },
  refreshed,
)

pub data JwkFailure : Type 0 where
  invalid_token : JwkFailure
  jwks_fetch_failed : JwkFailure

pub data JwkResolution : Type 0 where
  found : Jwk → SupportedJwsAlgorithm → JwkResolution
  failed : JwkFailure → JwkResolution

-- What the outside does at the pauses: the answer of the server, what other requests make of the
-- shared state while the fetch is under way, and before the caller resumes.
pub record Outside : Type 0 where
  pub fetch : String → JwksResponse
  pub meanwhile : JwksState → JwksState
  pub resumed : JwksState → JwksState

-- The tests behind `await refreshJwksCache`: the refreshed entry, the one read before, the failure.
unfoldable pub pick_entry :
    Option CachedJwkEntry → Option CachedJwkEntry → RefreshResult → JwkResolution
pick_entry (some e) cached result = found e.key e.alg
pick_entry none (some e) result = found e.key e.alg
pick_entry none none fetch_failed = failed jwks_fetch_failed
pick_entry none none refreshed = failed invalid_token

unfoldable pub resolve_refresh_token_jwk :
    Outside → String → String → ℕ → JwksState → JwksState × JwkResolution
resolve_refresh_token_jwk out url kid now s =
    let pruned = record s { cache = prune_expired_jwks_entries now s.cache } in
    let cached = pruned.cache kid in
    let fresh = ltb (now - s.last_fetch_at) jwks_refresh_interval_ms in
    if is_some cached && fresh
    then (pruned, pick_entry cached none refreshed)
    else (let (fetched, result) = refresh_jwks_cache (out.fetch url) now (out.meanwhile pruned) in
        let later = out.resumed fetched in (later, pick_entry (later.cache kid) cached result))
