-- ===== src/Auth/Jwks/Resolve.antt =====
-- web/src/lib/server-jwt.ts: which key `resolveRefreshTokenJwk` hands out.
use mathlib.Core.Path.{subst}
use scylladb_grpc_microservi.Common.{
  ℕ, ◌-◌, ◌≤◌, ◌<◌, String, ◌≡◌, ◌≢◌, ◌⊎◌, refl, Option, none, some, arith, Bool-cases, inl, inr,
  is_some, ltb, ◌&&◌,
}
use scylladb_grpc_microservi.Auth.Jwks.{
  SupportedJwsAlgorithm, Jwk, CachedJwkEntry, JwksState, Outside, JwkFailure, found, failed,
  refreshed, fetch_failed, RefreshResult, pick_entry, normalize_jwk_algorithm,
  prune_expired_jwks_entries, refresh_jwks_cache, resolve_refresh_token_jwk,
  jwks_refresh_interval_ms, jwks_retention_ms,
}
use scylladb_grpc_microservi.Auth.Jwks.Laws.{
  AllPublished, IsGenuine, IsRecent, prune-eq-some_iff, prune-IsGenuine, prune-IsRecent,
  refresh_jwks_cache-IsGenuine, refresh_jwks_cache-IsRecent,
}

-- What other requests may do to the shared state at a pause.
abbrev pub KeepsGenuine : (Jwk → Type 0) → (JwksState → JwksState) → Type 0
KeepsGenuine P f = (s : JwksState) → IsGenuine P s.cache → IsGenuine P (f s).cache

abbrev pub KeepsRecent : ℕ → (JwksState → JwksState) → Type 0
KeepsRecent now f = (s : JwksState) → IsRecent now s.cache → IsRecent now (f s).cache

-- A key handed out is that of the refreshed entry or of the one read before.
pick_entry_from :
    (fresh cached : Option CachedJwkEntry) (r : RefreshResult) (key : Jwk)
    (alg : SupportedJwsAlgorithm) (P : CachedJwkEntry → Type 0)
    → ((e : CachedJwkEntry) → fresh ≡ some e → P e)
    → ((e : CachedJwkEntry) → cached ≡ some e → P e)
    → pick_entry fresh cached r ≡ found key alg
    → (e : CachedJwkEntry) × P e × (e.key ≡ key) × (e.alg ≡ alg)
unfolding pick_entry
pick_entry_from (some e) cached r key alg P hf hc h = (e, hf e refl, ground arith, ground arith)
pick_entry_from none (some e) r key alg P hf hc h = (e, hc e refl, ground arith, ground arith)
pick_entry_from none none fetch_failed key alg P hf hc h = cc
pick_entry_from none none refreshed key alg P hf hc h = cc

-- The state when the fetch has been made and the caller resumes.
abbrev on_resume : Outside → String → ℕ → JwksState → JwksState
on_resume out url now s =
    out.resumed
      (refresh_jwks_cache (out.fetch url) now
        (out.meanwhile (record s { cache = prune_expired_jwks_entries now s.cache }))).0

-- A property of entries that the pruned cache, and the cache on resuming, have at this id, is one
-- of the entry whose key is handed out.
resolve_from :
    (out : Outside) (url kid : String) (now : ℕ) (s : JwksState) (key : Jwk)
    (alg : SupportedJwsAlgorithm) (P : CachedJwkEntry → Type 0)
    → ((e : CachedJwkEntry) → prune_expired_jwks_entries now s.cache kid ≡ some e → P e)
    → ((e : CachedJwkEntry) → (on_resume out url now s).cache kid ≡ some e → P e)
    → (resolve_refresh_token_jwk out url kid now s).1 ≡ found key alg
    → (e : CachedJwkEntry) × P e × (e.key ≡ key) × (e.alg ≡ alg)
unfolding resolve_refresh_token_jwk
resolve_from out url kid now s key alg P hc hf h =
    elim (Bool-cases (
      is_some (prune_expired_jwks_entries now s.cache kid)
      && ltb (now - s.last_fetch_at) jwks_refresh_interval_ms)) [
        | inl hit ↦ pick_entry_from _ none refreshed key alg P hc (λ e q. cc) (rw hit at h)
        | inr miss ↦ pick_entry_from _ _ _ key alg P hf hc (rw miss at h)
      ]

-- A key that is handed out is as the server published it: a property `P` of keys that all keys in
-- the server's answer and all keys in the cache have, it has too, such as to be one of those that the
-- server ever published. It carries the id asked for and is of the algorithm returned. This holds
-- whatever the server answers and whatever other requests do at the pauses, so long as they keep the
-- cache genuine, as this code does.
pub resolve-found :
    (P : Jwk → Type 0) (out : Outside) (url kid : String) (now : ℕ) (s : JwksState) (key : Jwk)
    (alg : SupportedJwsAlgorithm)
    → AllPublished P (out.fetch url)
    → KeepsGenuine P out.meanwhile
    → KeepsGenuine P out.resumed
    → IsGenuine P s.cache
    → (resolve_refresh_token_jwk out url kid now s).1 ≡ found key alg
    → P key × (key.kid ≡ some kid) × (normalize_jwk_algorithm key ≡ some alg)
resolve-found P out url kid now s key alg all gm gr g h =
    let gp = prune-IsGenuine P now s.cache g in
    let before = record s { cache = prune_expired_jwks_entries now s.cache } in
    let gf = gr _ (
      refresh_jwks_cache-IsGenuine P (out.fetch url) now (out.meanwhile before) all
        (gm before gp)) in
    let (e, genuine, same_key, same_alg) =
      resolve_from out url kid now s key alg
        (λ e. P e.key × (e.key.kid ≡ some kid) × (normalize_jwk_algorithm e.key ≡ some e.alg))
        (gp kid) (gf kid) h in
    (subst P same_key genuine.0, rw (← same_key) genuine.1, rw (← same_key, ← same_alg) genuine.2)

-- A key that is handed out stood in the cache at the start or stands there on resuming, and its
-- entry is no older than the retention time; this so long as other requests keep the cache recent.
pub resolve-found_recent :
    (out : Outside) (url kid : String) (now : ℕ) (s : JwksState) (key : Jwk)
    (alg : SupportedJwsAlgorithm)
    → KeepsRecent now out.meanwhile
    → KeepsRecent now out.resumed
    → (resolve_refresh_token_jwk out url kid now s).1 ≡ found key alg
    → (e : CachedJwkEntry) × ((s.cache kid ≡ some e)
        ⊎ ((resolve_refresh_token_jwk out url kid now s).0.cache kid ≡ some e))
      × (now - e.observed_at ≤ jwks_retention_ms)
      × (e.key ≡ key)
      × (e.alg ≡ alg)
unfolding resolve_refresh_token_jwk
resolve-found_recent out url kid now s key alg rm rr h =
    let rp = prune-IsRecent now s.cache in
    let before = record s { cache = prune_expired_jwks_entries now s.cache } in
    let fetched = (refresh_jwks_cache (out.fetch url) now (out.meanwhile before)).0 in
    let rf : IsRecent now (on_resume out url now s).cache =
      rr fetched
        (refresh_jwks_cache-IsRecent (out.fetch url) now (out.meanwhile before) (rm before rp)) in
    elim (Bool-cases (
      is_some (prune_expired_jwks_entries now s.cache kid)
      && ltb (now - s.last_fetch_at) jwks_refresh_interval_ms)) [
        | inl hit ↦
            let (e, (was, recent), same_key, same_alg) =
              pick_entry_from _ none refreshed key alg
                (λ e. (s.cache kid ≡ some e) × (now - e.observed_at ≤ jwks_retention_ms))
                (prune-eq-some_iff now s.cache kid) (λ e q. cc) (rw hit at h) in
            (e, inl was, recent, same_key, same_alg)
        | inr miss ↦
            let (e, (place, recent), same_key, same_alg) =
              pick_entry_from _ _ _ key alg
                (λ e.
                  ((s.cache kid ≡ some e) ⊎ ((on_resume out url now s).cache kid ≡ some e))
                  × (now - e.observed_at ≤ jwks_retention_ms))
                (λ e q. (inr q, rf kid e q))
                (λ e q. (inl (prune-eq-some_iff now s.cache kid e q).0, rp kid e q))
                (rw miss at h) in
            rw miss (e, place, recent, same_key, same_alg)
      ]

-- A cached key no older than the retention time is enough: the lookup then never fails, whatever
-- the server answers and whatever other requests do.
pub resolve_cached-ne-failed :
    (out : Outside) (url kid : String) (now : ℕ) (s : JwksState) (e : CachedJwkEntry)
    (reason : JwkFailure)
    → s.cache kid ≡ some e
    → now - e.observed_at ≤ jwks_retention_ms
    → (resolve_refresh_token_jwk out url kid now s).1 ≢ failed reason
unfolding resolve_refresh_token_jwk prune_expired_jwks_entries pick_entry
resolve_cached-ne-failed out url kid now s e reason h recent = ground arith

-- With a cached key and a fetch less than an hour old, no request is made: the answer does not
-- depend on the server, and only the pruning changes the state.
pub resolve_hit :
    (out : Outside) (url kid : String) (now : ℕ) (s : JwksState) (e : CachedJwkEntry)
    → s.cache kid ≡ some e
    → now - e.observed_at ≤ jwks_retention_ms
    → now - s.last_fetch_at < jwks_refresh_interval_ms
    → resolve_refresh_token_jwk out url kid now s
      ≡ (record s { cache = prune_expired_jwks_entries now s.cache }, found e.key e.alg)
unfolding resolve_refresh_token_jwk prune_expired_jwks_entries pick_entry
resolve_hit out url kid now s e h recent quick = ground arith
