-- ===== src/Auth/Jwks/Laws.antt =====
-- web/src/lib/server-jwt.ts: what the cache holds after a refresh and after a prune.
use mathlib.Core.Path.{subst}
use scylladb_grpc_microservi.Common.{
  ℕ, ◌-◌, ◌≤◌, String, ◌≡◌, refl, ◌⊎◌, inl, inr, true, ◌&&◌, Option, none, some, List, [], ◌∷◌,
  arith, is_some, opt_is, opt_is-eq, if◌then◌else◌, eq_iff, Store, Option-cases, Bool-cases,
}
use scylladb_grpc_microservi.Auth.Jwks.{
  ed_dsa, Jwk, CachedJwkEntry, JwksState, JwksResponse, keys, fetch_failed, refreshed,
  normalize_jwk_algorithm, keep_recent, prune_expired_jwks_entries, store_key, store_keys,
  refresh_jwks_cache, jwks_retention_ms,
}

-- All keys of an answer have the property `P`.
abbrev pub AllKeys : (Jwk → Type 0) → List (Option Jwk) → Type 0
AllKeys P [] = Unit
AllKeys P (none ∷ ks) = AllKeys P ks
AllKeys P (some key ∷ ks) = P key × AllKeys P ks

abbrev pub AllPublished : (Jwk → Type 0) → JwksResponse → Type 0
AllPublished P (keys ks) = AllKeys P ks
AllPublished P _ = Unit

-- The key of each entry, with all that was published of it, has the property `P`; the entry stands
-- under the key's own id, and the key is of a supported algorithm.
abbrev pub IsGenuine : (Jwk → Type 0) → Store CachedJwkEntry → Type 0
IsGenuine P cache =
    (kid : String) (e : CachedJwkEntry)
    → cache kid ≡ some e
    → P e.key × (e.key.kid ≡ some kid) × (normalize_jwk_algorithm e.key ≡ some e.alg)

-- No entry was observed longer ago than the retention time.
abbrev pub IsRecent : ℕ → Store CachedJwkEntry → Type 0
IsRecent now cache =
    (kid : String) (e : CachedJwkEntry)
    → cache kid ≡ some e
    → now - e.observed_at ≤ jwks_retention_ms

-- The last of the fetched keys with this id and a supported algorithm.
unfoldable pub published : String → List (Option Jwk) → Option Jwk
published kid [] = none
published kid (none ∷ ks) = published kid ks
published kid (some key ∷ ks) = elim (published kid ks) [
  | some later ↦ some later
  | none ↦ if opt_is key.kid kid && is_some (normalize_jwk_algorithm key) then some key else none
]

abbrev pub overlay : ℕ → Option Jwk → Option CachedJwkEntry → Option CachedJwkEntry
overlay now (some key) old = some (record { key = key; alg = ed_dsa; observed_at = now })
overlay now none old = old

store_key-overlay :
    (now : ℕ) (key : Jwk) (k : Option String) (cache : Store CachedJwkEntry) (kid : String)
    → store_key now key k (normalize_jwk_algorithm key) cache kid
      ≡ overlay now
          (if opt_is k kid && is_some (normalize_jwk_algorithm key) then some key else none)
          (cache kid)
unfolding store_key normalize_jwk_algorithm
store_key-overlay now key none cache kid = ground arith
store_key-overlay now key (some k) cache kid = ground (arith, eq_iff k kid)

pub store_keys-overlay :
    (now : ℕ) (ks : List (Option Jwk)) (cache : Store CachedJwkEntry) (kid : String)
    → store_keys now ks cache kid ≡ overlay now (published kid ks) (cache kid)
unfolding store_keys published
store_keys-overlay now [] cache kid = refl
store_keys-overlay now (none ∷ ks) cache kid = store_keys-overlay now ks cache kid
store_keys-overlay now (some key ∷ ks) cache kid =
    let cache' = store_key now key key.kid (normalize_jwk_algorithm key) cache in
    ground
      (arith, store_keys-overlay now ks cache' kid, store_key-overlay now key key.kid cache kid)

-- A refresh whose answer is an array of keys stamps the time and leaves under each id the last
-- supported key published with it; under an id not published, the old entry if it is no older than
-- the retention time.
pub refresh_jwks_cache-published :
    (ks : List (Option Jwk)) (now : ℕ) (s : JwksState) (kid : String)
    → ((refresh_jwks_cache (keys ks) now s).1 ≡ refreshed)
      × ((refresh_jwks_cache (keys ks) now s).0.last_fetch_at ≡ now)
      × ((refresh_jwks_cache (keys ks) now s).0.cache kid
          ≡ overlay now (published kid ks) (keep_recent now (s.cache kid)))
unfolding refresh_jwks_cache prune_expired_jwks_entries
refresh_jwks_cache-published ks now s kid =
    (refl, refl, ground (arith, store_keys-overlay now ks s.cache kid))

-- A refresh that fails, in any of the three ways, changes nothing.
pub refresh_jwks_cache-failed :
    (r : JwksResponse) (now : ℕ) (s : JwksState)
    → (refresh_jwks_cache r now s).1 ≡ fetch_failed
    → (refresh_jwks_cache r now s).0 ≡ s
unfolding refresh_jwks_cache
refresh_jwks_cache-failed r now s h = ground arith

-- Pruning keeps an entry exactly when it is no older than the retention time.
pub prune-eq-some_iff :
    (now : ℕ) (cache : Store CachedJwkEntry) (kid : String) (e : CachedJwkEntry)
    → prune_expired_jwks_entries now cache kid ≡ some e
    → (cache kid ≡ some e) × (now - e.observed_at ≤ jwks_retention_ms)
unfolding prune_expired_jwks_entries
prune-eq-some_iff now cache kid e h = ground arith

pub prune-IsGenuine :
    (P : Jwk → Type 0) (now : ℕ) (cache : Store CachedJwkEntry)
    → IsGenuine P cache
    → IsGenuine P (prune_expired_jwks_entries now cache)
prune-IsGenuine P now cache g kid e h = g kid e (prune-eq-some_iff now cache kid e h).0

pub prune-IsRecent :
    (now : ℕ) (cache : Store CachedJwkEntry) → IsRecent now (prune_expired_jwks_entries now cache)
prune-IsRecent now cache kid e h = (prune-eq-some_iff now cache kid e h).1

supported :
    (key : Jwk)
    → is_some (normalize_jwk_algorithm key) ≡ true
    → normalize_jwk_algorithm key ≡ some ed_dsa
unfolding normalize_jwk_algorithm
supported key h = ground arith

published_here :
    (P : Jwk → Type 0) (kid : String) (k key : Jwk)
    → P k
    → (if opt_is k.kid kid && is_some (normalize_jwk_algorithm k) then some k else none) ≡ some key
    → P key × (key.kid ≡ some kid) × (normalize_jwk_algorithm key ≡ some ed_dsa)
published_here P kid k key pk h =
    elim (Bool-cases (opt_is k.kid kid && is_some (normalize_jwk_algorithm k))) [
      | inl e ↦
          let taken : some k ≡ some key = rw e at h in
          let same : k ≡ key = cc in
          subst (λ x. P x × (x.kid ≡ some kid) × (normalize_jwk_algorithm x ≡ some ed_dsa)) same
            (pk, ground (arith, opt_is-eq k.kid kid), supported k (ground arith))
      | inr e ↦ absurd (ground arith)
    ]

published_genuine :
    (P : Jwk → Type 0) (kid : String) (ks : List (Option Jwk)) (key : Jwk)
    → AllKeys P ks
    → published kid ks ≡ some key
    → P key × (key.kid ≡ some kid) × (normalize_jwk_algorithm key ≡ some ed_dsa)
unfolding published
published_genuine P kid [] key all h = cc
published_genuine P kid (none ∷ ks) key all h = published_genuine P kid ks key all h
published_genuine P kid (some k ∷ ks) key (pk, all) h = elim (Option-cases (published kid ks)) [
  | inr (later, e) ↦ published_genuine P kid ks key all (rw e (rw e at h))
  | inl e ↦ published_here P kid k key pk (rw e at h)
]

overlay_genuine :
    (now : ℕ) (p : Option Jwk) (old : Option CachedJwkEntry) (e : CachedJwkEntry)
    → overlay now p old ≡ some e
    → ((key : Jwk) × (p ≡ some key) × (e.key ≡ key) × (e.alg ≡ ed_dsa) × (e.observed_at ≡ now))
      ⊎ (old ≡ some e)
overlay_genuine now none old e h = inr h
overlay_genuine now (some key) old e h = inl (key, refl, ground arith, ground arith, ground arith)

-- A refresh keeps every entry genuine, whatever it is answered with keys that have the property.
pub refresh_jwks_cache-IsGenuine :
    (P : Jwk → Type 0) (r : JwksResponse) (now : ℕ) (s : JwksState)
    → AllPublished P r
    → IsGenuine P s.cache
    → IsGenuine P (refresh_jwks_cache r now s).0.cache
unfolding refresh_jwks_cache
refresh_jwks_cache-IsGenuine P (keys ks) now s all g =
    prune-IsGenuine P now (store_keys now ks s.cache) λ kid e h.
      elim (overlay_genuine now (published kid ks) (s.cache kid) e
        (rw (store_keys-overlay now ks s.cache kid) at h)) [
          | inl (key, p, k, a, t) ↦ rw (k, a) (published_genuine P kid ks key all p)
          | inr old ↦ g kid e old
        ]
refresh_jwks_cache-IsGenuine P _ now s all g = g

-- A refresh keeps every entry recent.
pub refresh_jwks_cache-IsRecent :
    (r : JwksResponse) (now : ℕ) (s : JwksState)
    → IsRecent now s.cache
    → IsRecent now (refresh_jwks_cache r now s).0.cache
unfolding refresh_jwks_cache
refresh_jwks_cache-IsRecent (keys ks) now s g = prune-IsRecent now (store_keys now ks s.cache)
refresh_jwks_cache-IsRecent _ now s g = g
