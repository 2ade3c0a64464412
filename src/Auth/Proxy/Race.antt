-- ===== src/Auth/Proxy/Race.antt =====
-- web/src/proxy.ts: two requests of one browser that both need a new access token. The auth service
-- has a state, since it gives out a new refresh token for each one that it takes.
use scylladb_grpc_microservi.Common.{
  String, Bool, Option, none, some, true, false, ◌≡◌, ◌≢◌, sym, ap, ◌∙◌,
}
use scylladb_grpc_microservi.Auth.Jwks.{JwksState}
use scylladb_grpc_microservi.Auth.Validate.{JwtPayload, valid}
use scylladb_grpc_microservi.Auth.Token.{is_access_token_expired_or_missing, default_skew}
use scylladb_grpc_microservi.Auth.Cookies.{CookieJar, apply_writes}
use scylladb_grpc_microservi.Auth.Cookies.Laws.{HasTokens, HasNoTokens}
use scylladb_grpc_microservi.Auth.Proxy.{TokenPair, ProxyContext, redirect_to_login, proxy}
use scylladb_grpc_microservi.Auth.Proxy.Laws.{
  session_token, validation, access_token, proxy-login, proxy-refresh, refused,
}

-- The auth service: its answer to a refresh token, and what it is afterwards. A refresh token that has
-- been taken is not taken again.
pub record Rotation : Type 1 where
  pub State : Type 0
  pub rotate : Option String → State → State × Option TokenPair
  pub once :
      (token : Option String) (v : State) (t : TokenPair)
      → (rotate token v).1 ≡ some t
      → (rotate token (rotate token v).0).1 ≡ none

-- The middleware while the service is in the state `v`.
abbrev pub served : ProxyContext → (r : Rotation) → r.State → ProxyContext
served c r v = record c { refresh_rpc = λ token. (r.rotate token v).1 }

login_not_none : (p : Bool) → (redirect_to_login p).redirect ≢ none
unfolding redirect_to_login
login_not_none p = cc

-- Two requests that carry the same accepted refresh token and a stale access token reach the service
-- one after the other. The first passes with new tokens, and the second goes to "/login". If the
-- browser gets the answers in that order, it ends outside production with neither auth cookie, and in
-- production, where it refuses the deletions, with the new tokens; in the other order it ends with the
-- new tokens.
pub parallel_refresh :
    (c : ProxyContext) (r : Rotation) (v : r.State) (request browser : CookieJar) (s s' : JwksState)
    (p p' : JwtPayload) (t : TokenPair)
    → validation c request s ≡ valid p
    → validation c request s' ≡ valid p'
    → is_access_token_expired_or_missing c.decode_payload
        (access_token c request s)
        default_skew
        c.later
      ≡ true
    → (r.rotate (session_token c request s) v).1 ≡ some t
    → let v' = (r.rotate (session_token c request s) v).0 in
      let first = (proxy (served c r v) request s).1 in
      let second = (proxy (served c r v') request s').1 in
      (first.redirect ≡ none)
      × (second.redirect ≡ some "/login")
      × (c.is_production ≡ false
          → HasNoTokens c.is_production
              (apply_writes first.cookies browser)
              (apply_writes second.cookies (apply_writes first.cookies browser)))
      × (c.is_production ≡ true
          → HasTokens c.is_production t.access_token t.refresh_token browser
              (apply_writes second.cookies (apply_writes first.cookies browser)))
      × HasTokens c.is_production t.access_token t.refresh_token
          (apply_writes second.cookies browser)
          (apply_writes first.cookies (apply_writes second.cookies browser))
parallel_refresh c r v request browser s s' p p' t ok ok' stale taken =
    let v' = (r.rotate (session_token c request s) v).0 in
    let c1 = served c r v in
    let c2 = served c r v' in
    let second = (proxy c2 request s').1 in
    let gone = refused c2 request s' p' ok' stale (r.once (session_token c request s) v t taken) in
    let away : second.redirect ≢ none =
      λ h. login_not_none c.is_production (ap (λ x. x.redirect) (sym gone) ∙ h) in
    let out =
      proxy-login c2 request s' (apply_writes (proxy c1 request s).1.cookies browser) away in
    (
      (proxy-refresh c1 request s browser p t ok stale taken).0,
      out.0,
      out.1.development,
      λ h. rw (out.1.production h) (proxy-refresh c1 request s browser p t ok stale taken).1,
      (proxy-refresh c1 request s (apply_writes second.cookies browser) p t ok stale taken).1,
    )
