-- ===== src/Auth/Proxy/Laws.antt =====
-- web/src/proxy.ts: which requests pass, and what the browser's cookies are afterwards.
use scylladb_grpc_microservi.Common.{
  String, ◌≡◌, ◌≢◌, ◌↔◌, ◌⊎◌, inl, inr, refl, Option, none, some, arith, true, Bool-cases,
  Option-cases,
}
use scylladb_grpc_microservi.Auth.Jwks.{JwksState}
use scylladb_grpc_microservi.Auth.Validate.{
  JwtPayload, Validation, valid, invalid, validate_refresh_token,
}
use scylladb_grpc_microservi.Auth.Token.{is_access_token_expired_or_missing, default_skew}
use scylladb_grpc_microservi.Auth.Token.Laws.{IsFresh, IsFresh-iff}
use scylladb_grpc_microservi.Auth.Cookies.{
  CookieJar, cookie_value, apply_writes, access_token_cookie_name, refresh_token_cookie_name,
  response_auth_cookies,
}
use scylladb_grpc_microservi.Auth.Cookies.Laws.{
  HasTokens, IsCleared, action_auth_cookies-HasTokens, auth_cookies_agree,
  clear_auth_cookies-IsCleared, clear_cookies_agree,
}
use scylladb_grpc_microservi.Auth.Proxy.{
  TokenPair, ProxyContext, redirect_to_login, pass, refresh_session, proxy_validated, proxy,
}

module _ (c : ProxyContext) (request : CookieJar) (s : JwksState) where
  abbrev pub session_token : Option String
  session_token = cookie_value (refresh_token_cookie_name c.is_production) request

  abbrev pub validation : Validation
  validation = (validate_refresh_token c.jose c.outside c.env c.now session_token s).1

  abbrev pub access_token : Option String
  access_token = cookie_value (access_token_cookie_name c.is_production) request

  -- The refresh token is accepted, and the access token is fresh or the refresh RPC succeeds.
  abbrev pub MayPass : Type 0
  MayPass =
      ((p : JwtPayload) × (validation ≡ valid p))
      × (IsFresh c.decode_payload default_skew c.later access_token
          ⊎ ((t : TokenPair) × (c.refresh_rpc session_token ≡ some t)))

  passes :
      (v : Validation)
      → (proxy_validated c request v).redirect ≡ none
      → ((p : JwtPayload) × (v ≡ valid p))
        × (IsFresh c.decode_payload default_skew c.later access_token
            ⊎ ((t : TokenPair) × (c.refresh_rpc session_token ≡ some t)))
  unfolding proxy_validated refresh_session redirect_to_login
  passes (invalid r) h = cc
  passes (valid p) h =
      elim (Bool-cases
        (is_access_token_expired_or_missing c.decode_payload access_token default_skew c.later)) [
          | inr fresh ↦ (
            (p, refl),
            inl ((IsFresh-iff c.decode_payload default_skew c.later access_token).0 fresh),
          )
          | inl stale ↦ elim (Option-cases (c.refresh_rpc session_token)) [
            | inl fails ↦ absurd (ground arith)
            | inr (t, works) ↦ ((p, refl), inr (t, works))
          ]
        ]

  may_pass :
      (p : JwtPayload)
      → (IsFresh c.decode_payload default_skew c.later access_token
          ⊎ ((t : TokenPair) × (c.refresh_rpc session_token ≡ some t)))
      → (proxy_validated c request (valid p)).redirect ≡ none
  unfolding proxy_validated refresh_session
  may_pass p (inl f) = rw ((IsFresh-iff c.decode_payload default_skew c.later access_token).1 f)
  may_pass p (inr (t, works)) = ground arith

  -- A request is let through exactly when its refresh token is accepted and its access token is
  -- fresh or can be refreshed.
  pub proxy-passes_iff : ((proxy c request s).1.redirect ≡ none) ↔ MayPass
  unfolding proxy
  proxy-passes_iff = (passes validation, λ m. let ((p, v), how) = m in rw v (may_pass p how))

  login_or_pass :
      (v : Validation)
      → (proxy_validated c request v ≡ redirect_to_login c.is_production)
        ⊎ ((proxy_validated c request v).redirect ≡ none)
  unfolding proxy_validated refresh_session
  login_or_pass (invalid r) = inl refl
  login_or_pass (valid p) = ground arith

  redirect_to_login-IsCleared :
      (browser : CookieJar)
      → IsCleared c.is_production browser
          (apply_writes (redirect_to_login c.is_production).cookies browser)
  unfolding redirect_to_login
  redirect_to_login-IsCleared browser =
      rw (clear_cookies_agree c.is_production browser)
        (clear_auth_cookies-IsCleared c.is_production browser)

  login_redirect : (redirect_to_login c.is_production).redirect ≡ some "/login"
  unfolding redirect_to_login
  login_redirect = refl

  -- A request that is not let through goes to "/login". Outside production the browser then has
  -- neither auth cookie, and its other cookies stay; in production all its cookies stay.
  pub proxy-login :
      (browser : CookieJar)
      → (proxy c request s).1.redirect ≢ none
      → ((proxy c request s).1.redirect ≡ some "/login")
        × IsCleared c.is_production browser (apply_writes (proxy c request s).1.cookies browser)
  unfolding proxy
  proxy-login browser h = elim (login_or_pass validation) [
    | inl login ↦ rw login (login_redirect, redirect_to_login-IsCleared browser)
    | inr passed ↦ absurd (h passed)
  ]

  refreshed :
      (p : JwtPayload) (t : TokenPair)
      → is_access_token_expired_or_missing c.decode_payload access_token default_skew c.later ≡ true
      → c.refresh_rpc session_token ≡ some t
      → proxy_validated c request (valid p) ≡ record {
        redirect = none;
        cookies = response_auth_cookies c.is_production t.access_token t.refresh_token;
      }
  unfolding proxy_validated refresh_session
  refreshed p t stale works = rw (stale, works, refresh_session)

  pub refused :
      (p : JwtPayload)
      → validation ≡ valid p
      → is_access_token_expired_or_missing c.decode_payload access_token default_skew c.later ≡ true
      → c.refresh_rpc session_token ≡ none
      → (proxy c request s).1 ≡ redirect_to_login c.is_production
  unfolding proxy proxy_validated
  refused p accepted stale fails = rw (accepted, proxy_validated, stale, fails, refresh_session)

  -- With an accepted session, a stale access token and a refresh that works, the request passes and
  -- the browser's two auth cookies become the new pair of tokens; its other cookies stay.
  pub proxy-refresh :
      (browser : CookieJar) (p : JwtPayload) (t : TokenPair)
      → validation ≡ valid p
      → is_access_token_expired_or_missing c.decode_payload access_token default_skew c.later ≡ true
      → c.refresh_rpc session_token ≡ some t
      → ((proxy c request s).1.redirect ≡ none)
        × HasTokens c.is_production t.access_token t.refresh_token browser
            (apply_writes (proxy c request s).1.cookies browser)
  unfolding proxy
  proxy-refresh browser p t accepted stale works =
      rw (accepted, refreshed p t stale works, auth_cookies_agree c.is_production browser)
        (refl, action_auth_cookies-HasTokens c.is_production browser t.access_token t.refresh_token)

  -- With an accepted session and a fresh access token no cookie is written.
  pub proxy-fresh :
      (p : JwtPayload)
      → validation ≡ valid p
      → IsFresh c.decode_payload default_skew c.later access_token
      → (proxy c request s).1 ≡ pass
  unfolding proxy proxy_validated
  proxy-fresh p accepted f = rw (
    accepted,
    proxy_validated,
    (IsFresh-iff c.decode_payload default_skew c.later access_token).1 f,
  )
