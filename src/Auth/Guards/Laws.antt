-- ===== src/Auth/Guards/Laws.antt =====
-- web/src/lib/server-auth.ts with web/src/proxy.ts and web/src/actions/auth.ts: where a visitor ends.
use scylladb_grpc_microservi.Common.{
  ℕ, String, ◌≡◌, ◌≢◌, ◌⊎◌, inl, inr, refl, Bool, true, false, Option, none, some, arith,
  Bool-cases,
}
use scylladb_grpc_microservi.Auth.Jwks.{JwksState, Outside}
use scylladb_grpc_microservi.Auth.Validate.{Jose, JwksEnv, validate_refresh_token}
use scylladb_grpc_microservi.Auth.Cookies.{
  CookieJar, cookie_value, apply_writes, refresh_token_cookie_name,
}
use scylladb_grpc_microservi.Auth.Proxy.{ProxyContext, proxy}
use scylladb_grpc_microservi.Auth.Proxy.Laws.{proxy-login, proxy-passes_iff}
use scylladb_grpc_microservi.Auth.Csrf.{RequestHeaders, assert_same_origin_request}
use scylladb_grpc_microservi.Auth.Actions.{AuthService, ActionState, logout_action}
use scylladb_grpc_microservi.Auth.Actions.Laws.{logout_action_lem}
use scylladb_grpc_microservi.Auth.Guards.{
  is_valid, has_server_session, require_authenticated, require_guest,
}

module _ (jose : Jose) (outside : Outside) (env : JwksEnv) (p : Bool) where
  missing_token :
      (now : ℕ) (token : Option String) (s : JwksState)
      → token ≡ none
      → is_valid (validate_refresh_token jose outside env now token s).1 ≡ false
  unfolding validate_refresh_token
  missing_token now none s e = refl
  missing_token now (some t) s e = cc

  no_session :
      (now : ℕ) (jar : CookieJar) (s : JwksState)
      → jar (refresh_token_cookie_name p) ≡ none
      → (has_server_session jose outside env p now jar s).1 ≡ false
  unfolding has_server_session
  no_session now jar s gone =
      missing_token now (cookie_value (refresh_token_cookie_name p) jar) s (ground arith)

  -- Without a refresh cookie, the pages for guests are shown and the others redirect to "/login".
  pub guards-no_session :
      (now : ℕ) (jar : CookieJar) (s : JwksState)
      → jar (refresh_token_cookie_name p) ≡ none
      → ((require_guest jose outside env p now jar s).1 ≡ none)
        × ((require_authenticated jose outside env p now jar s).1 ≡ some "/login")
  unfolding require_guest require_authenticated
  guards-no_session now jar s gone =
      let none_there = no_session now jar s gone in ground (arith, none_there)

  -- For every visitor exactly one of the two guards redirects: the guests' pages to "/workspace", or the
  -- others to "/login".
  pub guards_exclusive :
      (now : ℕ) (jar : CookieJar) (s : JwksState)
      → (((require_guest jose outside env p now jar s).1 ≡ some "/workspace")
          × ((require_authenticated jose outside env p now jar s).1 ≡ none))
        ⊎ (((require_guest jose outside env p now jar s).1 ≡ none)
            × ((require_authenticated jose outside env p now jar s).1 ≡ some "/login"))
  unfolding require_guest require_authenticated
  guards_exclusive now jar s =
      elim (Bool-cases (has_server_session jose outside env p now jar s).1) [
        | inl session ↦ inl (rw session (refl, refl))
        | inr none_there ↦ inr (rw none_there (refl, refl))
      ]

  -- After a logout from the same origin outside production, whatever the auth service does, the guarded pages redirect to
  -- "/login" and the login page is shown, at any later time and in any state of the key cache.
  pub logout-guards :
      (service : AuthService) (url_host : String → Option String) (h : RequestHeaders)
      (a : ActionState) (now : ℕ) (s : JwksState)
      → assert_same_origin_request url_host h ≡ true
      → p ≡ false
      → let jar = (logout_action service url_host p h a).0.jar in
        ((require_guest jose outside env p now jar s).1 ≡ none)
        × ((require_authenticated jose outside env p now jar s).1 ≡ some "/login")
  logout-guards service url_host h a now s same dev =
      guards-no_session now (logout_action service url_host p h a).0.jar s
        ((logout_action_lem service url_host p h a same).1.development dev).refresh_gone

session_kept :
    (jose : Jose) (outside : Outside) (env : JwksEnv) (p : Bool) (now : ℕ) (jar : CookieJar)
    (s : JwksState)
    → is_valid
        (validate_refresh_token jose outside env now
          (cookie_value (refresh_token_cookie_name p) jar)
          s).1
      ≡ true
    → (require_guest jose outside env p now jar s).1 ≡ some "/workspace"
unfolding require_guest has_server_session
session_kept jose outside env p now jar s h = rw h refl

-- Where a visitor ends whom the middleware sends to "/login". Outside production there is no redirect
-- loop: he is shown the login page, since the redirect has taken the refresh cookie; this at any later
-- time and in any state of the key cache. In production the browser keeps all its cookies, and if its
-- refresh token is still accepted, as where only the refresh failed, the login page sends him back to
-- "/workspace".
pub proxy-login-guest :
    (c : ProxyContext) (request browser : CookieJar) (s s' : JwksState) (now : ℕ)
    → (proxy c request s).1.redirect ≢ none
    → let after = apply_writes (proxy c request s).1.cookies browser in
      let guest = (require_guest c.jose c.outside c.env c.is_production now after s').1 in
      ((proxy c request s).1.redirect ≡ some "/login")
      × (c.is_production ≡ false → guest ≡ none)
      × (c.is_production ≡ true
          → (after ≡ browser)
            × (is_valid
                    (validate_refresh_token c.jose c.outside c.env now
                      (cookie_value (refresh_token_cookie_name c.is_production) browser)
                      s').1
                  ≡ true
                → guest ≡ some "/workspace"))
proxy-login-guest c request browser s s' now sent =
    let (there, cleared) = proxy-login c request s browser sent in
    let after = apply_writes (proxy c request s).1.cookies browser in
    (
      there,
      λ dev.
          (guards-no_session c.jose c.outside c.env c.is_production now after s'
            (cleared.development dev).refresh_gone).0,
      λ prod. (
        cleared.production prod,
        λ accepted.
            rw (cleared.production prod)
              (session_kept c.jose c.outside c.env c.is_production now browser s' accepted),
      ),
    )

-- A request that the middleware lets through with the time and the state of the key cache passes the
-- guard of the pages too.
pub proxy-passes-guard :
    (c : ProxyContext) (request : CookieJar) (s : JwksState)
    → (proxy c request s).1.redirect ≡ none
    → (require_authenticated c.jose c.outside c.env c.is_production c.now request s).1 ≡ none
unfolding require_authenticated has_server_session
proxy-passes-guard c request s passed =
    let ((payload, accepted), how) = (proxy-passes_iff c request s).0 passed in rw accepted refl
