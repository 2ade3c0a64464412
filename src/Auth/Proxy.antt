-- ===== src/Auth/Proxy.antt =====
-- web/src/proxy.ts, the middleware of every page.
pub mod Laws
pub mod Race
use scylladb_grpc_microservi.Common.{ℕ, String, Bool, Option, none, some, List, [], if◌then◌else◌}
use scylladb_grpc_microservi.Auth.Jwks.{JwksState, Outside}
use scylladb_grpc_microservi.Auth.Validate.{
  Jose, JwksEnv, Validation, valid, invalid, validate_refresh_token,
}
use scylladb_grpc_microservi.Auth.Token.{is_access_token_expired_or_missing, default_skew}
use scylladb_grpc_microservi.Auth.Cookies.{
  CookieWrite, CookieJar, cookie_value, access_token_cookie_name, refresh_token_cookie_name,
  response_auth_cookies, response_clear_cookies,
}

-- `NextResponse.redirect(path)` or `NextResponse.next()`, with the writes of its cookies.
pub record NextResponse : Type 0 where
  pub redirect : Option String
  pub cookies : List CookieWrite

-- The fields of the refresh RPC's answer that are read; `none` stands for an exception.
pub record TokenPair : Type 0 where
  pub access_token : String
  pub refresh_token : String

pub record ProxyContext : Type 1 where
  pub jose : Jose
  pub outside : Outside
  pub env : JwksEnv
  -- The clock when the refresh token is validated, and when the access token is looked at.
  pub now : ℕ
  pub later : ℕ
  pub decode_payload : String → Option (Option ℕ)
  pub refresh_rpc : Option String → Option TokenPair
  pub is_production : Bool

unfoldable pub redirect_to_login : Bool → NextResponse
redirect_to_login p = record { redirect = some "/login"; cookies = response_clear_cookies p }

abbrev pub pass : NextResponse
pass = record { redirect = none; cookies = [] }

module _ (c : ProxyContext) where
  -- The `try` around the refresh RPC.
  pub refresh_session : Option TokenPair → NextResponse
  unfolding redirect_to_login
  refresh_session none = redirect_to_login c.is_production
  refresh_session (some t) = record {
    redirect = none;
    cookies = response_auth_cookies c.is_production t.access_token t.refresh_token;
  }

  pub proxy_validated : CookieJar → Validation → NextResponse
  unfolding redirect_to_login refresh_session
  proxy_validated request (invalid reason) = redirect_to_login c.is_production
  proxy_validated request (valid payload) =
      let access = cookie_value (access_token_cookie_name c.is_production) request in
      if is_access_token_expired_or_missing c.decode_payload access default_skew c.later
      then refresh_session
          (c.refresh_rpc (cookie_value (refresh_token_cookie_name c.is_production) request))
      else pass

  unfoldable pub proxy : CookieJar → JwksState → JwksState × NextResponse
  unfolding proxy_validated
  proxy request s =
      let token = cookie_value (refresh_token_cookie_name c.is_production) request in
      let (s', v) = validate_refresh_token c.jose c.outside c.env c.now token s in
      (s', proxy_validated request v)
