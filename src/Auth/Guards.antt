-- ===== src/Auth/Guards.antt =====
-- web/src/lib/server-auth.ts: the guards of the layouts, which run on the server after the middleware.
pub mod Laws
use scylladb_grpc_microservi.Common.{
  ℕ, String, Bool, true, false, Option, none, some, if◌then◌else◌,
}
use scylladb_grpc_microservi.Auth.Jwks.{JwksState, Outside}
use scylladb_grpc_microservi.Auth.Validate.{
  Jose, JwksEnv, Validation, valid, invalid, validate_refresh_token,
}
use scylladb_grpc_microservi.Auth.Cookies.{CookieJar, cookie_value, refresh_token_cookie_name}

abbrev pub is_valid : Validation → Bool
is_valid (valid payload) = true
is_valid (invalid reason) = false

module _ (jose : Jose) (outside : Outside) (env : JwksEnv) (p : Bool) where
  unfoldable pub has_server_session : ℕ → CookieJar → JwksState → JwksState × Bool
  has_server_session now jar s =
      let token = cookie_value (refresh_token_cookie_name p) jar in
      let (s', v) = validate_refresh_token jose outside env now token s in (s', is_valid v)

  -- The two guards give the path that they redirect to, `none` where they return.
  unfoldable pub require_authenticated : ℕ → CookieJar → JwksState → JwksState × Option String
  require_authenticated now jar s =
      let (s', authenticated) = has_server_session now jar s in
      (s', if authenticated then none else some "/login")

  unfoldable pub require_guest : ℕ → CookieJar → JwksState → JwksState × Option String
  require_guest now jar s =
      let (s', authenticated) = has_server_session now jar s in
      (s', if authenticated then some "/workspace" else none)
