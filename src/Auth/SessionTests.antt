-- ===== src/Auth/SessionTests.antt =====
-- The middleware, the server actions and the outgoing requests on concrete inputs, and the theorems
-- applied to them.
use scylladb_grpc_microservi.Common.{
  ℕ, String, ◌≡◌, ◌≢◌, ◌↔◌, inl, inr, refl, true, false, Option, none, some, str_eq, if◌then◌else◌,
  empty, write,
}
use scylladb_grpc_microservi.Auth.Jwks.{network_error}
use scylladb_grpc_microservi.Auth.Validate.{validate_refresh_token}
use scylladb_grpc_microservi.Auth.Token.{
  is_access_token_expired_or_missing, after_dot, until_dot, is_past,
}
use scylladb_grpc_microservi.Auth.Cookies.{
  Cookie, CookieJar, auth_cookie, refresh_token_cookie_name,
}
use scylladb_grpc_microservi.Auth.Proxy.{TokenPair, ProxyContext, proxy, redirect_to_login}
use scylladb_grpc_microservi.Auth.Proxy.Laws.{MayPass, proxy-passes_iff}
use scylladb_grpc_microservi.Auth.Csrf.{
  RequestHeaders, assert_same_origin_request, is_same_host, is_foreign_site,
}
use scylladb_grpc_microservi.Auth.Csrf.Laws.{IsSameOrigin, assert_same_origin_request_iff}
use scylladb_grpc_microservi.Auth.Tests

-- A payload part "p9000" expires at 9000 s; nothing else decodes.
abbrev decode_payload : String → Option (Option ℕ)
decode_payload part = if str_eq part "p9000" then some (some 9000) else none

fresh_boundary :
    (is_access_token_expired_or_missing decode_payload (some "h.p9000.s") 15 8984999 ≡ false)
    × (is_access_token_expired_or_missing decode_payload (some "h.p9000.s") 15 8985000 ≡ true)
unfolding is_access_token_expired_or_missing after_dot until_dot is_past
fresh_boundary = (refl, refl)

abbrev pub new_pair : TokenPair
new_pair = record { access_token = "a2"; refresh_token = "r2" }

abbrev pub context : ProxyContext
context = record {
  jose = Tests.jose;
  outside = Tests.alone network_error;
  env = Tests.env;
  now = 5000;
  later = 5000;
  decode_payload = decode_payload;
  refresh_rpc = λ t. some new_pair;
  is_production = false;
}

abbrev pub cookie : String → Cookie
cookie v = auth_cookie false v 60

-- A session whose access token is missing, and a browser with no session at all.
abbrev pub session : CookieJar
session = write "refresh_token" (cookie "good") empty

proxy-passes_iff_example :
    ((proxy context session Tests.cached_state).1.redirect ≡ none)
    ↔ MayPass context session Tests.cached_state
proxy-passes_iff_example = proxy-passes_iff context session Tests.cached_state

pub no_session_redirect : (proxy context empty Tests.cached_state).1.redirect ≢ none
unfolding proxy redirect_to_login validate_refresh_token refresh_token_cookie_name
no_session_redirect = λ e. cc

abbrev pub url_host : String → Option String
url_host s = if str_eq s "https://app.example" then some "app.example" else none

abbrev pub own_page : RequestHeaders
own_page = record {
  origin = some "https://app.example";
  host = some "app.example";
  sec_fetch_site = some "same-origin";
}

abbrev pub foreign_page : RequestHeaders
foreign_page = record own_page { origin = some "https://evil.example" }

pub own_page_passes : assert_same_origin_request url_host own_page ≡ true
own_page_passes = (assert_same_origin_request_iff url_host own_page).1 (record {
  origin = "https://app.example";
  host = "app.example";
  has_origin = refl;
  has_host = refl;
  same = refl;
  site = inr (inl refl);
})

assert_same_origin_request_iff_example :
    (assert_same_origin_request url_host foreign_page ≡ true) ↔ IsSameOrigin url_host foreign_page
assert_same_origin_request_iff_example = assert_same_origin_request_iff url_host foreign_page

pub foreign_page_fails : assert_same_origin_request url_host foreign_page ≡ false
unfolding assert_same_origin_request is_same_host is_foreign_site
foreign_page_fails = refl
