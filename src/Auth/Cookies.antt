-- ===== src/Auth/Cookies.antt =====
-- web/src/lib/auth-cookie.ts, and the two copies of `setAuthCookies` with the two ways to clear the
-- pair: web/src/proxy.ts writes on a response, web/src/actions/auth.ts on the cookie store.
pub mod Laws
use scylladb_grpc_microservi.Common.{
  ℕ, ◌*◌, String, Bool, true, not, ◌&&◌, ◌||◌, str_eq, List, [], ◌∷◌, Option, none, some,
  if◌then◌else◌, Store, write, erase,
}

pub data SameSite : Type 0 where
  strict lax : SameSite

pub record Cookie : Type 0 where
  pub value : String
  pub http_only : Bool
  pub secure : Bool
  pub same_site : SameSite
  pub path : String
  pub max_age : ℕ

-- A write of a cookie store: `set` or `delete`.
pub data CookieWrite : Type 0 where
  set : String → Cookie → CookieWrite
  delete : String → CookieWrite

abbrev pub CookieJar : Type 0
CookieJar = Store Cookie

-- `name.startsWith("__Host-")`, of the names of the two cookies.
unfoldable pub is_host_name : String → Bool
is_host_name name = str_eq name "__Host-access_token" || str_eq name "__Host-refresh_token"

-- What the browser makes of a write: a cookie whose name begins with "__Host-" is refused unless it is
-- secure and for the path "/". A `delete` is sent as an empty cookie that has expired, for the path
-- "/" and not secure, so that the browser refuses it for such a name.
unfoldable pub apply_write : CookieWrite → CookieJar → CookieJar
apply_write (set name c) jar =
    if is_host_name name && not (c.secure && str_eq c.path "/") then jar else write name c jar
apply_write (delete name) jar = if is_host_name name then jar else erase name jar

unfoldable pub apply_writes : List CookieWrite → CookieJar → CookieJar
unfolding apply_write
apply_writes [] jar = jar
apply_writes (w ∷ ws) jar = apply_writes ws (apply_write w jar)

-- `store.get(name)?.value`
abbrev pub cookie_value : String → CookieJar → Option String
cookie_value name jar = elim (jar name) [ none ↦ none | some c ↦ some c.value ]

module _ (is_production : Bool) where
  unfoldable pub access_token_cookie_name : String
  access_token_cookie_name = if is_production then "__Host-access_token" else "access_token"

  unfoldable pub refresh_token_cookie_name : String
  refresh_token_cookie_name = if is_production then "__Host-refresh_token" else "refresh_token"

  unfoldable pub auth_cookie : String → ℕ → Cookie
  auth_cookie value max_age = record {
    value = value;
    http_only = true;
    secure = is_production;
    same_site = strict;
    path = "/";
    max_age = max_age;
  }

  -- `setAuthCookies` of proxy.ts: the refresh cookie first.
  unfoldable pub response_auth_cookies : String → String → List CookieWrite
  unfolding auth_cookie
  response_auth_cookies access_token refresh_token =
      set refresh_token_cookie_name (auth_cookie refresh_token (7 * 24 * 60 * 60))
      ∷ set access_token_cookie_name (auth_cookie access_token (15 * 60))
      ∷ []

  -- `setAuthCookies` of actions/auth.ts: the access cookie first.
  unfoldable pub action_auth_cookies : String → String → List CookieWrite
  unfolding auth_cookie
  action_auth_cookies access_token refresh_token =
      set access_token_cookie_name (auth_cookie access_token (15 * 60))
      ∷ set refresh_token_cookie_name (auth_cookie refresh_token (7 * 24 * 60 * 60))
      ∷ []

  -- The two deletions of `redirectToLogin`.
  unfoldable pub response_clear_cookies : List CookieWrite
  response_clear_cookies = delete refresh_token_cookie_name ∷ delete access_token_cookie_name ∷ []

  -- `clearAuthCookies` of actions/auth.ts.
  unfoldable pub clear_auth_cookies : List CookieWrite
  clear_auth_cookies = delete access_token_cookie_name ∷ delete refresh_token_cookie_name ∷ []
