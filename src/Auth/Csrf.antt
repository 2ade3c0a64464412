-- ===== src/Auth/Csrf.antt =====
-- web/src/lib/csrf.ts: `getRequestOrigin` and `assertSameOriginRequest`. `new URL(origin).host` is a
-- parameter; `none` stands for its exception.
pub mod Laws
use scylladb_grpc_microservi.Common.{
  String, Bool, true, false, ◌&&◌, Option, none, some, truthy, str_eq, not, opt_is, if◌then◌else◌,
}

pub record RequestHeaders : Type 0 where
  pub origin : Option String
  pub host : Option String
  pub sec_fetch_site : Option String

-- The test of the `sec-fetch-site` header, by which the check is refused.
unfoldable pub is_foreign_site : Option String → Bool
is_foreign_site none = false
is_foreign_site (some site) = not (str_eq site "same-origin") && not (str_eq site "same-site")

module _ (url_host : String → Option String) where
  unfoldable pub is_same_host : Option String → Option String → Bool
  is_same_host none host = false
  is_same_host (some origin) none = false
  is_same_host (some origin) (some host) = opt_is (url_host origin) host

  -- `true` where the function returns, `false` where it throws.
  unfoldable pub assert_same_origin_request : RequestHeaders → Bool
  assert_same_origin_request h =
      is_same_host (truthy h.origin) (truthy h.host)
      && not (is_foreign_site (truthy h.sec_fetch_site))
