-- ===== src/Auth/Rpc/Laws.antt =====
-- web/src/lib/create-rpc-proxy.ts, web/src/actions/ws-tickets.ts: what leaves the server.
use Prim.Native.String.{count, ◌++◌}
use Prim.Native.String.count
use text.Mathlib.TextLemmas.{nil-append, cons-append}
use scylladb_grpc_microservi.Common.{
  String, ◌≡◌, ◌≢◌, ◌⊎◌, refl, inl, inr, Bool, false, none, some, arith, truthy, is_blank,
  Option-cases, eq_iff,
}
use scylladb_grpc_microservi.Auth.Cookies.{CookieJar, cookie_value, access_token_cookie_name}
use scylladb_grpc_microservi.Auth.Actions.{returned}
use scylladb_grpc_microservi.Auth.Rpc.{
  ProxiedRequest, UpstreamRequest, proxy_request, slice_from, or_root, bearer, TicketResponse, body,
  read_ticket, fetch_ws_ticket, get_server_access_token,
}

-- What the upstream gets of the browser's request `r`.
pub record IsForwarded (p : Bool) (base mount : String) (r : ProxiedRequest) (u : UpstreamRequest)
    : Type 0 where
  pub same_method : u.method ≡ r.method
  pub target :
      (rest : String) → r.pathname ≡ mount ++ rest → u.url ≡ base ++ (or_root rest ++ r.search)
  pub same_body : r.method ≢ "GET" → r.method ≢ "HEAD" → u.body ≡ r.body
  pub no_body : (r.method ≡ "GET") ⊎ (r.method ≡ "HEAD") → u.body ≡ none
  pub no_cookie : u.headers "cookie" ≡ none
  pub no_host : u.headers "host" ≡ none
  pub bearer_of_cookie :
      (token : String)
      → truthy (cookie_value (access_token_cookie_name p) r.cookies) ≡ some token
      → u.headers "authorization" ≡ some (bearer token)
  pub no_token :
      truthy (cookie_value (access_token_cookie_name p) r.cookies) ≡ none
      → u.headers "authorization" ≡ r.headers "authorization"
  pub others :
      (name : String)
      → name ≢ "cookie"
      → name ≢ "host"
      → name ≢ "authorization"
      → u.headers name ≡ r.headers name

slice_from-append : (s t : String) → slice_from (count s) (s ++ t) ≡ t
unfolding slice_from
slice_from-append String.[] t = nil-append t
slice_from-append (String.◌∷◌ c s) t = rw (cons-append, count.cons) (slice_from-append s t)

-- Below the mount path, the upstream's url is its base, the rest of the path ("/" if there is none)
-- and the query; the body goes with every method but GET and HEAD.
pub proxy_request_url :
    (p : Bool) (base mount rest : String) (r : ProxiedRequest)
    → r.pathname ≡ mount ++ rest
    → ((proxy_request p base mount r).url ≡ base ++ (or_root rest ++ r.search))
      × ((r.method ≢ "GET") → (r.method ≢ "HEAD") → (proxy_request p base mount r).body ≡ r.body)
unfolding proxy_request
proxy_request_url p base mount rest r h = (
  rw (h, slice_from-append mount rest),
  λ g d. ground (arith, eq_iff r.method "GET", eq_iff r.method "HEAD"),
)

-- The upstream gets neither the browser's cookies nor its Host header; the Authorization header is
-- the access token of the cookie, or, without a token, what the browser sent; all other headers, the
-- method and the query are kept, and the body with every method but GET and HEAD, which have none.
-- Below the mount path the url is the base and the rest of the path, or "/" if there is none.
pub proxy_request-IsForwarded :
    (p : Bool) (base mount : String) (r : ProxiedRequest)
    → IsForwarded p base mount r (proxy_request p base mount r)
unfolding proxy_request
proxy_request-IsForwarded p base mount r = record {
  same_method = refl;
  target = λ rest h. (proxy_request_url p base mount rest r h).0;
  same_body = λ g d. ground (arith, eq_iff r.method "GET", eq_iff r.method "HEAD");
  no_body = λ h. ground (arith, eq_iff r.method "GET", eq_iff r.method "HEAD");
  no_cookie = ground arith;
  no_host = ground arith;
  bearer_of_cookie = λ token h. ground arith;
  no_token = λ h. ground arith;
  others = λ name x y z.
      ground (arith, eq_iff "cookie" name, eq_iff "host" name, eq_iff "authorization" name);
}

read_ticket-returned :
    (a : TicketResponse) (t : String)
    → read_ticket a ≡ returned t
    → (is_blank t ≡ false) × (a ≡ body (some t))
unfolding read_ticket
read_ticket-returned (body none) t h = cc
read_ticket-returned (body (some u)) t h = ground arith
read_ticket-returned _ t h = cc

-- A ticket is returned only to a user with an access token that is not empty, only as the answer to
-- a request that carried this token, and is itself not empty.
pub fetch_ws_ticket-returned :
    (service : String → String → TicketResponse) (p : Bool) (jar : CookieJar) (url t : String)
    → fetch_ws_ticket service p jar url ≡ returned t
    → (token : String) × (truthy (cookie_value (access_token_cookie_name p) jar) ≡ some token)
      × (service url (bearer token) ≡ body (some t))
      × (is_blank t ≡ false)
unfolding fetch_ws_ticket get_server_access_token
fetch_ws_ticket-returned service p jar url t h =
    elim (Option-cases (truthy (get_server_access_token p jar))) [
      | inl missing ↦ absurd (ground arith)
      | inr (token, there) ↦
          let (good, answer) =
            read_ticket-returned (service url (bearer token)) t
              (rw (there, fetch_ws_ticket) at h) in
          (token, there, answer, good)
    ]
