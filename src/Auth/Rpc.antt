-- ===== src/Auth/Rpc.antt =====
-- The server's requests to the backends: web/src/lib/create-rpc-proxy.ts,
-- web/src/lib/server-access-token.ts and web/src/actions/ws-tickets.ts. Header names are in lower
-- case, as `Headers` compares them. A path is ASCII, so its length counts its characters.
pub mod Laws
pub mod Clients
use Prim.Native.String.{count, ◌++◌}
use scylladb_grpc_microservi.Common.{
  ℕ, zero, suc, String, Bool, ◌||◌, Option, none, some, is_blank, str_eq, truthy, if◌then◌else◌,
  Store, write, erase,
}
use scylladb_grpc_microservi.Auth.Cookies.{CookieJar, cookie_value, access_token_cookie_name}
use scylladb_grpc_microservi.Auth.Actions.{ActionResult, returned, thrown}

-- `readAccessTokenFromCookie`
unfoldable pub get_server_access_token : Bool → CookieJar → Option String
get_server_access_token p jar = cookie_value (access_token_cookie_name p) jar

pub record ProxiedRequest : Type 0 where
  pub method : String
  pub pathname : String
  pub search : String
  pub headers : Store String
  pub body : Option String
  pub cookies : CookieJar

pub record UpstreamRequest : Type 0 where
  pub url : String
  pub method : String
  pub headers : Store String
  pub body : Option String

-- `path.slice(n)`
pub slice_from : ℕ → String → String
slice_from zero s = s
slice_from (suc n) String.[] = ""
slice_from (suc n) (String.◌∷◌ c s) = slice_from n s

abbrev pub or_root : String → String
or_root path = if is_blank path then "/" else path

abbrev pub bearer : String → String
bearer token = "Bearer " ++ token

abbrev pub authorize : Option String → Store String → Store String
authorize none headers = headers
authorize (some token) headers = write "authorization" (bearer token) headers

-- The handler that `createRpcProxy(upstreamBaseUrl, mountPath)` returns, up to its `fetch`. The
-- answer of the upstream is passed on as it comes.
unfoldable pub proxy_request : Bool → String → String → ProxiedRequest → UpstreamRequest
unfolding slice_from
proxy_request p base mount r = record {
  url = base ++ (or_root (slice_from (count mount) r.pathname) ++ r.search);
  method = r.method;
  headers =
      authorize (truthy (cookie_value (access_token_cookie_name p) r.cookies))
        (erase "cookie" (erase "host" r.headers));
  body = if str_eq r.method "GET" || str_eq r.method "HEAD" then none else r.body;
}

-- How the ticket request ends: an exception, a status that is not ok, or a JSON body with its ticket.
pub data TicketResponse : Type 0 where
  unreachable : TicketResponse
  not_ok : TicketResponse
  body : Option String → TicketResponse

pub read_ticket : TicketResponse → ActionResult String
read_ticket unreachable = thrown
read_ticket not_ok = thrown
read_ticket (body ticket) = elim (truthy ticket) [ none ↦ thrown | some t ↦ returned t ]

-- `fetchWsTicket(url)`; the service answers a url and the Authorization header.
unfoldable pub fetch_ws_ticket :
    (String → String → TicketResponse) → Bool → CookieJar → String → ActionResult String
unfolding read_ticket
fetch_ws_ticket service p jar url = elim (truthy (get_server_access_token p jar)) [
  | none ↦ thrown
  | some token ↦ read_ticket (service url (bearer token))
]

unfoldable pub request_notes_ws_ticket_action :
    (String → String → TicketResponse) → Bool → CookieJar → String → ActionResult String
unfolding fetch_ws_ticket
request_notes_ws_ticket_action service p jar rpc_url =
    fetch_ws_ticket service p jar (rpc_url ++ "/ws/ticket")

unfoldable pub request_whiteboard_ws_ticket_action :
    (String → String → TicketResponse) → Bool → CookieJar → String → ActionResult String
unfolding fetch_ws_ticket
request_whiteboard_ws_ticket_action service p jar rpc_url =
    fetch_ws_ticket service p jar (rpc_url ++ "/ws/ticket")
