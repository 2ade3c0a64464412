-- ===== src/Auth/ActionTests.antt =====
-- The server actions and the outgoing requests on concrete inputs, and the theorems applied to them.
use scylladb_grpc_microservi.Common.{
  String, ◌≡◌, ◌⊎◌, refl, false, none, some, [], ◌∷◌, ◌++◌ as append, str_eq, truthy, if◌then◌else◌,
  empty, write,
}
use scylladb_grpc_microservi.Auth.Cookies.{
  cookie_value, access_token_cookie_name, refresh_token_cookie_name, auth_cookie,
}
use scylladb_grpc_microservi.Auth.Cookies.Laws.{IsCleared}
use scylladb_grpc_microservi.Auth.Actions.{
  UserInfo, AuthResponse, logout, AuthService, ActionState, returned, logout_action,
  refresh_access_token_action, require_access_token_action,
}
use scylladb_grpc_microservi.Auth.Actions.Laws.{logout_action_lem}
use scylladb_grpc_microservi.Auth.Rpc.{
  ProxiedRequest, proxy_request, TicketResponse, body, not_ok, fetch_ws_ticket,
  get_server_access_token,
}
use scylladb_grpc_microservi.Auth.Rpc.Laws.{IsForwarded, proxy_request-IsForwarded}
use scylladb_grpc_microservi.Auth.SessionTests.{
  session, url_host, own_page, own_page_passes, cookie,
}

abbrev user : UserInfo
user = record { user_id = "u1"; name = "Ada"; email = "ada@example.org" }

abbrev answer : AuthResponse
answer = record { access_token = "a3"; refresh_token = "r3"; user = user }

abbrev pub service : AuthService
service = record {
  on_login = λ email password. if str_eq password "secret" then some answer else none;
  on_register = λ name email password. none;
  on_refresh = λ t. if str_eq t "good" then some answer else none;
  on_current_user = λ b. none;
}

abbrev pub start : ActionState
start = record { jar = session; calls = [] }

logout_action_lem_example :
    let (s', result) = logout_action service url_host false own_page start in
    (result ≡ returned tt)
    × IsCleared false session s'.jar
    × (((token : String) × (truthy (cookie_value (refresh_token_cookie_name false) session)
            ≡ some token)
          × (s'.calls ≡ append [] (logout token ∷ [])))
        ⊎ ((truthy (cookie_value (refresh_token_cookie_name false) session) ≡ none)
            × (s'.calls ≡ [])))
logout_action_lem_example = logout_action_lem service url_host false own_page start own_page_passes

refreshed_token : (require_access_token_action service url_host false start).1 ≡ returned "a3"
unfolding require_access_token_action refresh_access_token_action refresh_token_cookie_name
    auth_cookie
refreshed_token = refl

abbrev request : ProxiedRequest
request = record {
  method = "POST";
  pathname = "/api/rpc/notes/List";
  search = "?v=1";
  headers = write "cookie" "access_token=a9" (write "accept" "json" empty);
  body = some "{}";
  cookies = write "access_token" (cookie "a9") empty;
}

proxy_request-IsForwarded_example :
    IsForwarded false "http://notes" "/api/rpc/notes" request
      (proxy_request false "http://notes" "/api/rpc/notes" request)
proxy_request-IsForwarded_example =
    proxy_request-IsForwarded false "http://notes" "/api/rpc/notes" request

abbrev ticket_service : String → String → TicketResponse
ticket_service url authorization =
    if str_eq authorization "Bearer a9" then body (some "t1") else not_ok

ticket_returned :
    fetch_ws_ticket ticket_service false request.cookies "http://notes/ws/ticket" ≡ returned "t1"
unfolding fetch_ws_ticket get_server_access_token access_token_cookie_name auth_cookie
ticket_returned = refl
