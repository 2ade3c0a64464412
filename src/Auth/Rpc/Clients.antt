-- ===== src/Auth/Rpc/Clients.antt =====
-- The clients of the services: web/src/lib/rpc.ts in the browser, web/src/lib/rpc-server.ts on the
-- server, and the routes web/src/app/api/rpc/*/[[...path]]/route.ts between them.
pub mod Laws
use Prim.Native.String.{◌++◌}
use scylladb_grpc_microservi.Common.{
  String, Bool, true, false, Option, none, some, Store, truthy, is_blank, str_eq, if◌then◌else◌,
  ◌≡◌,
}
use scylladb_grpc_microservi.Auth.Cookies.{CookieJar}
use scylladb_grpc_microservi.Auth.Rpc.{
  ProxiedRequest, UpstreamRequest, proxy_request, authorize, get_server_access_token,
}

pub data Service : Type 0 where
  auth notes whiteboard workspace : Service

-- `process.env`, where it names the services.
pub record Environment : Type 0 where
  pub auth_rpc_url : Option String
  pub notes_rpc_url : Option String
  pub whiteboard_rpc_url : Option String
  pub workspace_rpc_url : Option String
  pub next_public_notes_rpc_url : Option String
  pub next_public_whiteboard_rpc_url : Option String

-- `o ?? d`
abbrev pub or_default : Option String → String → String
or_default none d = d
or_default (some s) d = s

-- The base URL of a client of the browser.
unfoldable pub browser_base_url : Service → String
browser_base_url auth = "/api/rpc/auth"
browser_base_url notes = "/api/rpc/notes"
browser_base_url whiteboard = "/api/rpc/whiteboard"
browser_base_url workspace = "/api/rpc/workspace"

-- The two arguments of `createRpcProxy` in the route of a service.
unfoldable pub mount_path : Service → String
mount_path auth = "/api/rpc/auth"
mount_path notes = "/api/rpc/notes"
mount_path whiteboard = "/api/rpc/whiteboard"
mount_path workspace = "/api/rpc/workspace"

unfoldable pub upstream_base_url : Environment → Service → String
upstream_base_url env auth = or_default env.auth_rpc_url "http://localhost:50051"
upstream_base_url env notes = or_default env.notes_rpc_url "http://localhost:9092"
upstream_base_url env whiteboard = or_default env.whiteboard_rpc_url "http://localhost:9093"
upstream_base_url env workspace = or_default env.workspace_rpc_url "http://localhost:9091"

-- The base URL of a client of the server.
unfoldable pub server_base_url : Environment → Service → String
server_base_url env auth = or_default env.auth_rpc_url "http://localhost:50051"
server_base_url env notes = or_default env.notes_rpc_url "http://localhost:9092"
server_base_url env whiteboard = or_default env.whiteboard_rpc_url "http://localhost:9093"
server_base_url env workspace = or_default env.workspace_rpc_url "http://localhost:9091"

-- The base URLs of the clients that the actions for assets make.
unfoldable pub notes_assets_base_url : Environment → String
notes_assets_base_url env = or_default env.next_public_notes_rpc_url "http://localhost:9092"

unfoldable pub whiteboard_assets_base_url : Environment → String
whiteboard_assets_base_url env =
    or_default env.next_public_whiteboard_rpc_url "http://localhost:9093"

-- `s.endsWith("/")`
unfoldable pub ends_with_slash : String → Bool
ends_with_slash String.[] = false
ends_with_slash (String.◌∷◌ c s) =
    let rest = ends_with_slash s in if is_blank s then str_eq (String.◌∷◌ c String.[]) "/" else rest

-- The transports of the package. `method_url` is where one sends a call of a method: below its base
-- URL, with one slash between them whether or not the base ends with one.
pub record Transport : Type 0 where
  pub method_url : (base method : String) → String
  pub method_url-bare :
      (base method : String)
      → ends_with_slash base ≡ false
      → method_url base method ≡ base ++ ("/" ++ method)
  pub method_url-slash :
      (base method : String) → ends_with_slash base ≡ true → method_url base method ≡ base ++ method

unfoldable pub bearer_interceptor : Option String → Store String → Store String
bearer_interceptor token headers = authorize (truthy token) headers

-- The headers of a call of a client that `getServerRpcClients` gives.
unfoldable pub server_headers : Bool → CookieJar → Store String → Store String
unfolding bearer_interceptor
server_headers p jar headers = bearer_interceptor (get_server_access_token p jar) headers

-- The route of a service.
unfoldable pub handler : Bool → Environment → Service → ProxiedRequest → UpstreamRequest
handler p env s r = proxy_request p (upstream_base_url env s) (mount_path s) r
