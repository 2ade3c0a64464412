-- ===== src/Auth/Rpc/Clients/Laws.antt =====
-- web/src/lib/rpc.ts, web/src/lib/rpc-server.ts: where the calls of browser and server go.
use Prim.Native.String.{◌++◌}
use text.Mathlib.TextLemmas.{append-nil, cons-append}
use scylladb_grpc_microservi.Common.{
  String, Bool, true, false, none, ◌≡◌, ◌≢◌, refl, sym, ap, ◌∙◌, inl, inr, truthy, Option-cases,
  Bool-cases, eq_iff, is_blank, empty,
}
use scylladb_grpc_microservi.Auth.Cookies.{cookie_value, access_token_cookie_name}
use scylladb_grpc_microservi.Auth.Rpc.{
  ProxiedRequest, proxy_request, get_server_access_token, or_root,
}
use scylladb_grpc_microservi.Auth.Rpc.Laws.{proxy_request-IsForwarded, proxy_request_url}
use scylladb_grpc_microservi.Auth.Rpc.Clients.{
  Service, auth, notes, whiteboard, workspace, Environment, browser_base_url, mount_path,
  upstream_base_url, server_base_url, ends_with_slash, Transport, server_headers, handler,
}

mounted : (s : Service) → browser_base_url s ≡ mount_path s
unfolding browser_base_url mount_path
mounted auth = refl
mounted notes = refl
mounted whiteboard = refl
mounted workspace = refl

bare_mount : (s : Service) → ends_with_slash (browser_base_url s) ≡ false
unfolding browser_base_url ends_with_slash
bare_mount auth = refl
bare_mount notes = refl
bare_mount whiteboard = refl
bare_mount workspace = refl

same_upstream : (env : Environment) (s : Service) → upstream_base_url env s ≡ server_base_url env s
unfolding upstream_base_url server_base_url
same_upstream env auth = refl
same_upstream env notes = refl
same_upstream env whiteboard = refl
same_upstream env workspace = refl

slash_first : (method : String) → "/" ++ method ≢ ""
slash_first method h =
    let e : String.◌∷◌ "/" (String.[] ++ method) ≡ String.[] =
      sym (cons-append "/" String.[] method) ∙ h in
    cc

rooted : (method : String) → or_root ("/" ++ method) ++ "" ≡ "/" ++ method
rooted method = elim (Bool-cases (is_blank ("/" ++ method))) [
  | inl e ↦ absurd (slash_first method ((eq_iff ("/" ++ method) "").0 e))
  | inr e ↦ rw e (append-nil ("/" ++ method))
]

module _ (p : Bool) (env : Environment) (s : Service) (method : String) (r : ProxiedRequest) where
  same_bearer :
      (base mount : String)
      → r.headers "authorization" ≡ none
      → (proxy_request p base mount r).headers "authorization"
        ≡ server_headers p r.cookies empty "authorization"
  unfolding server_headers get_server_access_token
  same_bearer base mount bare =
      let token = truthy (cookie_value (access_token_cookie_name p) r.cookies) in
      let forwarded = proxy_request-IsForwarded p base mount r in
      elim (Option-cases token) [
        | inl missing ↦ rw missing (forwarded.no_token missing ∙ bare)
        | inr (t, there) ↦ rw there (forwarded.bearer_of_cookie t there)
      ]

  handler_header :
      r.headers "authorization" ≡ none
      → (handler p env s r).headers "authorization"
        ≡ server_headers p r.cookies empty "authorization"
  unfolding handler
  handler_header bare = same_bearer (upstream_base_url env s) (mount_path s) bare

  handler_url :
      (t : Transport)
      → r.pathname ≡ t.method_url (browser_base_url s) method
      → r.search ≡ ""
      → (handler p env s r).url ≡ server_base_url env s ++ ("/" ++ method)
  unfolding handler
  handler_url t path plain =
      let mount = mount_path s in
      let base = upstream_base_url env s in
      let below : r.pathname ≡ mount ++ ("/" ++ method) =
        path
        ∙ t.method_url-bare (browser_base_url s) method (bare_mount s)
        ∙ ap (λ b. b ++ ("/" ++ method)) (mounted s) in
      (proxy_request_url p base mount ("/" ++ method) r below).0
      ∙ ap (λ q. base ++ (or_root ("/" ++ method) ++ q)) plain
      ∙ ap (λ q. base ++ q) (rooted method)
      ∙ ap (λ b. b ++ ("/" ++ method)) (same_upstream env s)

  -- A call that a client of the browser makes, with its cookies and no Authorization header of its
  -- own, reaches the service with the Authorization header of the same call of a client that the server
  -- makes for the same cookies, and at the same URL if the base URL of the service does not end with a
  -- slash. If it does, the call of the browser gets that slash and one more before the method, and the
  -- call of the server one.
  pub handler-server_headers :
      (t : Transport)
      → r.pathname ≡ t.method_url (browser_base_url s) method
      → r.search ≡ ""
      → r.headers "authorization" ≡ none
      → let base = server_base_url env s in
        ((handler p env s r).headers "authorization"
          ≡ server_headers p r.cookies empty "authorization")
        × (ends_with_slash base ≡ false → (handler p env s r).url ≡ t.method_url base method)
        × (ends_with_slash base ≡ true
            → ((handler p env s r).url ≡ base ++ ("/" ++ method))
              × (t.method_url base method ≡ base ++ method))
  handler-server_headers t path plain bare =
      let base = server_base_url env s in
      (
        handler_header bare,
        λ b. handler_url t path plain ∙ sym (t.method_url-bare base method b),
        λ b. (handler_url t path plain, t.method_url-slash base method b),
      )
