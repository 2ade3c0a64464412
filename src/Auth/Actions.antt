-- ===== src/Auth/Actions.antt =====
-- web/src/actions/auth.ts, the server actions. The auth service is a parameter; `none` stands for
-- an exception of the call. Whether a logout call fails makes no difference, so it has no result.
-- The state is the cookies of the browser, which the cookie store of the request reads and writes,
-- and the calls made so far. `getServerRpcClients` attaches the access token as Bearer
-- (web/src/lib/rpc-server.ts).
pub mod Laws
use scylladb_grpc_microservi.Common.{
  String, Bool, true, false, Option, none, some, List, [], ◌∷◌, ◌++◌, truthy, if◌then◌else◌,
}
use scylladb_grpc_microservi.Auth.Csrf.{RequestHeaders, assert_same_origin_request}
use scylladb_grpc_microservi.Auth.Cookies.{
  CookieJar, cookie_value, apply_writes, access_token_cookie_name, refresh_token_cookie_name,
  action_auth_cookies, clear_auth_cookies,
}

pub record UserInfo : Type 0 where
  pub user_id : String
  pub name : String
  pub email : String

pub record AuthResponse : Type 0 where
  pub access_token : String
  pub refresh_token : String
  pub user : UserInfo

pub data RpcCall : Type 0 where
  login : (email password : String) → RpcCall
  register : (name email password : String) → RpcCall
  refresh : (refresh_token : String) → RpcCall
  logout : (refresh_token : String) → RpcCall
  current_user : (bearer : Option String) → RpcCall

pub record AuthService : Type 0 where
  pub on_login : String → String → Option AuthResponse
  pub on_register : String → String → String → Option AuthResponse
  pub on_refresh : String → Option AuthResponse
  pub on_current_user : Option String → Option UserInfo

pub record ActionState : Type 0 where
  pub jar : CookieJar
  pub calls : List RpcCall

pub data ActionResult {ℓ} (A : Type ℓ) : Type ℓ where
  returned : A → ActionResult A
  thrown : ActionResult A

abbrev pub called : RpcCall → ActionState → ActionState
called call s = record s { calls = s.calls ++ call ∷ [] }

module _ (service : AuthService) (url_host : String → Option String) (p : Bool) where
  -- The end of `loginAction` and `registerAction`.
  unfoldable pub sign_in : Option AuthResponse → ActionState → ActionState × ActionResult UserInfo
  sign_in none s = (s, thrown)
  sign_in (some r) s = (
    record s { jar = apply_writes (action_auth_cookies p r.access_token r.refresh_token) s.jar },
    returned r.user,
  )

  unfoldable pub login_action :
      RequestHeaders → String → String → ActionState → ActionState × ActionResult UserInfo
  login_action h email password s =
      if assert_same_origin_request url_host h
      then sign_in (service.on_login email password) (called (login email password) s)
      else (s, thrown)

  unfoldable pub register_action :
      RequestHeaders → String → String → String → ActionState → ActionState × ActionResult UserInfo
  register_action h name email password s =
      if assert_same_origin_request url_host h
      then sign_in (service.on_register name email password)
          (called (register name email password) s)
      else (s, thrown)

  pub refreshed_with :
      Option AuthResponse → ActionState → ActionState × ActionResult (Option String)
  refreshed_with none s = (s, thrown)
  refreshed_with (some r) s = (
    record s { jar = apply_writes (action_auth_cookies p r.access_token r.refresh_token) s.jar },
    returned (some r.access_token),
  )

  unfoldable pub refresh_access_token_action :
      ActionState → ActionState × ActionResult (Option String)
  unfolding refreshed_with
  refresh_access_token_action s = elim (truthy (cookie_value (refresh_token_cookie_name p) s.jar)) [
    | none ↦ (s, returned none)
    | some token ↦ refreshed_with (service.on_refresh token) (called (refresh token) s)
  ]

  -- `requireAccessTokenAction`, on what the refresh returned.
  pub require_token : ActionResult (Option String) → ActionResult String
  require_token thrown = thrown
  require_token (returned none) = thrown
  require_token (returned (some token)) = elim (truthy (some token)) [
    | none ↦ thrown
    | some t ↦ returned t
  ]

  unfoldable pub require_access_token_action : ActionState → ActionState × ActionResult String
  unfolding require_token
  require_access_token_action s =
      let (s', token) = refresh_access_token_action s in (s', require_token token)

  unfoldable pub get_current_user_action :
      ActionState → ActionState × ActionResult (Option UserInfo)
  get_current_user_action s =
      let token = cookie_value (access_token_cookie_name p) s.jar in
      (called (current_user (truthy token)) s, returned (service.on_current_user (truthy token)))

  -- The RPC of a logout, whose exception is only logged.
  pub revoke : Option String → ActionState → ActionState
  revoke none s = s
  revoke (some token) s = called (logout token) s

  unfoldable pub logout_action :
      RequestHeaders → ActionState → ActionState × ActionResult (Unit {0})
  unfolding revoke
  logout_action h s =
      if assert_same_origin_request url_host h
      then (let s' = revoke (truthy (cookie_value (refresh_token_cookie_name p) s.jar)) s in
          (record s' { jar = apply_writes (clear_auth_cookies p) s'.jar }, returned tt))
      else (s, thrown)
