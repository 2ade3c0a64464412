-- ===== src/Auth/Actions/Laws.antt =====
-- web/src/actions/auth.ts: what the server actions do to the session.
use scylladb_grpc_microservi.Common.{
  String, ◌≡◌, ◌⊎◌, inl, inr, refl, Bool, true, false, Option, none, some, [], ◌∷◌, ◌++◌, arith,
  truthy, is_blank, Option-cases,
}
use scylladb_grpc_microservi.Auth.Csrf.{RequestHeaders, assert_same_origin_request}
use scylladb_grpc_microservi.Auth.Cookies.{
  Cookie, cookie_value, access_token_cookie_name, refresh_token_cookie_name, auth_cookie,
}
use scylladb_grpc_microservi.Auth.Cookies.Laws.{
  HasTokens, IsCleared, action_auth_cookies-HasTokens, clear_auth_cookies-IsCleared,
}
use scylladb_grpc_microservi.Auth.Actions.{
  AuthResponse, login, logout, current_user, AuthService, ActionState, ActionResult, returned,
  thrown, called, sign_in, login_action, register_action, refresh_access_token_action,
  require_token, require_access_token_action, get_current_user_action, revoke, logout_action,
}

module _ (service : AuthService) (url_host : String → Option String) (p : Bool) where
  -- A request that fails the origin check makes login, registration and logout throw, with no call
  -- and no cookie written.
  pub cross_origin_unchanged :
      (h : RequestHeaders) (s : ActionState) (name email password : String)
      → assert_same_origin_request url_host h ≡ false
      → (login_action service url_host p h email password s ≡ (s, thrown))
        × (register_action service url_host p h name email password s ≡ (s, thrown))
        × (logout_action service url_host p h s ≡ (s, thrown))
  unfolding login_action register_action logout_action
  cross_origin_unchanged h s name email password e = rw e (refl, refl, refl)

  sign_in-HasTokens :
      (r : AuthResponse) (s : ActionState)
      → HasTokens p r.access_token r.refresh_token s.jar
          (sign_in service url_host p (some r) s).0.jar
  unfolding sign_in
  sign_in-HasTokens r s = action_auth_cookies-HasTokens p s.jar r.access_token r.refresh_token

  -- A same-origin login makes one call. If the service accepts, the cookies are the tokens of its
  -- answer and its user is returned; if not, the cookies stay and the action throws.
  pub login_action_lem :
      (h : RequestHeaders) (email password : String) (s : ActionState)
      → assert_same_origin_request url_host h ≡ true
      → let (s', result) = login_action service url_host p h email password s in
        (s'.calls ≡ s.calls ++ login email password ∷ [])
        × (((r : AuthResponse) × (service.on_login email password ≡ some r)
              × HasTokens p r.access_token r.refresh_token s.jar s'.jar
              × (result ≡ returned r.user))
            ⊎ ((service.on_login email password ≡ none) × (s'.jar ≡ s.jar) × (result ≡ thrown)))
  unfolding login_action sign_in
  login_action_lem h email password s e = elim (Option-cases (service.on_login email password)) [
    | inl refused ↦ rw (e, refused, sign_in) (refl, inr (refl, refl, refl))
    | inr (r, accepted) ↦
        rw (e, accepted, sign_in)
          (
            refl,
            inl (
              r,
              refl,
              action_auth_cookies-HasTokens p s.jar r.access_token r.refresh_token,
              refl,
            ),
          )
  ]

  -- A same-origin logout returns, whatever the service does: it makes one call with the refresh token
  -- if there is one that is not empty, and no call otherwise. Outside production both auth cookies are
  -- then gone from the browser and its others stand; in production, where it refuses the deletions, all
  -- its cookies stand.
  pub logout_action_lem :
      (h : RequestHeaders) (s : ActionState)
      → assert_same_origin_request url_host h ≡ true
      → let (s', result) = logout_action service url_host p h s in
        (result ≡ returned tt)
        × IsCleared p s.jar s'.jar
        × (((token : String) × (truthy (cookie_value (refresh_token_cookie_name p) s.jar)
                ≡ some token)
              × (s'.calls ≡ s.calls ++ logout token ∷ []))
            ⊎ ((truthy (cookie_value (refresh_token_cookie_name p) s.jar) ≡ none)
                × (s'.calls ≡ s.calls)))
  unfolding logout_action revoke
  logout_action_lem h s e =
      elim (Option-cases (truthy (cookie_value (refresh_token_cookie_name p) s.jar))) [
        | inl missing ↦
            rw (e, missing, revoke) (refl, clear_auth_cookies-IsCleared p s.jar, inr (refl, refl))
        | inr (token, there) ↦
            rw (e, there, revoke)
              (refl, clear_auth_cookies-IsCleared p s.jar, inl (token, refl, refl))
      ]

  refresh_absent :
      (s : ActionState)
      → s.jar (refresh_token_cookie_name p) ≡ none
      → refresh_access_token_action service url_host p s ≡ (s, returned none)
  unfolding refresh_access_token_action
  refresh_absent s gone = ground arith

  -- After a logout outside production the session cannot be refreshed: the refresh returns null and makes no call.
  pub logout-refresh :
      (h : RequestHeaders) (s : ActionState)
      → assert_same_origin_request url_host h ≡ true
      → p ≡ false
      → refresh_access_token_action service url_host p (logout_action service url_host p h s).0
        ≡ ((logout_action service url_host p h s).0, returned none)
  logout-refresh h s e dev =
      refresh_absent (logout_action service url_host p h s).0
        ((logout_action_lem h s e).1.development dev).refresh_gone

  profile_bearer :
      (s : ActionState) (c : Cookie)
      → s.jar (access_token_cookie_name p) ≡ some c
      → (get_current_user_action service url_host p s).0.calls
        ≡ s.calls ++ current_user (truthy (some c.value)) ∷ []
  unfolding get_current_user_action
  profile_bearer s c there = ground arith

  login_access :
      (h : RequestHeaders) (email password : String) (s : ActionState) (r : AuthResponse)
      → assert_same_origin_request url_host h ≡ true
      → service.on_login email password ≡ some r
      → (login_action service url_host p h email password s).0.jar (access_token_cookie_name p)
        ≡ some (auth_cookie p r.access_token 900)
  unfolding login_action
  login_access h email password s r e accepted =
      rw (e, accepted) (sign_in-HasTokens r (called (login email password) s)).access_set

  -- After a login, the profile is asked for with the access token of the login's answer.
  pub login-get_current_user :
      (h : RequestHeaders) (email password : String) (s : ActionState) (r : AuthResponse)
      → assert_same_origin_request url_host h ≡ true
      → service.on_login email password ≡ some r
      → let s' = (login_action service url_host p h email password s).0 in
        (get_current_user_action service url_host p s').0.calls
        ≡ s'.calls ++ current_user (truthy (some r.access_token)) ∷ []
  unfolding auth_cookie
  login-get_current_user h email password s r e accepted =
      profile_bearer (login_action service url_host p h email password s).0
        (auth_cookie p r.access_token 900) (login_access h email password s r e accepted)

  required :
      (r : ActionResult (Option String)) (t : String)
      → require_token service url_host p r ≡ returned t
      → (is_blank t ≡ false) × (r ≡ returned (some t))
  unfolding require_token
  required thrown t e = cc
  required (returned none) t e = cc
  required (returned (some u)) t e = ground arith

  -- The token that is required is never empty: where the refresh gives none, the action throws.
  pub require_access_token_action-ne-blank :
      (s : ActionState) (t : String)
      → (require_access_token_action service url_host p s).1 ≡ returned t
      → (is_blank t ≡ false)
        × ((refresh_access_token_action service url_host p s).1 ≡ returned (some t))
  unfolding require_access_token_action
  require_access_token_action-ne-blank s t e =
      required (refresh_access_token_action service url_host p s).1 t e
