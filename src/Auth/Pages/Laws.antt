-- ===== src/Auth/Pages/Laws.antt =====
-- The submission of the login form (web/src/modules/auth/components/login-form.tsx).
use scylladb_grpc_microservi.Common.{
  String, Bool, true, Option, none, some, [], ◌∷◌, ◌++◌, ◌≡◌, ◌⊎◌, inl, inr, refl,
}
use scylladb_grpc_microservi.Auth.Csrf.{RequestHeaders, assert_same_origin_request}
use scylladb_grpc_microservi.Auth.Cookies.Laws.{HasTokens}
use scylladb_grpc_microservi.Auth.Actions.{
  AuthService, AuthResponse, UserInfo, ActionState, ActionResult, returned, thrown, login_action,
}
use scylladb_grpc_microservi.Auth.Actions.Laws.{login_action_lem}
use scylladb_grpc_microservi.Auth.Pages.{FormState, submitted, submit_login}

-- The form goes on to the workspaces.
abbrev pub GoesOn : FormState → FormState → Type 0
GoesOn f g = (g.visited ≡ f.visited ++ ("/workspace" ∷ [])) × (g.submit_error ≡ none)

-- The form stays and shows the message.
abbrev pub Stays : String → FormState → FormState → Type 0
Stays message f g = (g.visited ≡ f.visited) × (g.submit_error ≡ some message)

submitted-GoesOn :
    (message : String) (r : ActionResult UserInfo) (u : UserInfo) (f : FormState)
    → r ≡ returned u
    → GoesOn f (submitted message r f)
unfolding submitted
submitted-GoesOn message r u f e = rw e (refl, refl)

submitted-Stays :
    (message : String) (r : ActionResult UserInfo) (f : FormState)
    → r ≡ thrown
    → Stays message f (submitted message r f)
unfolding submitted
submitted-Stays message r f e = rw e (refl, refl)

module _ (service : AuthService) (url_host : String → Option String) (p : Bool) where
  -- A same-origin submission of the login form goes on to the workspaces with the tokens of the
  -- service's answer in the cookies, if the service accepts; if not, the cookies stay, and so does
  -- the form, with the message of the error.
  pub submit_login-outcome :
      (message : String) (h : RequestHeaders) (email password : String) (s : ActionState)
      (f : FormState)
      → assert_same_origin_request url_host h ≡ true
      → let (s', g) = submit_login service url_host p message h email password s f in
        ((r : AuthResponse) × (service.on_login email password ≡ some r)
          × HasTokens p r.access_token r.refresh_token s.jar s'.jar
          × GoesOn f g)
        ⊎ ((service.on_login email password ≡ none) × (s'.jar ≡ s.jar) × Stays message f g)
  unfolding submit_login
  submit_login-outcome message h email password s f same =
      let (calls, outcome) = login_action_lem service url_host p h email password s same in
      let result = (login_action service url_host p h email password s).1 in
      elim outcome [
        | inl (r, accepted, tokens, e) ↦
            inl (r, accepted, tokens, submitted-GoesOn message result r.user f e)
        | inr (refused, kept, e) ↦ inr (refused, kept, submitted-Stays message result f e)
      ]
