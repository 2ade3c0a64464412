-- ===== src/Auth/Pages.antt =====
-- The pages around the session: web/src/app/page.tsx, the submission of login-form.tsx and
-- sign-up-form.tsx, and use-logout.ts, all in web/src/modules/auth. `message` is what the error of a
-- failed action says.
pub mod Laws
use Prim.Native.String.{◌++◌}
use scylladb_grpc_microservi.Common.{
  String, Bool, Option, none, some, List, [], ◌∷◌, ◌++◌ as append,
}
use scylladb_grpc_microservi.Auth.Csrf.{RequestHeaders}
use scylladb_grpc_microservi.Auth.Actions.{
  AuthService, UserInfo, ActionState, ActionResult, returned, thrown, login_action, register_action,
  logout_action,
}

-- Where the start page redirects to, given the ids of the workspaces; `none` where the call throws.
unfoldable pub home : Option (List String) → Option String
home none = none
home (some []) = some "/workspace"
home (some (id ∷ ids)) = some ("/workspace/" ++ id)

pub record FormState : Type 0 where
  pub submit_error : Option String
  pub visited : List String

unfoldable pub submitted : (message : String) → ActionResult UserInfo → FormState → FormState
submitted message (returned u) f = record f {
  submit_error = none;
  visited = append f.visited ("/workspace" ∷ []);
}
submitted message thrown f = record f { submit_error = some message }

module _ (service : AuthService) (url_host : String → Option String) (is_production : Bool) where
  -- `onSubmit` of the login form.
  unfoldable pub submit_login :
      (message : String)
      → RequestHeaders
      → (email password : String) → ActionState
      → FormState
      → ActionState × FormState
  submit_login message h email password s f =
      let (s', r) = login_action service url_host is_production h email password s in
      (s', submitted message r f)

  -- `onSubmit` of the sign-up form.
  unfoldable pub submit_sign_up :
      (message : String)
      → RequestHeaders
      → (name email password : String) → ActionState
      → FormState
      → ActionState × FormState
  submit_sign_up message h name email password s f =
      let (s', r) = register_action service url_host is_production h name email password s in
      (s', submitted message r f)
