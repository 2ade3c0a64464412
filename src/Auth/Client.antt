-- ===== src/Auth/Client.antt =====
-- web/src/lib/auth-context.tsx and web/src/components/editor/plugins/poll/poll-user-context.tsx: what the
-- browser knows of the session, derived from the query of the current user.
pub mod Laws
use scylladb_grpc_microservi.Common.{
  String, Bool, true, false, ◌&&◌, ◌||◌, Option, none, some, is_blank, not,
}
use scylladb_grpc_microservi.Auth.Actions.{UserInfo}

-- The fields of the query that are read. `result` is `data`: it is `none` while it is undefined; the inner option is
-- null for a visitor who is not signed in.
pub record UserQuery : Type 0 where
  pub result : Option (Option UserInfo)
  pub is_loading : Bool
  pub is_fetching : Bool

pub record AuthState : Type 0 where
  pub is_authenticated : Bool
  pub is_loading_auth : Bool
  pub current_user : Option UserInfo
  pub is_loading_user : Bool

abbrev pub user_of : Option (Option UserInfo) → Option UserInfo
user_of none = none
user_of (some user) = user

abbrev pub is_user : Option UserInfo → Bool
is_user none = false
is_user (some user) = true

unfoldable pub use_auth : UserQuery → AuthState
use_auth q = record {
  is_authenticated = is_user (user_of q.result);
  is_loading_auth = q.is_loading;
  current_user = user_of q.result;
  is_loading_user = q.is_fetching;
}

pub record PollUser : Type 0 where
  pub current_user : String
  pub is_authenticated : Bool
  pub is_loading : Bool

abbrev pub user_id_or : String → Option UserInfo → String
user_id_or d none = d
user_id_or d (some user) = user.user_id

abbrev pub has_user_id : Option UserInfo → Bool
has_user_id none = false
has_user_id (some user) = not (is_blank user.user_id)

-- The value of `PollUserProvider`.
unfoldable pub poll_user : AuthState → PollUser
poll_user a = record {
  current_user = user_id_or "anonymous" a.current_user;
  is_authenticated = a.is_authenticated && has_user_id a.current_user;
  is_loading = a.is_loading_auth || (a.is_authenticated && a.is_loading_user);
}
