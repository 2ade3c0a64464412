-- ===== src/Auth/Client/Laws.antt =====
-- web/src/lib/auth-context.tsx with the polls: who votes.
use scylladb_grpc_microservi.Common.{
  String, ◌≡◌, ◌↔◌, refl, Bool, true, false, Option, none, some, List, is_blank, arith,
}
use scylladb_grpc_microservi.Auth.Actions.{UserInfo}
use scylladb_grpc_microservi.Auth.Client.{UserQuery, use_auth, poll_user}
use scylladb_grpc_microservi.Poll.{PollOption, handle_vote}

-- The user of the query, with an id that is not empty.
pub record IsSignedIn (q : UserQuery) (id : String) : Type 0 where
  pub user : UserInfo
  pub known : q.result ≡ some (some user)
  pub same : user.user_id ≡ id
  pub not_blank : is_blank id ≡ false

abbrev query_of : Option (Option UserInfo) → Bool → Bool → UserQuery
query_of d l f = record { result = d; is_loading = l; is_fetching = f }

poll_user_result :
    (d : Option (Option UserInfo)) (l f : Bool)
    → (poll_user (use_auth (query_of d l f))).is_authenticated ≡ true
    → IsSignedIn (query_of d l f) (poll_user (use_auth (query_of d l f))).current_user
unfolding poll_user use_auth
poll_user_result none l f h = cc
poll_user_result (some none) l f h = cc
poll_user_result (some (some user)) l f h = record {
  user = user;
  known = refl;
  same = refl;
  not_blank = ground arith;
}

-- A poll takes a visitor as signed in exactly when the query has given a user with an id, and then
-- votes go under this id.
pub poll_user-is_authenticated_iff :
    (q : UserQuery)
    → ((poll_user (use_auth q)).is_authenticated ≡ true)
      ↔ IsSignedIn q (poll_user (use_auth q)).current_user
unfolding poll_user use_auth
poll_user-is_authenticated_iff q = (
  poll_user_result q.result q.is_loading q.is_fetching,
  λ s. let known = s.known in let blank = s.not_blank in let same = s.same in ground arith,
)

-- A visitor who is not known to be signed in changes no poll.
pub anonymous_vote :
    (q : UserQuery) (option : PollOption) (options : List PollOption)
    → (use_auth q).current_user ≡ none
    → let u = poll_user (use_auth q) in
      handle_vote u.is_authenticated u.current_user option options ≡ none
unfolding poll_user use_auth handle_vote
anonymous_vote q option options h = ground arith
