-- ===== src/Auth/RaceTests.antt =====
-- web/src/proxy.ts: two requests at once on a concrete browser and a service that takes one token.
use scylladb_grpc_microservi.Common.{String, Bool, true, false, Option, none, some, ◌≡◌, refl}
use scylladb_grpc_microservi.Auth.Cookies.{
  apply_writes, auth_cookie, refresh_token_cookie_name, access_token_cookie_name,
}
use scylladb_grpc_microservi.Auth.Cookies.Laws.{HasTokens, HasNoTokens}
use scylladb_grpc_microservi.Auth.Token.{is_access_token_expired_or_missing}
use scylladb_grpc_microservi.Auth.Proxy.{TokenPair, NextResponse, proxy}
use scylladb_grpc_microservi.Auth.Proxy.Race.{Rotation, served, parallel_refresh}
use scylladb_grpc_microservi.Auth.SessionTests.{context, session, new_pair}
use scylladb_grpc_microservi.Auth.Tests

-- Whether the one token has been taken.
abbrev take : Option String → Bool → Bool × Option TokenPair
take token false = (true, some new_pair)
take token true = (true, none)

taken_once :
    (token : Option String) (v : Bool) (t : TokenPair)
    → (take token v).1 ≡ some t
    → (take token (take token v).0).1 ≡ none
taken_once token false t h = refl
taken_once token true t h = refl

abbrev service : Rotation
service = record { State = Bool; rotate = take; once = taken_once }

abbrev first : NextResponse
first = (proxy (served context service false) session Tests.cached_state).1

abbrev second : NextResponse
second = (proxy (served context service true) session Tests.cached_state).1

parallel_refresh_example :
    (first.redirect ≡ none)
    × (second.redirect ≡ some "/login")
    × (false ≡ false
        → HasNoTokens false
            (apply_writes first.cookies session)
            (apply_writes second.cookies (apply_writes first.cookies session)))
    × (false ≡ true
        → HasTokens false "a2" "r2" session
            (apply_writes second.cookies (apply_writes first.cookies session)))
    × HasTokens false "a2" "r2"
        (apply_writes second.cookies session)
        (apply_writes first.cookies (apply_writes second.cookies session))
unfolding Tests.program refresh_token_cookie_name access_token_cookie_name
    is_access_token_expired_or_missing auth_cookie
parallel_refresh_example =
    parallel_refresh context service false session session Tests.cached_state Tests.cached_state
      Tests.claims Tests.claims new_pair refl refl refl refl
