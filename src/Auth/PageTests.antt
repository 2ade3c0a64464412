-- ===== src/Auth/PageTests.antt =====
-- The login page on concrete inputs, and the theorems applied to them.
use scylladb_grpc_microservi.Common.{◌≡◌, refl, true, false, none, some, [], ◌∷◌, empty}
use scylladb_grpc_microservi.Auth.Cookies.{apply_writes, cookie_value, refresh_token_cookie_name}
use scylladb_grpc_microservi.Auth.Validate.{validate_refresh_token}
use scylladb_grpc_microservi.Auth.Proxy.{proxy}
use scylladb_grpc_microservi.Auth.Guards.{is_valid, require_guest}
use scylladb_grpc_microservi.Auth.Guards.Laws.{proxy-login-guest}
use scylladb_grpc_microservi.Auth.Typewriter.{text_at, ticks, start}
use scylladb_grpc_microservi.Auth.Typewriter.Laws.{ticks-next}
use scylladb_grpc_microservi.Auth.SessionTests.{context, session, no_session_redirect}
use scylladb_grpc_microservi.Auth.Tests

proxy-login-guest_example :
    let after = apply_writes (proxy context empty Tests.cached_state).1.cookies session in
    let guest =
      (require_guest context.jose context.outside context.env false 6000 after
        Tests.cached_state).1 in
    ((proxy context empty Tests.cached_state).1.redirect ≡ some "/login")
    × (false ≡ false → guest ≡ none)
    × (false ≡ true
        → (after ≡ session)
          × (is_valid
                  (validate_refresh_token context.jose context.outside context.env 6000
                    (cookie_value (refresh_token_cookie_name false) session)
                    Tests.cached_state).1
                ≡ true
              → guest ≡ some "/workspace"))
proxy-login-guest_example =
    proxy-login-guest context empty session Tests.cached_state Tests.cached_state 6000
      no_session_redirect

ticks-next_example : ticks true ("Hi" ∷ ("you" ∷ [])) 6 (start 0) ≡ start 1
unfolding text_at
ticks-next_example = ticks-next true ("Hi" ∷ ("you" ∷ [])) 0 refl refl
