-- ===== src/Auth/Cookies/Laws.antt =====
-- web/src/lib/auth-cookie.ts, setAuthCookies: what the writes leave in a cookie store.
use mathlib.Core.Path.{fun_ext}
use scylladb_grpc_microservi.Common.{
  String, ◌≡◌, ◌≢◌, refl, Bool, true, false, none, some, arith, str_eq, eq_iff, ℕ, write,
}
use scylladb_grpc_microservi.Auth.Cookies.{
  CookieJar, set, is_host_name, apply_write, apply_writes, auth_cookie, access_token_cookie_name,
  refresh_token_cookie_name, response_auth_cookies, action_auth_cookies, response_clear_cookies,
  clear_auth_cookies,
}

names-ne : (p : Bool) → str_eq (access_token_cookie_name p) (refresh_token_cookie_name p) ≡ false
unfolding access_token_cookie_name refresh_token_cookie_name
names-ne true = refl
names-ne false = refl

access_host : (p : Bool) → is_host_name (access_token_cookie_name p) ≡ p
unfolding is_host_name access_token_cookie_name
access_host true = refl
access_host false = refl

refresh_host : (p : Bool) → is_host_name (refresh_token_cookie_name p) ≡ p
unfolding is_host_name refresh_token_cookie_name
refresh_host true = refl
refresh_host false = refl

-- The auth cookies are secure where their names ask for it, so that the browser takes them.
set_accepted :
    (p : Bool) (name value : String) (age : ℕ) (jar : CookieJar)
    → is_host_name name ≡ p
    → apply_write (set name (auth_cookie p value age)) jar
      ≡ write name (auth_cookie p value age) jar
unfolding apply_write auth_cookie
set_accepted true name value age jar h = rw h refl
set_accepted false name value age jar h = rw h refl

-- What the two auth cookies hold, and that all others stand as they did.
pub record HasTokens (p : Bool) (access refresh : String) (jar jar' : CookieJar) : Type 0 where
  pub access_set : jar' (access_token_cookie_name p) ≡ some (auth_cookie p access 900)
  pub refresh_set : jar' (refresh_token_cookie_name p) ≡ some (auth_cookie p refresh 604800)
  pub others :
      (name : String)
      → name ≢ access_token_cookie_name p
      → name ≢ refresh_token_cookie_name p
      → jar' name ≡ jar name

pub record HasNoTokens (p : Bool) (jar jar' : CookieJar) : Type 0 where
  pub access_gone : jar' (access_token_cookie_name p) ≡ none
  pub refresh_gone : jar' (refresh_token_cookie_name p) ≡ none
  pub others :
      (name : String)
      → name ≢ access_token_cookie_name p
      → name ≢ refresh_token_cookie_name p
      → jar' name ≡ jar name

-- What the writes that clear the session leave in the browser: outside production neither auth cookie
-- is there and all others stand; in production all stand, since the browser refuses the deletions.
pub record IsCleared (p : Bool) (jar jar' : CookieJar) : Type 0 where
  pub development : p ≡ false → HasNoTokens p jar jar'
  pub production : p ≡ true → jar' ≡ jar

module _ (p : Bool) (jar : CookieJar) where
  action_auth_cookies-write :
      (access refresh : String)
      → apply_writes (action_auth_cookies p access refresh) jar
        ≡ write
            (refresh_token_cookie_name p)
            (auth_cookie p refresh 604800)
            (write (access_token_cookie_name p) (auth_cookie p access 900) jar)
  unfolding apply_writes action_auth_cookies
  action_auth_cookies-write access refresh =
      rw (set_accepted p (access_token_cookie_name p) access 900 jar (access_host p)) (
        set_accepted p (refresh_token_cookie_name p) refresh 604800
          (write (access_token_cookie_name p) (auth_cookie p access 900) jar) (refresh_host p))

  response_auth_cookies-write :
      (access refresh : String)
      → apply_writes (response_auth_cookies p access refresh) jar
        ≡ write
            (access_token_cookie_name p)
            (auth_cookie p access 900)
            (write (refresh_token_cookie_name p) (auth_cookie p refresh 604800) jar)
  unfolding apply_writes response_auth_cookies
  response_auth_cookies-write access refresh =
      rw (set_accepted p (refresh_token_cookie_name p) refresh 604800 jar (refresh_host p)) (
        set_accepted p (access_token_cookie_name p) access 900
          (write (refresh_token_cookie_name p) (auth_cookie p refresh 604800) jar) (access_host p))

  pub action_auth_cookies-HasTokens :
      (access refresh : String)
      → HasTokens p access refresh jar (apply_writes (action_auth_cookies p access refresh) jar)
  action_auth_cookies-HasTokens access refresh =
      let a = access_token_cookie_name p in
      let r = refresh_token_cookie_name p in
      rw (action_auth_cookies-write access refresh) (record {
        access_set = ground (arith, names-ne p, eq_iff a a, eq_iff r a, eq_iff a r);
        refresh_set = ground (arith, names-ne p, eq_iff r r, eq_iff r a, eq_iff a r);
        others = λ n x y. ground (arith, eq_iff a n, eq_iff r n);
      })

  -- Both copies of `setAuthCookies` leave the same cookies, though they write in opposite orders.
  pub auth_cookies_agree :
      (access refresh : String)
      → apply_writes (response_auth_cookies p access refresh) jar
        ≡ apply_writes (action_auth_cookies p access refresh) jar
  auth_cookies_agree access refresh =
      rw (action_auth_cookies-write access refresh, response_auth_cookies-write access refresh)
        (fun_ext λ n.
          let a = access_token_cookie_name p in
          let r = refresh_token_cookie_name p in
          ground (arith, names-ne p, eq_iff a n, eq_iff r n, eq_iff a r))

  pub clear_auth_cookies-IsCleared : IsCleared p jar (apply_writes (clear_auth_cookies p) jar)
  unfolding apply_writes apply_write clear_auth_cookies
  clear_auth_cookies-IsCleared =
      let a = access_token_cookie_name p in
      let r = refresh_token_cookie_name p in
      record {
        development = λ h.
            rw (access_host p, refresh_host p, h)
              (record {
                access_gone = ground (arith, eq_iff a a);
                refresh_gone = ground (arith, eq_iff r r);
                others = λ n x y. ground (arith, eq_iff a n, eq_iff r n);
              });
        production = λ h. rw (access_host p, refresh_host p, h) refl;
      }

  pub clear_cookies_agree :
      apply_writes (response_clear_cookies p) jar ≡ apply_writes (clear_auth_cookies p) jar
  unfolding apply_writes apply_write clear_auth_cookies response_clear_cookies
  clear_cookies_agree = fun_ext λ n.
      let a = access_token_cookie_name p in
      let r = refresh_token_cookie_name p in
      ground (arith, access_host p, refresh_host p, eq_iff a n, eq_iff r n)
