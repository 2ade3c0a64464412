-- ===== src/Auth/Token.antt =====
-- web/src/lib/jwt-utils.ts: `isAccessTokenExpiredOrMissing`. The decoding of the payload (base64url
-- and JSON) is a parameter: `none` stands for an exception or a payload that is no object, and the
-- inner option for its `exp`, a whole number of seconds. `Date.now()` is a whole number of
-- milliseconds, so the comparison of fractions is the one below.
pub mod Laws
use Prim.Native.Char.{code}
use scylladb_grpc_microservi.Common.{
  ℕ, ◌+◌, ◌*◌, String, Bool, true, false, Option, none, some, is_blank, leb, ◌==◌, if◌then◌else◌,
}

-- What follows the first dot.
unfoldable pub after_dot : String → Option String
after_dot String.[] = none
after_dot (String.◌∷◌ c s) = if code c == b'.' then some s else after_dot s

-- What stands before the first dot.
unfoldable pub until_dot : String → String
until_dot String.[] = ""
until_dot (String.◌∷◌ c s) = if code c == b'.' then "" else String.◌∷◌ c (until_dot s)

-- `token.split(".")[1]`
abbrev pub second_part : String → Option String
second_part token = elim (after_dot token) [ none ↦ none | some s ↦ some (until_dot s) ]

-- `Date.now() / 1000 >= exp - skewSeconds`, with both sides moved to whole milliseconds.
unfoldable pub is_past : ℕ → ℕ → ℕ → Bool
is_past now_ms skew exp = leb (exp * 1000) (now_ms + skew * 1000)

abbrev pub default_skew : ℕ
default_skew = 15

module _ (decode_payload : String → Option (Option ℕ)) where
  pub exp_expired : ℕ → ℕ → Option (Option ℕ) → Bool
  unfolding is_past
  exp_expired now skew none = true
  exp_expired now skew (some none) = true
  exp_expired now skew (some (some exp)) = if exp == 0 then true else is_past now skew exp

  unfoldable pub is_access_token_expired_or_missing : Option String → ℕ → ℕ → Bool
  unfolding exp_expired
  is_access_token_expired_or_missing none skew now = true
  is_access_token_expired_or_missing (some token) skew now =
      if is_blank token then true else elim (second_part token) [
        | none ↦ true
        | some part ↦ if is_blank part then true else exp_expired now skew (decode_payload part)
      ]
