-- ===== src/Auth/Token/Laws.antt =====
-- web/src/lib/jwt-utils.ts: which access tokens count as fresh.
use scylladb_grpc_microservi.Common.{
  ℕ, ◌+◌, ◌*◌, ◌<◌, String, ◌≡◌, ◌↔◌, Option, none, some, Option-cases, inl, inr, arith, is_blank,
  false,
}
use scylladb_grpc_microservi.Auth.Token.{
  second_part, exp_expired, is_access_token_expired_or_missing,
}

module _ (decode_payload : String → Option (Option ℕ)) (skew now : ℕ) where
  -- The token has a second part that decodes to a payload with an expiry more than `skew` seconds
  -- ahead of the clock.
  pub record IsFresh (token : Option String) : Type 0 where
    pub jwt : String
    pub given : token ≡ some jwt
    pub not_blank : is_blank jwt ≡ false
    pub part : String
    pub split : second_part jwt ≡ some part
    pub part_not_blank : is_blank part ≡ false
    pub exp : ℕ
    pub decoded : decode_payload part ≡ some (some exp)
    pub ahead : now + skew * 1000 < exp * 1000

  fresh_exp :
      (d : Option (Option ℕ))
      → exp_expired decode_payload now skew d ≡ false
      → (exp : ℕ) × (d ≡ some (some exp)) × (now + skew * 1000 < exp * 1000)
  unfolding exp_expired
  fresh_exp none h = cc
  fresh_exp (some none) h = cc
  fresh_exp (some (some exp)) h = (exp, ground arith, ground arith)

  IsFresh-sound :
      (token : Option String)
      → is_access_token_expired_or_missing decode_payload token skew now ≡ false
      → IsFresh token
  unfolding is_access_token_expired_or_missing
  IsFresh-sound none h = cc
  IsFresh-sound (some jwt) h = elim (Option-cases (second_part jwt)) [
    | inl short ↦ absurd (ground arith)
    | inr (part, split) ↦
        let (exp, decoded, ahead) = fresh_exp (decode_payload part) (ground arith) in
        record {
          jwt = jwt;
          given = cc;
          not_blank = ground arith;
          part = part;
          split = split;
          part_not_blank = ground arith;
          exp = exp;
          decoded = decoded;
          ahead = ahead;
        }
  ]

  IsFresh-complete :
      (token : Option String)
      → IsFresh token
      → is_access_token_expired_or_missing decode_payload token skew now ≡ false
  unfolding is_access_token_expired_or_missing
  IsFresh-complete token f = ground arith

  -- A token is fresh exactly when its payload decodes to an expiry more than the skew ahead.
  pub IsFresh-iff :
      (token : Option String)
      → (is_access_token_expired_or_missing decode_payload token skew now ≡ false) ↔ IsFresh token
  IsFresh-iff token = (IsFresh-sound token, IsFresh-complete token)
