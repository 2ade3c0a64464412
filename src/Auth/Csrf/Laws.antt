-- ===== src/Auth/Csrf/Laws.antt =====
-- web/src/lib/csrf.ts: which requests pass the check.
use scylladb_grpc_microservi.Common.{
  String, ◌≡◌, ◌↔◌, ◌⊎◌, inl, inr, refl, Option, none, some, arith, true, false, truthy, opt_is-eq,
  eq_iff, eq_refl,
}
use scylladb_grpc_microservi.Auth.Csrf.{
  RequestHeaders, is_foreign_site, is_same_host, assert_same_origin_request,
}

module _ (url_host : String → Option String) (h : RequestHeaders) where
  -- The origin names the host that was asked, and the browser, where it says so, calls the request
  -- same-origin or same-site.
  pub record IsSameOrigin : Type 0 where
    pub origin : String
    pub host : String
    pub has_origin : truthy h.origin ≡ some origin
    pub has_host : truthy h.host ≡ some host
    pub same : url_host origin ≡ some host
    pub site :
        (truthy h.sec_fetch_site ≡ none)
        ⊎ (truthy h.sec_fetch_site ≡ some "same-origin")
        ⊎ (truthy h.sec_fetch_site ≡ some "same-site")

  same_host :
      (a b : Option String)
      → is_same_host url_host a b ≡ true
      → (o : String) × (w : String) × (a ≡ some o) × (b ≡ some w) × (url_host o ≡ some w)
  unfolding is_same_host
  same_host none b e = cc
  same_host (some o) none e = cc
  same_host (some o) (some w) e = (o, w, refl, refl, opt_is-eq (url_host o) w e)

  home_site :
      (a : Option String)
      → is_foreign_site a ≡ false
      → (a ≡ none) ⊎ (a ≡ some "same-origin") ⊎ (a ≡ some "same-site")
  unfolding is_foreign_site
  home_site none e = inl refl
  home_site (some t) e = ground (arith, eq_iff t "same-origin", eq_iff t "same-site")

  same_origin_sound : assert_same_origin_request url_host h ≡ true → IsSameOrigin
  unfolding assert_same_origin_request
  same_origin_sound e =
      let (o, w, ho, hw, same) = same_host (truthy h.origin) (truthy h.host) (ground arith) in
      record {
        origin = o;
        host = w;
        has_origin = ho;
        has_host = hw;
        same = same;
        site = home_site (truthy h.sec_fetch_site) (ground arith);
      }

  complete_host : (s : IsSameOrigin) → is_same_host url_host (some s.origin) (some s.host) ≡ true
  unfolding is_same_host
  complete_host s = rw s.same (eq_refl s.host)

  complete_site : IsSameOrigin → is_foreign_site (truthy h.sec_fetch_site) ≡ false
  unfolding is_foreign_site
  complete_site s = elim s.site [
    | inl absent ↦ rw absent
    | inr (inl origin) ↦ rw origin
    | inr (inr site) ↦ rw site
  ]

  same_origin_complete : IsSameOrigin → assert_same_origin_request url_host h ≡ true
  unfolding assert_same_origin_request
  same_origin_complete s =
      rw (s.has_origin, s.has_host) (ground (arith, complete_host s, complete_site s))

  -- `assertSameOriginRequest` passes exactly for the requests with an Origin and a Host header, neither
  -- empty, where the host in the origin's url is that of the Host header, and with a Sec-Fetch-Site
  -- header that is absent, empty, "same-origin" or "same-site".
  pub assert_same_origin_request_iff : (assert_same_origin_request url_host h ≡ true) ↔ IsSameOrigin
  assert_same_origin_request_iff = (same_origin_sound, same_origin_complete)
