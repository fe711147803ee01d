-- ===== src/Plugin/Serve/RetryAfter.antt =====
-- What a request over its rate is answered.
use traefik_cluster_ratelimi.Common.{
  ℕ, ◌+◌, ◌*◌, ◌/◌, ◌^◌, ◌≤◌, ◌<◌, ◌≡◌, refl, ap, ◌∙◌, ◌≢◌, inl, inr, true, some, arith, Bool-cases,
  le→leb,
}
use traefik_cluster_ratelimi.Common.Int.{
  ℤ, pos, ◌+ℤ◌, ◌≤ℤ◌, leb_ℤ, eqb_ℤ, quot_ℤ, wrap64, wrap64_of_fits, eq_of_parts, int_laws,
}
use traefik_cluster_ratelimi.Common.Bytes.{Bytes}
use traefik_cluster_ratelimi.Common.Result.{ok}
use traefik_cluster_ratelimi.Http.{Request}
use traefik_cluster_ratelimi.Ip.Net.{Codec}
use traefik_cluster_ratelimi.Limiter.{Floats, Scripts, Verdict, allow}
use traefik_cluster_ratelimi.Plugin.{ClusterRateLimit}
use traefik_cluster_ratelimi.Plugin.Serve.{
  answered, destroyed_headers, destroy, identify, is_whitelisted, limit_of, decide, limit_request,
  admit, serve_http,
}
use traefik_cluster_ratelimi.Plugin.Serve.Admission.{
  IsExempt, eqb_ℤ_iff, is_whitelisted_iff, serve_http_of,
}

-- The seconds of a duration of `n` nanoseconds, rounded up past it.
seconds_past :
    (n : ℕ) → n < 2 ^ 63 → wrap64 (quot_ℤ (pos n) 1000000000 +ℤ pos 1) ≡ pos (n / 1000000000 + 1)
seconds_past n h =
    let sum : pos (n / 1000000000) +ℤ pos 1 ≡ pos (n / 1000000000 + 1) =
      eq_of_parts _ _ (omega int_laws) in
    ap wrap64 sum ∙ wrap64_of_fits (n / 1000000000 + 1) (omega (arith, h))

module _ (c : Codec) (f : Floats) {S : Type 0} (scripts : Scripts S) (rl : ClusterRateLimit)
    (s : S) where
  pub admit-limited :
      (client_ip : Bytes) (req : Request)
      → rl.average ≢ pos 0
      → (IsExempt c rl.whitelist_checker client_ip → ⊥)
      → admit c f scripts rl client_ip req s ≡ limit_request c f scripts rl req s
  unfolding admit
  admit-limited client_ip req limited listed = elim (Bool-cases (eqb_ℤ rl.average (pos 0))) [
    | inl free ↦ absurd (limited ((eqb_ℤ_iff _ _).0 free))
    | inr counted ↦ elim (Bool-cases (is_whitelisted c rl client_ip)) [
      | inl exempt ↦ absurd (listed ((is_whitelisted_iff c rl client_ip).0 exempt))
      | inr plain ↦ rw counted (rw plain refl)
    ]
  ]

  -- A counted request that the limiter does not allow is answered 429, with a retry-after of whole
  -- seconds that is longer than the limiter's, by at most a second. The limiter's is not negative
  -- and fits int64 in nanoseconds; the route is limited and the address is not on the whitelist.
  pub serve_http-retry_after :
      (req req' : Request) (client_ip key : Bytes) (amount : ℤ) (v : Verdict) (n : ℕ)
      → rl.average ≢ pos 0
      → (IsExempt c rl.whitelist_checker client_ip → ⊥)
      → identify c rl (destroy destroyed_headers req) ≡ ok (client_ip, req')
      → rl.source_matcher req' ≡ ok (key, amount)
      → (allow f scripts rl.limiter_prefix key (limit_of c rl) s).0 ≡ ok v
      → v.allowed ≤ℤ pos 0
      → v.retry_after ≡ pos n
      → n < 2 ^ 63
      → (seconds : ℕ) × ((serve_http c f scripts rl req s).0
          ≡ ok (answered 429 (some (pos seconds))))
        × (n < seconds * 1000000000)
        × (seconds * 1000000000 ≤ n + 1000000000)
  unfolding limit_request decide
  serve_http-retry_after req req' client_ip key amount v n limited listed derived matched answer
        over wait fits =
      let refused : leb_ℤ v.allowed (pos 0) ≡ true = le→leb _ _ over in
      let one_call = serve_http_of c f scripts rl s req client_ip req' derived in
      (
        n / 1000000000 + 1,
        rw
            (
              one_call,
              admit-limited client_ip req' limited listed,
              limit_request,
              matched,
              answer,
              decide,
              refused,
              wait,
              seconds_past n fits,
            )
            refl,
        omega arith,
        omega arith,
      )
