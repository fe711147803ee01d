-- ===== src/Plugin/Shared.antt =====
-- ratelimit.go and rate.go: the key under which a request is counted, and what is done about that.
pub mod Isolation
use traefik_cluster_ratelimi.Common.{
  ℕ, ◌+◌, ◌*◌, ◌≡◌, ◌≢◌, refl, inl, inr, Bool, true, false, ◌&&◌, Bool-cases, Option, none, some,
  List, [], ◌∷◌, ◌++◌, if◌then◌else◌,
}
use traefik_cluster_ratelimi.Common.Int.{ℤ, pos, ◌≤ℤ◌, eqb_ℤ}
use traefik_cluster_ratelimi.Common.Bytes.{Bytes, bytes_eq}
use traefik_cluster_ratelimi.Common.Result.{Result, ok, err, panic}
use traefik_cluster_ratelimi.Http.{Request}
use traefik_cluster_ratelimi.Gcra.{Args, Reply}
use traefik_cluster_ratelimi.Gcra.Run.{Entry, Call, step}
use traefik_cluster_ratelimi.Ip.Net.{Codec}
use traefik_cluster_ratelimi.Redis.Value.{Arg, int64, int, seconds_of, Answer, array, integer, text}
use traefik_cluster_ratelimi.Limiter.{Limit, Floats, Scripts, allow}
use traefik_cluster_ratelimi.Plugin.{ClusterRateLimit}
use traefik_cluster_ratelimi.Plugin.Serve.{
  Outcome, forwarded, answered, destroyed_headers, destroy, identify, is_whitelisted, limit_of,
  decide, limit_request, admit, serve_http,
}

-- The key under which ServeHTTP counts a request, when it counts it.
abbrev pub key_of : Bytes → Result (Bytes × ℤ) → Option Bytes
key_of prefix (ok (source, amount)) = some (prefix ++ source)
key_of prefix (err e) = none
key_of prefix panic = none

module _ (c : Codec) where
  unfoldable pub counted_under : ClusterRateLimit → Request → Option Bytes
  unfolding identify is_whitelisted
  counted_under rl req = elim (identify c rl (destroy destroyed_headers req)) [
    | panic ↦ none
    | err e ↦ none
    | ok (client_ip, req') ↦
        if eqb_ℤ rl.average (pos 0)
        then none
        else if is_whitelisted c rl client_ip
        then none
        else key_of rl.limiter_prefix (rl.source_matcher req')
  ]

  module _ (f : Floats) {S : Type 0} (scripts : Scripts S) where
    -- What a request comes to, with the key under which it is counted.
    pub data Handled (rl : ClusterRateLimit) (s : S)
        : Option Bytes → Result Outcome × S → Type 0 where
      uncounted : (r : Result Outcome) → Handled rl s none (r, s)
      counted :
          (source : Bytes) (req' : Request)
          → Handled rl s (some (rl.limiter_prefix ++ source)) (
            decide c rl req' (allow f scripts rl.limiter_prefix source (limit_of c rl) s).0,
            (allow f scripts rl.limiter_prefix source (limit_of c rl) s).1,
          )

    module _ (rl : ClusterRateLimit) (s : S) where
      limit_request-Handled :
          (req : Request) (key : Result (Bytes × ℤ))
          → rl.source_matcher req ≡ key
          → Handled rl s (key_of rl.limiter_prefix key) (limit_request c f scripts rl req s)
      unfolding limit_request
      limit_request-Handled req (ok (source, amount)) e = rw (e, limit_request) (counted source req)
      limit_request-Handled req (err x) e = rw (e, limit_request) (uncounted _)
      limit_request-Handled req panic e = rw (e, limit_request) (uncounted _)

      identified-Handled :
          (req : Request) (i : Result (Bytes × Request))
          → identify c rl (destroy destroyed_headers req) ≡ i
          → Handled rl s (counted_under rl req) (serve_http c f scripts rl req s)
      unfolding serve_http counted_under admit
      identified-Handled req (err x) e = rw (e, serve_http, counted_under) (uncounted _)
      identified-Handled req panic e = rw (e, serve_http, counted_under) (uncounted _)
      identified-Handled req (ok (client_ip, req')) e =
          rw (e, serve_http, counted_under, admit)
            (elim (Bool-cases (eqb_ℤ rl.average (pos 0))) [
              | inl free ↦ rw free (uncounted _)
              | inr limited ↦ elim (Bool-cases (is_whitelisted c rl client_ip)) [
                | inl listed ↦ rw limited (rw listed (uncounted _))
                | inr unlisted ↦
                    rw limited
                      (rw unlisted (limit_request-Handled req' (rl.source_matcher req') refl))
              ]
            ])

      pub serve_http-Handled :
          (req : Request) → Handled rl s (counted_under rl req) (serve_http c f scripts rl req s)
      serve_http-Handled req = identified-Handled req _ refl
