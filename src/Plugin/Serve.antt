-- ===== src/Plugin/Serve.antt =====
-- ratelimit.go, ServeHTTP. What the middleware does with a request is an `Outcome`: it hands the
-- request, with the headers as they are then, to the next handler, or answers itself.
pub mod Headers
pub mod Publish
pub mod Published
pub mod RetryAfter
pub mod Admission
use traefik_cluster_ratelimi.Common.{
  ℕ, ◌+◌, Bool, true, false, not, ◌&&◌, Option, none, some, List, [], ◌∷◌, if◌then◌else◌,
}
use traefik_cluster_ratelimi.Common.Int.{ℤ, pos, ◌+ℤ◌, ◌*ℤ◌, leb_ℤ, eqb_ℤ, quot_ℤ, wrap64}
use traefik_cluster_ratelimi.Common.Bytes.{Bytes, codes, is_empty, bytes_eq}
use traefik_cluster_ratelimi.Common.Result.{Result, ok, err, panic, ◌>>=◌}
use traefik_cluster_ratelimi.Http.{Request, del, set}
use traefik_cluster_ratelimi.Ip.Net.{Codec}
use traefik_cluster_ratelimi.Ip.Checker.{Checker, contains}
use traefik_cluster_ratelimi.Ip.Interface.{
  Strategy, remote_addr, depth, pool, trusted_proxy, strategy_get_ip,
}
use traefik_cluster_ratelimi.Ip.Subnet.{subnet_cidr}
use traefik_cluster_ratelimi.Ip.TrustedProxy.{is_ok_true, resolve, source_text}
use traefik_cluster_ratelimi.Redis.Breaker.{duration_seconds}
use traefik_cluster_ratelimi.Limiter.{Limit, Floats, Scripts, Verdict, allow}
use traefik_cluster_ratelimi.Plugin.{ClusterRateLimit, failure_mode_open}

abbrev pub header_client_ip : Bytes
header_client_ip = codes "Gateway-Connecting-IP"

abbrev pub header_client_ip_source : Bytes
header_client_ip_source = codes "Gateway-Connecting-IP-Source"

abbrev pub header_client_subnet : Bytes
header_client_subnet = codes "Gateway-Connecting-Subnet"

abbrev pub destroyed_headers : List Bytes
destroyed_headers =
    codes "Forwarded"
    ∷ codes "X-Real-IP"
    ∷ header_client_ip
    ∷ header_client_ip_source
    ∷ header_client_subnet
    ∷ []

-- The loop that deletes them.
unfoldable pub destroy : List Bytes → Request → Request
destroy [] req = req
destroy (h ∷ hs) req = destroy hs (record req { header = del req.header h })

unfoldable pub set_header : Bytes → Bytes → Request → Request
set_header key value req = record req { header = set req.header key value }

-- A response: its status, and the header retry-after if it is set.
pub data Outcome : Type 0 where
  forwarded : Request → Outcome
  answered : ℕ → Option ℤ → Outcome

module _ (c : Codec) where
  -- rl.ipStrategy.(ip.Resolver): the trusted-proxy walk alone reports its source, never an empty one.
  unfoldable pub publish_source : Strategy → Request → Request
  publish_source (trusted_proxy checker) req =
      set_header header_client_ip_source (source_text (resolve c checker req).1) req
  publish_source remote_addr req = req
  publish_source (depth d) req = req
  publish_source (pool checker) req = req

  unfoldable pub publish : Strategy → ℕ → Bytes → Request → Request
  unfolding publish_source set_header
  publish strategy ipv6_subnet client_ip req =
      if is_empty client_ip
      then req
      else publish_source strategy (
          set_header header_client_subnet (subnet_cidr c client_ip ipv6_subnet)
            (set_header header_client_ip client_ip req))

  -- The address that is derived, and the request with what is published of it.
  unfoldable pub identify : ClusterRateLimit → Request → Result (Bytes × Request)
  unfolding publish
  identify rl req = elim rl.ip_strategy [
    | none ↦ ok ([], req)
    | some strategy ↦ do
      client_ip ← strategy_get_ip c strategy req
      ok (client_ip, publish strategy rl.ipv6_subnet client_ip req)
  ]

  unfoldable pub is_whitelisted : ClusterRateLimit → Bytes → Bool
  is_whitelisted rl client_ip = elim rl.whitelist_checker [
    | none ↦ false
    | some checker ↦ not (is_empty client_ip) && is_ok_true (contains c checker client_ip)
  ]

  abbrev pub limit_of : ClusterRateLimit → Limit
  limit_of rl = record { rate = rl.average; burst = rl.burst; period = duration_seconds rl.period }

  -- The answer to a request that the limiter has counted, or failed to.
  unfoldable pub decide : ClusterRateLimit → Request → Result Verdict → Result Outcome
  decide rl req (err e) =
      if bytes_eq rl.failure_mode failure_mode_open
      then ok (forwarded req)
      else ok (answered 503 (some rl.retry_after))
  decide rl req (ok res) =
      if leb_ℤ res.allowed (pos 0)
      then ok (answered 429 (some (wrap64 (quot_ℤ res.retry_after 1000000000 +ℤ pos 1))))
      else ok (forwarded req)
  decide rl req panic = panic

  module _ (f : Floats) {S : Type 0} (scripts : Scripts S) where
    unfoldable pub limit_request : ClusterRateLimit → Request → S → Result Outcome × S
    unfolding decide
    limit_request rl req s = elim (rl.source_matcher req) [
      | panic ↦ (panic, s)
      | err e ↦ (ok (answered 500 none), s)
      | ok (source, amount) ↦
          let (res, s') = allow f scripts rl.limiter_prefix source (limit_of rl) s in
          (decide rl req res, s')
    ]

    -- From the check for an unlimited route on.
    unfoldable pub admit : ClusterRateLimit → Bytes → Request → S → Result Outcome × S
    unfolding is_whitelisted limit_request
    admit rl client_ip req s =
        if eqb_ℤ rl.average (pos 0)
        then (ok (forwarded req), s)
        else if is_whitelisted rl client_ip
        then (ok (forwarded req), s)
        else limit_request rl req s

    unfoldable pub serve_http : ClusterRateLimit → Request → S → Result Outcome × S
    unfolding identify admit
    serve_http rl req s = elim (identify rl (destroy destroyed_headers req)) [
      | panic ↦ (panic, s)
      | err e ↦ (err e, s)
      | ok (client_ip, req') ↦ admit rl client_ip req' s
    ]
