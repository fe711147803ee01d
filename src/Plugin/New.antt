-- ===== src/Plugin/New.antt =====
-- ratelimit.go, New: what it derives of the addresses, and the middleware that it gives. The process
-- environment and redis.NewClient are parameters.
pub mod Valid
pub mod BucketKey
pub mod StrategyKey
pub mod Connected
use traefik_cluster_ratelimi.Common.{
  ℕ, ◌+◌, Bool, true, false, not, ◌&&◌, ◌||◌, Option, none, some, List, [], ◌∷◌, ◌++◌,
  if◌then◌else◌, ◌==◌, ltb, length, drop,
}
use traefik_cluster_ratelimi.Common.Int.{ℤ, pos, negsuc, pos_part, eqb_ℤ, ltb_ℤ}
use traefik_cluster_ratelimi.Common.Bytes.{Bytes, codes, is_empty, bytes_eq}
use traefik_cluster_ratelimi.Common.Decimal.{format_int}
use traefik_cluster_ratelimi.Common.Result.{Result, with_context, ok, err, panic, ◌>>=◌}
use traefik_cluster_ratelimi.Http.{Request}
use traefik_cluster_ratelimi.Ip.Net.{Codec}
use traefik_cluster_ratelimi.Ip.Checker.{Checker, new_checker}
use traefik_cluster_ratelimi.Ip.Interface.{Strategy, trusted_proxy}
use traefik_cluster_ratelimi.Ip.Subnet.{
  subnet, min_ipv6_subnet, max_ipv6_subnet, default_ipv6_subnet,
}
use traefik_cluster_ratelimi.Ip.TrustedProxy.{get_ip}
use traefik_cluster_ratelimi.Utils.{
  Extractor, IpStrategy, SourceCriterion, ip_strategy_get, get_source_extractor, is_some,
}
use traefik_cluster_ratelimi.Redis.Breaker.{duration_seconds}
use traefik_cluster_ratelimi.Redis.Options.{Options}
use traefik_cluster_ratelimi.Limiter.{Limiter, new_limiter, redis_prefix_of}
use traefik_cluster_ratelimi.Plugin.{ClusterRateLimit, failure_mode_open, failure_mode_closed}
use traefik_cluster_ratelimi.Plugin.Config.{
  Config, check_limits, check_failure_mode, read_credentials, check_ipv6_subnet, has_ip_strategy,
  ip_strategy_of, counts_by_other,
}

-- What New derives of the addresses that it is given.
pub record Derivation : Type 0 where
  pub source_matcher : Extractor
  pub whitelist_checker : Option Checker
  pub ip_strategy : Strategy

abbrev pub proxies_context : Bytes
proxies_context = codes "unable to parse trustedProxies: "

abbrev pub client_context : Bytes
client_context = codes "unable to create redis client: "

abbrev pub exclusive_message : Bytes
exclusive_message =
    codes
      "trustedProxies and sourceCriterion.ipStrategy are mutually exclusive: set one or the other, not both"

module _ (c : Codec) where
  unfoldable pub whitelist_of : List Bytes → Result (Option Checker)
  whitelist_of [] = ok none
  whitelist_of (entry ∷ more) = do
    checker ←
        with_context (codes "unable to create IP whitelist checker: ")
          (new_checker c (entry ∷ more))
    ok (some checker)

  -- The extractor that counts under the network of the address that the walk gives.
  abbrev pub walk_extractor : Checker → ℤ → Extractor
  walk_extractor checker n req = ok (subnet c (get_ip c (some checker) req) (pos_part n), pos 1)

  -- The switch over trustedProxies and ipStrategy.
  unfoldable pub strategy_of : Config → Extractor → Result (Strategy × Extractor)
  strategy_of config matcher =
      if ltb 0 (length config.trusted_proxies)
      then (do
        checker ← with_context proxies_context (new_checker c config.trusted_proxies)
        ok (
          trusted_proxy (some checker),
          if counts_by_other config.source_criterion
              then matcher
              else walk_extractor checker config.ipv6_subnet,
        ))
      else if has_ip_strategy config
      then (do
        strategy ←
            with_context (codes "unable to create IP strategy: ")
              (ip_strategy_get c (ip_strategy_of config.source_criterion))
        ok (strategy, matcher))
      else err (
          codes
            "a client-IP derivation must be configured explicitly: set trustedProxies, or sourceCriterion.ipStrategy (an empty ipStrategy means RemoteAddr)")

  -- From the check that trustedProxies and ipStrategy exclude each other to the switch.
  unfoldable pub derive : Config → Result Derivation
  derive config =
      if ltb 0 (length config.trusted_proxies) && has_ip_strategy config
      then err exclusive_message
      else (do
        matcher ← get_source_extractor c config.source_criterion
        whitelist ← whitelist_of config.whitelist_ips
        (strategy, matcher') ← strategy_of config matcher
        ok (record {
          source_matcher = matcher';
          whitelist_checker = whitelist;
          ip_strategy = strategy;
        }))

abbrev pub options_of : Config → Options
options_of config = record {
  addr = config.redis_address;
  db = config.redis_db;
  username = config.redis_username;
  password = config.redis_password;
  password_file = config.redis_password_file;
  connection_timeout = duration_seconds config.redis_connection_timeout;
  tls = config.redis_tls;
  ca_cert_file = config.redis_ca_cert_file;
  client_cert_file = config.redis_client_cert_file;
  client_key_file = config.redis_client_key_file;
  server_name = config.redis_server_name;
}

abbrev pub middleware_of : Config → Derivation → Bytes → ClusterRateLimit
middleware_of config derivation name = record {
  limiter_prefix = redis_prefix_of name;
  average = config.average;
  burst = config.burst;
  period = config.period;
  source_matcher = derivation.source_matcher;
  whitelist_checker = derivation.whitelist_checker;
  ip_strategy = some derivation.ip_strategy;
  failure_mode = config.failure_mode;
  ipv6_subnet = pos_part config.ipv6_subnet;
  retry_after = config.breaker_reattempt;
}

module _ (c : Codec) (getenv : Bytes → Bytes) {Client : Type 0}
    (new_client : Options → Result Client) where
  -- The configuration as New leaves it, and what it derives of the addresses.
  unfoldable pub settle : Config → Result (Config × Derivation)
  settle config = do
    limited ← check_limits config
    credited ← read_credentials getenv limited
    settled ← check_ipv6_subnet credited
    derivation ← derive c settled
    ok (settled, derivation)

  -- New: the middleware, its limiter and the client behind it. NewLimiter reads the clock twice.
  unfoldable pub new : Config → Bytes → ℤ → ℤ → Result (ClusterRateLimit × Limiter × Client)
  new config name now now' = do
    (settled, derivation) ← settle config
    client ← with_context client_context (new_client (options_of settled))
    ok (
      middleware_of settled derivation name,
      new_limiter name settled.breaker_threshold settled.breaker_reattempt now now',
      client,
    )
