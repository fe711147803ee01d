-- ===== src/Tests/Configs.antt =====
-- Examples of the theorems on New.
use traefik_cluster_ratelimi.Common.{◌≡◌, refl, ◌≢◌, false, none, some, [], ◌∷◌}
use traefik_cluster_ratelimi.Common.Int.{pos, ◌*ℤ◌, wrap64}
use traefik_cluster_ratelimi.Common.Bytes.{Bytes, codes}
use traefik_cluster_ratelimi.Common.Result.{Result, ok}
use traefik_cluster_ratelimi.Http.{Request}
use traefik_cluster_ratelimi.Ip.Checker.{Checker, new_checker, add_entries}
use traefik_cluster_ratelimi.Ip.Interface.{trusted_proxy, depth}
use traefik_cluster_ratelimi.Ip.Subnet.{subnet}
use traefik_cluster_ratelimi.Ip.TrustedProxy.{get_ip}
use traefik_cluster_ratelimi.Utils.{
  IpStrategy, get_source_extractor, ip_strategy_get, strategy_extractor,
}
use traefik_cluster_ratelimi.Redis.Options.{Options}
use traefik_cluster_ratelimi.Limiter.{Limiter, new_limiter}
use traefik_cluster_ratelimi.Plugin.{ClusterRateLimit, failure_mode_closed}
use traefik_cluster_ratelimi.Plugin.Config.{
  Config, check_limits, check_failure_mode, read_credentials, check_ipv6_subnet, counts_by_other,
}
use traefik_cluster_ratelimi.Plugin.New.{
  new, settle, derive, whitelist_of, strategy_of, walk_extractor,
}
use traefik_cluster_ratelimi.Plugin.New.Valid.{IsValid, new-IsValid}
use traefik_cluster_ratelimi.Plugin.New.BucketKey.{new-buckets}
use traefik_cluster_ratelimi.Plugin.New.Connected.{IsConnected, dialled_client, new-IsConnected}
use traefik_cluster_ratelimi.Redis.Breaker.{duration_seconds}
use traefik_cluster_ratelimi.Redis.Tls.{tls_requested}
use traefik_cluster_ratelimi.Redis.Resp.{read_reply, read_element, read_line, read_string}
use traefik_cluster_ratelimi.Redis.Network.{send_command, write, receive_reply, dial, close}
use traefik_cluster_ratelimi.Redis.Client.{
  Client, max_active, new_conn, auth_secret, prepare, secure, authenticate,
}
use traefik_cluster_ratelimi.Redis.Client.Pool.{new_client, tls_config_of, prepopulate}
use traefik_cluster_ratelimi.Tests.Servers.{server, pool}
use traefik_cluster_ratelimi.Tests.Data.{raw, proxy, proxies}

abbrev config : Config
config = record {
  redis_address = [];
  redis_db = 0;
  redis_password = codes "$SECRET";
  redis_password_file = [];
  average = pos 10;
  burst = pos 20;
  period = pos 0;
  source_criterion = none;
  breaker_threshold = pos 0;
  breaker_reattempt = pos 0;
  redis_connection_timeout = pos 0;
  whitelist_ips = [];
  redis_username = [];
  redis_tls = false;
  redis_ca_cert_file = [];
  redis_client_cert_file = [];
  redis_client_key_file = [];
  redis_server_name = [];
  failure_mode = [];
  trusted_proxies = proxy ∷ codes "proxy-address-02" ∷ [];
  ipv6_subnet = pos 0;
}

-- A client is its password.
abbrev client_of : Options → Result Bytes
client_of options = ok options.password

abbrev environment : Bytes → Bytes
environment name = codes "s3cret"

abbrev middleware : ClusterRateLimit
middleware = record {
  limiter_prefix = codes "rate_shop";
  average = pos 10;
  burst = pos 20;
  period = pos 1;
  source_matcher = walk_extractor raw proxies (pos 64);
  whitelist_checker = none;
  ip_strategy = some (trusted_proxy (some proxies));
  failure_mode = failure_mode_closed;
  ipv6_subnet = 64;
  retry_after = pos 15;
}

abbrev limiter : Limiter
limiter = new_limiter (codes "shop") (pos 3) (pos 15) (pos 0) (pos 1)

made :
    new raw environment client_of config (codes "shop") (pos 0) (pos 1)
    ≡ ok (middleware, limiter, codes "s3cret")
unfolding new settle check_limits check_failure_mode read_credentials check_ipv6_subnet derive
    whitelist_of strategy_of get_source_extractor ip_strategy_get new_checker add_entries
made = refl

new-IsValid_example : IsValid config middleware
new-IsValid_example =
    new-IsValid raw environment client_of config (codes "shop") (pos 0) (pos 1) middleware limiter
      (codes "s3cret") made

some_proxies : config.trusted_proxies ≢ []
some_proxies e = cc

new-buckets_example :
    (checker : Checker) × (new_checker raw config.trusted_proxies ≡ ok checker)
    × (middleware.ip_strategy ≡ some (trusted_proxy (some checker)))
    × (counts_by_other config.source_criterion ≡ false
        → (req : Request)
        → middleware.source_matcher req ≡ ok (subnet raw (get_ip raw (some checker) req) 64, pos 1))
new-buckets_example =
    new-buckets raw environment client_of config (codes "shop") (pos 0) (pos 1) middleware limiter
      (codes "s3cret") made some_proxies

abbrev redis_client : Client
redis_client = record {
  addr = codes "redis:6379";
  pool_size = max_active;
  dial_timeout = pos 4000000000;
  username = [];
  auth = codes "s3cret";
  auth_file = [];
  db = pos 0;
  connection_timeout = pos 2000000000;
  tls_cfg = none;
}

-- A server that gives no answer: the pool stays empty.
dialled :
    new raw environment (dialled_client server (pool [] [])) config (codes "shop") (pos 0) (pos 1)
    ≡ ok (middleware, limiter, redis_client)
unfolding new settle check_limits check_failure_mode read_credentials check_ipv6_subnet derive
    whitelist_of strategy_of get_source_extractor ip_strategy_get new_checker add_entries new_client
    tls_config_of tls_requested prepopulate new_conn auth_secret dial prepare secure authenticate
    send_command write receive_reply close read_reply read_element read_line read_string
    duration_seconds wrap64 ◌*ℤ◌
dialled = refl

new-IsConnected_example : IsConnected environment config middleware limiter redis_client
new-IsConnected_example =
    new-IsConnected server (pool [] []) raw environment config (codes "shop") (pos 0) (pos 1)
      middleware limiter redis_client dialled

-- One address in from the right of X-Forwarded-For, and no trusted proxies.
abbrev by_depth : IpStrategy
by_depth = record { depth = pos 1; excluded_ips = [] }

abbrev config_by_depth : Config
config_by_depth = record config {
  source_criterion =
      some (record { ip_strategy = some by_depth; request_header_name = []; request_host = false });
  trusted_proxies = [];
}

abbrev middleware_by_depth : ClusterRateLimit
middleware_by_depth = record middleware {
  source_matcher = strategy_extractor raw (depth (pos 1));
  ip_strategy = some (depth (pos 1));
}
