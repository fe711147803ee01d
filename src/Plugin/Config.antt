-- ===== src/Plugin/Config.antt =====
-- ratelimit.go, Config, and the checks and defaults at the head of New. The process environment is
-- a parameter. A message that the source formats with quotes stands without them.
use traefik_cluster_ratelimi.Common.{
  ℕ, Bool, false, not, ◌&&◌, ◌||◌, Option, none, some, List, [], ◌∷◌, ◌++◌, if◌then◌else◌, ◌==◌,
  ltb, length, drop,
}
use traefik_cluster_ratelimi.Common.Int.{ℤ, pos, eqb_ℤ, ltb_ℤ}
use traefik_cluster_ratelimi.Common.Bytes.{Bytes, codes, is_empty, bytes_eq}
use traefik_cluster_ratelimi.Common.Decimal.{format_int}
use traefik_cluster_ratelimi.Common.Result.{Result, ok, err, ◌>>=◌}
use traefik_cluster_ratelimi.Ip.Subnet.{min_ipv6_subnet, max_ipv6_subnet, default_ipv6_subnet}
use traefik_cluster_ratelimi.Utils.{IpStrategy, SourceCriterion, is_some}
use traefik_cluster_ratelimi.Plugin.{failure_mode_open, failure_mode_closed}

pub record Config : Type 0 where
  pub redis_address : Bytes
  pub redis_db : ℕ
  pub redis_password : Bytes
  pub redis_password_file : Bytes
  pub average : ℤ
  pub burst : ℤ
  pub period : ℤ
  pub source_criterion : Option SourceCriterion
  pub breaker_threshold : ℤ
  pub breaker_reattempt : ℤ
  pub redis_connection_timeout : ℤ
  pub whitelist_ips : List Bytes
  pub redis_username : Bytes
  pub redis_tls : Bool
  pub redis_ca_cert_file : Bytes
  pub redis_client_cert_file : Bytes
  pub redis_client_key_file : Bytes
  pub redis_server_name : Bytes
  pub failure_mode : Bytes
  pub trusted_proxies : List Bytes
  pub ipv6_subnet : ℤ

-- CreateConfig: the zero value.
abbrev pub create_config : Config
create_config = record {
  redis_address = [];
  redis_db = 0;
  redis_password = [];
  redis_password_file = [];
  average = pos 0;
  burst = pos 0;
  period = pos 0;
  source_criterion = none;
  breaker_threshold = pos 0;
  breaker_reattempt = pos 0;
  redis_connection_timeout = pos 0;
  whitelist_ips = [];
  redis_username = [];
  redis_tls = false;
  redis_ca_cert_file = [];
  redis_client_cert_file = [];
  redis_client_key_file = [];
  redis_server_name = [];
  failure_mode = [];
  trusted_proxies = [];
  ipv6_subnet = pos 0;
}

-- A field below 1 takes its default.
abbrev pub at_least_one : ℤ → ℤ → ℤ
at_least_one value default = if ltb_ℤ value (pos 1) then default else value

abbrev pub default_text : Bytes → Bytes → Bytes
default_text value default = if is_empty value then default else value

unfoldable pub check_failure_mode : Bytes → Result Bytes
check_failure_mode mode =
    if is_empty mode
    then ok failure_mode_closed
    else if bytes_eq mode failure_mode_open || bytes_eq mode failure_mode_closed
    then ok mode
    else err (codes "failureMode must be open or closed, got " ++ mode)

-- The defaults of these fields, with the failure mode that was checked.
abbrev pub with_defaults : Config → Bytes → Config
with_defaults config mode = record config {
  redis_address = default_text config.redis_address (codes "redis:6379");
  period = at_least_one config.period (pos 1);
  breaker_threshold = at_least_one config.breaker_threshold (pos 3);
  breaker_reattempt = at_least_one config.breaker_reattempt (pos 15);
  redis_connection_timeout = at_least_one config.redis_connection_timeout (pos 2);
  failure_mode = mode;
}

-- From the address to the failure mode.
unfoldable pub check_limits : Config → Result Config
check_limits config =
    if ltb_ℤ config.average (pos 0)
    then err (codes "average must be >=0. 0 means unlimited")
    else if ltb_ℤ config.burst (pos 1)
    then err (codes "burst must be >=1")
    else (do mode ← check_failure_mode config.failure_mode; ok (with_defaults config mode))

abbrev starts_dollar : Bytes → Bool
starts_dollar [] = false
starts_dollar (b ∷ bs) = b == b'$'

-- A value that starts with '$' names an environment variable.
abbrev pub from_environment : (Bytes → Bytes) → Bytes → Bytes
from_environment getenv s = if ltb 1 (length s) && starts_dollar s then getenv (drop 1 s) else s

unfoldable pub read_credentials : (Bytes → Bytes) → Config → Result Config
read_credentials getenv config =
    if not (is_empty config.redis_password) && not (is_empty config.redis_password_file)
    then err (
        codes
          "redisPassword and redisPasswordFile are mutually exclusive: set one or the other, not both")
    else ok (record config {
      redis_password = from_environment getenv config.redis_password;
      redis_username = from_environment getenv config.redis_username;
    })

abbrev pub subnet_in_force : ℤ → ℤ
subnet_in_force n = if eqb_ℤ n (pos 0) then pos default_ipv6_subnet else n

abbrev pub subnet_message : ℤ → Bytes
subnet_message n =
    codes "ipv6Subnet must be between 32 and 64, got "
    ++ format_int n
    ++ codes ": "
    ++ format_int n
    ++ codes " would disable aggregation entirely, which is the bypass it exists to close"

unfoldable pub check_ipv6_subnet : Config → Result Config
check_ipv6_subnet config =
    let n = subnet_in_force config.ipv6_subnet in
    if ltb_ℤ n (pos min_ipv6_subnet) || ltb_ℤ (pos max_ipv6_subnet) n
    then err (subnet_message n)
    else ok (record config { ipv6_subnet = n })

abbrev pub ip_strategy_of : Option SourceCriterion → Option IpStrategy
ip_strategy_of none = none
ip_strategy_of (some criterion) = criterion.ip_strategy

abbrev pub has_ip_strategy : Config → Bool
has_ip_strategy config = is_some (ip_strategy_of config.source_criterion)

-- Requests are counted under another criterion than an address.
abbrev pub counts_by_other : Option SourceCriterion → Bool
counts_by_other none = false
counts_by_other (some m) = not (is_empty m.request_header_name) || m.request_host
