-- ===== src/Plugin.antt =====
-- ratelimit.go: the middleware.
pub mod Config
pub mod New
pub mod Serve
pub mod Shared
pub mod Outage
pub mod Answered
use traefik_cluster_ratelimi.Common.{ℕ, Option}
use traefik_cluster_ratelimi.Common.Int.{ℤ}
use traefik_cluster_ratelimi.Common.Bytes.{Bytes, codes}
use traefik_cluster_ratelimi.Ip.Checker.{Checker}
use traefik_cluster_ratelimi.Ip.Interface.{Strategy}
use traefik_cluster_ratelimi.Utils.{Extractor}

abbrev pub failure_mode_open : Bytes
failure_mode_open = codes "open"

abbrev pub failure_mode_closed : Bytes
failure_mode_closed = codes "closed"

-- ClusterRateLimit, without the next handler, which only receives requests; of the limiter it keeps
-- the prefix of its keys.
pub record ClusterRateLimit : Type 0 where
  pub limiter_prefix : Bytes
  pub average : ℤ
  pub burst : ℤ
  pub period : ℤ
  pub source_matcher : Extractor
  pub whitelist_checker : Option Checker
  pub ip_strategy : Option Strategy
  pub failure_mode : Bytes
  pub ipv6_subnet : ℕ
  pub retry_after : ℤ
