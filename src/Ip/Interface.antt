-- ===== src/Ip/Interface.antt =====
-- The interfaces Strategy and Resolver of internal/ip: one constructor for each type that implements
-- Strategy. A nil checker is `none`.
use traefik_cluster_ratelimi.Common.{Option}
use traefik_cluster_ratelimi.Common.Int.{ℤ}
use traefik_cluster_ratelimi.Common.Bytes.{Bytes}
use traefik_cluster_ratelimi.Common.Result.{Result, ok}
use traefik_cluster_ratelimi.Http.{Request}
use traefik_cluster_ratelimi.Ip.Net.{Codec}
use traefik_cluster_ratelimi.Ip.Checker.{Checker}
use traefik_cluster_ratelimi.Ip.Strategy.{remote_addr_get_ip, depth_get_ip, pool_get_ip}
use traefik_cluster_ratelimi.Ip.TrustedProxy.{get_ip}

pub data Strategy : Type 0 where
  remote_addr : Strategy
  depth : ℤ → Strategy
  pool trusted_proxy : Option Checker → Strategy

unfoldable pub strategy_get_ip : Codec → Strategy → Request → Result Bytes
strategy_get_ip c remote_addr req = ok (remote_addr_get_ip req)
strategy_get_ip c (depth d) req = depth_get_ip d req
strategy_get_ip c (pool checker) req = ok (pool_get_ip c checker req)
strategy_get_ip c (trusted_proxy checker) req = ok (get_ip c checker req)
