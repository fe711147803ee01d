-- ===== src/Plugin/New/StrategyKey.antt =====
-- What the middleware that New returns counts a request under where an ipStrategy is configured: the
-- extractor that it was given and the strategy that New makes are of one kind.
use traefik_cluster_ratelimi.Common.{◌≡◌, some}
use traefik_cluster_ratelimi.Common.Bytes.{Bytes}
use traefik_cluster_ratelimi.Common.Result.{Result, ok}
use traefik_cluster_ratelimi.Ip.Net.{Codec}
use traefik_cluster_ratelimi.Ip.Interface.{Strategy}
use traefik_cluster_ratelimi.Utils.{Extractor, IpStrategy, ip_strategy_get, strategy_extractor}
use traefik_cluster_ratelimi.Redis.Options.{Options}
use traefik_cluster_ratelimi.Limiter.{Limiter}
use traefik_cluster_ratelimi.Plugin.Config.{Config}

module _ (c : Codec) (s : IpStrategy) where
  -- The extractor is made of the strategy.
  abbrev IsExtractor : Extractor → Type 0
  IsExtractor matcher =
      (strategy : Strategy) × (ip_strategy_get c (some s) ≡ ok strategy)
      × (matcher ≡ strategy_extractor c strategy)
