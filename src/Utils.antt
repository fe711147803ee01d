-- ===== src/Utils.antt =====
-- internal/utils: what a request is counted under. An extractor is a function of the request, and
-- gives the key and an amount.
use traefik_cluster_ratelimi.Common.{
  Bool, true, false, not, ◌&&◌, Option, none, some, List, [], ◌∷◌, ◌++◌, if◌then◌else◌, ltb, length,
  drop,
}
use traefik_cluster_ratelimi.Common.Int.{ℤ, pos, ltb_ℤ}
use traefik_cluster_ratelimi.Common.Bytes.{Bytes, codes, is_empty, bytes_eq, has_prefix, split}
use traefik_cluster_ratelimi.Common.Result.{Result, ok, err, ◌>>=◌}
use traefik_cluster_ratelimi.Http.{Request, get}
use traefik_cluster_ratelimi.Ip.Net.{Codec}
use traefik_cluster_ratelimi.Ip.Checker.{new_checker}
use traefik_cluster_ratelimi.Ip.Interface.{Strategy, remote_addr, depth, pool, strategy_get_ip}

abbrev pub Extractor : Type 0
Extractor = Request → Result (Bytes × ℤ)

abbrev head_of : List Bytes → Bytes
head_of [] = []
head_of (part ∷ parts) = part

-- What stands in front of the first colon, as `strings.SplitN` with two parts gives it.
pub extract_client_ip : Extractor
extract_client_ip req =
    let host = head_of (split b':' req.remote_addr) in
    if is_empty host
    then err (codes "failed to parse client IP: " ++ req.remote_addr)
    else ok (host, pos 1)

unfoldable pub extract_host : Extractor
extract_host req = ok (req.host, pos 1)

unfoldable pub make_header_extractor : Bytes → Extractor
make_header_extractor header req = ok (get req.header header, pos 1)

unfoldable pub new_extractor : Bytes → Result Extractor
new_extractor variable =
    if bytes_eq variable (codes "client.ip")
    then ok extract_client_ip
    else if bytes_eq variable (codes "request.host")
    then ok extract_host
    else if has_prefix variable (codes "request.header.")
    then (let header = drop 15 variable in
        if is_empty header
        then err (codes "wrong header: " ++ header)
        else ok (make_header_extractor header))
    else err (codes "unsupported limiting variable: '" ++ variable ++ codes "'")

pub record IpStrategy : Type 0 where
  pub depth : ℤ
  pub excluded_ips : List Bytes

-- A nil pointer is `none`.
pub record SourceCriterion : Type 0 where
  pub ip_strategy : Option IpStrategy
  pub request_header_name : Bytes
  pub request_host : Bool

abbrev pub is_some {ℓ} : {A : Type ℓ} → Option A → Bool
is_some none = false
is_some (some a) = true

module _ (c : Codec) where
  -- IPStrategy.Get
  unfoldable pub ip_strategy_get : Option IpStrategy → Result Strategy
  ip_strategy_get none = ok remote_addr
  ip_strategy_get (some s) =
      if ltb_ℤ (pos 0) s.depth
      then ok (depth s.depth)
      else if ltb 0 (length s.excluded_ips)
      then (do checker ← new_checker c s.excluded_ips; ok (pool (some checker)))
      else ok remote_addr

  -- The closure that GetSourceExtractor makes of a strategy.
  unfoldable pub strategy_extractor : Strategy → Extractor
  strategy_extractor strategy req = do ip ← strategy_get_ip c strategy req; ok (ip, pos 1)

  -- At most one of the three criteria is set.
  unfoldable pub check_exclusive : SourceCriterion → Result (Unit {0})
  check_exclusive m =
      if is_some m.ip_strategy && not (is_empty m.request_header_name)
      then err (codes "iPStrategy and RequestHeaderName are mutually exclusive")
      else if is_some m.ip_strategy && m.request_host
      then err (codes "iPStrategy and RequestHost are mutually exclusive")
      else if not (is_empty m.request_header_name) && m.request_host
      then err (codes "requestHost and RequestHeaderName are mutually exclusive")
      else ok tt

  abbrev default_criterion : SourceCriterion
  default_criterion = record {
    ip_strategy = some (record { depth = pos 0; excluded_ips = [] });
    request_header_name = [];
    request_host = false;
  }

  -- The criterion that is in force.
  abbrev effective : SourceCriterion → SourceCriterion
  effective m =
      if not (is_some m.ip_strategy) && is_empty m.request_header_name && not m.request_host
      then default_criterion
      else m

  abbrev from_criterion : SourceCriterion → Result Extractor
  from_criterion m =
      if is_some m.ip_strategy
      then (do strategy ← ip_strategy_get m.ip_strategy; ok (strategy_extractor strategy))
      else if not (is_empty m.request_header_name)
      then new_extractor (codes "request.header." ++ m.request_header_name)
      else if m.request_host
      then new_extractor (codes "request.host")
      else err (codes "no SourceCriterion criterion defined")

  unfoldable pub get_source_extractor : Option SourceCriterion → Result Extractor
  get_source_extractor none = from_criterion default_criterion
  get_source_extractor (some m) = check_exclusive m >>= λ _. from_criterion (effective m)
