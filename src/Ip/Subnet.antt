-- ===== src/Ip/Subnet.antt =====
-- internal/ip/trustedproxy.go, the aggregation of IPv6 addresses to networks.
pub mod Keys
use traefik_cluster_ratelimi.Common.{ℕ, Option, none, some, List, [], ◌∷◌, ◌++◌}
use traefik_cluster_ratelimi.Common.Bytes.{Bytes, codes}
use traefik_cluster_ratelimi.Common.Decimal.{itoa}
use traefik_cluster_ratelimi.Ip.Net.{Address, Codec, to4, mask, cidr_mask}

abbrev pub min_ipv6_subnet : ℕ
min_ipv6_subnet = 32

abbrev pub max_ipv6_subnet : ℕ
max_ipv6_subnet = 64

abbrev pub default_ipv6_subnet : ℕ
default_ipv6_subnet = 64

-- IP.String of what IP.Mask gives, for a nil address too.
unfoldable pub network_text : Codec → Option Address → Bytes
network_text c none = codes "<nil>"
network_text c (some ip) = c.to_string ip

unfoldable pub subnet : Codec → Bytes → ℕ → Bytes
unfolding network_text
subnet c addr ipv6_prefix = elim (c.parse_ip addr) [
  | none ↦ addr
  | some parsed ↦ elim (to4 parsed) [
    | some v4 ↦ addr
    | none ↦ network_text c (mask parsed (cidr_mask ipv6_prefix))
  ]
]

unfoldable pub subnet_cidr : Codec → Bytes → ℕ → Bytes
unfolding network_text
subnet_cidr c addr ipv6_prefix = elim (c.parse_ip addr) [
  | none ↦ addr
  | some parsed ↦ elim (to4 parsed) [
    | some v4 ↦ addr ++ codes "/32"
    | none ↦ network_text c (mask parsed (cidr_mask ipv6_prefix)) ++ codes "/" ++ itoa ipv6_prefix
  ]
]
