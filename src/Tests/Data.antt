-- ===== src/Tests/Data.antt =====
-- Inputs that the examples share. The codec of the examples reads and prints an address as its 16
-- bytes, and knows no networks.
use traefik_cluster_ratelimi.Common.{Option, none, some, [], ◌∷◌, if◌then◌else◌, ◌==◌, length}
use traefik_cluster_ratelimi.Common.Bytes.{Bytes, codes}
use traefik_cluster_ratelimi.Common.Result.{err}
use traefik_cluster_ratelimi.Http.{Request}
use traefik_cluster_ratelimi.Ip.Net.{Address, Codec}
use traefik_cluster_ratelimi.Ip.Checker.{Checker}

abbrev pub read_sixteen : Bytes → Option Address
read_sixteen s = if length s == 16 then some s else none

abbrev pub raw : Codec
raw = record {
  parse_ip = read_sixteen;
  parse_addr = read_sixteen;
  parse_cidr = λ s. err (codes "invalid CIDR address: ");
  to_string = λ a. a;
}

abbrev pub proxy : Bytes
proxy = codes "proxy-address-01"

abbrev pub proxies : Checker
proxies = record { authorized_ips = proxy ∷ codes "proxy-address-02" ∷ []; authorized_ips_net = [] }

abbrev pub from_proxy : Bytes → Request
from_proxy forwarded_for = record {
  remote_addr = codes "proxy-address-01:443";
  host = codes "shop";
  header =
      (codes "X-Forwarded-For", forwarded_for ∷ [])
      ∷ (codes "Forwarded", codes "for=1.2.3.4" ∷ [])
      ∷ [];
}
