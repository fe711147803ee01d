-- ===== src/Ip/Checker.antt =====
-- internal/ip/checker.go: a set of addresses and networks, and whether it holds an address.
pub mod Laws
use traefik_cluster_ratelimi.Common.{
  Bool, true, false, ◌||◌, Option, none, some, List, [], ◌∷◌, ◌++◌, if◌then◌else◌,
}
use traefik_cluster_ratelimi.Common.Bytes.{Bytes, codes, is_empty}
use traefik_cluster_ratelimi.Common.Result.{Result, ok, err, panic, ◌>>=◌}
use traefik_cluster_ratelimi.Ip.Net.{Address, Network, Codec, equal, net_contains, split_host_port}

pub record Checker : Type 0 where
  pub authorized_ips : List Address
  pub authorized_ips_net : List Network

module _ (c : Codec) where
  -- parseIP
  pub parse_ip : Bytes → Result Address
  parse_ip addr = elim (c.parse_addr addr) [
    | none ↦ err (codes "can't parse IP from address " ++ addr)
    | some ip ↦ ok ip
  ]

  -- The loop of NewChecker over the entries that are left.
  unfoldable pub add_entries : Checker → List Bytes → Result Checker
  add_entries checker [] = ok checker
  add_entries checker (ip_mask ∷ more) = elim (c.parse_ip ip_mask) [
    | some ip ↦
        add_entries (record checker { authorized_ips = checker.authorized_ips ++ ip ∷ [] }) more
    | none ↦ elim (c.parse_cidr ip_mask) [
      | panic ↦ panic
      | err e ↦ err (codes "parsing CIDR trusted IPs <nil>: " ++ e)
      | ok net ↦
          add_entries
            (record checker { authorized_ips_net = checker.authorized_ips_net ++ net ∷ [] }) more
    ]
  ]

  unfoldable pub new_checker : List Bytes → Result Checker
  unfolding add_entries
  new_checker [] = err (codes "no trusted IPs provided")
  new_checker (entry ∷ more) =
      add_entries (record { authorized_ips = []; authorized_ips_net = [] }) (entry ∷ more)

unfoldable pub any_equal : List Address → Address → Bool
any_equal [] addr = false
any_equal (ip ∷ ips) addr = equal ip addr || any_equal ips addr

unfoldable pub any_contains : List Network → Address → Bool
any_contains [] addr = false
any_contains (net ∷ nets) addr = net_contains net addr || any_contains nets addr

unfoldable pub contains_ip : Checker → Address → Bool
unfolding any_equal any_contains
contains_ip checker addr =
    any_equal checker.authorized_ips addr || any_contains checker.authorized_ips_net addr

module _ (c : Codec) where
  unfoldable pub contains : Checker → Bytes → Result Bool
  unfolding parse_ip
  contains checker addr =
      if is_empty addr then err (codes "empty IP address") else elim (parse_ip c addr) [
        | panic ↦ panic
        | err e ↦ err (codes "unable to parse address: " ++ addr ++ codes ": " ++ e)
        | ok ip ↦ ok (contains_ip checker ip)
      ]

  pub host_of : Bytes → Bytes
  host_of addr = elim (split_host_port addr) [ some (host, port) ↦ host | none ↦ addr ]

  -- IsAuthorized; the address stands unquoted in the message.
  pub is_authorized : Checker → Bytes → Result (Unit {0})
  unfolding host_of
  is_authorized checker addr = do
    found ← contains checker (host_of addr)
    if found then ok tt else err (addr ++ codes " matched none of the trusted IPs")
