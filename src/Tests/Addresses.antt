-- ===== src/Tests/Addresses.antt =====
-- Examples of the theorems on internal/ip.
use traefik_cluster_ratelimi.Common.{
  ◌≡◌, refl, ◌↔◌, ◌≢◌, ltb, ltb→lt, ◌&&◌, &&-eq-true, Bool, true, some, [], ◌∷◌, arith, length,
}
use traefik_cluster_ratelimi.Common.Bytes.{
  Bytes, codes, split, trim_space, trim_prefix, trim_suffix,
}
use traefik_cluster_ratelimi.Common.Result.{ok}
use traefik_cluster_ratelimi.Http.{Request, get, lines, canonical}
use traefik_cluster_ratelimi.Ip.Net.{Address, to4, equal, split_host_port}
use traefik_cluster_ratelimi.Ip.Checker.{add_entries, new_checker, contains_ip, contains, any_equal}
use traefik_cluster_ratelimi.Ip.Checker.Laws.{any_matches, new_checker-contains_ip}
use traefik_cluster_ratelimi.Ip.Strategy.{x_forwarded_for}
use traefik_cluster_ratelimi.Ip.TrustedProxy.{
  xff, resolve, resolve_header, walk, normalise_entry, get_ip, remote_addr_ip, is_ok_true,
}
use traefik_cluster_ratelimi.Ip.TrustedProxy.Walk.{Exit, resolve_iff}
use traefik_cluster_ratelimi.Ip.TrustedProxy.Position.{resolve-prepend, resolve-append_hops}
use traefik_cluster_ratelimi.Ip.TrustedProxy.Floor.{get_ip-ne-nil}
use traefik_cluster_ratelimi.Ip.Subnet.{subnet}
use traefik_cluster_ratelimi.Ip.Subnet.Keys.{Agree, AreBytes, subnet-eq_iff}
use traefik_cluster_ratelimi.Tests.Data.{raw, read_sixteen, proxy, proxies, from_proxy}

abbrev client : Bytes
client = codes "client-address-1"

abbrev direct : Request
direct = from_proxy (codes "client-address-1")

abbrev through_two : Request
through_two = from_proxy (codes "client-address-1,proxy-address-02")

abbrev forged : Request
forged = from_proxy (codes "forged-address-1,client-address-1")

peer_trusted :
    (req : Request)
    → req.remote_addr ≡ direct.remote_addr
    → is_ok_true (contains raw proxies (remote_addr_ip req)) ≡ true
unfolding remote_addr_ip contains contains_ip any_equal equal split_host_port
peer_trusted req e = rw e refl

resolve_iff_example :
    (resolve raw (some proxies) through_two ≡ (client, xff))
    ↔ Exit raw proxies
        (remote_addr_ip through_two)
        (split b',' (get through_two.header x_forwarded_for))
        (client, xff)
unfolding get lines canonical trim_space split
resolve_iff_example =
    resolve_iff raw proxies through_two (client, xff) (peer_trusted through_two refl) refl
      (omega arith)

found : (resolve raw (some proxies) direct).1 ≡ xff
unfolding resolve resolve_header walk normalise_entry remote_addr_ip contains contains_ip any_equal
    equal split_host_port get lines canonical split trim_space trim_prefix trim_suffix
found = refl

resolve-prepend_example : resolve raw (some proxies) forged ≡ resolve raw (some proxies) direct
unfolding get lines canonical trim_space split
resolve-prepend_example =
    resolve-prepend raw proxies direct forged (codes "forged-address-1") refl refl (omega arith)
      found

resolve-append_hops_example :
    resolve raw (some proxies) through_two ≡ resolve raw (some proxies) direct
unfolding get lines canonical normalise_entry contains contains_ip any_equal equal split_host_port
    split trim_space trim_prefix trim_suffix
resolve-append_hops_example =
    resolve-append_hops raw proxies direct through_two (codes "proxy-address-02")
      (peer_trusted through_two refl) refl ((codes "proxy-address-02", refl, refl), tt)
      (omega arith) found

peer-ne-nil : remote_addr_ip direct ≢ []
unfolding remote_addr_ip split_host_port
peer-ne-nil e = cc

get_ip-ne-nil_example : get_ip raw (some proxies) direct ≢ []
get_ip-ne-nil_example = get_ip-ne-nil raw (some proxies) direct refl peer-ne-nil

read_sixteen-eq : (a : Address) → length a ≡ 16 → AreBytes a → read_sixteen a ≡ some a
read_sixteen-eq a h bytes = rw h refl

abbrev are_bytes : Address → Bool
are_bytes [] = true
are_bytes (b ∷ bs) = ltb b 256 && are_bytes bs

AreBytes-of : (a : Address) → are_bytes a ≡ true → AreBytes a
AreBytes-of [] h = tt
AreBytes-of (b ∷ bs) h =
    let (small, rest) = &&-eq-true _ _ h in (ltb→lt _ _ small, AreBytes-of bs rest)

subnet-eq_iff_example :
    (subnet raw client 64 ≡ subnet raw (codes "client-a-again!!") 64)
    ↔ Agree 64 client (codes "client-a-again!!")
unfolding to4
subnet-eq_iff_example =
    subnet-eq_iff raw client (codes "client-a-again!!") client (codes "client-a-again!!") 64
      read_sixteen-eq (omega arith) refl refl refl refl refl refl (AreBytes-of client refl)
      (AreBytes-of (codes "client-a-again!!") refl)

proxies_made : new_checker raw (proxy ∷ codes "proxy-address-02" ∷ []) ≡ ok proxies
unfolding new_checker add_entries
proxies_made = refl

new_checker-contains_ip_example :
    contains_ip proxies proxy ≡ any_matches raw proxy (proxy ∷ codes "proxy-address-02" ∷ [])
new_checker-contains_ip_example =
    new_checker-contains_ip raw proxy (proxy ∷ codes "proxy-address-02" ∷ []) proxies proxies_made
