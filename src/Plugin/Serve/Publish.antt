-- ===== src/Plugin/Serve/Publish.antt =====
-- What publishing the derived address does to the headers.
use traefik_cluster_ratelimi.Common.{
  ℕ, ◌≡◌, refl, ◌∙◌, inl, inr, false, Option, none, some, Bool-cases,
}
use traefik_cluster_ratelimi.Common.Bytes.{Bytes, is_empty, bytes_eq}
use traefik_cluster_ratelimi.Http.{Request, lines, get, canonical}
use traefik_cluster_ratelimi.Ip.Net.{Codec}
use traefik_cluster_ratelimi.Ip.Checker.{Checker}
use traefik_cluster_ratelimi.Ip.Strategy.{x_forwarded_for}
use traefik_cluster_ratelimi.Ip.Interface.{Strategy, remote_addr, depth, pool, trusted_proxy}
use traefik_cluster_ratelimi.Ip.TrustedProxy.{resolve, remote_addr_ip}
use traefik_cluster_ratelimi.Plugin.Serve.{
  header_client_ip, header_client_ip_source, header_client_subnet, set_header, publish_source,
  publish,
}
use traefik_cluster_ratelimi.Http.Laws.{lines-set}

-- The walk reads the peer's address and one header.
pub resolve-agrees :
    (c : Codec) (checker : Option Checker) (r req : Request)
    → r.remote_addr ≡ req.remote_addr
    → lines (canonical x_forwarded_for) r.header ≡ lines (canonical x_forwarded_for) req.header
    → resolve c checker r ≡ resolve c checker req
unfolding resolve remote_addr_ip get
resolve-agrees c none r req peer xff = rw peer
resolve-agrees c (some checker) r req peer xff = rw (peer, xff)

-- What is published leaves the lines of all other headers.
module _ (c : Codec) (n : ℕ) (client_ip : Bytes) (req : Request) where
  publish_source-lines_other :
      (strategy : Strategy) (r : Request) (key : Bytes)
      → bytes_eq (canonical header_client_ip_source) key ≡ false
      → lines key (publish_source c strategy r).header ≡ lines key r.header
  unfolding publish_source set_header
  publish_source-lines_other remote_addr r key h = refl
  publish_source-lines_other (depth d) r key h = refl
  publish_source-lines_other (pool checker) r key h = refl
  publish_source-lines_other (trusted_proxy checker) r key h =
      lines-set r.header header_client_ip_source _ key ∙ rw h refl

  pub publish-lines_other :
      (strategy : Strategy) (key : Bytes)
      → bytes_eq (canonical header_client_ip) key ≡ false
      → bytes_eq (canonical header_client_ip_source) key ≡ false
      → bytes_eq (canonical header_client_subnet) key ≡ false
      → lines key (publish c strategy n client_ip req).header ≡ lines key req.header
  unfolding publish set_header
  publish-lines_other strategy key ip source net = elim (Bool-cases (is_empty client_ip)) [
    | inl unknown ↦ rw unknown refl
    | inr known ↦ rw known (
        publish_source-lines_other strategy _ key source
        ∙ lines-set _ header_client_subnet _ key
        ∙ rw net (lines-set req.header header_client_ip client_ip key ∙ rw ip refl))
  ]

  publish_source-keeps :
      (strategy : Strategy) (r : Request)
      → ((publish_source c strategy r).remote_addr ≡ r.remote_addr)
        × ((publish_source c strategy r).host ≡ r.host)
  unfolding publish_source set_header
  publish_source-keeps remote_addr r = (refl, refl)
  publish_source-keeps (depth d) r = (refl, refl)
  publish_source-keeps (pool checker) r = (refl, refl)
  publish_source-keeps (trusted_proxy checker) r = (refl, refl)

  pub publish-keeps :
      (strategy : Strategy)
      → ((publish c strategy n client_ip req).remote_addr ≡ req.remote_addr)
        × ((publish c strategy n client_ip req).host ≡ req.host)
  unfolding publish set_header
  publish-keeps strategy = elim (Bool-cases (is_empty client_ip)) [
    | inl unknown ↦ rw unknown (refl, refl)
    | inr known ↦ rw known (publish_source-keeps strategy _)
  ]
